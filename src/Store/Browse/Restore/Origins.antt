-- ===== src/Store/Browse/Restore/Origins.antt =====
-- From the path of a recycled file back to where it came from.
use Prim.Native.Char.{Char}
use Prim.Native.String.{◌++◌ as ◌<>◌}
use text.Mathlib.TextLemmas.{nil-append, cons-append, append_assoc as text_append_assoc}
use nexuspouch.Base.{
  String, ℕ, List, [], ◌∷◌, true, some, split_char, split_char-part, split_char-cons, extend_first,
  is_code, join, Lacks, Lacks-append, Lacks-of_contains_char, all_chars, Bool-cases, ◌≡◌, ◌≢◌, inl,
  inr, refl, sym, ap, ◌∙◌, arith,
}
use nexuspouch.Base.Decimal.{show_ℕ}
use nexuspouch.Result.{ok}
use nexuspouch.Protocol.{slash, normalize_path}
use nexuspouch.Protocol.Path.{join-split_normalize}
use nexuspouch.Files.{Node, exists}
use nexuspouch.Store.Externals.{Externals}
use nexuspouch.Store.Paths.{Place, recycle_rel, choose_recycle, joined_path}
use nexuspouch.Store.Paths.Moved.{split_char-recycle_rel}
use nexuspouch.Store.Browse.Recycle.{strip_last, is_time, is_digit, Origin, origin_of}
use nexuspouch.Store.Browse.Recycle.Suffix.{strip_recycle_suffix-append}

pub cons-ne_nil : (x : String) (r : List String) → ¬ (x ∷ r ≡ [])
cons-ne_nil x r h = cc

abbrev pub map_last : String → List String → List String
map_last t [] = []
map_last t (x ∷ []) = (x <> t) ∷ []
map_last t (x ∷ (y ∷ xs)) = x ∷ map_last t (y ∷ xs)

map_last-extend_first :
    (t : String) (c : Char) (x : String) (xs : List String)
    → map_last t (extend_first c (x ∷ xs)) ≡ extend_first c (map_last t (x ∷ xs))
map_last-extend_first t c x [] = ap (λ s. s ∷ []) (cons-append c x t)
map_last-extend_first t c x (y ∷ xs) = refl

split_char-append_cons :
    (n : ℕ) (c : Char) (s t : String)
    → split_char n (s <> t) ≡ map_last t (split_char n s)
    → split_char n (String.◌∷◌ c (s <> t)) ≡ map_last t (split_char n (String.◌∷◌ c s))
unfolding split_char
split_char-append_cons n c s t h =
    let (x, r, e) = split_char-cons n s in
    elim (Bool-cases (is_code n c)) [
      | inl d ↦ rw (split_char, d, h, e) refl
      | inr d ↦ rw (split_char, d, h, e) (sym (map_last-extend_first t c x r))
    ]

-- A text without the separator is put behind the last part.
pub split_char-append_last :
    (n : ℕ) (s t : String) → Lacks n t → split_char n (s <> t) ≡ map_last t (split_char n s)
split_char-append_last n String.[] t h =
    rw (nil-append t)
      (split_char-part n t h ∙ unfold split_char in ap (λ s. s ∷ []) (sym (nil-append t)))
split_char-append_last n (String.◌∷◌ c s) t h =
    rw (cons-append c s t) (split_char-append_cons n c s t (split_char-append_last n s t h))

strip_last-map_last :
    (t : String) (xs : List String) → is_time t ≡ true → strip_last (map_last ("~" <> t) xs) ≡ xs
strip_last-map_last t [] h = refl
strip_last-map_last t (x ∷ []) h = ap (λ s. s ∷ []) (strip_recycle_suffix-append x t h)
strip_last-map_last t (x ∷ (y ∷ [])) h = ap (λ xs. x ∷ xs) (strip_last-map_last t (y ∷ []) h)
strip_last-map_last t (x ∷ (y ∷ (z ∷ xs))) h =
    ap (λ xs. x ∷ xs) (strip_last-map_last t (y ∷ (z ∷ xs)) h)

abbrev pub origin : String → String → String → String → Origin
origin d v s r = record { date = d; device = v; space = s; rel = r }

pub recycle_rel-append :
    (ext : Externals) (date device space rel t : String)
    → (recycle_rel ext date device space rel <> t) ≡ recycle_rel ext date device space (rel <> t)
recycle_rel-append ext date device space rel t =
    let tail3 = "/" <> rel in
    let tail2 = "/" <> (space <> tail3) in
    let tail1 = "/" <> (device <> tail2) in
    text_append_assoc ".recycle/" (date <> tail1) t
    ∙ ap (λ s. ".recycle/" <> s)
        (text_append_assoc date tail1 t
          ∙ ap (λ s. date <> s)
              (text_append_assoc "/" (device <> tail2) t
                ∙ ap (λ s. "/" <> s)
                    (text_append_assoc device tail2 t
                      ∙ ap (λ s. device <> s)
                          (text_append_assoc "/" (space <> tail3) t
                            ∙ ap (λ s. "/" <> s)
                                (text_append_assoc space tail3 t
                                  ∙ ap (λ s. space <> s) (text_append_assoc "/" rel t))))))

pub split_char-some : (s : String) → split_char b'/' s ≢ []
split_char-some s h = let (x, r, e) = split_char-cons b'/' s in absurd (cons-ne_nil x r (sym e ∙ h))

digits-Lacks_slash : (t : String) → all_chars is_digit t ≡ true → Lacks b'/' t
digits-Lacks_slash String.[] h = tt
digits-Lacks_slash (String.◌∷◌ c t) h = ground (arith, digits-Lacks_slash t)

pub time-Lacks_slash : (t : String) → is_time t ≡ true → Lacks b'/' ("~" <> t)
time-Lacks_slash t h =
    Lacks-append b'/' "~" t (Lacks-of_contains_char b'/' "~" refl)
      (digits-Lacks_slash t (ground arith))

module _ (ext : Externals) (date device space raw rel : String) (date_ok : Lacks b'/' date)
    (device_ok : Lacks b'/' device) (space_ok : Lacks b'/' space)
    (normal : normalize_path raw ≡ ok rel) where
  origin_of_parts :
      (parts : List String)
      → strip_last parts ≡ split_char b'/' rel
      → parts ≢ []
      → origin_of (".recycle" ∷ date ∷ device ∷ space ∷ parts) ≡ some (origin date device space rel)
  unfolding origin_of
  origin_of_parts [] e h = absurd (h refl)
  origin_of_parts (x ∷ parts) e h =
      ap (λ p. some (origin date device space (join slash p))) e
      ∙ ap (λ r. some (origin date device space r)) (join-split_normalize raw rel normal)

  origin_of-recycle_rel :
      (rel' : String)
      → strip_last (split_char b'/' rel') ≡ split_char b'/' rel
      → origin_of (split_char b'/' (recycle_rel ext date device space rel'))
        ≡ some (origin date device space rel)
  origin_of-recycle_rel rel' h =
      ap origin_of (split_char-recycle_rel ext date device space rel' date_ok device_ok space_ok)
      ∙ origin_of_parts (split_char b'/' rel') h (split_char-some rel')

  -- A path of the bin tells the date, the device, the space and the path that it was made of, both
  -- where the path was free and where the time has been put behind it.
  pub origin_of-choose_recycle :
      (place : Place) (now : ℕ) (fs : Node)
      → is_time (show_ℕ now) ≡ true
      → strip_last (split_char b'/' rel) ≡ split_char b'/' rel
      → origin_of (
          split_char b'/' (choose_recycle ext place (recycle_rel ext date device space rel) now fs))
        ≡ some (origin date device space rel)
  origin_of-choose_recycle place now fs timed plain =
      let rel0 = recycle_rel ext date device space rel in
      let t = show_ℕ now in
      elim (Bool-cases (exists (joined_path place.root rel0) fs)) [
        | inr e ↦ rw e (origin_of-recycle_rel rel plain)
        | inl e ↦
            rw (e, recycle_rel-append ext date device space rel ("~" <> t))
              (origin_of-recycle_rel (rel <> ("~" <> t)) (
                ap strip_last
                  (split_char-append_last b'/' rel ("~" <> t) (time-Lacks_slash t timed))
                ∙ strip_last-map_last t (split_char b'/' rel) timed))
      ]
