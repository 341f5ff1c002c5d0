-- ===== src/Store/Browse/Restore/Accepts.antt =====
-- That `recycle_restore` accepts the paths that `move_to_recycle` answers.
use Prim.Native.Char.{code}
use Prim.Native.String.{◌++◌ as ◌<>◌}
use text.Mathlib.TextLemmas.{cons-append, append_assoc as text_append_assoc}
use nexuspouch.Base.{
  String, ℕ, List, [], ◌∷◌, All, true, false, split_char, is_empty, starts_with, starts_with_char,
  all_chars, contains_char, Any, Lacks, Lacks-append, Lacks-of_contains_char, Bool-cases, ◌==◌,
  eq_iff, ◌≡◌, ◌≢◌, inl, inr, refl, sym, ap, ◌∙◌, arith, false≢true,
}
use nexuspouch.Base.Decimal.{show_ℕ}
use nexuspouch.Result.{ok}
use nexuspouch.Protocol.{normalize_path, is_valid_device_id, is_lower_hex, is_valid_space}
use nexuspouch.Protocol.Path.{IsSafe, normalize_path-IsSafe, normalize_path-no_backslash}
use nexuspouch.Files.{Node, exists}
use nexuspouch.Store.Externals.{Externals}
use nexuspouch.Store.Paths.{Place, recycle_rel, choose_recycle, joined_path, is_name}
use nexuspouch.Store.Browse.Recycle.{is_time, is_digit}
use nexuspouch.Store.Browse.Restore.Origins.{
  cons-ne_nil, map_last, split_char-some, split_char-append_last, recycle_rel-append,
  time-Lacks_slash,
}
use nexuspouch.Store.Paths.Moved.{split_char-recycle_rel}
use nexuspouch.Store.Browse.Restore.{last_of}

hex_ne : (n c : ℕ) → is_lower_hex n ≡ false → is_lower_hex c ≡ true → c ≢ n
hex_ne n c h k e = false≢true (sym h ∙ ap is_lower_hex (sym e) ∙ k)

-- No hexadecimal digit is a slash or a backslash.
hex-Lacks :
    (n : ℕ) (s : String) → is_lower_hex n ≡ false → all_chars is_lower_hex s ≡ true → Lacks n s
hex-Lacks n String.[] f h = tt
hex-Lacks n (String.◌∷◌ c s) f h =
    (hex_ne n (code c) f (ground arith), hex-Lacks n s f (ground arith))

pub device-Lacks :
    (n : ℕ) (device : String)
    → is_lower_hex n ≡ false
    → is_valid_device_id device ≡ true
    → Lacks n device
unfolding is_valid_device_id
device-Lacks n device f h = hex-Lacks n device f (ground arith)

one_of_spaces :
    (s : String)
    → is_valid_space s ≡ true
    → Any (λ t. s ≡ t) ("artifacts" ∷ "files" ∷ "attachments" ∷ "backups" ∷ [])
unfolding is_valid_space
one_of_spaces s h =
    ground
      (arith, eq_iff s "artifacts", eq_iff s "files", eq_iff s "attachments", eq_iff s "backups")

pub starts_with-append : (p s : String) → starts_with p (p <> s) ≡ true
unfolding starts_with
starts_with-append String.[] s = refl
starts_with-append (String.◌∷◌ c p) s =
    rw (cons-append c p s) (ground (arith, starts_with-append p s))

lit-Lacks : (n : ℕ) (t s : String) → contains_char n t ≡ false → s ≡ t → Lacks n s
lit-Lacks n t s h e = rw e (Lacks-of_contains_char n t h)

pub space-Lacks :
    (n : ℕ) (space : String)
    → All (λ t. contains_char n t ≡ false) ("artifacts" ∷ "files" ∷ "attachments" ∷ "backups" ∷ [])
    → is_valid_space space ≡ true
    → Lacks n space
space-Lacks n space (a, (b, (c, (d, _)))) h = elim (one_of_spaces space h) [
  | inl e ↦ lit-Lacks n "artifacts" space a e
  | inr (inl e) ↦ lit-Lacks n "files" space b e
  | inr (inr (inl e)) ↦ lit-Lacks n "attachments" space c e
  | inr (inr (inr (inl e))) ↦ lit-Lacks n "backups" space d e
  | inr (inr (inr (inr e))) ↦ absurd e
]

time-Lacks_backslash : (t : String) → is_time t ≡ true → Lacks b'\\' t
time-Lacks_backslash t h = digits_only t (ground arith)
  where
    digits_only : (s : String) → all_chars is_digit s ≡ true → Lacks b'\\' s
    digits_only String.[] e = tt
    digits_only (String.◌∷◌ c s) e = ground (arith, digits_only s)

literal : (s : String) → contains_char b'\\' s ≡ false → Lacks b'\\' s
literal s h = Lacks-of_contains_char b'\\' s h

module _ (ext : Externals) (date device space raw rel : String) (date_ok : Lacks b'\\' date)
    (device_ok : is_valid_device_id device ≡ true) (space_ok : is_valid_space space ≡ true)
    (normal : normalize_path raw ≡ ok rel) where
  recycle_rel-Lacks : Lacks b'\\' (recycle_rel ext date device space rel)
  recycle_rel-Lacks =
      let bar = literal "/" refl in
      Lacks-append b'\\' ".recycle/" _ (literal ".recycle/" refl) (
        Lacks-append b'\\' date _ date_ok (
          Lacks-append b'\\' "/" _ bar (
            Lacks-append b'\\' device _ (device-Lacks b'\\' device refl device_ok) (
              Lacks-append b'\\' "/" _ bar (
                Lacks-append b'\\' space _
                  (space-Lacks b'\\' space (refl, (refl, (refl, (refl, tt)))) space_ok)
                  (Lacks-append b'\\' "/" _ bar (normalize_path-no_backslash raw rel normal)))))))

  pub choose_recycle-Lacks :
      (place : Place) (now : ℕ) (fs : Node)
      → is_time (show_ℕ now) ≡ true
      → Lacks b'\\' (choose_recycle ext place (recycle_rel ext date device space rel) now fs)
  choose_recycle-Lacks place now fs timed =
      let rel0 = recycle_rel ext date device space rel in
      elim (Bool-cases (exists (joined_path place.root rel0) fs)) [
        | inr e ↦ rw e recycle_rel-Lacks
        | inl e ↦ rw e (
            Lacks-append b'\\' rel0 _ recycle_rel-Lacks (
              Lacks-append b'\\' "~" _ (literal "~" refl)
                (time-Lacks_backslash (show_ℕ now) timed)))
      ]

  pub choose_recycle-in_bin :
      (place : Place) (now : ℕ) (fs : Node)
      → starts_with ".recycle/"
          (choose_recycle ext place (recycle_rel ext date device space rel) now fs)
        ≡ true
  choose_recycle-in_bin place now fs =
      let tail = date <> ("/" <> (device <> ("/" <> (space <> ("/" <> rel))))) in
      elim (Bool-cases
        (exists (joined_path place.root (recycle_rel ext date device space rel)) fs)) [
          | inr e ↦ rw e (starts_with-append ".recycle/" tail)
          | inl e ↦
              rw (e, text_append_assoc ".recycle/" tail ("~" <> show_ℕ now))
                (starts_with-append ".recycle/" (tail <> ("~" <> show_ℕ now)))
        ]

is_name_of : (s : String) → is_empty s ≡ false → starts_with_char b'.' s ≡ false → is_name s ≡ true
is_name_of s h k = ground (arith, dot_starts)
  where
    dot_starts : (s == ".") ≡ true → starts_with_char b'.' s ≡ true
    dot_starts e = ap (starts_with_char b'.') ((eq_iff s ".").0 e)

safe_first : (s t : String) → IsSafe s → is_name (s <> t) ≡ true
safe_first String.[] t h = absurd (false≢true (sym h.not_empty))
safe_first (String.◌∷◌ c s) t h =
    rw (cons-append c s t) (is_name_of (String.◌∷◌ c (s <> t)) refl h.no_dot)

last_IsSafe : (xs : List String) → All IsSafe xs → xs ≢ [] → is_name (last_of xs) ≡ true
last_IsSafe [] h n = absurd (n refl)
last_IsSafe (x ∷ []) h n = is_name_of x (h.0).not_empty (h.0).no_dot
last_IsSafe (x ∷ (y ∷ xs)) h n = last_IsSafe (y ∷ xs) h.1 (λ e. absurd (cons-ne_nil y xs e))

last_of-map_last :
    (t : String) (xs : List String)
    → All IsSafe xs
    → xs ≢ []
    → is_name (last_of (map_last t xs)) ≡ true
last_of-map_last t [] h n = absurd (n refl)
last_of-map_last t (x ∷ []) h n = safe_first x t h.0
last_of-map_last t (x ∷ (y ∷ [])) h n =
    last_of-map_last t (y ∷ []) h.1 (λ e. absurd (cons-ne_nil y [] e))
last_of-map_last t (x ∷ (y ∷ (z ∷ xs))) h n =
    last_of-map_last t (y ∷ (z ∷ xs)) h.1 (λ e. absurd (cons-ne_nil y (z ∷ xs) e))

last_of-parts :
    (a b c d : String) (xs : List String) → xs ≢ [] → last_of (a ∷ b ∷ c ∷ d ∷ xs) ≡ last_of xs
last_of-parts a b c d [] n = absurd (n refl)
last_of-parts a b c d (x ∷ xs) n = refl

module _ (ext : Externals) (date device space raw rel : String) (date_ok : Lacks b'/' date)
    (device_ok : is_valid_device_id device ≡ true) (space_ok : is_valid_space space ≡ true)
    (normal : normalize_path raw ≡ ok rel) where
  pub device-no_slash : Lacks b'/' device
  device-no_slash = device-Lacks b'/' device refl device_ok

  pub space-no_slash : Lacks b'/' space
  space-no_slash = space-Lacks b'/' space (refl, (refl, (refl, (refl, tt)))) space_ok

  last_of-recycle_rel :
      (rel' : String)
      → is_name (last_of (split_char b'/' rel')) ≡ true
      → is_name (last_of (split_char b'/' (recycle_rel ext date device space rel'))) ≡ true
  last_of-recycle_rel rel' h =
      rw
        (
          split_char-recycle_rel ext date device space rel' date_ok device-no_slash space-no_slash,
          last_of-parts ".recycle" date device space (split_char b'/' rel') (split_char-some rel'),
        )
        h

  -- The last name of a path of the bin is one that a file can have.
  pub last_of-choose_recycle :
      (place : Place) (now : ℕ) (fs : Node)
      → is_time (show_ℕ now) ≡ true
      → is_name (
          last_of (
            split_char b'/'
              (choose_recycle ext place (recycle_rel ext date device space rel) now fs)))
        ≡ true
  last_of-choose_recycle place now fs timed =
      let safe = normalize_path-IsSafe raw rel normal in
      let some_part = split_char-some rel in
      let rel0 = recycle_rel ext date device space rel in
      let t = "~" <> show_ℕ now in
      elim (Bool-cases (exists (joined_path place.root rel0) fs)) [
        | inr e ↦ rw e (last_of-recycle_rel rel (last_IsSafe (split_char b'/' rel) safe some_part))
        | inl e ↦
            rw (e, recycle_rel-append ext date device space rel t)
              (last_of-recycle_rel (rel <> t) (
                rw (split_char-append_last b'/' rel t (time-Lacks_slash (show_ℕ now) timed))
                  (last_of-map_last t (split_char b'/' rel) safe some_part)))
      ]
