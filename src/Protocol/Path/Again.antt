-- ===== src/Protocol/Path/Again.antt =====
-- Normalising a path a second time.
use Prim.Native.String.{◌++◌ as ◌<>◌}
use text.Mathlib.TextLemmas.{cons-append}
use nexuspouch.Base.{
  String, List, [], ◌∷◌, true, false, ◌≡◌, ◌≢◌, ◌⊎◌, inl, inr, refl, ap, ◌∙◌, arith, eq_iff, ◌==◌,
  is_empty, All, starts_with_char, Lacks, AllLack, split_char, join, replace_char, split_char-part,
  replace_char_of_Lacks, contains_char_of_Lacks, join-Lacks,
}
use nexuspouch.Result.{ok, err}
use nexuspouch.Protocol.{normalize_path, segments, slash, is_drive_or_unc}
use nexuspouch.Protocol.Path.{
  Accepts, IsName, is_dropped, kept, normalize_path_sound, normalize_path_complete, kept-no_slash,
  kept-no_backslash, kept-no_nul, split-join_kept,
}

kept_of_names : (r : List String) → All IsName r → kept r ≡ r
kept_of_names [] h = refl
kept_of_names (s ∷ r) h = ground (arith, kept_of_names r h.1, starts_dot s)
  where
    starts_dot : (s : String) → (s == ".") ≡ true → starts_with_char b'.' s ≡ true
    starts_dot s e = ap (starts_with_char b'.') ((eq_iff s ".").0 e)

acceptable_of_names :
    (r : List String) → All IsName r → All (λ s. (is_dropped s ≡ true) ⊎ IsName s) r
acceptable_of_names [] h = tt
acceptable_of_names (s ∷ r) h = (inr h.0, acceptable_of_names r h.1)

is_empty-append : (s t : String) → is_empty s ≡ false → is_empty (s <> t) ≡ false
is_empty-append String.[] t h = cc
is_empty-append (String.◌∷◌ c s) t h = rw cons-append refl

is_empty-join : (r : List String) → r ≢ [] → All IsName r → is_empty (join slash r) ≡ false
unfolding join
is_empty-join [] h n = absurd (h refl)
is_empty-join (s ∷ []) h n = n.0.0
is_empty-join (s ∷ t ∷ r) h n = is_empty-append s _ n.0.0

starts-append :
    (s t : String) → is_empty s ≡ false → Lacks b'/' s → starts_with_char b'/' (s <> t) ≡ false
starts-append String.[] t h l = cc
starts-append (String.◌∷◌ c s) t h l = rw cons-append (ground arith)

starts-join :
    (r : List String)
    → r ≢ []
    → All IsName r
    → AllLack b'/' r
    → starts_with_char b'/' (join slash r) ≡ false
unfolding join
starts-join [] h n l = absurd (h refl)
starts-join (String.[] ∷ []) h n l = refl
starts-join (String.◌∷◌ c s ∷ []) h n l = ground arith
starts-join (s ∷ t ∷ r) h n l = starts-append s _ n.0.0 l.0

segments-join :
    (r : List String) → r ≢ [] → AllLack b'/' r → AllLack b'\\' r → segments (join slash r) ≡ r
segments-join r h l b =
    ap (split_char b'/')
      (replace_char_of_Lacks b'\\' slash (join slash r) (join-Lacks slash b'\\' r (omega arith) b))
    ∙ split-join_kept r h l

Accepts-join :
    (r : List String)
    → r ≢ []
    → All IsName r
    → AllLack b'/' r
    → AllLack b'\\' r
    → AllLack 0 r
    → starts_with_char b'~' (join slash r) ≡ false
    → is_drive_or_unc (join slash r) ≡ false
    → Accepts (join slash r)
Accepts-join r h n l b z home drive =
    let same = segments-join r h l b in
    record {
      not_empty = is_empty-join r h n;
      no_nul = contains_char_of_Lacks 0 _ (join-Lacks slash 0 r (omega arith) z);
      not_absolute = starts-join r h n l;
      not_home = home;
      not_drive = drive;
      acceptable = rw same (acceptable_of_names r n);
      some_kept = rw (same, kept_of_names r n) h;
    }

-- A normalised path that is neither a home path nor a drive or UNC path is its own normal form.
pub normalize_path-normalize_path :
    (raw p : String)
    → normalize_path raw ≡ ok p
    → starts_with_char b'~' p ≡ false
    → is_drive_or_unc p ≡ false
    → normalize_path p ≡ ok p
normalize_path-normalize_path raw p h home drive =
    let (a, e, names) = normalize_path_sound raw p h in
    let r = kept (segments raw) in
    let same = segments-join r a.some_kept (kept-no_slash raw) (kept-no_backslash raw) in
    let again : Accepts (join slash r) =
      Accepts-join r a.some_kept names (kept-no_slash raw) (kept-no_backslash raw)
        (kept-no_nul raw a.no_nul) (rw e at home) (rw e at drive) in
    rw e (
      normalize_path_complete (join slash r) again
      ∙ ap ok (ap (join slash) (ap kept same ∙ kept_of_names r names)))

-- "~" and "./~" in front of a text
abbrev pub home : String → String
home s = String.◌∷◌ "~" s

abbrev pub dot_home : String → String
dot_home s = String.◌∷◌ "." (String.◌∷◌ "/" (home s))

segments-dot_home :
    (s : String) → Lacks b'/' s → Lacks b'\\' s → segments (dot_home s) ≡ "." ∷ home s ∷ []
unfolding split_char replace_char
segments-dot_home s a b =
    ground (arith, replace_char_of_Lacks b'\\' slash s b, split_char-part b'/' s a)

kept-dot_home : (s : String) → kept ("." ∷ home s ∷ []) ≡ home s ∷ []
kept-dot_home s = kept_of_names (home s ∷ []) ((refl, refl), tt)

cons-ne-nil_list : (s : String) → home s ∷ [] ≢ []
cons-ne-nil_list s h = cc

Accepts-dot_home : (s : String) → Lacks b'/' s → Lacks b'\\' s → Lacks 0 s → Accepts (dot_home s)
unfolding is_drive_or_unc
Accepts-dot_home s a b c = record {
  not_empty = refl;
  no_nul = ground (arith, contains_char_of_Lacks 0 s c);
  not_absolute = refl;
  not_home = refl;
  not_drive = refl;
  acceptable = rw (segments-dot_home s a b) (inl refl, (inr (refl, refl), tt));
  some_kept = rw (segments-dot_home s a b, kept-dot_home s) (cons-ne-nil_list s);
}

-- The guard against home paths looks at the first character of the raw path only: "./~" in front of
-- a name without slash, backslash and NUL is accepted as the normalised path "~name", and this
-- path is refused where it is normalised again.
pub normalize_path-home :
    (s : String)
    → Lacks b'/' s
    → Lacks b'\\' s
    → Lacks 0 s
    → (normalize_path (dot_home s) ≡ ok (home s)) × (normalize_path (home s) ≡ err "absolute path")
unfolding normalize_path join
normalize_path-home s a b c = (
  normalize_path_complete (dot_home s) (Accepts-dot_home s a b c)
      ∙ ap ok (ap (join slash) (ap kept (segments-dot_home s a b) ∙ kept-dot_home s)),
  ground (arith, contains_char_of_Lacks 0 s c),
)
