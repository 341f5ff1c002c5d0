-- ===== src/Protocol/Path.antt =====
-- What `normalize_path` of protocol.rs accepts, and what a normalised path is.
pub mod Again
use mathlib.Core.List.{append-nil, append_assoc}
use Prim.Native.String.{◌++◌ as ◌<>◌}
use text.Mathlib.TextLemmas.{cons-ne-nil}
use nexuspouch.Base.{
  ℕ, String, List, [], ◌∷◌, ◌++◌, Bool, true, false, not, ◌||◌, ◌≡◌, ◌≢◌, ◌⊎◌, ◌↔◌, refl, sym, ap,
  ◌∙◌, arith, eq_iff, ◌==◌, is_empty, All, select, starts_with_char, contains_char, Lacks, AllLack,
  split_char, replace_char, join, split_char-AllLack, split_char-AllLack_of_Lacks, split_char-join,
  replace_char-Lacks, replace_char-Lacks_other, replace_char_of_Lacks, Lacks-of_contains_char,
  contains_char_of_Lacks, join-Lacks,
}
use nexuspouch.Result.{Result, ok, err, ◌>>=◌}
use nexuspouch.Protocol.{keep_segments, join_kept, normalize_path, segments, slash, is_drive_or_unc}

-- An empty segment and "." are dropped.
abbrev pub is_dropped : String → Bool
is_dropped s = is_empty s || s == "."

abbrev pub kept : List String → List String
kept = select (λ s. not (is_dropped s))

abbrev pub IsName : String → Type 0
IsName s = (is_empty s ≡ false) × (starts_with_char b'.' s ≡ false)

abbrev IsAcceptable : String → Type 0
IsAcceptable s = (is_dropped s ≡ true) ⊎ IsName s

keep_segments_sound :
    (out segs r : List String)
    → keep_segments out segs ≡ ok r
    → (r ≡ out ++ kept segs) × All IsAcceptable segs × All IsName (kept segs)
unfolding keep_segments
keep_segments_sound out [] r h = (rw append-nil (ground arith), tt, tt)
keep_segments_sound out (s ∷ segs) r h = ground (
  arith,
  keep_segments_sound out segs r,
  keep_segments_sound (out ++ s ∷ []) segs r,
  append_assoc out (s ∷ []) (kept segs),
)

starts_dot_dot : (s : String) → (s == "..") ≡ true → starts_with_char b'.' s ≡ true
starts_dot_dot s h = ap (starts_with_char b'.') ((eq_iff s "..").0 h)

keep_segments_complete :
    (out segs : List String)
    → All IsAcceptable segs
    → keep_segments out segs ≡ ok (out ++ kept segs)
unfolding keep_segments
keep_segments_complete out [] h = ap ok (sym (append-nil out))
keep_segments_complete out (s ∷ segs) (a, h) = ground (
  arith,
  starts_dot_dot s,
  keep_segments_complete out segs h,
  keep_segments_complete (out ++ s ∷ []) segs h,
  append_assoc out (s ∷ []) (kept segs),
)

-- What the sender of a path has to observe.
pub record Accepts (raw : String) : Type 0 where
  pub not_empty : is_empty raw ≡ false
  pub no_nul : contains_char 0 raw ≡ false
  pub not_absolute : starts_with_char b'/' raw ≡ false
  pub not_home : starts_with_char b'~' raw ≡ false
  pub not_drive : is_drive_or_unc raw ≡ false
  pub acceptable : All (λ s. (is_dropped s ≡ true) ⊎ IsName s) (segments raw)
  pub some_kept : kept (segments raw) ≢ []

join_kept_lem : (r : List String) → r ≢ [] → join_kept r ≡ ok (join slash r)
join_kept_lem [] h = absurd (h refl)
join_kept_lem (q ∷ r) h = refl

bind-join_kept :
    (m : Result String (List String)) (p : String)
    → (m >>= join_kept) ≡ ok p
    → (r : List String) × (m ≡ ok r) × (r ≢ []) × (join slash r ≡ p)
bind-join_kept (err e) p h = cc
bind-join_kept (ok []) p h = cc
bind-join_kept (ok (q ∷ r)) p h = (q ∷ r, refl, cc, cc)

normalize_path_sound :
    (raw p : String)
    → normalize_path raw ≡ ok p
    → Accepts raw × (p ≡ join slash (kept (segments raw))) × All IsName (kept (segments raw))
unfolding normalize_path
normalize_path_sound raw p h =
    let passed : (keep_segments [] (segments raw) >>= join_kept) ≡ ok p = ground arith in
    let (r, kept_r, r_some, joined) = bind-join_kept (keep_segments [] (segments raw)) p passed in
    let (same, acceptable, names) = keep_segments_sound [] (segments raw) r kept_r in
    (
      record {
        not_empty = ground arith;
        no_nul = ground arith;
        not_absolute = ground arith;
        not_home = ground arith;
        not_drive = ground arith;
        acceptable = acceptable;
        some_kept = rw (← same) r_some;
      },
      cc,
      names,
    )

normalize_path_complete :
    (raw : String) → Accepts raw → normalize_path raw ≡ ok (join slash (kept (segments raw)))
unfolding normalize_path
normalize_path_complete raw a = ground (
  arith,
  keep_segments_complete [] (segments raw) a.acceptable,
  join_kept_lem (kept (segments raw)) a.some_kept,
)

-- `normalize_path` accepts a path exactly when it is neither empty nor absolute nor a home, drive
-- or UNC path, holds no NUL, each of its segments is empty, "." or a name without a leading dot,
-- and some name remains; the result is the names joined by "/".
pub normalize_path_iff :
    (raw p : String)
    → (normalize_path raw ≡ ok p) ↔ (Accepts raw × (p ≡ join slash (kept (segments raw))))
normalize_path_iff raw p = (
  λ h. let (a, e, _) = normalize_path_sound raw p h in (a, e),
  λ (a, e). normalize_path_complete raw a ∙ ap ok (sym e),
)

-- A segment that stays inside the directory that it is joined to.
pub record IsSafe (s : String) : Type 0 where
  pub not_empty : is_empty s ≡ false
  pub no_dot : starts_with_char b'.' s ≡ false
  pub no_slash : Lacks b'/' s
  pub no_backslash : Lacks b'\\' s
  pub no_nul : Lacks 0 s

kept-AllLack : (n : ℕ) (segs : List String) → AllLack n segs → AllLack n (kept segs)
kept-AllLack n [] h = tt
kept-AllLack n (s ∷ segs) h = ground (arith, kept-AllLack n segs)

All-IsSafe :
    (segs : List String)
    → All IsName segs
    → AllLack b'/' segs
    → AllLack b'\\' segs
    → AllLack 0 segs
    → All IsSafe segs
All-IsSafe [] n a b c = tt
All-IsSafe (s ∷ segs) n a b c = (
  record { not_empty = n.0.0; no_dot = n.0.1; no_slash = a.0; no_backslash = b.0; no_nul = c.0 },
  All-IsSafe segs n.1 a.1 b.1 c.1,
)

module _ (raw : String) where
  kept-no_slash : AllLack b'/' (kept (segments raw))
  kept-no_slash = kept-AllLack b'/' (segments raw) (split_char-AllLack b'/' _)

  kept-no_backslash : AllLack b'\\' (kept (segments raw))
  kept-no_backslash =
      kept-AllLack b'\\' (segments raw) (
        split_char-AllLack_of_Lacks b'/' b'\\' _ (replace_char-Lacks b'\\' slash raw (omega arith)))

  kept-no_nul : contains_char 0 raw ≡ false → AllLack 0 (kept (segments raw))
  kept-no_nul h = kept-AllLack 0 (segments raw) (
      split_char-AllLack_of_Lacks b'/' 0 _
        (replace_char-Lacks_other b'\\' 0 slash raw (omega arith) (Lacks-of_contains_char 0 raw h)))

split-join_kept : (r : List String) → r ≢ [] → AllLack b'/' r → split_char b'/' (join slash r) ≡ r
split-join_kept [] h _ = absurd (h refl)
split-join_kept (q ∷ r) h (hq, hs) = split_char-join slash q r hq hs

-- Every segment of a normalised path is non-empty, has no leading dot (so it is neither "." nor
-- ".." nor a name like ".staging"), and holds no slash, no backslash and no NUL.
pub normalize_path-IsSafe :
    (raw p : String) → normalize_path raw ≡ ok p → All IsSafe (split_char b'/' p)
normalize_path-IsSafe raw p h =
    let (a, e, names) = normalize_path_sound raw p h in
    rw (e, split-join_kept (kept (segments raw)) a.some_kept (kept-no_slash raw))
      (All-IsSafe (kept (segments raw)) names (kept-no_slash raw) (kept-no_backslash raw)
        (kept-no_nul raw a.no_nul))

pub join-split_normalize :
    (raw p : String) → normalize_path raw ≡ ok p → join slash (split_char b'/' p) ≡ p
join-split_normalize raw p h =
    let (a, e, names) = normalize_path_sound raw p h in
    rw (e, split-join_kept (kept (segments raw)) a.some_kept (kept-no_slash raw)) refl

pub normalize_path-no_backslash : (raw p : String) → normalize_path raw ≡ ok p → Lacks b'\\' p
normalize_path-no_backslash raw p h =
    let (a, e, names) = normalize_path_sound raw p h in
    rw e (join-Lacks slash b'\\' (kept (segments raw)) (omega arith) (kept-no_backslash raw))
