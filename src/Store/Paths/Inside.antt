-- ===== src/Store/Paths/Inside.antt =====
-- Where `resolve_path` can lead: only below the directory of the device and the space.
use nexuspouch.Base.{
  String, List, [], ◌∷◌, ◌++◌, append_nil, append_assoc, false, ◌||◌, All, some, Option-cases,
  Bool-cases, if◌then◌else◌, ◌==◌, is_empty, split_char, ◌≡◌, inl, inr, refl, sym, ◌∙◌, arith,
  eq_refl,
}
use nexuspouch.Result.{ok, Result-cases}
use nexuspouch.Protocol.{normalize_path}
use nexuspouch.Protocol.Path.{IsSafe, normalize_path-IsSafe}
use nexuspouch.Files.{Node, FilePath, find}
use nexuspouch.Store.Externals.{Externals}
use nexuspouch.Store.Paths.{
  Place, base_path, resolve_path, check_full, strip_prefix, reject_symlink_under, walk_links,
  is_link,
}

-- The directory that a message names: without a device it is the node's own.
abbrev pub base_of : Place → String → String → FilePath
base_of place space device =
    base_path place (if is_empty device then place.device_id else device) space

module _ (ext : Externals) where
  -- What a successful `resolve_path` has looked at.
  record IsResolved (base : FilePath) (fs : Node) (path : FilePath) : Type 0 where
    segs : List String
    the_path : path ≡ base ++ segs
    is_safe : All IsSafe segs
    is_free : reject_symlink_under ext base path fs ≡ ok tt

  check_full_sound :
      (space : String) (base full : FilePath) (fs : Node) (path : FilePath)
      → check_full ext space base full fs ≡ ok path
      → (path ≡ full) × (reject_symlink_under ext base full fs ≡ ok tt)
  unfolding check_full
  check_full_sound space base full fs path h = elim (Option-cases (strip_prefix base full)) [
    | inl e ↦ absurd (ground arith)
    | inr (rel, e) ↦ elim (Result-cases (reject_symlink_under ext base full fs)) [
      | inl (t, d) ↦ (ground arith, d)
      | inr (f, d) ↦ absurd (ground arith)
    ]
  ]

  resolve_path_sound :
      (place : Place) (space device rel : String) (fs : Node) (path : FilePath)
      → resolve_path ext place space device rel fs ≡ ok path
      → IsResolved (base_of place space device) fs path
  unfolding resolve_path
  resolve_path_sound place space device rel fs path h =
      let base = base_of place space device in
      elim (Bool-cases (is_empty rel || rel == "/")) [
        | inl e ↦ elim (Result-cases (reject_symlink_under ext base base fs)) [
          | inl (t, d) ↦
              let same : path ≡ base = ground arith in
              record {
                segs = [];
                the_path = same ∙ sym (append_nil base);
                is_safe = tt;
                is_free = rw same d;
              }
          | inr (f, d) ↦ absurd (ground arith)
        ]
        | inr e ↦ elim (Result-cases (normalize_path rel)) [
          | inl (norm, d) ↦
              let (same, is_free) =
                check_full_sound space base (base ++ split_char b'/' norm) fs path
                  (rw (resolve_path, e, d) at h) in
              record {
                segs = split_char b'/' norm;
                the_path = same;
                is_safe = normalize_path-IsSafe rel norm d;
                is_free = rw same is_free;
              }
          | inr (f, d) ↦ absurd (ground arith)
        ]
      ]

walk_links_free :
    (cur rel : FilePath) (fs : Node)
    → is_link (find cur fs) ≡ false
    → walk_links cur rel fs ≡ ok tt
    → (p q : FilePath) → rel ≡ p ++ q
    → is_link (find (cur ++ p) fs) ≡ false
unfolding walk_links
walk_links_free cur rel fs a h [] q e = rw (append_nil cur) a
walk_links_free cur [] fs a h (x ∷ p) q e = cc
walk_links_free cur (y ∷ rel) fs a h (x ∷ p) q e =
    let heads : y ≡ x = cc in
    let tails : rel ≡ p ++ q = cc in
    elim (Bool-cases (is_link (find (cur ++ y ∷ []) fs))) [
      | inl d ↦ absurd (ground arith)
      | inr d ↦
          rw (sym heads, sym (append_assoc cur (y ∷ []) p))
            (walk_links_free (cur ++ y ∷ []) rel fs d (ground arith) p q tails)
    ]

strip_prefix-append : (base rel : FilePath) → strip_prefix base (base ++ rel) ≡ some rel
unfolding strip_prefix
strip_prefix-append [] rel = refl
strip_prefix-append (x ∷ base) rel = ground (arith, strip_prefix-append base rel, eq_refl x)

reject_sound :
    (ext : Externals) (base rel : FilePath) (fs : Node)
    → ext.canonicalize base fs ≡ some base
    → reject_symlink_under ext base (base ++ rel) fs ≡ ok tt
    → (is_link (find base fs) ≡ false) × (walk_links base rel fs ≡ ok tt)
unfolding reject_symlink_under
reject_sound ext base rel fs canonical h = elim (Bool-cases (is_link (find base fs))) [
  | inl d ↦ absurd (ground arith)
  | inr d ↦ (d, rw (canonical, d, strip_prefix-append base rel) at h)
]

-- Whatever path a message names, what `resolve_path` gives is the directory of the space, or lies
-- below it by segments that are non-empty and have no leading dot, no slash, no backslash and no NUL.
pub resolve_path_inside :
    (ext : Externals) (place : Place) (space device rel : String) (fs : Node) (path : FilePath)
    → resolve_path ext place space device rel fs ≡ ok path
    → (segs : List String) × (path ≡ base_of place space device ++ segs) × All IsSafe segs
resolve_path_inside ext place space device rel fs path h =
    let r = resolve_path_sound ext place space device rel fs path h in
    (r.segs, r.the_path, r.is_safe)

-- Where the directory of the space is its own canonical path, no directory on the way from it to
-- the path that `resolve_path` gives is a symbolic link, nor is what stands at the path.
pub resolve_path_free :
    (ext : Externals) (place : Place) (space device rel : String) (fs : Node) (path p q : FilePath)
    → ext.canonicalize (base_of place space device) fs ≡ some (base_of place space device)
    → resolve_path ext place space device rel fs ≡ ok path
    → path ≡ base_of place space device ++ (p ++ q)
    → is_link (find (base_of place space device ++ p) fs) ≡ false
resolve_path_free ext place space device rel fs path p q canonical h e =
    let base = base_of place space device in
    let r = resolve_path_sound ext place space device rel fs path h in
    let (a, b) = reject_sound ext base (p ++ q) fs canonical (rw e at r.is_free) in
    walk_links_free base (p ++ q) fs a b p q refl
