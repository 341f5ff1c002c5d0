-- ===== src/Store/Browse/Size/Staging.antt =====
-- The uploads in progress in the sizes that `stats` reports.
use nexuspouch.Base.{
  String, ℕ, ◌+◌, ◌≤◌, [], ◌∷◌, ◌++◌, Bool, true, false, ◌==◌, some, ◌≡◌, arith, eq_iff, Bool-cases,
  inl, inr, ◌&&◌, not, refl, List, length, ◌<◌, ◌^◌, pos, ◌≤ℤ◌, if◌then◌else◌, wrap_i64_of_fits,
}
use nexuspouch.Files
use nexuspouch.Files.{Node, dir, file, Entries, entry, FilePath, get_entry, is_dir, find}
use nexuspouch.Files.Parents.{entry-find}
use nexuspouch.Store.Externals.{Externals}
use nexuspouch.Store.Browse.Size.{walk_entry_sizes, walk_dir_size, size_of, dir_size}
use nexuspouch.Store.Browse.Walk.{is_dotted}

add_left_le : (a b c : ℕ) → a ≤ c → a ≤ b + c
add_left_le a b c h = omega arith

add_right_le : (a b : ℕ) → a ≤ a + b
add_right_le a b = omega arith

never : (a b c : Bool) → (a && b && c && not true) ≡ false
never a b c = ground arith

counted :
    (ext : Externals) (path : FilePath) (n : String) (node : Node) (es : Entries)
    → walk_entry_sizes ext true true path (entry n node es)
      ≡ walk_dir_size ext true false (path ++ n ∷ []) node + walk_entry_sizes ext true true path es
unfolding walk_dir_size
counted ext path n node es = rw (never (is_dir node) true (is_dotted n)) refl

size-dir :
    (ext : Externals) (path : FilePath) (es : Entries)
    → walk_dir_size ext true false path (dir es) ≡ walk_entry_sizes ext true false path es
unfolding walk_dir_size
size-dir ext path es = refl

not_skipped : (a b c : Bool) → (false && a && b && c) ≡ false
not_skipped a b c = refl

-- A file counts with its whole length in the directory where it stands.
file-counts :
    (ext : Externals) (skip at_base : Bool) (path : FilePath) (name : String) (bytes : List ℕ)
    (mtime : ℕ) (es : Entries)
    → get_entry name es ≡ some (file bytes mtime)
    → length bytes ≤ walk_entry_sizes ext skip at_base path es
unfolding get_entry walk_entry_sizes walk_dir_size
file-counts ext skip at_base path name bytes mtime Files.nil h = cc
file-counts ext skip at_base path name bytes mtime (entry n node es) h =
    let later = file-counts ext skip at_base path name bytes mtime es in
    elim (Bool-cases (n == name)) [
      | inl e ↦ let found : node ≡ file bytes mtime = ground arith in rw found (add_right_le _ _)
      | inr e ↦ skipped_or_not _ _ _ _ (later (rw (get_entry, e) at h))
    ]
  where
    skipped_or_not :
        (c : Bool) (n inside rest : ℕ) → n ≤ rest → n ≤ (if c then rest else inside + rest)
    skipped_or_not c n inside rest h = ground arith

-- What is counted in a directory that stands in the one that is asked for is counted there too,
-- whatever its name begins with.
walk_entry_sizes-counts :
    (ext : Externals) (path : FilePath) (name : String) (inside es : Entries)
    → get_entry name es ≡ some (dir inside)
    → walk_entry_sizes ext true false (path ++ name ∷ []) inside
      ≤ walk_entry_sizes ext true true path es
unfolding get_entry
walk_entry_sizes-counts ext path name inside Files.nil h = cc
walk_entry_sizes-counts ext path name inside (entry n node es) h = elim (Bool-cases (n == name)) [
  | inl e ↦
      let same : n ≡ name = (eq_iff n name).0 e in
      let found : node ≡ dir inside = ground arith in
      rw (counted ext path n node es, same, found, size-dir ext (path ++ name ∷ []) inside)
        (add_right_le _ _)
  | inr e ↦
      rw (counted ext path n node es) (
        add_left_le _ _ _
          (walk_entry_sizes-counts ext path name inside es (rw (get_entry, e) at h)))
]

dir_size_of :
    (ext : Externals) (path : FilePath) (skip : Bool) (fs : Node) (n : ℕ)
    → n ≤ size_of ext skip path (find path fs)
    → size_of ext skip path (find path fs) < 2 ^ 63
    → pos n ≤ℤ dir_size ext path skip fs
unfolding dir_size
dir_size_of ext path skip fs n h fits =
    rw (dir_size, wrap_i64_of_fits (pos (size_of ext skip path (find path fs))) (ground arith))
      (ground arith)

-- A file directly in the directory `.staging` of a space, as the part of an upload is, counts with its
-- whole length in the size of the space, for which `stats` asks to skip directories whose names
-- begin with a dot, and again in the size of `.staging`, which `stats` adds up beside it, as long as
-- both sizes are below 2^63.
pub dir_size_counts_twice :
    (ext : Externals) (space : FilePath) (name : String) (bytes : List ℕ) (mtime : ℕ)
    (inside : Entries) (fs : Node)
    → find (space ++ ".staging" ∷ []) fs ≡ some (dir inside)
    → get_entry name inside ≡ some (file bytes mtime)
    → size_of ext true space (find space fs) < 2 ^ 63
    → size_of ext false (space ++ ".staging" ∷ []) (find (space ++ ".staging" ∷ []) fs) < 2 ^ 63
    → (pos (length bytes) ≤ℤ dir_size ext space true fs)
      × (pos (length bytes) ≤ℤ dir_size ext (space ++ ".staging" ∷ []) false fs)
dir_size_counts_twice ext space name bytes mtime inside fs staging part fits staging_fits =
    let (es, here, listed) = entry-find space ".staging" fs (dir inside) staging in
    let below =
      file-counts ext true false (space ++ ".staging" ∷ []) name bytes mtime inside part in
    let above = walk_entry_sizes-counts ext space ".staging" inside es listed in
    let own = file-counts ext false true (space ++ ".staging" ∷ []) name bytes mtime inside part in
    (
      dir_size_of ext space true fs (length bytes) (rw here (omega (arith, below, above))) fits,
      dir_size_of ext (space ++ ".staging" ∷ []) false fs (length bytes) (rw staging own)
          staging_fits,
    )
