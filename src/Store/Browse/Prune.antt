-- ===== src/Store/Browse/Prune.antt =====
-- `prune_empty_recycle_dirs` of src/store/browse.rs, and the sorting of its lists.
pub mod Keeps
use Prim.Native.String.{compare}
use Prim.Native.Nat.{Ordering}
use nexuspouch.Base.{
  String, List, [], ◌∷◌, ◌++◌, Bool, true, false, Option, none, some, if◌then◌else◌,
}
use nexuspouch.Base.Json.{unwrap_or}
use nexuspouch.Files
use nexuspouch.Files.{Node, file, dir, symlink, Entries, entry, FilePath, find, is_dir, remove_dir}
use nexuspouch.Store.Paths.{Place}

abbrev pub bin_path : Place → FilePath
bin_path place = place.root ++ ".recycle" ∷ []

module _ {A : Type 0} (before : A → A → Bool) where
  -- A stable sort, as `sort_by` is.
  unfoldable pub insert_sorted : A → List A → List A
  insert_sorted x [] = x ∷ []
  insert_sorted x (y ∷ ys) =
      let later = insert_sorted x ys in if before y x then y ∷ later else x ∷ (y ∷ ys)

  unfoldable pub sort_by : List A → List A
  sort_by [] = []
  sort_by (x ∷ xs) = insert_sorted x (sort_by xs)

-- `a < b` of paths, name by name
unfoldable pub path_before : FilePath → FilePath → Bool
path_before p [] = false
path_before [] (y ∷ q) = true
path_before (x ∷ p) (y ∷ q) =
    let rest = path_before p q in
    elim (compare x y) [ Ordering.lt ↦ true | Ordering.eq ↦ rest | Ordering.gt ↦ false ]

unfoldable mutual
  pub collect_dirs : FilePath → Node → List FilePath
  collect_dirs path (dir es) = collect_entry_dirs path es
  collect_dirs path node = []

  pub collect_entry_dirs : FilePath → Entries → List FilePath
  collect_entry_dirs path Files.nil = []
  collect_entry_dirs path (entry name node es) =
      let here = path ++ name ∷ [] in
      let inside = collect_dirs here node in
      let rest = collect_entry_dirs path es in if is_dir node then here ∷ (inside ++ rest) else rest

-- `let _ = fs::remove_dir(d)`, for each of the directories
unfoldable pub remove_dirs : List FilePath → Node → Node
remove_dirs [] fs = fs
remove_dirs (d ∷ ds) fs = remove_dirs ds (unwrap_or fs (remove_dir d fs))

abbrev dirs_of : FilePath → Option Node → List FilePath
dirs_of path none = []
dirs_of path (some node) = collect_dirs path node

unfoldable pub prune_empty_recycle_dirs : Place → Node → Node
prune_empty_recycle_dirs place fs =
    remove_dirs
      (sort_by (λ a b. path_before b a) (dirs_of (bin_path place) (find (bin_path place) fs))) fs
