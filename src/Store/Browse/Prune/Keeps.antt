-- ===== src/Store/Browse/Prune/Keeps.antt =====
-- What the removal of empty directories leaves as it was.
use mathlib.Core.Path.{subst}
use nexuspouch.Base.{
  String, ℕ, List, [], ◌∷◌, ◌++◌, append_assoc, All, All-append, All-map, Bool, Option, none, some,
  Option-cases, Bool-cases, ◌≡◌, ◌≢◌, inl, inr, refl, sym, ◌∙◌,
}
use nexuspouch.Files
use nexuspouch.Files.{
  Node, file, dir, symlink, Entries, entry, FilePath, find, alter, remove_dir, is_dir, get_entry,
}
use nexuspouch.Files.Laws.{find-alter-Apart}
use nexuspouch.Files.Emptied.{find-alter_emptied}
use nexuspouch.Store.Paths.{Place}
use nexuspouch.Store.Paths.Siblings.{sibling-Apart}
use nexuspouch.Store.Browse.Prune.{
  bin_path, sort_by, insert_sorted, collect_dirs, collect_entry_dirs, remove_dirs,
  prune_empty_recycle_dirs, path_before, dirs_of,
}

module _ {A : Type 0} (P : A → Type 0) (before : A → A → Bool) where
  insert_sorted-All : (x : A) (xs : List A) → P x → All P xs → All P (insert_sorted before x xs)
  unfolding insert_sorted
  insert_sorted-All x [] p h = (p, tt)
  insert_sorted-All x (y ∷ ys) p h = elim (Bool-cases (before y x)) [
    | inl e ↦ rw e (h.0, insert_sorted-All x ys p h.1)
    | inr e ↦ rw e (p, h)
  ]

  -- Sorting keeps what holds of all elements.
  pub sort_by-All : (xs : List A) → All P xs → All P (sort_by before xs)
  unfolding sort_by
  sort_by-All [] h = tt
  sort_by-All (x ∷ xs) h = insert_sorted-All x (sort_by before xs) h.0 (sort_by-All xs h.1)

-- `d` lies below `path`.
abbrev pub IsBelow : FilePath → FilePath → Type 0
IsBelow path d = (s : FilePath) × (d ≡ path ++ s)

IsBelow-deeper :
    (path d : FilePath) (name : String) → IsBelow (path ++ name ∷ []) d → IsBelow path d
IsBelow-deeper path d name (s, e) = (name ∷ s, e ∙ append_assoc path (name ∷ []) s)

mutual
  unfolding collect_dirs

  collect_dirs-IsBelow :
      (path : FilePath) (node : Node) → All (IsBelow path) (collect_dirs path node)
  collect_dirs-IsBelow path (dir es) = collect_entry_dirs-IsBelow path es
  collect_dirs-IsBelow path (file b m) = tt
  collect_dirs-IsBelow path symlink = tt

  collect_entry_dirs-IsBelow :
      (path : FilePath) (es : Entries) → All (IsBelow path) (collect_entry_dirs path es)
  collect_entry_dirs-IsBelow path Files.nil = tt
  collect_entry_dirs-IsBelow path (entry name node es) =
      let inside = collect_dirs-IsBelow (path ++ name ∷ []) node in
      let rest = collect_entry_dirs-IsBelow path es in
      elim (Bool-cases (is_dir node)) [
        | inr e ↦ rw e rest
        | inl e ↦ rw e (
          (name ∷ [], refl),
          All-append (IsBelow path) _ _
              (All-map _ _ (λ d. IsBelow-deeper path d name) (collect_dirs (path ++ name ∷ []) node)
                inside)
              rest,
        )
      ]

dirs_of-IsBelow : (path : FilePath) (o : Option Node) → All (IsBelow path) (dirs_of path o)
dirs_of-IsBelow path none = tt
dirs_of-IsBelow path (some node) = collect_dirs-IsBelow path node

remove_dir-alter :
    (path : FilePath) (fs fs' : Node)
    → remove_dir path fs ≡ some fs'
    → (find path fs ≡ some (dir Files.nil)) × (alter path none fs ≡ some fs')
unfolding remove_dir
remove_dir-alter path fs fs' h = removed (find path fs) refl h
  where
    removed :
        (o : Option Node)
        → find path fs ≡ o
        → (elim o [ some (dir Files.nil) ↦ alter path none fs | _ ↦ none ]) ≡ some fs'
        → (find path fs ≡ some (dir Files.nil)) × (alter path none fs ≡ some fs')
    removed (some (dir Files.nil)) f e = (f, e)
    removed (some (dir (entry name node es))) f e = cc
    removed (some (file b m)) f e = cc
    removed (some symlink) f e = cc
    removed none f e = cc

-- If no single removal touches what is found at a path, then neither do all of them.
remove_dirs-keeps :
    (q : FilePath) (P : FilePath → Type 0) (Q : Option Node → Type 0)
    → ((d : FilePath) (fs fs' : Node)
        → P d
        → Q (find q fs)
        → remove_dir d fs ≡ some fs'
        → find q fs' ≡ find q fs)
    → (ds : List FilePath) (fs : Node) → All P ds
    → Q (find q fs)
    → find q (remove_dirs ds fs) ≡ find q fs
unfolding remove_dirs
remove_dirs-keeps q P Q keep [] fs h k = refl
remove_dirs-keeps q P Q keep (d ∷ ds) fs h k = elim (Option-cases (remove_dir d fs)) [
  | inl e ↦ rw e (remove_dirs-keeps q P Q keep ds fs h.1 k)
  | inr (fs', e) ↦
      let same = keep d fs fs' h.0 k e in
      rw e (remove_dirs-keeps q P Q keep ds fs' h.1 (subst Q (sym same) k) ∙ same)
]

-- The pruning leaves the directories of the devices alone.
pub prune-Apart :
    (place : Place) (device : String) (p : FilePath) (fs : Node)
    → device ≢ ".recycle"
    → find (place.root ++ device ∷ p) (prune_empty_recycle_dirs place fs)
      ≡ find (place.root ++ device ∷ p) fs
unfolding prune_empty_recycle_dirs
prune-Apart place device p fs other =
    remove_dirs-keeps (place.root ++ device ∷ p) (IsBelow (bin_path place)) (λ o. Unit)
      (λ d fs fs' (s, e) _ r.
        find-alter-Apart d (place.root ++ device ∷ p) none fs fs' (remove_dir-alter d fs fs' r).1 (
          rw (e, append_assoc place.root (".recycle" ∷ []) s)
            (sibling-Apart place.root ".recycle" device s p (λ f. other (sym f)))))
      (sort_by (λ a b. path_before b a) (dirs_of (bin_path place) (find (bin_path place) fs))) fs
      (sort_by-All (IsBelow (bin_path place)) _ _ (dirs_of-IsBelow (bin_path place) _)) tt

All-Unit : {A : Type 0} (xs : List A) → All (λ x. Unit {0}) xs
All-Unit [] = tt
All-Unit (x ∷ xs) = (tt, All-Unit xs)

abbrev IsThatFile : List ℕ → ℕ → Option Node → Type 0
IsThatFile b m o = o ≡ some (file b m)

-- `prune_empty_recycle_dirs` takes no file away, in the recycle bin or elsewhere: every file is found
-- as it was before.
pub prune_keeps_files :
    (place : Place) (q : FilePath) (fs : Node) (bytes : List ℕ) (mtime : ℕ)
    → find q fs ≡ some (file bytes mtime)
    → find q (prune_empty_recycle_dirs place fs) ≡ some (file bytes mtime)
unfolding prune_empty_recycle_dirs
prune_keeps_files place q fs bytes mtime h =
    remove_dirs-keeps q (λ d. Unit) (IsThatFile bytes mtime)
      (λ d fs1 fs2 _ k r.
        let (empty_dir, taken) = remove_dir-alter d fs1 fs2 r in
        find-alter_emptied d q fs1 fs2 bytes mtime empty_dir taken k ∙ sym k)
      (sort_by (λ a b. path_before b a) (dirs_of (bin_path place) (find (bin_path place) fs))) fs
      (All-Unit _) h
    ∙ h
