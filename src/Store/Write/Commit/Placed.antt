-- ===== src/Store/Write/Commit/Placed.antt =====
-- Where `commit` puts the part of an upload.
use mathlib.Core.Path.{subst}
use nexuspouch.Base.{
  split_char-cons, String, ℕ, [], ◌∷◌, ◌++◌, All, Option, none, some, Option-cases, false≢true,
  split_char, starts_with_char, ◌≡◌, ◌≢◌, inl, inr, refl, sym, ap, ◌∙◌, arith,
}
use nexuspouch.Result.{ok, Result-cases}
use nexuspouch.Protocol.Path.{IsSafe}
use nexuspouch.Files.{
  Node, file, dir, symlink, FilePath, find, alter, create_dir_all, rename, remove_file,
}
use nexuspouch.Files.Laws.{Apart, IsOff, find-alter-Apart, find-create_dir_all_off}
use nexuspouch.Files.Rename.{find-rename_to, find-rename_from}
use nexuspouch.Store.Externals.{Externals}
use nexuspouch.Store.Paths.{Place, base_path, parent, reject_symlink_under}
use nexuspouch.Store.Paths.Siblings.{sibling-Apart, sibling-IsOff, Apart-under, dest_IsOff}
use nexuspouch.Store.Write.Commit.{
  Pending, move_in, clear_dest, place_part, dest_of, remove_quietly,
}

not_staging : (x : String) → IsSafe x → ".staging" ≢ x
not_staging x safe e = absurd (false≢true (sym safe.no_dot ∙ ap (starts_with_char b'.') (sym e)))

remove_file-alter :
    (path : FilePath) (fs fs' : Node)
    → remove_file path fs ≡ some fs'
    → alter path none fs ≡ some fs'
unfolding remove_file
remove_file-alter path fs fs' h = removed (find path fs) h
  where
    removed :
        (o : Option Node)
        → (elim o [
          | some (file b m) ↦ alter path none fs
          | some symlink ↦ alter path none fs
          | _ ↦ none
        ])
          ≡ some fs'
        → alter path none fs ≡ some fs'
    removed (some (file b m)) e = e
    removed (some symlink) e = e
    removed (some (dir es)) e = cc
    removed none e = cc

find-remove_quietly :
    (path q : FilePath) (fs : Node) → Apart path q → find q (remove_quietly path fs) ≡ find q fs
find-remove_quietly path q fs a = elim (Option-cases (remove_file path fs)) [
  | inl e ↦ rw e refl
  | inr (fs', e) ↦ rw e (find-alter-Apart path q none fs fs' (remove_file-alter path fs fs' e) a)
]

-- A part in the staging directory of its space, whose destination is a name of the space.
module _ (base : FilePath) (name x : String) (r : FilePath) (other : ".staging" ≢ x) where
  staged_Apart : Apart (base ++ ".staging" ∷ name ∷ []) (base ++ x ∷ r)
  staged_Apart = sibling-Apart base ".staging" x (name ∷ []) r other

  staged_IsOff : IsOff (base ++ ".staging" ∷ name ∷ []) (parent (base ++ x ∷ r))
  staged_IsOff = sibling-IsOff base ".staging" x (name ∷ []) r other

module _ (ext : Externals) (place : Place) (date : String) (now : ℕ) (p : Pending) (fs : Node) where
  -- The two states on the way of a move to a place where nothing stands.
  record IsMoved (fs' : Node) : Type 0 where
    made : Node
    is_made : create_dir_all (parent (dest_of place p.u)) fs ≡ some made
    renamed_fs : Node
    is_renamed : rename p.u.tmp (dest_of place p.u) made ≡ some renamed_fs
    the_end : fs' ≡ remove_quietly p.u.meta_path renamed_fs

  move_in_sound :
      ((made : Node)
        → create_dir_all (parent (dest_of place p.u)) fs ≡ some made
        → find (dest_of place p.u) made ≡ none)
      → (move_in ext place date now p fs).0 ≡ ok tt
      → IsMoved ((move_in ext place date now p fs).1)
  unfolding move_in clear_dest place_part
  move_in_sound free h =
      let dest = dest_of place p.u in
      elim (Option-cases (create_dir_all (parent dest) fs)) [
        | inl e ↦ absurd (ground arith)
        | inr (made, e) ↦
            let empty = free made e in
            elim (Result-cases
              (reject_symlink_under ext (base_path place p.u.device p.u.space) dest made)) [
                | inr (f, d) ↦ absurd (ground arith)
                | inl (t, d) ↦ elim (Option-cases (rename p.u.tmp dest made)) [
                  | inl c ↦ absurd (ground arith)
                  | inr (renamed_fs, c) ↦ record {
                    made = made;
                    is_made = e;
                    renamed_fs = renamed_fs;
                    is_renamed = c;
                    the_end = ground arith;
                  }
                ]
              ]
      ]

-- An upload that `commit` moves to a path where nothing stands: where its part and its staging file
-- lie in the staging directory of its space under two names, and its path is normalised, the part stands at the
-- path afterwards, and is gone from the staging directory.
pub move_in-places :
    (ext : Externals) (place : Place) (date : String) (now : ℕ) (p : Pending) (fs : Node)
    (name other : String)
    → p.u.tmp ≡ base_path place p.u.device p.u.space ++ ".staging" ∷ name ∷ []
    → p.u.meta_path ≡ base_path place p.u.device p.u.space ++ ".staging" ∷ other ∷ []
    → other ≢ name
    → All IsSafe (split_char b'/' p.u.path)
    → find (dest_of place p.u) fs ≡ none
    → (move_in ext place date now p fs).0 ≡ ok tt
    → (find (dest_of place p.u) ((move_in ext place date now p fs).1) ≡ find p.u.tmp fs)
      × (find p.u.tmp ((move_in ext place date now p fs).1) ≡ none)
move_in-places ext place date now p fs name other at_tmp at_meta differ safe free moved =
    let base = base_path place p.u.device p.u.space in
    let (x, r, e) = split_char-cons b'/' p.u.path in
    let ne : ".staging" ≢ x = not_staging x ((subst (All IsSafe) e safe).0) in
    let at_dest : dest_of place p.u ≡ base ++ x ∷ r = ap (λ s. base ++ s) e in
    let apart : Apart p.u.tmp (dest_of place p.u) =
      rw (at_tmp, at_dest) (staged_Apart base name x r ne) in
    let meta_apart : Apart p.u.meta_path (dest_of place p.u) =
      rw (at_meta, at_dest) (staged_Apart base other x r ne) in
    let meta_tmp : Apart p.u.meta_path p.u.tmp =
      rw (at_meta, at_tmp)
        (Apart-under base (".staging" ∷ other ∷ []) (".staging" ∷ name ∷ []) (inr (inl differ))) in
    let off : IsOff p.u.tmp (parent (dest_of place p.u)) =
      rw (at_tmp, at_dest) (staged_IsOff base name x r ne) in
    let dest_off : IsOff (dest_of place p.u) (parent (dest_of place p.u)) =
      rw at_dest (dest_IsOff base x r) in
    let m =
      move_in_sound ext place date now p fs
        (λ made h.
          find-create_dir_all_off (parent (dest_of place p.u)) (dest_of place p.u) fs made h
            dest_off
          ∙ free)
        moved in
    (
      ap (find (dest_of place p.u)) m.the_end
          ∙ find-remove_quietly p.u.meta_path (dest_of place p.u) m.renamed_fs meta_apart
          ∙ find-rename_to p.u.tmp (dest_of place p.u) m.made m.renamed_fs apart m.is_renamed
          ∙ find-create_dir_all_off (parent (dest_of place p.u)) p.u.tmp fs m.made m.is_made off,
      ap (find p.u.tmp) m.the_end
          ∙ find-remove_quietly p.u.meta_path p.u.tmp m.renamed_fs meta_tmp
          ∙ find-rename_from p.u.tmp (dest_of place p.u) m.made m.renamed_fs apart m.is_renamed,
    )
