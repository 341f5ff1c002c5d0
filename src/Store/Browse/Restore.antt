-- ===== src/Store/Browse/Restore.antt =====
-- `recycle_restore` of src/store/browse.rs.
pub mod Refused
pub mod RoundTrip
pub mod Accepts
pub mod Origins
use nexuspouch.Base.{
  String, ℕ, List, [], ◌∷◌, ◌++◌, Bool, true, false, ◌&&◌, ◌||◌, not, Option, none, some,
  if◌then◌else◌, ◌==◌, is_empty, is_code, split_char, starts_with, starts_with_char, replace_char,
}
use nexuspouch.Base.Json.{Fields, end, field, string, str_or_empty}
use nexuspouch.Result.{Result, ok, err, OpError, op_error, fail_if, ok_or, ◌>>=◌, ◌>>◌}
use nexuspouch.Protocol.{Frame, slash}
use nexuspouch.Files.{Node, FilePath, find, exists, is_dir, create_dir_all, rename}
use nexuspouch.Store.Externals.{Externals}
use nexuspouch.Store.Local.{Moment}
use nexuspouch.Store.Paths.{
  Place, resolve_path, parent, io_error, move_to_recycle, joined_path, is_name,
}
use nexuspouch.Store.Browse.Prune.{prune_empty_recycle_dirs}
use nexuspouch.Store.Browse.Recycle.{Origin, origin_of}

-- `s.contains("..")`
unfoldable pub contains_dots : String → Bool
contains_dots String.[] = false
contains_dots (String.◌∷◌ c s) = (is_code b'.' c && starts_with_char b'.' s) || contains_dots s

abbrev pub last_of : List String → String
last_of [] = ""
last_of (x ∷ []) = x
last_of (x ∷ (y ∷ xs)) = last_of (y ∷ xs)

abbrev pub is_there : List String → Option Node → Bool
is_there parts none = false
is_there parts (some node) = is_name (last_of parts) || is_dir node

-- What the message asks for: the normalised path, its place in the bin, and where that came from.
pub record Asked : Type 0 where
  pub abs : FilePath
  pub origin : Origin

abbrev pub asked : FilePath → Origin → Asked
asked a o = record { abs = a; origin = o }

module _ (ext : Externals) (place : Place) where
  -- The checks of `recycle_restore`, in the order of the code. A path that ends in a slash is one
  -- of a directory.
  unfoldable pub read_asked : String → Node → Result OpError Asked
  read_asked recycle_path fs =
      let normalized = replace_char b'\\' slash recycle_path in
      let abs = joined_path place.root normalized in
      let parts = split_char b'/' normalized in
      do
        fail_if (not (starts_with ".recycle/" normalized) || contains_dots normalized)
            (op_error "bad_path" "invalid recycle path")
        fail_if (not (is_there parts (find abs fs))) (op_error "not_found" recycle_path)
        origin ← ok_or (op_error "bad_path" "malformed recycle path") (origin_of parts)
        ok (asked abs origin)

  abbrev kept_as : Node → Option Node → Result OpError (Unit {0}) × Node
  kept_as fs none = (err io_error, fs)
  kept_as fs (some fs') = (ok tt, fs')

  -- The end: the directories are made, the file is moved.
  unfoldable pub move_back : FilePath → FilePath → Node → Result OpError (Unit {0}) × Node
  move_back abs dest fs = elim (create_dir_all (parent dest) fs) [
    | none ↦ (err io_error, fs)
    | some fs1 ↦ kept_as fs1 (rename abs dest fs1)
  ]

  -- What stands at the old place is recycled first.
  unfoldable pub make_room :
      Origin → FilePath → String → ℕ → Node → Result OpError (Unit {0}) × Node
  make_room o dest date now fs =
      if exists dest fs
      then (let (r, fs1) = move_to_recycle ext place o.device o.space o.rel date now fs in
          ((do _ ← r; ok tt), fs1))
      else (ok tt, fs)

  abbrev restored : String → Result OpError (Unit {0}) × Node → Result OpError Fields × Node
  restored rel (err e, fs) = (err e, fs)
  restored rel (ok _, fs) =
      (ok (field "restored" (string rel) end), prune_empty_recycle_dirs place fs)

  abbrev move_back_to :
      Asked → FilePath → Result OpError (Unit {0}) × Node → Result OpError (Unit {0}) × Node
  move_back_to a dest (err e, fs) = (err e, fs)
  move_back_to a dest (ok _, fs) = move_back a.abs dest fs

  unfoldable pub restore_asked : Asked → String → ℕ → Node → Result OpError Fields × Node
  restore_asked a date now fs =
      let o = a.origin in
      elim (resolve_path ext place o.space o.device o.rel fs) [
        | err e ↦ (err e, fs)
        | ok dest ↦ restored o.rel (move_back_to a dest (make_room o dest date now fs))
      ]

  unfoldable pub recycle_restore : Frame → Moment → Node → Result OpError Fields × Node
  recycle_restore frame at fs = elim (read_asked (str_or_empty "recycle_path" frame.payload) fs) [
    | err e ↦ (err e, fs)
    | ok a ↦ restore_asked a at.date at.now fs
  ]
