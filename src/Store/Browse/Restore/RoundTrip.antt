-- ===== src/Store/Browse/Restore/RoundTrip.antt =====
-- What has been deleted can be restored.
use nexuspouch.Base.{
  String, ℕ, List, ◌∷◌, ◌++◌, true, false, none, some, Option-cases, Lacks, false≢true, starts_with,
  replace_char_of_Lacks, split_char, replace_char, ◌≡◌, ◌≢◌, inl, inr, refl, sym, ap, ◌∙◌,
}
use nexuspouch.Base.Decimal.{show_ℕ}
use nexuspouch.Base.Json
use nexuspouch.Base.Json.{Fields, end, field, string}
use nexuspouch.Result.{ok}
use nexuspouch.Protocol.{
  Frame, slash, from_parts, normalize_path, is_valid_device_id, is_valid_space,
}
use nexuspouch.Files.{Node, dir, Entries, FilePath, find, exists, is_some, parent}
use nexuspouch.Files.Laws.{
  Apart, IsOff, find-alter-Apart, find-create_dir_all_self, find-create_dir_all_off,
  find-alter_self,
}
use nexuspouch.Files.Rename.{rename_of_steps}
use nexuspouch.Files.Parents.{create_dir_all_of_dir, alter_below, alter_found}
use nexuspouch.Store.Externals.{Externals}
use nexuspouch.Store.Local.{Moment}
use nexuspouch.Store.Paths.{Place, resolve_path, joined_path, is_name, move_to_recycle}
use nexuspouch.Store.Browse.Prune.{prune_empty_recycle_dirs}
use nexuspouch.Store.Browse.Prune.Keeps.{prune-Apart}
use nexuspouch.Store.Browse.Recycle.{is_time, strip_last, Origin, origin_of}
use nexuspouch.Store.Browse.Restore.{
  read_asked, asked, contains_dots, move_back, restore_asked, recycle_restore, make_room, last_of,
  is_there,
}
use nexuspouch.Store.Browse.Restore.Origins.{origin, origin_of-choose_recycle}
use nexuspouch.Store.Browse.Restore.Accepts.{
  choose_recycle-Lacks, choose_recycle-in_bin, last_of-choose_recycle, device-no_slash,
  space-no_slash,
}
use nexuspouch.Store.Paths.Moved.{
  move_to_recycle-moves, move_to_recycle-parent, resolve_path_below, in_bin, other, append-cons,
}
use nexuspouch.Store.Paths.Siblings.{bin-Apart, bin-Apart_above, bin-IsOff, full-IsOff}

-- A move to a place where nothing stands, below a directory that is there, succeeds.
move_back_succeeds :
    (ext : Externals) (place : Place) (abs dest : FilePath) (a : String) (rest : FilePath)
    (x : String) (p : FilePath) (fs node : Node) (es : Entries)
    → abs ≡ a ∷ rest
    → dest ≡ x ∷ p
    → find abs fs ≡ some node
    → find dest fs ≡ none
    → find (parent dest) fs ≡ some (dir es)
    → Apart abs dest
    → Apart abs (parent dest)
    → IsOff abs (parent dest)
    → IsOff dest (parent dest)
    → (fs' : Node) × (move_back ext place abs dest fs ≡ (ok tt, fs')) × (find dest fs' ≡ some node)
unfolding move_back
move_back_succeeds ext place abs dest a rest x p fs node es ea ed found free there apart
      apart_parent off off_dest =
    let (m, made) = create_dir_all_of_dir (parent dest) fs es there in
    let found_m = find-create_dir_all_off (parent dest) abs fs m made off ∙ found in
    let free_m = find-create_dir_all_off (parent dest) dest fs m made off_dest ∙ free in
    let (es', there_m) = find-create_dir_all_self (parent dest) fs m made in
    let (taken, t) = alter_found a rest abs none m node ea found_m in
    let there_t = find-alter-Apart abs (parent dest) none m taken t apart_parent ∙ there_m in
    let (after, w) = alter_below x p dest (some node) taken es' ed there_t in
    let moved = rename_of_steps abs dest m taken after node found_m free_m t w in
    (after, rw (move_back, made, moved) refl, find-alter_self dest (some node) taken after w)

exists_some :
    (p : FilePath) (fs : Node) → exists p fs ≡ true → (node : Node) × (find p fs ≡ some node)
exists_some p fs h = elim (Option-cases (find p fs)) [
  | inl e ↦ absurd (false≢true (sym (ap is_some e) ∙ h))
  | inr (node, e) ↦ (node, e)
]

named_there :
    (parts : List String) (node : Node)
    → is_name (last_of parts) ≡ true
    → is_there parts (some node) ≡ true
named_there parts node h = rw h refl

read_asked_of :
    (ext : Externals) (place : Place) (p : String) (fs node : Node) (o : Origin)
    → replace_char b'\\' slash p ≡ p
    → starts_with ".recycle/" p ≡ true
    → contains_dots p ≡ false
    → find (joined_path place.root p) fs ≡ some node
    → is_name (last_of (split_char b'/' p)) ≡ true
    → origin_of (split_char b'/' p) ≡ some o
    → read_asked ext place p fs ≡ ok (asked (joined_path place.root p) o)
unfolding read_asked
read_asked_of ext place p fs node o same begins dots found named from =
    rw (read_asked, same, begins, dots, found, named_there (split_char b'/' p) node named, from)
      refl

abbrev pub restore_frame : String → Frame
restore_frame path = from_parts "recycle.restore" (field "recycle_path" (string path) end)

module _ (ext : Externals) (place : Place) (device space raw rel date : String) (now : ℕ)
    (fs fs1 : Node) (full : FilePath) (target : String) (no_slash : Lacks b'/' date)
    (no_backslash : Lacks b'\\' date) (device_ok : is_valid_device_id device ≡ true)
    (space_ok : is_valid_space space ≡ true) (normal : normalize_path raw ≡ ok rel)
    (timed : is_time (show_ℕ now) ≡ true)
    (plain : strip_last (split_char b'/' rel) ≡ split_char b'/' rel)
    (no_dots : contains_dots target ≡ false)
    (resolved : resolve_path ext place space device rel fs ≡ ok full)
    (moved : move_to_recycle ext place device space rel date now fs ≡ (ok target, fs1)) where
  abbrev the_origin : Origin
  the_origin = origin date device space rel

  -- The message that names the answered path is understood as it was meant.
  read_asked-target :
      read_asked ext place target fs1 ≡ ok (asked (joined_path place.root target) the_origin)
  read_asked-target =
      let (gone, kept, there, chosen) =
        move_to_recycle-moves ext place space device rel date now fs fs1 full target device_ok
          resolved moved in
      let (node, e) = exists_some full fs there in
      let found : find (joined_path place.root target) fs1 ≡ some node = kept ∙ e in
      let same = replace_char_of_Lacks b'\\' slash target (
        rw chosen (
          choose_recycle-Lacks ext date device space raw rel no_backslash device_ok space_ok normal
            place now fs timed)) in
      let begins : starts_with ".recycle/" target ≡ true = rw chosen (
        choose_recycle-in_bin ext date device space raw rel no_backslash device_ok space_ok normal
          place now fs) in
      let named : is_name (last_of (split_char b'/' target)) ≡ true = rw chosen (
        last_of-choose_recycle ext date device space raw rel no_slash device_ok space_ok normal
          place now fs timed) in
      let from : origin_of (split_char b'/' target) ≡ some the_origin = rw chosen (
        origin_of-choose_recycle ext date device space raw rel no_slash
          (device-no_slash ext date device space raw rel no_slash device_ok space_ok normal)
          (space-no_slash ext date device space raw rel no_slash device_ok space_ok normal) normal
          place now fs timed plain) in
      read_asked_of ext place target fs1 node the_origin same begins no_dots found named from

  -- The move back, and what it finds.
  moved_back :
      (fs2 : Node) × (move_back ext place (joined_path place.root target) full fs1 ≡ (ok tt, fs2))
      × (find full fs2 ≡ find full fs)
  moved_back =
      let (gone, kept, there, chosen) =
        move_to_recycle-moves ext place space device rel date now fs fs1 full target device_ok
          resolved moved in
      let (node, e) = exists_some full fs there in
      let (segs, shape) =
        resolve_path_below ext place space device rel fs full device_ok space_ok resolved in
      let (es, parent_there) =
        move_to_recycle-parent ext place space device rel date now fs fs1 full target device_ok
          resolved moved space segs shape in
      let (r, bin) =
        in_bin ext place space device rel date now fs fs1 full target device_ok resolved moved in
      let abs_shape : joined_path place.root target ≡ place.root ++ ".recycle" ∷ r =
        ap (joined_path place.root) chosen ∙ bin in
      let ne : ".recycle" ≢ device = λ f.
        other ext place space device rel date now fs fs1 full target device_ok resolved moved
          (sym f) in
      let (a, rest, ea) = append-cons place.root ".recycle" r in
      let (x, p, ed) = append-cons place.root device (space ∷ segs) in
      let (fs2, done, back) =
        move_back_succeeds ext place (joined_path place.root target) full a rest x p fs1 node es
          (abs_shape ∙ ea) (shape ∙ ed) (kept ∙ e) gone parent_there
          (bin-Apart place.root device space segs r (joined_path place.root target) full ne
            abs_shape shape)
          (bin-Apart_above place.root device space segs r (joined_path place.root target) full ne
            abs_shape shape)
          (bin-IsOff place.root device space segs r (joined_path place.root target) full ne
            abs_shape shape)
          (full-IsOff place.root device space segs r (joined_path place.root target) full ne
            abs_shape shape) in
      (fs2, done, back ∙ sym e)

  -- What has been deleted from a valid device and space is restored by the path that the deletion
  -- answered, where its path still resolves to the same place: the restoration answers with the
  -- path, and the file, or the directory, stands where it stood. The date holds no slash and no
  -- backslash, the path is normalised, the time has ten digits or more, no name of the path looks
  -- like one with a time behind it, and the answered path holds no two dots in a row.
  pub recycle_restore-move_to_recycle :
      (at : Moment)
      → resolve_path ext place space device rel fs1 ≡ ok full
      → (fs2 : Node) × (recycle_restore ext place (restore_frame target) at fs1
          ≡ (ok (field "restored" (string rel) end), fs2))
        × (find full fs2 ≡ find full fs)
  unfolding recycle_restore restore_asked make_room Json.get
  recycle_restore-move_to_recycle at resolves =
      let gone =
        (move_to_recycle-moves ext place space device rel date now fs fs1 full target device_ok
          resolved moved).0 in
      let (segs, shape) =
        resolve_path_below ext place space device rel fs full device_ok space_ok resolved in
      let (fs2, done, back) = moved_back in
      let off =
        other ext place space device rel date now fs fs1 full target device_ok resolved moved in
      let kept : find full (prune_empty_recycle_dirs place fs2) ≡ find full fs2 =
        rw shape (prune-Apart place device (space ∷ segs) fs2 off) in
      (
        prune_empty_recycle_dirs place fs2,
        rw (recycle_restore, read_asked-target, restore_asked, resolves, make_room, gone, done)
            refl,
        kept ∙ back,
      )
