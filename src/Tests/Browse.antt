-- ===== src/Tests/Browse.antt =====
-- A file of the phone that is listed, read, deleted and restored.
use nexuspouch.Base.{
  String, [], ◌∷◌, Lacks-of_contains_char, true, false, none, some, take, split_char, join,
  replace_char, ◌≡◌, ◌<◌, ◌^◌, pos, ◌≤ℤ◌, refl, arith,
}
use nexuspouch.Base.Decimal.{show_ℕ}
use nexuspouch.Base.Float.{to_u64, of_ℤ}
use nexuspouch.Base.Json
use nexuspouch.Base.Json.{Fields, end, field, string, int}
use nexuspouch.Result.{ok, err, op_error}
use nexuspouch.Protocol.{
  space_of, Frame, from_parts, normalize_path, keep_segments, is_drive_or_unc, is_valid_device_id,
  is_valid_space,
}
use nexuspouch.Files.{
  Node, file, dir, nil, entry, Entries, FilePath, find, get_entry, exists, create_dir_all, rename,
  alter, assign, without,
}
use nexuspouch.Store.Stored.{absent}
use nexuspouch.Store.Local.{Local, Moment}
use nexuspouch.Store.Paths.{
  resolve_path, joined_path, recycle_rel, choose_recycle, move_to_recycle, reject_symlink_under,
  strip_prefix, walk_links, names_of, check_full,
}
use nexuspouch.Store.Paths.Moved.{move_to_recycle-moves}
use nexuspouch.Store.Browse.Read.Download.{download, download-file}
use nexuspouch.Store.Browse.Walk.{list_path, listed_reply, walk_files}
use nexuspouch.Store.Browse.Walk.Reference.{visible, IsLimit, list_path-visible}
use nexuspouch.Store.Browse.{device_or_caller, path_of}
use nexuspouch.Store.Browse.Size.{walk_entry_sizes, walk_dir_size, size_of, dir_size}
use nexuspouch.Store.Browse.Size.Staging.{dir_size_counts_twice}
use nexuspouch.Store.Browse.Prune.{prune_empty_recycle_dirs}
use nexuspouch.Store.Browse.Prune.Keeps.{prune_keeps_files}
use nexuspouch.Store.Browse.Recycle.{is_time, strip_last, strip_recycle_suffix, split_last}
use nexuspouch.Store.Browse.Restore.{recycle_restore, contains_dots}
use nexuspouch.Store.Browse.Restore.RoundTrip.{restore_frame, recycle_restore-move_to_recycle}
use nexuspouch.Store.Browse.Restore.Refused.{recycle_restore-refuses_dots}
use nexuspouch.Tests.World.{phone, place, crates, crates-IsLawful}

abbrev one : String → Node → Node
one name node = dir (entry name node nil)

abbrev note : Node
note = file (1 ∷ 2 ∷ 3 ∷ []) 9

abbrev files_dir : Node
files_dir = dir (entry "a" (one "b" note) (entry "x..y" note nil))

abbrev disk : Node
disk = one "data" (one phone (one "files" files_dir))

abbrev at : Moment
at = record {
  now = 1700000000000;
  nanos = 1700000000000000000;
  instant = 5;
  date = "2024-01-02";
  random = "r";
}

abbrev st : Local
st = record {
  disk = record { fs = disk; uploads = []; cursors = absent };
  pointer = absent;
  imports = record { requests = absent; grants = absent; received = absent };
  seeds = [];
}

abbrev full : FilePath
full = "data" ∷ phone ∷ "files" ∷ "a" ∷ "b" ∷ []

resolved : resolve_path crates place "files" phone "a/b" disk ≡ ok full
unfolding resolve_path normalize_path keep_segments is_drive_or_unc split_char replace_char join
    reject_symlink_under strip_prefix walk_links find get_entry check_full
resolved = refl

found : find full disk ≡ some note
unfolding find get_entry
found = refl

download-file_example : download crates place "files" "a/b" phone at 1 0 st ≡ some (1 ∷ 2 ∷ 3 ∷ [])
download-file_example =
    download-file crates place "files" "a/b" phone at crates-IsLawful full (1 ∷ 2 ∷ 3 ∷ []) 9 1 st
      resolved found (omega arith) (omega arith)

abbrev list_frame : Frame
list_frame = from_parts "list" (field "space" (string "files") end)

abbrev root : FilePath
root = "data" ∷ phone ∷ "files" ∷ []

root_resolved :
    resolve_path crates place (space_of list_frame) (device_or_caller list_frame phone) "" disk
    ≡ ok root
unfolding resolve_path reject_symlink_under strip_prefix walk_links find get_entry device_or_caller
    Json.get
root_resolved = refl

path_resolved :
    resolve_path crates place
      (space_of list_frame)
      (device_or_caller list_frame phone)
      (path_of list_frame)
      disk
    ≡ ok root
unfolding resolve_path reject_symlink_under strip_prefix walk_links find get_entry device_or_caller
    Json.get
path_resolved = refl

root_found : find root disk ≡ some files_dir
unfolding find get_entry
root_found = refl

no-IsLimit : IsLimit crates list_frame.payload 1000
unfolding Json.get to_u64 Json.num of_ℤ
no-IsLimit = IsLimit.by_default refl refl

list_path-visible_example :
    list_path crates place list_frame phone disk
    ≡ ok (listed_reply (take 1000 (visible crates root root files_dir)))
list_path-visible_example =
    list_path-visible crates place list_frame phone disk root root files_dir 1000 no-IsLimit
      root_resolved path_resolved root_found

lists_two : walk_files crates root root 1000 [] files_dir ≡ visible crates root root files_dir
unfolding walk_files visible strip_prefix join
lists_two = refl

abbrev uploading : Entries
uploading = entry "u1.part" (file (1 ∷ 2 ∷ []) 9) nil

abbrev upload_disk : Node
upload_disk = dir (entry "s" (dir (entry ".staging" (dir uploading) nil)) nil)

staging_found : find ("s" ∷ ".staging" ∷ []) upload_disk ≡ some (dir uploading)
unfolding find get_entry
staging_found = refl

part_found : get_entry "u1.part" uploading ≡ some (file (1 ∷ 2 ∷ []) 9)
unfolding get_entry
part_found = refl

space_fits : size_of crates true ("s" ∷ []) (find ("s" ∷ []) upload_disk) < 2 ^ 63
unfolding find get_entry walk_entry_sizes walk_dir_size
space_fits = omega arith

staging_fits :
    size_of crates false ("s" ∷ ".staging" ∷ []) (find ("s" ∷ ".staging" ∷ []) upload_disk) < 2 ^ 63
unfolding find get_entry walk_entry_sizes walk_dir_size
staging_fits = omega arith

dir_size_counts_twice_example :
    (pos 2 ≤ℤ dir_size crates ("s" ∷ []) true upload_disk)
    × (pos 2 ≤ℤ dir_size crates ("s" ∷ ".staging" ∷ []) false upload_disk)
dir_size_counts_twice_example =
    dir_size_counts_twice crates ("s" ∷ []) "u1.part" (1 ∷ 2 ∷ []) 9 uploading upload_disk
      staging_found part_found space_fits staging_fits

prune_keeps_files_example :
    find full (prune_empty_recycle_dirs place disk) ≡ some (file (1 ∷ 2 ∷ 3 ∷ []) 9)
prune_keeps_files_example = prune_keeps_files place full disk (1 ∷ 2 ∷ 3 ∷ []) 9 found

abbrev target : String
target = ".recycle/2024-01-02/fedcba9876543210/files/a/b"

abbrev deleted : Node
deleted = (move_to_recycle crates place phone "files" "a/b" "2024-01-02" 1700000000000 disk).1

moved :
    move_to_recycle crates place phone "files" "a/b" "2024-01-02" 1700000000000 disk
    ≡ (ok target, deleted)
unfolding move_to_recycle resolve_path normalize_path keep_segments is_drive_or_unc split_char
    replace_char join reject_symlink_under strip_prefix walk_links find get_entry check_full
    names_of create_dir_all rename alter assign without
moved = refl

phone_ok : is_valid_device_id phone ≡ true
unfolding is_valid_device_id
phone_ok = refl

files_ok : is_valid_space "files" ≡ true
unfolding is_valid_space
files_ok = refl

normal : normalize_path "a/b" ≡ ok "a/b"
unfolding normalize_path keep_segments is_drive_or_unc split_char replace_char join
normal = refl

timed : is_time (show_ℕ 1700000000000) ≡ true
unfolding show_ℕ
timed = refl

plain : strip_last (split_char b'/' "a/b") ≡ split_char b'/' "a/b"
unfolding split_char strip_recycle_suffix split_last
plain = refl

no_dots : contains_dots target ≡ false
unfolding contains_dots
no_dots = refl

resolved_later : resolve_path crates place "files" phone "a/b" deleted ≡ ok full
unfolding move_to_recycle resolve_path normalize_path keep_segments is_drive_or_unc split_char
    replace_char join reject_symlink_under strip_prefix walk_links find get_entry check_full
    names_of create_dir_all rename alter assign without
resolved_later = refl

move_to_recycle-moves_example :
    (find full deleted ≡ none)
    × (find (joined_path place.root target) deleted ≡ find full disk)
    × (exists full disk ≡ true)
    × (target
        ≡ choose_recycle crates place
            (recycle_rel crates "2024-01-02" phone "files" "a/b")
            1700000000000
            disk)
move_to_recycle-moves_example =
    move_to_recycle-moves crates place "files" phone "a/b" "2024-01-02" 1700000000000 disk deleted
      full target phone_ok resolved moved

recycle_restore-move_to_recycle_example :
    (fs2 : Node) × (recycle_restore crates place (restore_frame target) at deleted
      ≡ (ok (field "restored" (string "a/b") end), fs2))
    × (find full fs2 ≡ find full disk)
recycle_restore-move_to_recycle_example =
    recycle_restore-move_to_recycle crates place phone "files" "a/b" "a/b" "2024-01-02"
      1700000000000 disk deleted full target (Lacks-of_contains_char b'/' "2024-01-02" refl)
      (Lacks-of_contains_char b'\\' "2024-01-02" refl) phone_ok files_ok normal timed plain no_dots
      resolved moved at resolved_later

abbrev dotted : FilePath
dotted = "data" ∷ phone ∷ "files" ∷ "x..y" ∷ []

abbrev dotted_target : String
dotted_target = ".recycle/2024-01-02/fedcba9876543210/files/x..y"

abbrev dotted_deleted : Node
dotted_deleted =
    (move_to_recycle crates place phone "files" "x..y" "2024-01-02" 1700000000000 disk).1

dotted_resolved : resolve_path crates place "files" phone "x..y" disk ≡ ok dotted
unfolding resolve_path normalize_path keep_segments is_drive_or_unc split_char replace_char join
    reject_symlink_under strip_prefix walk_links find get_entry check_full
dotted_resolved = refl

dotted_moved :
    move_to_recycle crates place phone "files" "x..y" "2024-01-02" 1700000000000 disk
    ≡ (ok dotted_target, dotted_deleted)
unfolding move_to_recycle resolve_path normalize_path keep_segments is_drive_or_unc split_char
    replace_char join reject_symlink_under strip_prefix walk_links find get_entry check_full
    names_of create_dir_all rename alter assign without
dotted_moved = refl

dotted_normal : normalize_path "x..y" ≡ ok "x..y"
unfolding normalize_path keep_segments is_drive_or_unc split_char replace_char join
dotted_normal = refl

has_dots : contains_dots "x..y" ≡ true
unfolding contains_dots
has_dots = refl

recycle_restore-refuses_dots_example :
    recycle_restore crates place (restore_frame dotted_target) at dotted_deleted
    ≡ (err (op_error "bad_path" "invalid recycle path"), dotted_deleted)
recycle_restore-refuses_dots_example =
    recycle_restore-refuses_dots crates place phone "files" "x..y" "x..y" "2024-01-02" 1700000000000
      disk dotted_deleted dotted dotted_target at dotted_deleted
      (Lacks-of_contains_char b'\\' "2024-01-02" refl) phone_ok files_ok dotted_normal timed
      has_dots dotted_resolved dotted_moved
