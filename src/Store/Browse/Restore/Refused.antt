-- ===== src/Store/Browse/Restore/Refused.antt =====
-- Files that are deleted and cannot be restored.
use Prim.Native.String.{◌++◌ as ◌<>◌}
use text.Mathlib.TextLemmas.{nil-append, cons-append}
use nexuspouch.Base.{
  String, ℕ, Bool, true, not, ◌||◌, Lacks, replace_char, replace_char_of_Lacks, starts_with,
  starts_with_char, Bool-cases, ◌≡◌, inl, inr, refl, arith,
}
use nexuspouch.Base.Decimal.{show_ℕ}
use nexuspouch.Base.Json
use nexuspouch.Result.{ok, err, op_error}
use nexuspouch.Protocol.{slash, normalize_path, is_valid_device_id, is_valid_space}
use nexuspouch.Files.{Node, FilePath, exists}
use nexuspouch.Store.Externals.{Externals}
use nexuspouch.Store.Local.{Moment}
use nexuspouch.Store.Paths.{
  Place, resolve_path, joined_path, recycle_rel, choose_recycle, move_to_recycle,
}
use nexuspouch.Store.Paths.Moved.{move_to_recycle-moves}
use nexuspouch.Store.Browse.Recycle.{is_time}
use nexuspouch.Store.Browse.Restore.{read_asked, contains_dots, recycle_restore}
use nexuspouch.Store.Browse.Restore.Accepts.{choose_recycle-Lacks}
use nexuspouch.Store.Browse.Restore.RoundTrip.{restore_frame}

or_true : (a b : Bool) → b ≡ true → (a || b) ≡ true
or_true a b h = ground arith

dots-append_right : (s t : String) → contains_dots t ≡ true → contains_dots (s <> t) ≡ true
unfolding contains_dots
dots-append_right String.[] t h = rw (nil-append t) h
dots-append_right (String.◌∷◌ c s) t h =
    rw (cons-append c s t) (or_true _ _ (dots-append_right s t h))

starts-append :
    (s t : String) → starts_with_char b'.' s ≡ true → starts_with_char b'.' (s <> t) ≡ true
starts-append String.[] t h = cc
starts-append (String.◌∷◌ c s) t h = rw (cons-append c s t) h

dots-append_left : (s t : String) → contains_dots s ≡ true → contains_dots (s <> t) ≡ true
unfolding contains_dots
dots-append_left String.[] t h = cc
dots-append_left (String.◌∷◌ c s) t h =
    rw (cons-append c s t) (ground (arith, dots-append_left s t, starts-append s t))

module _ (ext : Externals) (date device space rel : String) (dots : contains_dots rel ≡ true) where
  recycle_rel-dots : contains_dots (recycle_rel ext date device space rel) ≡ true
  recycle_rel-dots = dots-append_right ".recycle/" _ (
      dots-append_right date _ (
        dots-append_right "/" _ (
          dots-append_right device _ (
            dots-append_right "/" _ (dots-append_right space _ (dots-append_right "/" rel dots))))))

  choose_recycle-dots :
      (place : Place) (now : ℕ) (fs : Node)
      → contains_dots (choose_recycle ext place (recycle_rel ext date device space rel) now fs)
        ≡ true
  choose_recycle-dots place now fs =
      let rel0 = recycle_rel ext date device space rel in
      elim (Bool-cases (exists (joined_path place.root rel0) fs)) [
        | inr e ↦ rw e recycle_rel-dots
        | inl e ↦ rw e (dots-append_left rel0 ("~" <> show_ℕ now) recycle_rel-dots)
      ]

restore_refuses :
    (ext : Externals) (place : Place) (p : String) (at : Moment) (fs : Node)
    → replace_char b'\\' slash p ≡ p
    → contains_dots p ≡ true
    → recycle_restore ext place (restore_frame p) at fs
      ≡ (err (op_error "bad_path" "invalid recycle path"), fs)
unfolding recycle_restore read_asked Json.get
restore_refuses ext place p at fs same dots =
    rw
      (recycle_restore, read_asked, same, dots, or_true (not (starts_with ".recycle/" p)) true refl)
      refl

-- A file whose normalised path holds two dots in a row, as "a..b" does, is moved to the recycle bin
-- like any other, but the path that the deletion answers is refused by `recycle_restore`, at every
-- moment and in every later state. The device and the space are valid, the date holds no backslash,
-- and the time has ten digits or more.
pub recycle_restore-refuses_dots :
    (ext : Externals) (place : Place) (device space raw rel date : String) (now : ℕ) (fs fs1 : Node)
    (full : FilePath) (target : String) (at : Moment) (fs2 : Node)
    → Lacks b'\\' date
    → is_valid_device_id device ≡ true
    → is_valid_space space ≡ true
    → normalize_path raw ≡ ok rel
    → is_time (show_ℕ now) ≡ true
    → contains_dots rel ≡ true
    → resolve_path ext place space device rel fs ≡ ok full
    → move_to_recycle ext place device space rel date now fs ≡ (ok target, fs1)
    → recycle_restore ext place (restore_frame target) at fs2
      ≡ (err (op_error "bad_path" "invalid recycle path"), fs2)
recycle_restore-refuses_dots ext place device space raw rel date now fs fs1 full target at fs2
      no_backslash device_ok space_ok normal timed dots resolved moved =
    let chosen =
      (move_to_recycle-moves ext place space device rel date now fs fs1 full target device_ok
        resolved moved).3 in
    restore_refuses ext place target at fs2
      (replace_char_of_Lacks b'\\' slash target (
        rw chosen (
          choose_recycle-Lacks ext date device space raw rel no_backslash device_ok space_ok normal
            place now fs timed)))
      (rw chosen (choose_recycle-dots ext date device space rel dots place now fs))
