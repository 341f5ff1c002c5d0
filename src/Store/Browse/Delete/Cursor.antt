-- ===== src/Store/Browse/Delete/Cursor.antt =====
-- When `delete` moves the caller's cursor.
use nexuspouch.Base.{String, ℤ, Option-cases, ◌≡◌, inl, inr, refl}
use nexuspouch.Base.Json.{Fields, payload_int64, payload_int64-fits}
use nexuspouch.Result.{Result, ok, err, OpError, Result-cases, map_err, op_error}
use nexuspouch.Protocol.{Frame, normalize_path}
use nexuspouch.Store.Cursors.{CursorFile}
use nexuspouch.Store.Cursors.Laws.{MayAdvance}
use nexuspouch.Store.Externals.{Externals}
use nexuspouch.Store.Local.{Local, Moment}
use nexuspouch.Store.Paths.{Place}
use nexuspouch.Store.Browse.{path_of}
use nexuspouch.Store.Browse.Delete.{delete, delete_seq, advanced, recycled}

advanced-cursors :
    (reply : Fields → Fields) (r : Result OpError ℤ) (c : CursorFile) (st : Local)
    → ((advanced reply (r, c) st).1).disk.cursors ≡ c
advanced-cursors reply (ok seq) c st = refl
advanced-cursors reply (err e) c st = refl

delete_seq-MayAdvance :
    (payload : Fields) (caller : String) (reply : Fields → Fields) (st : Local)
    → MayAdvance caller st.disk.cursors
        ((delete_seq (payload_int64 payload "upto_seq") caller reply st).1).disk.cursors
unfolding delete_seq
delete_seq-MayAdvance payload caller reply st =
    elim (Option-cases (payload_int64 payload "upto_seq")) [
      | inl e ↦ inl (rw (e, delete_seq) refl)
      | inr (upto, e) ↦ inr (
        upto,
        payload_int64-fits payload "upto_seq" upto e,
        rw (e, delete_seq) (advanced-cursors reply _ _ st),
      )
    ]

recycled-MayAdvance :
    (ext : Externals) (place : Place) (at : Moment) (frame : Frame) (caller : String)
    (r : Result OpError (Fields → Fields)) (st : Local)
    → MayAdvance caller st.disk.cursors ((recycled ext place at frame caller r st).1).disk.cursors
recycled-MayAdvance ext place at frame caller (err e) st = inl refl
recycled-MayAdvance ext place at frame caller (ok reply) st =
    delete_seq-MayAdvance frame.payload caller reply st

pub delete-MayAdvance :
    (ext : Externals) (place : Place) (at : Moment) (frame : Frame) (caller : String) (st : Local)
    → MayAdvance caller st.disk.cursors ((delete ext place at frame caller st).1).disk.cursors
unfolding delete
delete-MayAdvance ext place at frame caller st =
    elim (Result-cases (map_err (op_error "bad_path") (normalize_path (path_of frame)))) [
      | inr (e, h) ↦ inl (rw (delete, h) refl)
      | inl (norm, h) ↦ rw (delete, h) (recycled-MayAdvance ext place at frame caller _ _)
    ]
