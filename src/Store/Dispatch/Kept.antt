-- ===== src/Store/Dispatch/Kept.antt =====
-- What the single operations leave as it was.
use nexuspouch.Base.{String, ℕ, Option-cases, ◌≡◌, inl, inr, refl, arith, ap}
use nexuspouch.Base.Json.{Fields, payload_int64-fits}
use nexuspouch.Result.{Result, OpError, Result-cases}
use nexuspouch.Protocol.{
  Frame, Op, list, meta, read, write_begin, write_chunk, commit, delete, stats, recycle_list,
  recycle_restore, recycle_empty, import_request, import_pending, import_grant, import_reject,
  import_grants, sync_hello, sync_cursors, pointer_query, pointer_apply, migrate, unknown,
}
use nexuspouch.Store.Cursors.Laws.{MayAdvance}
use nexuspouch.Store.Seeds.{Seeds}
use nexuspouch.Store.Externals.{Externals}
use nexuspouch.Store.Local.{Local, Moment, with_seeds}
use nexuspouch.Store.Paths.{Place}
use nexuspouch.Store.Write.{Uploads}
use nexuspouch.Store.Write.Begin.Outcome.{write_begin-cursors}
use nexuspouch.Store.Write.Chunk
use nexuspouch.Store.Write.Chunk.{accept_chunk, store_chunk, write_part}
use nexuspouch.Store.Write.Commit
use nexuspouch.Store.Write.Commit.Cursor.{commit-cursors}
use nexuspouch.Store.Browse.{gated}
use nexuspouch.Store.Browse.Read
use nexuspouch.Store.Browse.Walk
use nexuspouch.Store.Browse.Delete.Cursor.{delete-MayAdvance}
use nexuspouch.Store.Dispatch.{dispatch}

gated-seeds :
    (frame : Frame) (caller : String) (at : Moment) (st : Local) (reply : Result OpError Fields)
    → (seeds : Seeds) × ((gated frame caller at st reply).1 ≡ with_seeds seeds st)
unfolding gated
gated-seeds frame caller at st reply = (_, refl)

write_chunk-cursors :
    (ext : Externals) (frame : Frame) (now : ℕ) (st : Uploads)
    → ((Chunk.write_chunk ext frame now st).1).cursors ≡ st.cursors
unfolding Chunk.write_chunk store_chunk
write_chunk-cursors ext frame now st = elim (Result-cases (accept_chunk ext frame.payload st)) [
  | inr (e, h) ↦ ground arith
  | inl (c, h) ↦ elim (Option-cases (write_part c.upload.tmp c.offset c.raw now st.fs)) [
    | inl d ↦ ground arith
    | inr (fs, d) ↦ ground arith
  ]
]

commit-MayAdvance :
    (ext : Externals) (place : Place) (date : String) (now : ℕ) (frame : Frame) (caller : String)
    (st : Uploads)
    → MayAdvance caller st.cursors ((Commit.commit ext place date now frame caller st).1).cursors
commit-MayAdvance ext place date now frame caller st =
    elim (commit-cursors ext place date now frame caller st) [
      | inl e ↦ inl e
      | inr (upto, c, e) ↦ inr (upto, payload_int64-fits frame.payload "upto_seq" upto c.asked, e)
    ]

gated-cursors :
    (frame : Frame) (caller : String) (at : Moment) (st : Local) (reply : Result OpError Fields)
    → ((gated frame caller at st reply).1).disk.cursors ≡ st.disk.cursors
gated-cursors frame caller at st reply =
    ap (λ st'. st'.disk.cursors) ((gated-seeds frame caller at st reply).1)

module _ (ext : Externals) (place : Place) (frame : Frame) (caller : String) (at : Moment)
    (st : Local) where
  -- Whatever the operation, no cursor but the caller's own is touched.
  pub dispatch-MayAdvance :
      (op : Op)
      → MayAdvance caller st.disk.cursors
          ((dispatch ext place op frame caller at st).1).disk.cursors
  unfolding dispatch
  dispatch-MayAdvance list = inl (unfold Walk.list in gated-cursors frame caller at st _)
  dispatch-MayAdvance meta = inl (unfold Read.meta in gated-cursors frame caller at st _)
  dispatch-MayAdvance read = inl (unfold Read.read in gated-cursors frame caller at st _)
  dispatch-MayAdvance write_begin =
      inl (write_begin-cursors ext place frame caller at.now at.nanos st.disk)
  dispatch-MayAdvance write_chunk = inl (write_chunk-cursors ext frame at.now st.disk)
  dispatch-MayAdvance commit = commit-MayAdvance ext place at.date at.now frame caller st.disk
  dispatch-MayAdvance delete = delete-MayAdvance ext place at frame caller st
  dispatch-MayAdvance stats = inl refl
  dispatch-MayAdvance recycle_list = inl refl
  dispatch-MayAdvance recycle_restore = inl refl
  dispatch-MayAdvance recycle_empty = inl refl
  dispatch-MayAdvance import_request = inl refl
  dispatch-MayAdvance import_pending = inl refl
  dispatch-MayAdvance import_grant = inl refl
  dispatch-MayAdvance import_reject = inl refl
  dispatch-MayAdvance import_grants = inl refl
  dispatch-MayAdvance sync_hello = inl refl
  dispatch-MayAdvance sync_cursors = inl refl
  dispatch-MayAdvance pointer_query = inl refl
  dispatch-MayAdvance pointer_apply = inl refl
  dispatch-MayAdvance migrate = inl refl
  dispatch-MayAdvance (unknown op) = inl refl
