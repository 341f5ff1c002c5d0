-- ===== src/Store/Write/Begin/Outcome.antt =====
-- What `write_begin` leaves, on every branch.
use Prim.Native.String.{◌++◌ as ◌<>◌}
use mathlib.Core.Path.{subst}
use nexuspouch.Base.{
  String, ℕ, ℤ, pos, List, length, Option, some, none, Bool-cases, Option-cases, ◌≡◌, ◌∙◌, ◌⊎◌, inl,
  inr, refl, sym, ap,
}
use nexuspouch.Base.Dict
use nexuspouch.Base.Json.{Fields, ◌>>=?◌}
use nexuspouch.Result.{Result, ok, err, OpError, op_error, Result-cases}
use nexuspouch.Protocol.{Frame, space_of}
use nexuspouch.Files.{Node, create_dir_all, write_file}
use nexuspouch.Store.Externals.{Externals, StagingMeta}
use nexuspouch.Store.Paths.{Place, io_error}
use nexuspouch.Store.Write.{Upload, Uploads, staging_dir, part_path, staging_meta_path}
use nexuspouch.Store.Write.Begin.Same.{
  IsSameFile, IsOtherFile, same_file, other_file, HasArrived, part_length-HasArrived,
  read_file-create_dir_all,
}
use nexuspouch.Store.Write.Begin.{
  Declared, read_declared, old_meta, conflicts, part_length, begin_reply, staging_meta, open_create,
  begin_again, begin_new, write_begin,
}

module _ (ext : Externals) (place : Place) (caller space : String) where
  -- An upload that has been opened for what the message declares, and the answer to it: the hash is
  -- `sha`, and the count of what has arrived is `received`.
  pub record IsBegun (d : Declared) (sha : String) (received : ℤ) (reply : Fields)
      (st st' : Uploads) : Type 0 where
    pub u : Upload
    pub registered : st'.uploads ≡ Dict.insert d.id u st.uploads
    pub is_own : (u.device ≡ caller) × (u.space ≡ space)
    pub is_for : (u.path ≡ d.norm) × (u.declared_size ≡ d.size) × (u.declared_sha ≡ sha)
    pub is_staged :
        (u.tmp ≡ part_path place caller space d.id)
        × (u.meta_path ≡ staging_meta_path place caller space d.id)
    pub goes_on : u.received ≡ received
    pub replied : reply ≡ begin_reply d.id received
    pub cursors_kept : st'.cursors ≡ st.cursors

  abbrev left_over : Declared → Uploads → Option StagingMeta
  left_over d st = old_meta ext place (staging_meta_path place caller space d.id) st.fs

  abbrev written : Declared → ℕ → Node → Option Node
  written d now fs =
      write_file (staging_meta_path place caller space d.id)
        (ext.encode_staging (staging_meta d.norm d.size d.sha now)) now fs

  abbrev refused : OpError → Node → Uploads → Result OpError Fields × Uploads
  refused e fs st = (err e, record { fs = fs; uploads = st.uploads; cursors = st.cursors })

  -- The outcomes, each with what it takes of the file tree before.
  pub data Begun (d : Declared) (now : ℕ) (st : Uploads) (answer : Result OpError Fields × Uploads)
      : Type 0 where
    taken_up :
        (meta : StagingMeta) (received : ℤ) (reply : Fields) (st' : Uploads)
        → left_over d st ≡ some meta
        → IsSameFile meta d
        → HasArrived (part_path place caller space d.id) st.fs received
        → create_dir_all (staging_dir place caller space) st.fs ≡ some st'.fs
        → answer ≡ (ok reply, st')
        → IsBegun d meta.sha256 received reply st st'
        → Begun d now st answer
    started :
        (fs fs1 : Node) (reply : Fields) (st' : Uploads)
        → left_over d st ≡ none
        → create_dir_all (staging_dir place caller space) st.fs ≡ some fs
        → written d now fs ≡ some fs1
        → open_create (part_path place caller space d.id) now fs1 ≡ some st'.fs
        → answer ≡ (ok reply, st')
        → IsBegun d d.sha (pos 0) reply st st'
        → Begun d now st answer
    no_dir :
        create_dir_all (staging_dir place caller space) st.fs ≡ none
        → answer ≡ (err io_error, st)
        → Begun d now st answer
    conflicting :
        (meta : StagingMeta) (fs : Node)
        → left_over d st ≡ some meta
        → IsOtherFile meta d
        → create_dir_all (staging_dir place caller space) st.fs ≡ some fs
        → answer ≡ refused (op_error "staging_state" "upload_id conflicts with existing") fs st
        → Begun d now st answer
    no_meta :
        (fs : Node)
        → left_over d st ≡ none
        → create_dir_all (staging_dir place caller space) st.fs ≡ some fs
        → written d now fs ≡ none
        → answer ≡ refused io_error fs st
        → Begun d now st answer
    no_part :
        (fs fs1 : Node)
        → left_over d st ≡ none
        → create_dir_all (staging_dir place caller space) st.fs ≡ some fs
        → written d now fs ≡ some fs1
        → open_create (part_path place caller space d.id) now fs1 ≡ none
        → answer ≡ refused io_error fs1 st
        → Begun d now st answer

  -- Making the staging directory changes neither the staging file nor the part.
  module _ (d : Declared) (st : Uploads) (fs : Node)
      (made : create_dir_all (staging_dir place caller space) st.fs ≡ some fs) where
    left_over-made :
        old_meta ext place (staging_meta_path place caller space d.id) fs ≡ left_over d st
    unfolding old_meta
    left_over-made =
        ap (λ r. r >>=? ext.decode_staging)
          (read_file-create_dir_all (staging_dir place caller space) (d.id <> ".json") st.fs fs
            made)

    arrived :
        HasArrived
          (part_path place caller space d.id)
          st.fs
          (part_length (part_path place caller space d.id) fs)
    arrived =
        subst
          (λ r.
            ((bytes : List ℕ) × (r ≡ some bytes)
              × (part_length (part_path place caller space d.id) fs ≡ pos (length bytes)))
            ⊎ ((r ≡ none) × (part_length (part_path place caller space d.id) fs ≡ pos 0)))
          (read_file-create_dir_all (staging_dir place caller space) (d.id <> ".part") st.fs fs
            made)
          (part_length-HasArrived (part_path place caller space d.id) fs)

    begin_again-Begun :
        (meta : StagingMeta) (now : ℕ)
        → left_over d st ≡ some meta
        → Begun d now st (begin_again ext place caller space d meta st fs)
    unfolding begin_again
    begin_again-Begun meta now known = elim (Bool-cases (conflicts meta d)) [
      | inl e ↦
          rw (begin_again, e) (Begun.conflicting meta fs known (other_file meta d e) made refl)
      | inr e ↦
          rw (begin_again, e)
            (Begun.taken_up meta _ _ _ known (same_file meta d e) arrived made refl (record {
              u = _;
              registered = refl;
              is_own = (refl, refl);
              is_for = (refl, refl, refl);
              is_staged = (refl, refl);
              goes_on = refl;
              replied = refl;
              cursors_kept = refl;
            }))
    ]

    begin_new-Begun :
        (now : ℕ)
        → left_over d st ≡ none
        → Begun d now st (begin_new ext place caller space d now st fs)
    unfolding begin_new
    begin_new-Begun now new = elim (Option-cases (written d now fs)) [
      | inl e ↦ rw (begin_new, e) (Begun.no_meta fs new made e refl)
      | inr (fs1, e) ↦
          elim (Option-cases (open_create (part_path place caller space d.id) now fs1)) [
            | inl f ↦ rw (begin_new, e, f) (Begun.no_part fs fs1 new made e f refl)
            | inr (fs2, f) ↦
                rw (begin_new, e, f)
                  (Begun.started fs fs1 _ _ new made e f refl (record {
                    u = _;
                    registered = refl;
                    is_own = (refl, refl);
                    is_for = (refl, refl, refl);
                    is_staged = (refl, refl);
                    goes_on = refl;
                    replied = refl;
                    cursors_kept = refl;
                  }))
          ]
    ]

-- `write_begin` refuses a message whose declaration is not valid without any change. A valid one it
-- answers by what the staging file of the id was before: where it was of the same file, the upload
-- goes on at the length that its part had (zero where it cannot be read), under the hash of the
-- staging file; where it was of another file, the message is refused as a conflict; where there was
-- none, the staging file is written, the part is opened and the upload begins at zero. It is
-- refused with an I/O error just where the directory, the staging file or the part cannot be made.
-- An upload that is begun is registered under the id for the caller, the declared path and size,
-- the answer has its id and its count; a refusal registers nothing; the cursors stay.
pub write_begin-Begun :
    (ext : Externals) (place : Place) (frame : Frame) (caller : String) (now nanos : ℕ)
    (st : Uploads)
    → ((e : OpError) × (read_declared ext place frame.payload nanos ≡ err e)
        × (write_begin ext place frame caller now nanos st ≡ (err e, st)))
      ⊎ ((d : Declared) × (read_declared ext place frame.payload nanos ≡ ok d)
          × Begun ext place caller
              (space_of frame)
              d
              now
              st
              (write_begin ext place frame caller now nanos st))
unfolding write_begin
write_begin-Begun ext place frame caller now nanos st =
    elim (Result-cases (read_declared ext place frame.payload nanos)) [
      | inr (e, h) ↦ inl (e, h, rw (write_begin, h) refl)
      | inl (d, h) ↦ inr (
        d,
        h,
        elim (Option-cases (create_dir_all (staging_dir place caller (space_of frame)) st.fs)) [
          | inl c ↦ rw (write_begin, h, c) (Begun.no_dir c refl)
          | inr (fs, c) ↦
              let same = left_over-made ext place caller (space_of frame) d st fs c in
              elim (Option-cases
                (old_meta ext place (staging_meta_path place caller (space_of frame) d.id) fs)) [
                  | inl m ↦
                      rw (write_begin, h, c, m)
                        (begin_new-Begun ext place caller (space_of frame) d st fs c now
                          (sym same ∙ m))
                  | inr (meta, m) ↦
                      rw (write_begin, h, c, m)
                        (begin_again-Begun ext place caller (space_of frame) d st fs c meta now
                          (sym same ∙ m))
                ]
        ],
      )
    ]

-- No branch touches the cursors.
pub write_begin-cursors :
    (ext : Externals) (place : Place) (frame : Frame) (caller : String) (now nanos : ℕ)
    (st : Uploads)
    → ((write_begin ext place frame caller now nanos st).1).cursors ≡ st.cursors
write_begin-cursors ext place frame caller now nanos st =
    elim (write_begin-Begun ext place frame caller now nanos st) [
      | inl (e, h, same) ↦ rw same refl
      | inr (d, h, b) ↦ Begun-cursors b
    ]
  where
    Begun-cursors :
        {d : Declared} {answer : Result OpError Fields × Uploads}
        → Begun ext place caller (space_of frame) d now st answer
        → (answer.1).cursors ≡ st.cursors
    Begun-cursors (Begun.taken_up meta z reply st' m s a c same is_begun) =
        rw same is_begun.cursors_kept
    Begun-cursors (Begun.started fs fs1 reply st' m c w o same is_begun) =
        rw same is_begun.cursors_kept
    Begun-cursors (Begun.no_dir c same) = rw same refl
    Begun-cursors (Begun.conflicting meta fs m o c same) = rw same refl
    Begun-cursors (Begun.no_meta fs m c w same) = rw same refl
    Begun-cursors (Begun.no_part fs fs1 m c w o same) = rw same refl
