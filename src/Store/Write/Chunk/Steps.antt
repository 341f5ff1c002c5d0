-- ===== src/Store/Write/Chunk/Steps.antt =====
-- What a `write_chunk` that succeeds has checked and done.
use mathlib.Core.Path.{subst}
use nexuspouch.Base.{
  ℕ, pos, ltb_ℤ, max_ℤ, false, ◌&&◌, some, Option-cases, length, ◌≡◌, inl, inr, refl, arith, ◌≤◌,
}
use nexuspouch.Base.Dict
use nexuspouch.Base.Dict.{AllValues, AllValues-insert, AllValues-lookup, lookup-insert_self}
use nexuspouch.Base.Float.{to_i64}
use nexuspouch.Base.Json
use nexuspouch.Base.Json.{Fields, int, str_or_empty, num}
use nexuspouch.Result.{ok, err, OpError, Result-cases}
use nexuspouch.Protocol.{Frame}
use nexuspouch.Files.{Node}
use nexuspouch.Store.Externals.{Externals}
use nexuspouch.Store.Write.{Upload, Uploads, check_upload_id, max_chunk}
use nexuspouch.Store.Write.Chunk.{
  Accepted, accepted, accept_chunk, write_chunk, store_chunk, write_part, end_of, with_received,
  chunk_reply,
}

-- The registry's entry after a chunk.
abbrev pub next_upload : Accepted → Upload
next_upload c = with_received (max_ℤ c.upload.received (end_of c.offset c.raw)) c.upload

-- What the guards of `write_chunk` let through.
pub record IsAccepted (ext : Externals) (payload : Fields) (st : Uploads) (c : Accepted)
    : Type 0 where
  pub the_id : c.id ≡ str_or_empty "upload_id" payload
  pub id_ok : check_upload_id c.id ≡ ok tt
  pub decoded : ext.base64_decode (str_or_empty "data" payload) ≡ some c.raw
  pub small : length c.raw ≤ max_chunk
  pub the_offset : c.offset ≡ to_i64 (num ext.parse_f64 (Json.get "offset" payload))
  pub known : Dict.lookup c.id st.uploads ≡ some c.upload
  pub no_gap : ltb_ℤ c.upload.received c.offset ≡ false
  pub in_size :
      (ltb_ℤ (pos 0) c.upload.declared_size && ltb_ℤ c.upload.declared_size (end_of c.offset c.raw))
      ≡ false

module _ (ext : Externals) where
  pub accept_chunk_sound :
      (payload : Fields) (st : Uploads) (c : Accepted)
      → accept_chunk ext payload st ≡ ok c
      → IsAccepted ext payload st c
  unfolding accept_chunk
  accept_chunk_sound payload st c h =
      let id = str_or_empty "upload_id" payload in
      let offset = to_i64 (num ext.parse_f64 (Json.get "offset" payload)) in
      elim (Result-cases (check_upload_id id)) [
        | inr (f, e) ↦ absurd (ground arith)
        | inl (t, e1) ↦ elim (Option-cases (ext.base64_decode (str_or_empty "data" payload))) [
          | inl e ↦ absurd (ground arith)
          | inr (raw, e2) ↦ elim (Option-cases (Dict.lookup id st.uploads)) [
            | inl e ↦ absurd (ground arith)
            | inr (u, e3) ↦
                let e4 : accepted id raw offset u ≡ c = ground arith in
                subst (IsAccepted ext payload st) e4 (record {
                  the_id = refl;
                  id_ok = ground arith;
                  decoded = e2;
                  small = ground arith;
                  the_offset = refl;
                  known = e3;
                  no_gap = ground arith;
                  in_size = ground arith;
                })
          ]
        ]
      ]

  -- A `write_chunk` that succeeds, step by step.
  pub record IsWritten (frame : Frame) (now : ℕ) (st : Uploads) (reply : Fields) (st' : Uploads)
      : Type 0 where
    pub chunk : Accepted
    pub fs : Node
    pub is_accepted : IsAccepted ext frame.payload st chunk
    pub is_written : write_part chunk.upload.tmp chunk.offset chunk.raw now st.fs ≡ some fs
    pub the_reply :
        reply
        ≡ chunk_reply
            (max_ℤ chunk.upload.received (end_of chunk.offset chunk.raw))
            (length chunk.raw)
    pub the_state : st' ≡ record {
      fs = fs;
      uploads =
          Dict.insert chunk.id
            (with_received
              (max_ℤ chunk.upload.received (end_of chunk.offset chunk.raw))
              chunk.upload)
            st.uploads;
      cursors = st.cursors;
    }

  pub write_chunk_sound :
      (frame : Frame) (now : ℕ) (st : Uploads) (reply : Fields) (st' : Uploads)
      → write_chunk ext frame now st ≡ (ok reply, st')
      → IsWritten frame now st reply st'
  unfolding write_chunk store_chunk
  write_chunk_sound frame now st reply st' h =
      elim (Result-cases (accept_chunk ext frame.payload st)) [
        | inr (f, e) ↦ absurd (ground arith)
        | inl (c, e) ↦ elim (Option-cases (write_part c.upload.tmp c.offset c.raw now st.fs)) [
          | inl d ↦ absurd (ground arith)
          | inr (fs, d) ↦ record {
            chunk = c;
            fs = fs;
            is_accepted = accept_chunk_sound frame.payload st c e;
            is_written = d;
            the_reply = ground arith;
            the_state = ground arith;
          }
        ]
      ]

  -- One that fails changes nothing.
  pub write_chunk_failed :
      (frame : Frame) (now : ℕ) (st : Uploads) (e : OpError) (st' : Uploads)
      → write_chunk ext frame now st ≡ (err e, st')
      → st' ≡ st
  unfolding write_chunk store_chunk
  write_chunk_failed frame now st f st' h =
      elim (Result-cases (accept_chunk ext frame.payload st)) [
        | inr (g, e) ↦ ground arith
        | inl (c, e) ↦ elim (Option-cases (write_part c.upload.tmp c.offset c.raw now st.fs)) [
          | inl d ↦ ground arith
          | inr (fs, d) ↦ absurd (ground arith)
        ]
      ]
