-- ===== src/Store/Write/Chunk/Assembly.antt =====
-- Chunks that are sent one behind the other put the content together again.
use nexuspouch.Base.{
  String, ℕ, ℤ, pos, ◌+ℤ◌, wrap_i64, max_ℤ, List, [], ◌∷◌, ◌++◌, All, some, length, length-append,
  append_nil, append_assoc, ◌≡◌, refl, sym, ap, ◌∙◌, arith, ◌≤◌, ◌<◌, ◌^◌, ◌+◌,
}
use nexuspouch.Base.Dict
use nexuspouch.Base.Dict.{lookup-insert_self}
use nexuspouch.Base.Float.{to_i64}
use nexuspouch.Base.Json
use nexuspouch.Base.Json.{Fields, end, field, string, int, str_or_empty, num, num-int}
use nexuspouch.Result.{Result, ok, OpError}
use nexuspouch.Protocol.{Frame, from_parts}
use nexuspouch.Files.{Node, FilePath, read_file}
use nexuspouch.Store.Externals.{Externals, IsLawful}
use nexuspouch.Store.Write.{Upload, Uploads, check_upload_id, max_chunk}
use nexuspouch.Store.Write.Chunk.{
  Accepted, accepted, accept_chunk, write_chunk, store_chunk, write_part, end_of, with_received,
  chunk_reply,
}
use nexuspouch.Store.Write.Chunk.Append.{write_part_appends}

end_small : (n m : ℕ) → n + m < 2 ^ 53 → wrap_i64 (pos n +ℤ pos m) ≡ pos (n + m)
unfolding ◌+ℤ◌ wrap_i64
end_small n m h = ground arith

abbrev pub joined : List (List ℕ) → List ℕ
joined [] = []
joined (raw ∷ chunks) = raw ++ joined chunks

max_next : (n m : ℕ) → max_ℤ (pos n) (pos (n + m)) ≡ pos (n + m)
max_next n m = ground arith

-- What `write_chunk` answers and leaves once the chunk is in the file.
abbrev written : Accepted → ℤ → Node → Uploads → Result OpError Fields × Uploads
written c received fs st = (
  ok (chunk_reply received (length c.raw)),
  record {
    fs = fs;
    uploads = Dict.insert c.id (with_received received c.upload) st.uploads;
    cursors = st.cursors;
  },
)

write_chunk-eq-store :
    (ext : Externals) (frame : Frame) (now : ℕ) (st : Uploads) (c : Accepted)
    → accept_chunk ext frame.payload st ≡ ok c
    → write_chunk ext frame now st ≡ store_chunk ext c now st
unfolding write_chunk
write_chunk-eq-store ext frame now st c h = ground arith

store_chunk-eq :
    (ext : Externals) (c : Accepted) (now : ℕ) (st : Uploads) (fs : Node)
    → write_part c.upload.tmp c.offset c.raw now st.fs ≡ some fs
    → store_chunk ext c now st ≡ written c (max_ℤ c.upload.received (end_of c.offset c.raw)) fs st
unfolding store_chunk
store_chunk-eq ext c now st fs h = ground arith

module _ (ext : Externals) (id : String) (now : ℕ) where
  -- The message for a chunk.
  abbrev pub chunk_frame : ℕ → List ℕ → Frame
  chunk_frame offset raw = from_parts "write.chunk" (
      field "upload_id" (string id)
        (field "offset" (int (pos offset)) (field "data" (string (ext.base64_encode raw)) end)))

  -- A client that sends chunk after chunk, each at the offset where the last one ended.
  unfoldable pub send_all : List (List ℕ) → ℕ → Uploads → Uploads
  send_all [] offset st = st
  send_all (raw ∷ chunks) offset st =
      send_all chunks (offset + length raw) ((write_chunk ext (chunk_frame offset raw) now st).1)

  module _ (lawful : IsLawful ext) (id_ok : check_upload_id id ≡ ok tt) where
    accept_next :
        (st : Uploads) (u : Upload) (n size : ℕ) (raw : List ℕ)
        → Dict.lookup id st.uploads ≡ some u
        → u.received ≡ pos n
        → u.declared_size ≡ pos size
        → n + length raw ≤ size
        → size < 2 ^ 53
        → length raw ≤ max_chunk
        → accept_chunk ext ((chunk_frame n raw).payload) st ≡ ok (accepted id raw (pos n) u)
    unfolding accept_chunk Json.get
    accept_next st u n size raw known r s a b c =
        let e0 : to_i64 (num ext.parse_f64 (some (int (pos n)))) ≡ pos n =
          num-int ext.parse_f64 n (omega (arith, a, b)) in
        let e1 : end_of (pos n) raw ≡ pos (n + length raw) =
          end_small n (length raw) (omega (arith, a, b)) in
        ground (arith, id_ok, lawful.base64 raw, known, r, s, e0, e1)

    -- One chunk: the part grows by it, and `received` by its length.
    pub write_chunk_next :
        (st : Uploads) (u : Upload) (x : String) (p : FilePath) (bytes : List ℕ) (size : ℕ)
        (raw : List ℕ)
        → Dict.lookup id st.uploads ≡ some u
        → u.tmp ≡ x ∷ p
        → read_file u.tmp st.fs ≡ some bytes
        → u.received ≡ pos (length bytes)
        → u.declared_size ≡ pos size
        → length bytes + length raw ≤ size
        → size < 2 ^ 53
        → length raw ≤ max_chunk
        → (fs' : Node) × (write_chunk ext (chunk_frame (length bytes) raw) now st
            ≡ written
                (accepted id raw (pos (length bytes)) u)
                (pos (length bytes + length raw))
                fs'
                st)
          × (read_file u.tmp fs' ≡ some (bytes ++ raw))
    write_chunk_next st u x p bytes size raw known t read r s a b c =
        let (fs', w, after) = write_part_appends x p st.fs bytes raw now (rw t at read) in
        let e = accept_next st u (length bytes) size raw known r s a b c in
        let e1 : end_of (pos (length bytes)) raw ≡ pos (length bytes + length raw) =
          end_small (length bytes) (length raw) (omega (arith, a, b)) in
        let e2 : max_ℤ u.received (end_of (pos (length bytes)) raw)
            ≡ pos (length bytes + length raw) =
          rw (e1, r) (max_next (length bytes) (length raw)) in
        let c = accepted id raw (pos (length bytes)) u in
        let w1 : write_part u.tmp (pos (length bytes)) raw now st.fs ≡ some fs' = rw t w in
        (
          fs',
          write_chunk-eq-store ext (chunk_frame (length bytes) raw) now st c e
              ∙ store_chunk-eq ext c now st fs' w1
              ∙ ap (λ r. written c r fs' st) e2,
          rw t after,
        )

    -- What is known of an upload between two chunks.
    record IsAt (u : Upload) (bytes : List ℕ) (st : Uploads) : Type 0 where
      known : Dict.lookup id st.uploads ≡ some (with_received (pos (length bytes)) u)
      read : read_file u.tmp st.fs ≡ some bytes

    send_all_from :
        (chunks : List (List ℕ)) (st : Uploads) (u : Upload) (x : String) (p : FilePath)
        (bytes : List ℕ) (size : ℕ)
        → IsAt u bytes st
        → u.tmp ≡ x ∷ p
        → u.declared_size ≡ pos size
        → length bytes + length (joined chunks) ≤ size
        → size < 2 ^ 53
        → All (λ raw. length raw ≤ max_chunk) chunks
        → IsAt u (bytes ++ joined chunks) (send_all chunks (length bytes) st)
    unfolding send_all
    send_all_from [] st u x p bytes size at_st t s a b c = rw (append_nil bytes) at_st
    send_all_from (raw ∷ chunks) st u x p bytes size at_st t s a b c =
        let (fs', e, read) =
          write_chunk_next st (with_received (pos (length bytes)) u) x p bytes size raw at_st.known
            t at_st.read refl s (omega (arith, a, length-append raw (joined chunks))) b c.0 in
        let st1 = (write_chunk ext (chunk_frame (length bytes) raw) now st).1 in
        let at_st1 : IsAt u (bytes ++ raw) st1 = record {
          known = rw (e, length-append bytes raw) (lookup-insert_self id _ st.uploads);
          read = rw e read;
        } in
        let rest =
          send_all_from chunks st1 u x p (bytes ++ raw) size at_st1 t s
            (omega (arith, a, length-append raw (joined chunks), length-append bytes raw)) b c.1 in
        rw (sym (append_assoc bytes raw (joined chunks)), sym (length-append bytes raw)) rest

-- A client that goes on where `received` stands, and sends the rest in chunks of at most 65536 bytes
-- one behind the other, within a declared size below 2^53, leaves a part that holds what was there
-- and the chunks behind it, and a count that is the length of the part.
pub send_all-assembles :
    (ext : Externals) (id : String) (now : ℕ) (chunks : List (List ℕ)) (st : Uploads) (u : Upload)
    (x : String) (p : FilePath) (bytes : List ℕ) (size : ℕ)
    → IsLawful ext
    → check_upload_id id ≡ ok tt
    → Dict.lookup id st.uploads ≡ some u
    → u.received ≡ pos (length bytes)
    → u.tmp ≡ x ∷ p
    → read_file u.tmp st.fs ≡ some bytes
    → u.declared_size ≡ pos size
    → length bytes + length (joined chunks) ≤ size
    → size < 2 ^ 53
    → All (λ raw. length raw ≤ max_chunk) chunks
    → (read_file u.tmp ((send_all ext id now chunks (length bytes) st).fs)
        ≡ some (bytes ++ joined chunks))
      × (Dict.lookup id ((send_all ext id now chunks (length bytes) st).uploads)
          ≡ some (with_received (pos (length (bytes ++ joined chunks))) u))
send_all-assembles ext id now chunks st u x p bytes size lawful id_ok known r t read s a b c =
    let end_at =
      send_all_from ext id now lawful id_ok chunks st u x p bytes size
        (record { known = rw (sym r) known; read = read }) t s a b c in
    (end_at.read, end_at.known)
