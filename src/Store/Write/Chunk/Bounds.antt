-- ===== src/Store/Write/Chunk/Bounds.antt =====
-- What a chunk does to `received`.
use mathlib.Core.Path.{subst}
use nexuspouch.Base.{
  ℕ, ℤ, pos, negsuc, ◌+ℤ◌, ◌≤ℤ◌, wrap_i64_of_fits, ltb_ℤ, max_ℤ, in_i64, true, false, ◌&&◌, some,
  Bool-cases, ltb, length, ◌≡◌, inl, inr, refl, sym, ap, arith, ◌≤◌, ◌<◌, ◌^◌,
}
use nexuspouch.Base.Dict
use nexuspouch.Base.Dict.{AllValues, AllValues-insert, AllValues-lookup, lookup-insert_self}
use nexuspouch.Base.Float.{to_i64-fits}
use nexuspouch.Base.Json
use nexuspouch.Base.Json.{Fields, int, str_or_empty, num}
use nexuspouch.Result.{ok, Result-cases}
use nexuspouch.Protocol.{Frame}
use nexuspouch.Store.Externals.{Externals}
use nexuspouch.Store.Write.{Upload, Uploads, max_chunk}
use nexuspouch.Store.Write.Chunk.{Accepted, write_chunk, end_of, with_received}
use nexuspouch.Store.Write.Chunk.Steps.{
  next_upload, IsAccepted, write_chunk_sound, write_chunk_failed,
}

-- An upload that has declared a size between 1 and 2^62, and has not received more than that.
pub record IsWithin (u : Upload) : Type 0 where
  pub size : ℕ
  pub the_size : u.declared_size ≡ pos size
  pub some_size : 0 < size
  pub in_range : size < 2 ^ 62
  pub count : ℕ
  pub the_count : u.received ≡ pos count
  pub is_within : count ≤ size

-- The sum of offset and length does not wrap around.
end_fits :
    (n count : ℕ) (offset : ℤ)
    → n ≤ max_chunk
    → count < 2 ^ 62
    → in_i64 offset ≡ true
    → ltb_ℤ (pos count) offset ≡ false
    → in_i64 (offset +ℤ pos n) ≡ true
unfolding ◌+ℤ◌
end_fits n count (pos o) a b c d = ground arith
end_fits n count (negsuc o) a b c d = ground arith

next_is_within :
    (count size : ℕ) (z : ℤ)
    → 0 < size
    → count ≤ size
    → (ltb_ℤ (pos 0) (pos size) && ltb_ℤ (pos size) z) ≡ false
    → (m : ℕ) × (max_ℤ (pos count) z ≡ pos m) × (pos count ≤ℤ pos m) × (m ≤ size)
next_is_within count size (pos k) a b c = elim (Bool-cases (ltb count k)) [
  | inl e ↦ (k, ground arith, ground arith, ground arith)
  | inr e ↦ (count, ground arith, ground arith, ground arith)
]
next_is_within count size (negsuc k) a b c = (count, ground arith, ground arith, ground arith)

module _ (ext : Externals) (payload : Fields) (st : Uploads) (c : Accepted)
    (a : IsAccepted ext payload st c) (w : IsWithin c.upload) where
  no_wrap : end_of c.offset c.raw ≡ c.offset +ℤ pos (length c.raw)
  no_wrap = wrap_i64_of_fits (c.offset +ℤ pos (length c.raw)) (
      end_fits (length c.raw) w.count c.offset a.small (ground (arith, w.is_within, w.in_range))
        (rw a.the_offset (to_i64-fits _)) (rw w.the_count at a.no_gap))

  IsWithin-next :
      IsWithin (with_received (max_ℤ c.upload.received (end_of c.offset c.raw)) c.upload)
      × (c.upload.received ≤ℤ max_ℤ c.upload.received (end_of c.offset c.raw))
  IsWithin-next =
      let (m, e, low, high) =
        next_is_within w.count w.size (end_of c.offset c.raw) w.some_size w.is_within
          (rw w.the_size at a.in_size) in
      (
        record {
          size = w.size;
          the_size = w.the_size;
          some_size = w.some_size;
          in_range = w.in_range;
          count = m;
          the_count = rw w.the_count e;
          is_within = high;
        },
        rw (w.the_count, e) low,
      )

-- Every upload in the registry is within its declared size.
abbrev pub AllWithin : Uploads → Type 0
AllWithin st = AllValues IsWithin st.uploads

-- Where every upload of the registry has declared a size between 1 and 2^62 and has not received
-- more, this stays so after any chunk, whatever its offset and length, and whether `write_chunk`
-- succeeds or fails.
pub write_chunk-AllWithin :
    (ext : Externals) (frame : Frame) (now : ℕ) (st : Uploads)
    → AllWithin st
    → AllWithin ((write_chunk ext frame now st).1)
write_chunk-AllWithin ext frame now st h =
    let st' = (write_chunk ext frame now st).1 in
    elim (Result-cases ((write_chunk ext frame now st).0)) [
      | inl (reply, e) ↦
          let w = write_chunk_sound ext frame now st reply st' (ap (λ r. (r, st')) e) in
          subst AllWithin (sym w.the_state) (
            AllValues-insert IsWithin w.chunk.id _ st.uploads
              ((IsWithin-next ext frame.payload st w.chunk w.is_accepted (
                AllValues-lookup IsWithin w.chunk.id st.uploads h w.chunk.upload
                  w.is_accepted.known)).0)
              h)
      | inr (f, e) ↦
          subst AllWithin (sym (write_chunk_failed ext frame now st f st' (ap (λ r. (r, st')) e))) h
    ]

-- Where every upload of the registry has declared a size between 1 and 2^62 and has not received
-- more, a chunk that is accepted never lowers the count of its upload, and the answer holds the new
-- count.
pub write_chunk_grows :
    (ext : Externals) (frame : Frame) (now : ℕ) (st : Uploads) (reply : Fields)
    → AllWithin st
    → (write_chunk ext frame now st).0 ≡ ok reply
    → (u u' : Upload) × (Dict.lookup (str_or_empty "upload_id" frame.payload) st.uploads ≡ some u)
      × (Dict.lookup
            (str_or_empty "upload_id" frame.payload)
            (((write_chunk ext frame now st).1).uploads)
          ≡ some u')
      × (u.received ≤ℤ u'.received)
      × (Json.get "received" reply ≡ some (int (u'.received)))
unfolding Json.get
write_chunk_grows ext frame now st reply h e =
    let st' = (write_chunk ext frame now st).1 in
    let w = write_chunk_sound ext frame now st reply st' (ap (λ r. (r, st')) e) in
    let c = w.chunk in
    let a = w.is_accepted in
    let id = str_or_empty "upload_id" frame.payload in
    let inside = AllValues-lookup IsWithin c.id st.uploads h c.upload a.known in
    (
      c.upload,
      next_upload c,
      subst (λ i. Dict.lookup i st.uploads ≡ some c.upload) a.the_id a.known,
      subst (λ s. Dict.lookup id s.uploads ≡ some (next_upload c)) (sym w.the_state)
          (subst
            (λ i.
              Dict.lookup i (Dict.insert c.id (next_upload c) st.uploads) ≡ some (next_upload c))
            a.the_id (lookup-insert_self c.id (next_upload c) st.uploads)),
      (IsWithin-next ext frame.payload st c a inside).1,
      subst (λ r. Json.get "received" r ≡ some (int (next_upload c).received)) (sym w.the_reply)
          refl,
    )
