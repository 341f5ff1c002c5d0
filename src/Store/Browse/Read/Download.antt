-- ===== src/Store/Browse/Read/Download.antt =====
-- A client that reads a file chunk after chunk until the reply says that it has ended.
use nexuspouch.Base.{
  String, ℕ, zero, suc, pos, ◌+◌, ◌*◌, ◌^◌, ◌<◌, ◌≤◌, List, [], ◌++◌, Bool, true, false, Option,
  none, some, if◌then◌else◌, ltb, length, length-append, drop, take-append-drop, drop-drop,
  take_short, length-take-le, length-drop, ◌≡◌, refl, ◌∙◌, sym, ap, arith, Bool-cases, inl, inr,
}
use nexuspouch.Base.Float.{to_u64, to_u64-of_ℤ}
use nexuspouch.Base.Json
use nexuspouch.Base.Json.{
  Fields, end, field, int, bool, string, num, ◌>>=?◌, as_str, as_bool, str_or_empty, unwrap_or,
}
use nexuspouch.Result.{Result, ok, err, OpError}
use nexuspouch.Protocol.{Frame, from_parts}
use nexuspouch.Files.{Node, file, FilePath, find}
use nexuspouch.Store.Externals.{Externals, IsLawful}
use nexuspouch.Store.Import.{require_import_grant}
use nexuspouch.Store.Local.{Local, Moment}
use nexuspouch.Store.Paths.{Place, resolve_path}
use nexuspouch.Store.Write.{max_chunk}
use nexuspouch.Store.Browse.{device_or_caller, gated}
use nexuspouch.Store.Browse.Read.{
  read, read_at, read_of_path, read_reply, chunk_length, slice, data_reply,
}

-- Asks for as much as one reply may hold.
abbrev pub read_frame : String → String → ℕ → Frame
read_frame space path offset = from_parts "read" (
    field "space" (string space)
      (field "path" (string path) (field "offset" (int (pos offset)) end)))

seekable : (offset : ℕ) → offset < 2 ^ 53 → ltb offset (2 ^ 63) ≡ true
seekable offset h = ground arith

lt_of_ltb : (a b : ℕ) → ltb a b ≡ true → a < b
lt_of_ltb a b h = ground arith

ltb_last : (a b : ℕ) → a ≤ b → ltb a b ≡ false → a ≡ b
ltb_last a b h k = ground arith

module _ (ext : Externals) (place : Place) (space path caller : String) (at : Moment) where
  abbrev data_of : Fields → List ℕ
  data_of reply = unwrap_or [] (ext.base64_decode (str_or_empty "data" reply))

  abbrev is_eof : Fields → Bool
  is_eof reply = unwrap_or true (Json.get "eof" reply >>=? as_bool)

  abbrev then_append : List ℕ → Option (List ℕ) → Option (List ℕ)
  then_append xs none = none
  then_append xs (some ys) = some (xs ++ ys)

  abbrev answered : Result OpError Fields × Local → Result OpError Fields
  answered (r, st) = r

  abbrev next : Result OpError Fields → (List ℕ → Option (List ℕ)) → Option (List ℕ)
  next (err e) rest = none
  next (ok reply) rest =
      if is_eof reply
      then some (data_of reply)
      else then_append (data_of reply) (rest (data_of reply))

  -- `none` where a reply is an error, or where the number of calls does not suffice.
  unfoldable pub download : ℕ → ℕ → Local → Option (List ℕ)
  download zero offset st = none
  download (suc calls) offset st =
      let answer = read ext place (read_frame space path offset) caller at st in
      next (answer.0) (λ got. download calls (offset + length got) (answer.1))

  -- Without a device the message is about the caller's own files, and passes the gate.
  gated_own :
      (offset : ℕ) (st : Local) (reply : Result OpError Fields)
      → gated (read_frame space path offset) caller at st reply ≡ (reply, st)
  unfolding gated require_import_grant Json.get
  gated_own offset st reply = refl

  read_own :
      (offset : ℕ) (st : Local)
      → read ext place (read_frame space path offset) caller at st
        ≡ (read_of_path ext place (read_frame space path offset) caller st.disk.fs, st)
  unfolding read
  read_own offset st = gated_own offset st _

  read_of_path_file :
      (offset : ℕ) (fs : Node) (full : FilePath) (bytes : List ℕ) (mtime : ℕ)
      → offset < 2 ^ 53
      → resolve_path ext place space caller path fs ≡ ok full
      → find full fs ≡ some (file bytes mtime)
      → read_of_path ext place (read_frame space path offset) caller fs
        ≡ ok (
            data_reply ext
              (slice ext offset max_chunk bytes)
              (ltb (length (slice ext offset max_chunk bytes)) max_chunk))
  unfolding read_of_path read_reply device_or_caller Json.get chunk_length read_at
  read_of_path_file offset fs full bytes mtime small resolved found =
      let e : to_u64 (num ext.parse_f64 (some (int (pos offset)))) ≡ offset =
        unfold num in to_u64-of_ℤ offset small in
      let d : to_u64 (num ext.parse_f64 none) ≡ 0 = unfold num in to_u64-of_ℤ 0 (omega arith) in
      rw (e, d, read_at, resolved, found, seekable offset small) refl

  download_step :
      (calls offset : ℕ) (st : Local) (full : FilePath) (bytes part : List ℕ) (mtime : ℕ)
      → IsLawful ext
      → offset < 2 ^ 53
      → resolve_path ext place space caller path st.disk.fs ≡ ok full
      → find full st.disk.fs ≡ some (file bytes mtime)
      → part ≡ slice ext offset max_chunk bytes
      → download (suc calls) offset st ≡ (
          if ltb (length part) max_chunk
          then some part
          else then_append part (download calls (offset + length part) st))
  unfolding download Json.get
  download_step calls offset st full bytes part mtime lawful small resolved found same =
      let e = read_of_path_file offset st.disk.fs full bytes mtime small resolved found in
      let d : read ext place (read_frame space path offset) caller at st
          ≡ (ok (data_reply ext part (ltb (length part) max_chunk)), st) =
        rw (read_own offset st, e, same) refl in
      ap (λ a. next (a.0) (λ got. download calls (offset + length got) (a.1))) d
      ∙ rw (lawful.base64 part) refl

  module _ (lawful : IsLawful ext) (full : FilePath) (bytes : List ℕ) (mtime : ℕ) where
    abbrev Serves : Local → Type 0
    Serves st =
        (resolve_path ext place space caller path st.disk.fs ≡ ok full)
        × (find full st.disk.fs ≡ some (file bytes mtime))

    download_from :
        (calls offset : ℕ) (st : Local)
        → Serves st
        → length bytes < 2 ^ 53
        → offset ≤ length bytes
        → length bytes < offset + calls * max_chunk
        → download calls offset st ≡ some (drop offset bytes)
    download_from zero offset st serves small inside enough = absurd (omega arith)
    download_from (suc calls) offset st serves small inside enough =
        let here = slice ext offset max_chunk bytes in
        let step =
          download_step calls offset st full bytes here mtime lawful (omega arith) serves.0 serves.1
            refl in
        let left = length-drop offset bytes inside in
        let whole = take-append-drop max_chunk (drop offset bytes) in
        elim (Bool-cases (ltb (length here) max_chunk)) [
          | inl last ↦
              step
              ∙ rw last (ap some (take_short max_chunk (drop offset bytes) (lt_of_ltb _ _ last)))
          | inr more ↦
              let full_part : length here ≡ max_chunk =
                ltb_last _ _ (length-take-le max_chunk (drop offset bytes)) more in
              let at_most : offset + length here ≤ length bytes =
                omega (
                  arith,
                  length-append here (drop max_chunk (drop offset bytes)),
                  ap length whole,
                ) in
              let rest =
                download_from calls (offset + length here) st serves small at_most (omega arith) in
              step
              ∙ rw (more, rest)
                  (ap (λ ys. some (here ++ ys))
                      (sym (drop-drop offset (length here) bytes)
                        ∙ ap (λ n. drop n (drop offset bytes)) full_part)
                    ∙ ap some whole)
        ]

    -- A client that reads one of its own files below 2^53 bytes chunk after chunk, as long as no
    -- reply says that the end has been reached, gets the content of the file, and more than a
    -- 65536th part of its length in calls is enough.
    pub download-file :
        (calls : ℕ) (st : Local)
        → resolve_path ext place space caller path st.disk.fs ≡ ok full
        → find full st.disk.fs ≡ some (file bytes mtime)
        → length bytes < 2 ^ 53
        → length bytes < calls * max_chunk
        → download calls 0 st ≡ some bytes
    download-file calls st resolved found small enough =
        download_from calls 0 st (resolved, found) small (omega arith) (omega arith)
