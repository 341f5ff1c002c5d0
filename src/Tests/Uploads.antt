-- ===== src/Tests/Uploads.antt =====
-- An upload of the phone, in two chunks, and its commit.
use nexuspouch.Protocol.{normalize_path, keep_segments, is_drive_or_unc}
use nexuspouch.Protocol.Path.{normalize_path-IsSafe}
use nexuspouch.Base.{split_char, join, replace_char, none, false≢true, eq_iff}
use nexuspouch.Files.{create_dir_all, rename, alter, assign, without}
use nexuspouch.Store.Paths.{reject_symlink_under, strip_prefix, walk_links}
use nexuspouch.Store.Write.Commit.{move_in, clear_dest, place_part, dest_of}
use nexuspouch.Store.Write.Commit.Placed.{move_in-places}
use nexuspouch.Base.{
  String, ℕ, ℤ, pos, List, [], ◌∷◌, Any, some, ◌≡◌, ◌↔◌, ◌⊎◌, inl, refl, ap, arith,
}
use nexuspouch.Base.Dict
use nexuspouch.Base.Dict.{Dict}
use nexuspouch.Base.Json
use nexuspouch.Base.Json.{Fields, end, field, string, int, str_or_empty}
use nexuspouch.Result.{ok, err, OpError, op_error}
use nexuspouch.Protocol.{Frame, from_parts}
use nexuspouch.Files.{Node, file, dir, nil, entry, FilePath, find, get_entry, read_file}
use nexuspouch.Store.Stored.{absent}
use nexuspouch.Store.Cursors
use nexuspouch.Store.Write.{Upload, Uploads, check_upload_id}
use nexuspouch.Store.Write.Chunk.{write_chunk, with_received, chunk_reply}
use nexuspouch.Store.Write.Chunk.Bounds.{AllWithin, write_chunk-AllWithin}
use nexuspouch.Store.Write.Chunk.Assembly.{
  chunk_frame, send_all, write_chunk_next, send_all-assembles,
}
use nexuspouch.Store.Write.Commit.{Pending, pending, verify, ids_of, commit}
use nexuspouch.Store.Write.Commit.Verified.{IsVerified, verify_iff, commit_refuses}
use nexuspouch.Store.Write.Commit.Cursor.{HasCommitted, commit-cursors}
use nexuspouch.Tests.World.{phone, place, crates, crates-IsLawful, encode_bytes}

abbrev staging : FilePath
staging = "data" ∷ phone ∷ "files" ∷ ".staging" ∷ []

abbrev part : FilePath
part = "data" ∷ phone ∷ "files" ∷ ".staging" ∷ "u1.part" ∷ []

abbrev one : String → Node → Node
one name node = dir (entry name node nil)

abbrev disk : List ℕ → Node
disk bytes = one "data" (one phone (one "files" (one ".staging" (one "u1.part" (file bytes 0)))))

abbrev u : Upload
u = record {
  device = phone;
  space = "files";
  path = "a/b";
  tmp = part;
  meta_path = "data" ∷ phone ∷ "files" ∷ ".staging" ∷ "u1.json" ∷ [];
  declared_size = pos 3;
  declared_sha = encode_bytes (1 ∷ 2 ∷ 3 ∷ []);
  received = pos 0;
}

abbrev st : Uploads
st = record { fs = disk []; uploads = ("u1", u) ∷ []; cursors = absent }

id_ok : check_upload_id "u1" ≡ ok tt
unfolding check_upload_id
id_ok = refl

known : Dict.lookup "u1" st.uploads ≡ some u
unfolding Dict.lookup
known = refl

part_is_empty : read_file part (disk []) ≡ some []
unfolding find get_entry
part_is_empty = refl

abbrev two_chunks : List (List ℕ)
two_chunks = (1 ∷ 2 ∷ []) ∷ (3 ∷ []) ∷ []

send_all-assembles_example :
    (read_file part ((send_all crates "u1" 9 two_chunks 0 st).fs) ≡ some (1 ∷ 2 ∷ 3 ∷ []))
    × (Dict.lookup "u1" ((send_all crates "u1" 9 two_chunks 0 st).uploads)
        ≡ some (with_received (pos 3) u))
send_all-assembles_example =
    send_all-assembles crates "u1" 9 two_chunks st u "data"
      (phone ∷ "files" ∷ ".staging" ∷ "u1.part" ∷ []) [] 3 crates-IsLawful id_ok known refl refl
      part_is_empty refl (omega arith) (omega arith) (omega arith, (omega arith, tt))

within : AllWithin st
within = (
  record {
    size = 3;
    the_size = refl;
    some_size = omega arith;
    in_range = omega arith;
    count = 0;
    the_count = refl;
    is_within = omega arith;
  },
  tt,
)

abbrev second : Frame
second = chunk_frame crates "u1" 9 0 (1 ∷ 2 ∷ [])

write_chunk-AllWithin_example : AllWithin ((write_chunk crates second 9 st).1)
write_chunk-AllWithin_example = write_chunk-AllWithin crates second 9 st within

went_well : (write_chunk crates second 9 st).0 ≡ ok (chunk_reply (pos 2) 2)
went_well =
    ap (λ r. r.0)
      ((write_chunk_next crates "u1" 9 crates-IsLawful id_ok st u "data"
        (phone ∷ "files" ∷ ".staging" ∷ "u1.part" ∷ []) [] 3 (1 ∷ 2 ∷ []) known refl part_is_empty
        refl refl (omega arith) (omega arith) (omega arith)).1)

abbrev whole : Pending
whole = pending "u1" u (encode_bytes (1 ∷ 2 ∷ 3 ∷ [])) (pos 3)

abbrev full : Uploads
full = record { fs = disk (1 ∷ 2 ∷ 3 ∷ []); uploads = ("u1", u) ∷ []; cursors = absent }

verify_iff_example : (verify crates full "u1" ≡ ok whole) ↔ IsVerified crates full "u1" whole
verify_iff_example = verify_iff crates full "u1" whole

abbrev commit_frame : Frame
commit_frame =
    from_parts "commit" (field "upload_id" (string "u1") (field "upto_seq" (int (pos 4)) end))

refused : verify crates st "u1" ≡ err (op_error "hash_mismatch" "u1: size")
unfolding verify check_upload_id Dict.lookup find get_entry
refused = refl

-- An empty part is no whole file.
fails : (p : Pending) → ¬ IsVerified crates st "u1" p
fails p v = absurd (ground (arith, refused, (verify_iff crates st "u1" p).1 v))

some_fails : Any (λ id. (p : Pending) → ¬ IsVerified crates st id p) (ids_of commit_frame.payload)
unfolding ids_of Json.get
some_fails = inl fails

commit_refuses_example :
    (e : OpError) × (commit crates place "2026-01-01" 9 commit_frame phone st ≡ (err e, st))
commit_refuses_example = commit_refuses crates place "2026-01-01" 9 commit_frame phone st some_fails

commit-cursors_example :
    (((commit crates place "2026-01-01" 9 commit_frame phone full).1).cursors ≡ absent)
    ⊎ ((upto : ℤ) × HasCommitted crates place "2026-01-01" 9 commit_frame phone full upto
        × (((commit crates place "2026-01-01" 9 commit_frame phone full).1).cursors
            ≡ (Cursors.advance phone upto absent).1))
commit-cursors_example = commit-cursors crates place "2026-01-01" 9 commit_frame phone full

normal : normalize_path "a/b" ≡ ok "a/b"
unfolding normalize_path keep_segments split_char join is_drive_or_unc replace_char
normal = refl

nothing_there : find (dest_of place u) (disk (1 ∷ 2 ∷ 3 ∷ [])) ≡ none
unfolding find get_entry split_char
nothing_there = refl

moved : (move_in crates place "2026-01-01" 9 whole (disk (1 ∷ 2 ∷ 3 ∷ []))).0 ≡ ok tt
unfolding move_in clear_dest place_part find get_entry split_char create_dir_all
    reject_symlink_under strip_prefix walk_links rename alter assign without
moved = refl

move_in-places_example :
    (find (dest_of place u) ((move_in crates place "2026-01-01" 9 whole (disk (1 ∷ 2 ∷ 3 ∷ []))).1)
      ≡ find part (disk (1 ∷ 2 ∷ 3 ∷ [])))
    × (find part ((move_in crates place "2026-01-01" 9 whole (disk (1 ∷ 2 ∷ 3 ∷ []))).1) ≡ none)
move_in-places_example =
    move_in-places crates place "2026-01-01" 9 whole (disk (1 ∷ 2 ∷ 3 ∷ [])) "u1.part" "u1.json"
      refl refl (λ e. absurd (false≢true ((eq_iff "u1.json" "u1.part").1 e)))
      (normalize_path-IsSafe "a/b" "a/b" normal) nothing_there moved
