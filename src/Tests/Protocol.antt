-- ===== src/Tests/Protocol.antt =====
-- Access control and paths.
use nexuspouch.Base.{
  String, List, [], ◌∷◌, ◌++◌, false, All, ◌≡◌, ◌↔◌, refl, split_char, join, replace_char, arith,
}
use nexuspouch.Base.Json.{end, field, string}
use nexuspouch.Result.{ok, err}
use nexuspouch.Protocol.{
  Frame, from_parts, trust_owner, check_acl, parse_op, allow, normalize_path, keep_segments,
  is_drive_or_unc,
}
use nexuspouch.Protocol.Acl.{Permits, check_acl-eq-allow_iff}
use nexuspouch.Protocol.Path.{IsSafe, normalize_path-IsSafe}
use nexuspouch.Protocol.Path.Again.{normalize_path-home}
use nexuspouch.Files.{Node, find, get_entry, dir, nil}
use nexuspouch.Store.Paths.{
  resolve_path, check_full, strip_prefix, reject_symlink_under, walk_links, is_link,
}
use nexuspouch.Store.Paths.Inside.{resolve_path_inside, resolve_path_free, base_of}
use nexuspouch.Tests.World.{laptop, phone, place, crates}

abbrev delete_frame : Frame
delete_frame =
    from_parts "delete" (field "space" (string "files") (field "device" (string phone) end))

check_acl-eq-allow_iff_example :
    (check_acl delete_frame laptop "owner" false ≡ allow)
    ↔ (("owner" ≡ trust_owner) × Permits delete_frame laptop false (parse_op "delete"))
check_acl-eq-allow_iff_example = check_acl-eq-allow_iff delete_frame laptop "owner" false

tidied : normalize_path "a/.//b" ≡ ok "a/b"
unfolding normalize_path keep_segments split_char join is_drive_or_unc replace_char
tidied = refl

normalize_path-IsSafe_example : All IsSafe (split_char b'/' "a/b")
normalize_path-IsSafe_example = normalize_path-IsSafe "a/.//b" "a/b" tidied

normalize_path-home_example :
    (normalize_path "./~x" ≡ ok "~x") × (normalize_path "~x" ≡ err "absolute path")
normalize_path-home_example =
    normalize_path-home "x" (omega arith, tt) (omega arith, tt) (omega arith, tt)

abbrev disk : Node
disk = dir nil

resolved :
    resolve_path crates place "files" phone "a/.//b" disk
    ≡ ok ("data" ∷ phone ∷ "files" ∷ "a" ∷ "b" ∷ [])
unfolding resolve_path check_full strip_prefix reject_symlink_under walk_links find normalize_path
    keep_segments split_char join is_drive_or_unc replace_char get_entry
resolved = refl

resolve_path_inside_example :
    (segs : List String) × (("data" ∷ phone ∷ "files" ∷ "a" ∷ "b" ∷ [])
      ≡ base_of place "files" phone ++ segs)
    × All IsSafe segs
resolve_path_inside_example =
    resolve_path_inside crates place "files" phone "a/.//b" disk _ resolved

resolve_path_free_example : is_link (find ("data" ∷ phone ∷ "files" ∷ "a" ∷ []) disk) ≡ false
resolve_path_free_example =
    resolve_path_free crates place "files" phone "a/.//b" disk _ ("a" ∷ []) ("b" ∷ []) refl resolved
      refl
