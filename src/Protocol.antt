-- ===== src/Protocol.antt =====
-- src/protocol.rs: frames, device ids, path normalisation and access control.
pub mod Path
pub mod Acl
use Prim.Native.Char.{Char}
use Prim.Native.String
use Prim.Native.String.{len, ◌++◌ as ◌<>◌}
use nexuspouch.Base.{
  ℕ, String, List, [], ◌∷◌, ◌++◌, Bool, true, false, not, ◌&&◌, ◌||◌, Option, none, some, ◌==◌, leb,
  eqb, if◌then◌else◌, is_empty, is_code, all_chars, contains_char, starts_with_char, replace_char,
  split_char, join,
}
use nexuspouch.Base.Dict
use nexuspouch.Base.Json
use nexuspouch.Base.Json.{Fields, ◌>>=?◌, unwrap_or, as_str, as_bool, str_or_empty}
use nexuspouch.Result.{Result, ok, err, ◌>>=◌}

pub record Frame : Type 0 where
  pub op : String
  pub payload : Fields

-- `Frame::from_parts`
abbrev pub from_parts : String → Fields → Frame
from_parts op payload = record { op = op; payload = payload }

-- `frame.space().unwrap_or("")`
abbrev pub space_of : Frame → String
space_of frame = str_or_empty "space" frame.payload

-- `frame.device().unwrap_or("")`
abbrev pub device_of : Frame → String
device_of frame = str_or_empty "device" frame.payload

abbrev pub payload_bool : Frame → String → Bool
payload_bool frame key = unwrap_or false (Json.get key frame.payload >>=? as_bool)

-- '0'..='9' | 'a'..='f'
abbrev pub is_lower_hex : ℕ → Bool
is_lower_hex c = (leb b'0' c && leb c b'9') || (leb b'a' c && leb c b'f')

unfoldable pub is_valid_device_id : String → Bool
is_valid_device_id device = eqb (len device) 16 && all_chars is_lower_hex device

abbrev pub is_ascii_alphabetic : ℕ → Bool
is_ascii_alphabetic c = (leb b'a' c && leb c b'z') || (leb b'A' c && leb c b'Z')

unfoldable pub is_drive_or_unc : String → Bool
is_drive_or_unc (String.◌∷◌ c (String.◌∷◌ d rest)) =
    (is_code b':' d && is_ascii_alphabetic (Prim.Native.Char.code c))
    || (is_code b'\\' c && is_code b'\\' d)
is_drive_or_unc _ = false

unfoldable pub is_valid_space : String → Bool
is_valid_space s = s == "artifacts" || s == "files" || s == "attachments" || s == "backups"

unfoldable pub shared_readable : String → Bool
shared_readable s = s == "artifacts" || s == "files"

-- The loop of `normalize_path` over the segments; `out` are those that it has kept.
unfoldable pub keep_segments : List String → List String → Result String (List String)
keep_segments out [] = ok out
keep_segments out (seg ∷ rest) =
    let skip = keep_segments out rest in
    let keep = keep_segments (out ++ seg ∷ []) rest in
    if is_empty seg || seg == "."
    then skip
    else if seg == ".."
    then err "path traversal"
    else if starts_with_char b'.' seg
    then err ("dot segment: " <> seg)
    else keep

abbrev pub slash : Char
slash = "/"

-- `raw.replace('\\', "/").split('/')`
abbrev pub segments : String → List String
segments raw = split_char b'/' (replace_char b'\\' slash raw)

abbrev join_kept : List String → Result String String
join_kept [] = err "resolves to empty"
join_kept (p ∷ ps) = ok (join slash (p ∷ ps))

unfoldable pub normalize_path : String → Result String String
normalize_path raw =
    if is_empty raw
    then err "empty path"
    else if contains_char 0 raw
    then err "NUL in path"
    else if starts_with_char b'/' raw || starts_with_char b'~' raw
    then err "absolute path"
    else if is_drive_or_unc raw
    then err "drive/unc path"
    else do out ← keep_segments [] (segments raw); join_kept out

-- The operations of a frame, one for each string that the store matches on.
pub data Op : Type 0 where
  list meta read write_begin write_chunk commit delete stats : Op
  recycle_list recycle_restore recycle_empty : Op
  import_request import_pending import_grant import_reject import_grants : Op
  sync_hello sync_cursors pointer_query pointer_apply migrate : Op
  unknown : String → Op

abbrev op_table : List (String × Op)
op_table =
    ("list", list)
    ∷ ("meta", meta)
    ∷ ("read", read)
    ∷ ("write.begin", write_begin)
    ∷ ("write.chunk", write_chunk)
    ∷ ("commit", commit)
    ∷ ("delete", delete)
    ∷ ("stats", stats)
    ∷ ("recycle.list", recycle_list)
    ∷ ("recycle.restore", recycle_restore)
    ∷ ("recycle.empty", recycle_empty)
    ∷ ("import.request", import_request)
    ∷ ("import.pending", import_pending)
    ∷ ("import.grant", import_grant)
    ∷ ("import.reject", import_reject)
    ∷ ("import.grants", import_grants)
    ∷ ("sync.hello", sync_hello)
    ∷ ("sync.cursors", sync_cursors)
    ∷ ("master.pointer.query", pointer_query)
    ∷ ("master.pointer", pointer_apply)
    ∷ ("master.migrate", migrate)
    ∷ []

unfoldable pub parse_op : String → Op
unfolding Dict.lookup
parse_op op = unwrap_or (unknown op) (Dict.lookup op op_table)

pub data AclVerdict : Type 0 where
  allow deny_untrusted deny_acl deny_bad_op deny_bad_path : AclVerdict

abbrev pub trust_owner : String
trust_owner = "owner"

-- "write.begin" | "write.chunk" | "commit"; `begins` is the test on "write.begin".
abbrev check_write : Bool → String → String → String → AclVerdict
check_write begins space device caller =
    if not (is_empty space) && not (is_valid_space space)
    then deny_bad_op
    else if begins && is_empty space
    then deny_bad_op
    else if not (is_empty device) && not (device == caller)
    then deny_acl
    else allow

abbrev check_delete : String → String → String → AclVerdict
check_delete space device caller =
    if is_empty space || not (is_valid_space space)
    then deny_bad_op
    else if not (is_empty device || device == caller) && not (shared_readable space)
    then deny_acl
    else if not (is_empty device) && not (is_valid_device_id device)
    then deny_bad_op
    else allow

-- "list" | "meta" | "read"
abbrev check_read : String → String → String → Bool → String → AclVerdict
check_read space device caller seed grant =
    let bad_device = not (is_empty device) && not (is_valid_device_id device) in
    let ending = if bad_device then deny_bad_op else allow in
    if is_empty space || not (is_valid_space space)
    then deny_bad_op
    else if not (is_empty device || device == caller) && not (shared_readable space)
    then (if seed then ending else if is_empty grant then deny_acl else ending)
    else ending

abbrev only_loopback : Bool → AclVerdict
only_loopback loopback = if loopback then allow else deny_acl

abbrev check_op : Frame → String → Bool → Op → AclVerdict
check_op frame caller loopback list =
    check_read (space_of frame) (device_of frame) caller (payload_bool frame "seed")
      (str_or_empty "grant" frame.payload)
check_op frame caller loopback meta =
    check_read (space_of frame) (device_of frame) caller (payload_bool frame "seed")
      (str_or_empty "grant" frame.payload)
check_op frame caller loopback read =
    check_read (space_of frame) (device_of frame) caller (payload_bool frame "seed")
      (str_or_empty "grant" frame.payload)
check_op frame caller loopback write_begin =
    check_write true (space_of frame) (device_of frame) caller
check_op frame caller loopback write_chunk =
    check_write false (space_of frame) (device_of frame) caller
check_op frame caller loopback commit = check_write false (space_of frame) (device_of frame) caller
check_op frame caller loopback delete = check_delete (space_of frame) (device_of frame) caller
check_op frame caller loopback stats = allow
check_op frame caller loopback recycle_list = allow
check_op frame caller loopback recycle_restore = allow
check_op frame caller loopback recycle_empty = only_loopback loopback
check_op frame caller loopback import_request =
    let old = str_or_empty "old_device" frame.payload in
    if not (is_valid_device_id old) || old == caller then deny_bad_op else allow
check_op frame caller loopback import_pending = allow
check_op frame caller loopback import_grant = only_loopback loopback
check_op frame caller loopback import_reject = only_loopback loopback
check_op frame caller loopback import_grants = only_loopback loopback
check_op frame caller loopback sync_hello =
    let d = str_or_empty "device" frame.payload in
    if not (is_valid_device_id d) || not (d == caller) then deny_acl else allow
check_op frame caller loopback sync_cursors = allow
check_op frame caller loopback pointer_query = allow
check_op frame caller loopback pointer_apply = allow
check_op frame caller loopback migrate = allow
check_op frame caller loopback (unknown op) = deny_bad_op

unfoldable pub check_acl : Frame → String → String → Bool → AclVerdict
check_acl frame caller trust loopback =
    if not (trust == trust_owner)
    then deny_untrusted
    else check_op frame caller loopback (parse_op frame.op)
