-- ===== src/Peer/Sessions.antt =====
-- src/peer/sessions.rs: the messages that a node pushes to its peers, and the reading of messages
-- of the peers. A message is the object that `serde_json` has read or will write.
pub mod Push
pub mod Registry
use nexuspouch.Base.{
  String, ℤ, pos, List, [], ◌∷◌, Bool, true, false, ◌||◌, Option, none, some, if◌then◌else◌, ◌==◌,
  is_empty,
}
use nexuspouch.Base.Json
use nexuspouch.Base.Json.{
  Value, int, string, Fields, end, field, as_str, as_object, ◌>>=?◌, str_or_empty,
}
use nexuspouch.Store.Master.{MasterPointer}

-- the object of `fanout_master_pointer`
abbrev pub pointer_message : MasterPointer → String → Fields
pointer_message p from = field "type" (string "store") (
    field "ns" (string "store") (
      field "op" (string "master.pointer") (
        field "v" (int (pos 1)) (
          field "master" (string p.master)
            (field "epoch" (int p.epoch) (field "from" (string from) end))))))

abbrev copied : String → Option Value → Fields → Fields
copied k none m = m
copied k (some v) m = Json.insert k v m

-- The loop of `push_import_grant` over the names of the fields that are sent.
unfoldable pub copy_fields : List String → Fields → Fields → Fields
copy_fields [] grant m = m
copy_fields (k ∷ ks) grant m = copy_fields ks grant (copied k (Json.get k grant) m)

-- The object of `push_import_grant` and the device that it is sent to; a grant without a device is
-- not sent.
unfoldable pub grant_message : Fields → Option (String × Fields)
grant_message grant =
    let device = str_or_empty "new_device" grant in
    if is_empty device
    then none
    else some (
      device,
      copy_fields ("grant_id" ∷ "old_device" ∷ "spaces" ∷ "issued_at" ∷ "expires_at" ∷ []) grant (
          field "type" (string "store") (
            field "ns" (string "store")
              (field "op" (string "import.grant") (field "v" (int (pos 1)) end)))),
    )

abbrev is_control : String → Bool
is_control k = k == "type" || k == "ns" || k == "op" || k == "v" || k == "req_id"

-- The last loop of `parse_store_control`.
unfoldable pub strip_control : Fields → Fields → Fields
strip_control payload end = payload
strip_control payload (field k v m) =
    let skip = strip_control payload m in
    let keep = strip_control (Json.insert k v payload) m in if is_control k then skip else keep

-- What `parse_store_control` takes for the payload: the object under "payload" where there is no
-- "ns", and otherwise the fields of the message itself.
abbrev chosen : Option Value → Option Value → Fields → Fields
chosen (some (Json.object nested)) none obj = nested
chosen _ _ obj = strip_control end obj

unfoldable pub parse_store_control : Fields → Option (String × String × Fields)
parse_store_control obj = elim (Json.get "op" obj >>=? as_str) [
  | none ↦ none
  | some op ↦
      some (op, str_or_empty "req_id" obj, chosen (Json.get "payload" obj) (Json.get "ns" obj) obj)
]
