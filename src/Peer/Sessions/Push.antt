-- ===== src/Peer/Sessions/Push.antt =====
-- What a peer makes of the messages that a node pushes to it.
use nexuspouch.Base.{
  String, ℤ, pos, ◌<ℤ◌, in_i64, List, [], ◌∷◌, true, false, some, is_empty, ◌≡◌, refl, ap, ◌∙◌,
  arith,
}
use nexuspouch.Base.Json
use nexuspouch.Base.Json.{Value, int, string, array, bool, Fields, end, field, any_to_i64, strings}
use nexuspouch.Result.{ok}
use nexuspouch.Protocol.{from_parts, is_valid_device_id}
use nexuspouch.Store.Master.{MasterPointer, PointerFile, load_pointer, pointer_apply, frame_pointer}
use nexuspouch.Store.Master.Laws.{newer, load_pointer-apply_pointer}
use nexuspouch.Store.ImportAuth.{ImportGrant, ImportFiles, save_received}
use nexuspouch.Store.Import.{to_map, string_items, pushed_grant, receive_pushed_grant}
use nexuspouch.Peer.Sessions.{
  pointer_message, grant_message, copy_fields, strip_control, parse_store_control,
}

abbrev pointer_payload : MasterPointer → String → Fields
pointer_payload p from =
    field "master" (string p.master) (field "epoch" (int p.epoch) (field "from" (string from) end))

parse-pointer_message :
    (p : MasterPointer) (from : String)
    → parse_store_control (pointer_message p from)
      ≡ some ("master.pointer", "", pointer_payload p from)
unfolding parse_store_control strip_control Json.get Json.insert
parse-pointer_message p from = refl

any_to_i64-int : (z : ℤ) → in_i64 z ≡ true → any_to_i64 (int z) ≡ some z
unfolding any_to_i64
any_to_i64-int z h = rw h refl

frame_pointer-payload :
    (p : MasterPointer) (from : String)
    → in_i64 p.epoch ≡ true
    → frame_pointer (from_parts "master.pointer" (pointer_payload p from)) ≡ p
unfolding Json.get
frame_pointer-payload p from h = rw (any_to_i64-int p.epoch h) refl

-- A master pointer that a node pushes is read by the peer as a message without a request id for the
-- operation "master.pointer", and the peer goes by the newer of the pushed pointer and its own.
pub pushed_pointer_applies :
    (p cur : MasterPointer) (from device : String) (file : PointerFile)
    → in_i64 p.epoch ≡ true
    → load_pointer device file ≡ ok cur
    → (payload : Fields) × (parse_store_control (pointer_message p from)
        ≡ some ("master.pointer", "", payload))
      × (load_pointer device ((pointer_apply device (from_parts "master.pointer" payload) file).1)
          ≡ ok (newer cur p))
pushed_pointer_applies p cur from device file h readable = (
  pointer_payload p from,
  parse-pointer_message p from,
  rw (frame_pointer-payload p from h) (load_pointer-apply_pointer device p file cur readable),
)

abbrev grant_payload : ImportGrant → Fields
grant_payload g = field "grant_id" (string g.grant_id) (
    field "old_device" (string g.old_device) (
      field "spaces" (array (string_items g.spaces))
        (field "issued_at" (int g.issued_at) (field "expires_at" (int g.expires_at) end))))

abbrev grant_push : ImportGrant → Fields
grant_push g = field "type" (string "store") (
    field "ns" (string "store")
      (field "op" (string "import.grant") (field "v" (int (pos 1)) (grant_payload g))))

strings-string_items : (ss : List String) → strings (string_items ss) ≡ ss
unfolding strings
strings-string_items [] = refl
strings-string_items (s ∷ ss) = ap (λ r. s ∷ r) (strings-string_items ss)

parse-grant_message :
    (g : ImportGrant)
    → is_empty g.new_device ≡ false
    → (m : Fields) × (grant_message (to_map g) ≡ some (g.new_device, m))
      × (parse_store_control m ≡ some ("import.grant", "", grant_payload g))
unfolding grant_message copy_fields parse_store_control strip_control Json.get Json.insert to_map
parse-grant_message g h = (grant_push g, rw h refl, refl)

-- A grant as `grant` issues it: for some device, with some spaces, an end, and not revoked.
pub record IsIssued (g : ImportGrant) : Type 0 where
  pub some_id : is_empty g.grant_id ≡ false
  pub some_device : is_empty g.new_device ≡ false
  pub old_ok : is_valid_device_id g.old_device ≡ true
  pub space : String
  pub spaces : List String
  pub the_spaces : g.spaces ≡ space ∷ spaces
  pub issued_fits : in_i64 g.issued_at ≡ true
  pub expires_fits : in_i64 g.expires_at ≡ true
  pub some_end : pos 0 <ℤ g.expires_at
  pub not_revoked : g.revoked ≡ false

pushed_grant-payload :
    (g : ImportGrant) (now : ℤ)
    → IsIssued g
    → pushed_grant g.new_device g.old_device (grant_payload g) now ≡ g
unfolding Json.get
pushed_grant-payload g now i = ground (
  arith,
  strings-string_items g.spaces,
  any_to_i64-int g.issued_at i.issued_fits,
  any_to_i64-int g.expires_at i.expires_fits,
  i.the_spaces,
  i.some_end,
  i.not_revoked,
)

receive_known :
    (g : ImportGrant) (from : String) (now : ℤ) (files : ImportFiles)
    → IsIssued g
    → receive_pushed_grant g.new_device from (grant_payload g) now files
      ≡ save_received (pushed_grant g.new_device g.old_device (grant_payload g) now) files
unfolding receive_pushed_grant Json.get
receive_known g from now files i = rw (receive_pushed_grant, i.some_id, i.old_ok, i.old_ok) refl

-- The message that is built to push a grant as it is issued, is built for the device that the grant is
-- for; it reads as a message without a request id for the operation "import.grant"; and its payload,
-- whichever peer it comes from, is taken in as the very grant. That the message is sent is not part
-- of it.
pub grant_message_reads_back :
    (g : ImportGrant) (from : String) (now : ℤ) (files : ImportFiles)
    → IsIssued g
    → (m payload : Fields) × (grant_message (to_map g) ≡ some (g.new_device, m))
      × (parse_store_control m ≡ some ("import.grant", "", payload))
      × (receive_pushed_grant g.new_device from payload now files ≡ save_received g files)
grant_message_reads_back g from now files i =
    let (m, e, d) = parse-grant_message g i.some_device in
    (
      m,
      grant_payload g,
      e,
      d,
      receive_known g from now files i
          ∙ ap (λ h. save_received h files) (pushed_grant-payload g now i),
    )
