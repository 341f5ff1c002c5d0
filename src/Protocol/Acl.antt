-- ===== src/Protocol/Acl.antt =====
-- `check_acl` of protocol.rs against a description of who may do what.
use text.Mathlib.TextLemmas.{cons-ne-nil}
use nexuspouch.Base.{String, Bool, true, false, ◌≡◌, ◌≢◌, ◌⊎◌, ◌↔◌, refl, arith, eq_iff, is_empty}
use nexuspouch.Base.Json.{str_or_empty}
use nexuspouch.Protocol.{
  Frame, space_of, device_of, payload_bool, is_valid_device_id, is_valid_space, shared_readable, Op,
  list, meta, read, write_begin, write_chunk, commit, delete, stats, recycle_list, recycle_restore,
  recycle_empty, import_request, import_pending, import_grant, import_reject, import_grants,
  sync_hello, sync_cursors, pointer_query, pointer_apply, migrate, unknown, parse_op, allow,
  trust_owner, check_write, check_delete, check_read, check_op, check_acl,
}

abbrev pub IsSpace : String → Type 0
IsSpace s = is_valid_space s ≡ true

-- The frame names the caller's own directory.
abbrev pub IsOwn : String → String → Type 0
IsOwn device caller = (device ≡ "") ⊎ (device ≡ caller)

abbrev pub IsDevice : String → Type 0
IsDevice device = is_valid_device_id device ≡ true

abbrev pub IsNoDevice : String → Type 0
IsNoDevice device = (device ≡ "") ⊎ IsDevice device

-- What a frame may ask for, operation by operation.
abbrev pub Permits : Frame → String → Bool → Op → Type 0
Permits f caller loopback write_begin = IsSpace (space_of f) × IsOwn (device_of f) caller
Permits f caller loopback write_chunk =
    ((space_of f ≡ "") ⊎ IsSpace (space_of f)) × IsOwn (device_of f) caller
Permits f caller loopback commit =
    ((space_of f ≡ "") ⊎ IsSpace (space_of f)) × IsOwn (device_of f) caller
Permits f caller loopback delete =
    IsSpace (space_of f)
    × IsNoDevice (device_of f)
    × (IsOwn (device_of f) caller ⊎ (shared_readable (space_of f) ≡ true))
Permits f caller loopback stats = Unit
Permits f caller loopback recycle_list = Unit
Permits f caller loopback recycle_restore = Unit
Permits f caller loopback recycle_empty = loopback ≡ true
Permits f caller loopback import_request =
    IsDevice (str_or_empty "old_device" f.payload) × (str_or_empty "old_device" f.payload ≢ caller)
Permits f caller loopback import_pending = Unit
Permits f caller loopback import_grant = loopback ≡ true
Permits f caller loopback import_reject = loopback ≡ true
Permits f caller loopback import_grants = loopback ≡ true
Permits f caller loopback sync_hello = IsDevice (device_of f) × (device_of f ≡ caller)
Permits f caller loopback sync_cursors = Unit
Permits f caller loopback pointer_query = Unit
Permits f caller loopback pointer_apply = Unit
Permits f caller loopback migrate = Unit
Permits f caller loopback (unknown op) = ⊥
Permits f caller loopback _ =
    IsSpace (space_of f)
    × IsNoDevice (device_of f)
    × (IsOwn (device_of f) caller
        ⊎ (shared_readable (space_of f) ≡ true)
        ⊎ (payload_bool f "seed" ≡ true)
        ⊎ (str_or_empty "grant" f.payload ≢ ""))

-- A text is empty exactly when the test says so.
pub is_empty_iff : (s : String) → (is_empty s ≡ true) ↔ (s ≡ "")
is_empty_iff String.[] = (λ _. refl, λ _. refl)
is_empty_iff (String.◌∷◌ c s) = (λ h. cc, λ h. absurd (cons-ne-nil c s h))

is_empty_of_IsSpace : (s : String) → IsSpace s → is_empty s ≡ false
unfolding is_valid_space
is_empty_of_IsSpace String.[] h = cc
is_empty_of_IsSpace (String.◌∷◌ c s) h = refl

check_write_iff :
    (begins : Bool) (space device caller : String)
    → (check_write begins space device caller ≡ allow)
      ↔ ((((begins ≡ false) × (space ≡ "")) ⊎ IsSpace space) × IsOwn device caller)
check_write_iff begins space device caller = ground (
  arith,
  is_empty_iff space,
  is_empty_of_IsSpace space,
  is_empty_iff device,
  eq_iff device caller,
)

check_delete_iff :
    (space device caller : String)
    → (check_delete space device caller ≡ allow)
      ↔ (IsSpace space × IsNoDevice device × (IsOwn device caller ⊎ (shared_readable space ≡ true)))
check_delete_iff space device caller = ground (
  arith,
  is_empty_iff space,
  is_empty_of_IsSpace space,
  is_empty_iff device,
  eq_iff device caller,
)

check_read_iff :
    (space device caller : String) (seed : Bool) (grant : String)
    → (check_read space device caller seed grant ≡ allow) ↔ (
        IsSpace space
        × IsNoDevice device
        × (IsOwn device caller ⊎ (shared_readable space ≡ true) ⊎ (seed ≡ true) ⊎ (grant ≢ "")))
check_read_iff space device caller seed grant = ground (
  arith,
  is_empty_iff space,
  is_empty_of_IsSpace space,
  is_empty_iff device,
  is_empty_iff grant,
  eq_iff device caller,
)

check_op_iff :
    (f : Frame) (caller : String) (loopback : Bool) (op : Op)
    → (check_op f caller loopback op ≡ allow) ↔ Permits f caller loopback op
check_op_iff f caller loopback write_begin =
    ground (arith, check_write_iff true (space_of f) (device_of f) caller)
check_op_iff f caller loopback write_chunk =
    ground (arith, check_write_iff false (space_of f) (device_of f) caller)
check_op_iff f caller loopback commit =
    ground (arith, check_write_iff false (space_of f) (device_of f) caller)
check_op_iff f caller loopback delete = check_delete_iff (space_of f) (device_of f) caller
check_op_iff f caller loopback import_request =
    ground (arith, eq_iff (str_or_empty "old_device" f.payload) caller)
check_op_iff f caller loopback sync_hello = ground (arith, eq_iff (device_of f) caller)
check_op_iff f caller loopback list = check_read_iff _ _ _ _ _
check_op_iff f caller loopback meta = check_read_iff _ _ _ _ _
check_op_iff f caller loopback read = check_read_iff _ _ _ _ _
check_op_iff f caller loopback _ = ground arith

-- A frame is allowed exactly when its sender is an owner and the operation is permitted to it:
-- writing goes to the sender's own directory, deleting also to the shared spaces of others,
-- reading also to private spaces under a seed flag or a named grant, the emptying of the recycle
-- bin and the administration of imports to the loopback client alone, and an unknown operation to
-- nobody.
pub check_acl-eq-allow_iff :
    (f : Frame) (caller trust : String) (loopback : Bool)
    → (check_acl f caller trust loopback ≡ allow)
      ↔ ((trust ≡ trust_owner) × Permits f caller loopback (parse_op f.op))
unfolding check_acl
check_acl-eq-allow_iff f caller trust loopback =
    ground (arith, eq_iff trust trust_owner, check_op_iff f caller loopback (parse_op f.op))
