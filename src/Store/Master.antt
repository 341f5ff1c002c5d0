-- ===== src/Store/Master.antt =====
-- src/store/master.rs and `require_master` of src/store/mod.rs: which device is the master. The
-- argument `device` is the node's own id, `local.device_id`.
pub mod Laws
pub mod Convergence
use Prim.Native.String.{◌++◌ as ◌<>◌}
use nexuspouch.Base.{
  String, ℤ, pos, ◌+ℤ◌, wrap_i64, ltb_ℤ, eqb_ℤ, Bool, true, false, not, ◌&&◌, Option, none, some,
  if◌then◌else◌, ◌==◌,
}
use nexuspouch.Base.Decimal.{show_ℤ}
use nexuspouch.Base.Json
use nexuspouch.Base.Json.{
  Value, null, bool, int, string, array, object, nil, Fields, end, field, any_to_i64, str_or_empty,
  unwrap_or,
}
use nexuspouch.Result.{Result, ok, err, OpError, op_error, ◌>>=◌}
use nexuspouch.Protocol.{Frame, is_valid_device_id}
use nexuspouch.Store.Stored.{Stored, absent, broken, holds}
use nexuspouch.Store.Cursors.{CursorFile, load_locked, encode}

pub record MasterPointer : Type 0 where
  pub master : String
  pub epoch : ℤ

abbrev pub PointerFile : Type 0
PointerFile = Stored MasterPointer

unfoldable pub load_pointer : String → PointerFile → Result OpError MasterPointer
load_pointer device absent = ok (record { master = device; epoch = pos 0 })
load_pointer device broken = err (op_error "internal" "invalid JSON")
load_pointer device (holds p) =
    ok (if is_valid_device_id p.master then p else record p { master = device })

unfoldable pub require_master : String → PointerFile → Result OpError (Unit {0})
require_master device file = do
  p ← load_pointer device file
  if p.master == device
      then ok tt
      else err (op_error "not_master" ("master=" <> (p.master <> (" epoch=" <> show_ℤ p.epoch))))

unfoldable pub pointer_query : String → PointerFile → Result OpError Fields
pointer_query device file = do
  p ← load_pointer device file
  ok (field "master" (string p.master) (field "epoch" (int p.epoch) end))

abbrev not_applied : String → Fields
not_applied reason = field "applied" (bool false) (field "reason" (string reason) end)

abbrev pub frame_pointer : Frame → MasterPointer
frame_pointer frame = record {
  master = str_or_empty "master" frame.payload;
  epoch = unwrap_or (pos 0) (any_to_i64 (unwrap_or null (Json.get "epoch" frame.payload)));
}

-- what a pointer must be to be looked at
abbrev pub is_acceptable : MasterPointer → Bool
is_acceptable p = is_valid_device_id p.master && ltb_ℤ (pos 0) p.epoch

apply_loaded : MasterPointer → MasterPointer → PointerFile → Fields × PointerFile
apply_loaded p cur file =
    if ltb_ℤ p.epoch cur.epoch
    then (not_applied "stale", file)
    else if eqb_ℤ p.epoch cur.epoch
    then (if cur.master == p.master
        then (not_applied "unchanged", file)
        else (not_applied "same_epoch_conflict", file))
    else (
      field "applied" (bool true)
          (field "master" (string p.master) (field "epoch" (int p.epoch) end)),
      holds p,
    )

unfoldable pub apply_pointer :
    String → MasterPointer → PointerFile → Result OpError Fields × PointerFile
unfolding apply_loaded
apply_pointer device p file =
    if not (is_acceptable p)
    then (err (op_error "bad_op" "invalid master pointer"), file)
    else elim (load_pointer device file) [
      | err e ↦ (err e, file)
      | ok cur ↦ let (reply, file') = apply_loaded p cur file in (ok reply, file')
    ]

abbrev pub pointer_apply : String → Frame → PointerFile → Result OpError Fields × PointerFile
pointer_apply device frame = apply_pointer device (frame_pointer frame)

-- `cur.epoch + 1`, in the arithmetic of a release build, and the test that follows it
abbrev pub next_epoch : ℤ → ℤ
next_epoch epoch = let e = wrap_i64 (epoch +ℤ pos 1) in if ltb_ℤ e (pos 1) then pos 1 else e

abbrev hash_gate : Fields
hash_gate = field "ran" (bool false) (
    field "ok" (bool true) (
      field "devices" (array nil)
        (field "mismatches" (array nil) (field "mismatch_count" (int (pos 0)) end))))

-- The pointer is saved before the cursors are read.
unfoldable pub migrate : String → CursorFile → PointerFile → Result OpError Fields × PointerFile
migrate device cursors file = elim (load_pointer device file) [
  | err e ↦ (err e, file)
  | ok cur ↦
      let next : MasterPointer = record { master = device; epoch = next_epoch cur.epoch } in
      let reply = λ (m : Fields). field "master" (string device) (
        field "epoch" (int (next_epoch cur.epoch)) (
          field "old_master_reachable" (bool false) (
            field "cursors" (object m)
              (field "seeded_files" (int (pos 0)) (field "hash_gate" (object hash_gate) end))))) in
      ((do m ← load_locked cursors; ok (reply (encode m))), holds next)
]
