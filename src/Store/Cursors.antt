-- ===== src/Store/Cursors.antt =====
-- src/store/cursors.rs: for each device the sequence number up to which it has been applied.
pub mod Laws
use nexuspouch.Base.{
  String, ℤ, pos, max_ℤ, List, [], ◌∷◌, Option, none, some, Bool, true, false, if◌then◌else◌,
}
use nexuspouch.Base.Dict
use nexuspouch.Base.Dict.{Dict}
use nexuspouch.Base.Json.{Fields, end, field, int, object, any_to_i64, unwrap_or}
use nexuspouch.Result.{Result, ok, err, OpError, op_error, ◌>>=◌}
use nexuspouch.Protocol.{is_valid_device_id}
use nexuspouch.Store.Stored.{Stored, absent, broken, holds}

-- `device_cursors.json`: the JSON object that has been read, with each key once (the reader keeps
-- the last of equal keys)
abbrev pub CursorFile : Type 0
CursorFile = Stored Fields

abbrev cons_some : String → Option ℤ → Dict ℤ → Dict ℤ
cons_some k none m = m
cons_some k (some n) m = (k, n) ∷ m

-- The loop of `load_locked`: values that are no numbers are skipped.
unfoldable pub decode : Fields → Dict ℤ
decode end = []
decode (field k v m) = cons_some k (any_to_i64 v) (decode m)

unfoldable pub load_locked : CursorFile → Result OpError (Dict ℤ)
load_locked absent = ok []
load_locked broken = err (op_error "internal" "invalid JSON")
load_locked (holds m) = ok (decode m)

-- `serde_json::to_string(m)`, and the loops of `sync_cursors` and `migrate` over the map
unfoldable pub encode : Dict ℤ → Fields
encode [] = end
encode ((k, n) ∷ m) = field k (int n) (encode m)

unfoldable pub applied_seq : String → CursorFile → Result OpError ℤ
applied_seq device file = do m ← load_locked file; ok (unwrap_or (pos 0) (Dict.lookup device m))

unfoldable pub advance : String → ℤ → CursorFile → Result OpError ℤ × CursorFile
advance device upto file = elim (load_locked file) [
  | err e ↦ (err e, file)
  | ok m ↦
      let next = max_ℤ (unwrap_or (pos 0) (Dict.lookup device m)) upto in
      (ok next, holds (encode (Dict.insert device next m)))
]

abbrev remove_found : String → Dict ℤ → Option ℤ → CursorFile → CursorFile
remove_found device m none file = file
remove_found device m (some n) file = holds (encode (Dict.remove device m))

unfoldable pub remove : String → CursorFile → Result OpError (Unit {0}) × CursorFile
remove device file = elim (load_locked file) [
  | err e ↦ (err e, file)
  | ok m ↦ (ok tt, remove_found device m (Dict.lookup device m) file)
]

unfoldable pub sync_hello : String → CursorFile → Result OpError Fields
sync_hello caller file =
    if is_valid_device_id caller
    then (do seq ← applied_seq caller file; ok (field "applied_seq" (int seq) end))
    else err (op_error "bad_path" "invalid caller")

unfoldable pub sync_cursors : CursorFile → Result OpError Fields
sync_cursors file = do m ← load_locked file; ok (field "cursors" (object (encode m)) end)
