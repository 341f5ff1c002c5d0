-- ===== src/Base/Json.antt =====
-- `serde_json::Value` and the accessors that the program uses on it.
use nexuspouch.Base.Tests.{if◌then◌else◌, Option-cases}
use mathlib.Core.Logic.{inl, inr}
use nexuspouch.Base.Int.{ℤ, pos, in_i64}
use nexuspouch.Base.Float
use nexuspouch.Base.Float.{F64, of_ℤ, to_i64, to_u64}
use mathlib.Core.Option.{Option, none, some}
use mathlib.Core.Bool.{Bool, true}
use Prim.Native.String.{String}
use mathlib.Core.Path.{◌≡◌, refl}
use Prim.Native.Nat.{ℕ, ◌<◌, ◌^◌}
use mathlib.Core.List.{List, [], ◌∷◌}
use native.Mathlib.Omega.{arith}
use text.Mathlib.Text.{◌==◌}
use text.Mathlib.TextEquality.{eq_iff}

mutual
  pub data Value : Type 0 where
    null : Value
    bool : Bool → Value
    -- an integer of the ranges of `i64` and `u64`
    int : ℤ → Value
    float : F64 → Value
    string : String → Value
    array : Items → Value
    object : Fields → Value

  pub data Items : Type 0 where
    nil : Items
    cons : Value → Items → Items

  -- `serde_json::Map`
  pub data Fields : Type 0 where
    end : Fields
    field : String → Value → Fields → Fields

-- `m.get(k)`
unfoldable pub get : String → Fields → Option Value
get k end = none
get k (field j v m) = if j == k then some v else get k m

-- `m.insert(k, v)`
unfoldable pub insert : String → Value → Fields → Fields
insert k v end = field k v end
insert k v (field j w m) = let rest = insert k v m in if j == k then field k v m else field j w rest

pub get-insert :
    (k j : String) (v : Value) (m : Fields)
    → get j (insert k v m) ≡ (if k == j then some v else get j m)
unfolding get insert
get-insert k j v end = refl
get-insert k j v (field i w m) =
    ground (arith, eq_iff k j, eq_iff i k, eq_iff i j, get-insert k j v m)

abbrev pub as_str : Value → Option String
as_str (string s) = some s
as_str _ = none

abbrev pub as_bool : Value → Option Bool
as_bool (bool b) = some b
as_bool _ = none

abbrev pub as_array : Value → Option Items
as_array (array xs) = some xs
as_array _ = none

abbrev pub as_object : Value → Option Fields
as_object (object m) = some m
as_object _ = none

infixl 5 ◌>>=?◌
abbrev pub ◌>>=?◌ {ℓ κ} : {A : Type ℓ} {B : Type κ} → Option A → (A → Option B) → Option B
none >>=? f = none
some a >>=? f = f a

abbrev pub unwrap_or {ℓ} : {A : Type ℓ} → A → Option A → A
unwrap_or d none = d
unwrap_or d (some a) = a

-- `m.get(k).and_then(|v| v.as_str()).unwrap_or("")`
abbrev pub str_or_empty : String → Fields → String
str_or_empty k m = unwrap_or "" (get k m >>=? as_str)

-- `store::any_to_i64`: an integer out of the range of `i64` goes through `f64`, as a float does.
unfoldable pub any_to_i64 : Value → Option ℤ
any_to_i64 (int z) = some (if in_i64 z then z else to_i64 (of_ℤ z))
any_to_i64 (float x) = some (to_i64 x)
any_to_i64 _ = none

-- What is read from a message or a file is in the range of `i64`.
pub any_to_i64-fits : (v : Value) (z : ℤ) → any_to_i64 v ≡ some z → in_i64 z ≡ true
unfolding any_to_i64
any_to_i64-fits (int y) z h = ground (arith, Float.to_i64-fits (of_ℤ y))
any_to_i64-fits (float x) z h = ground (arith, Float.to_i64-fits x)
any_to_i64-fits _ z h = cc

-- `store::payload_int64`
unfoldable pub payload_int64 : Fields → String → Option ℤ
payload_int64 payload key = get key payload >>=? any_to_i64

pub payload_int64-fits :
    (payload : Fields) (key : String) (z : ℤ) → payload_int64 payload key ≡ some z → in_i64 z ≡ true
unfolding payload_int64
payload_int64-fits payload key z h = elim (Option-cases (get key payload)) [
  | inl e ↦ absurd (ground arith)
  | inr (v, e) ↦ any_to_i64-fits v z (ground arith)
]

-- `store::num`; `parse` is `str::parse::<f64>` of the standard library.
module _ (parse : String → Option F64) where
  unfoldable pub num : Option Value → F64
  num (some (int z)) = of_ℤ z
  num (some (float x)) = x
  num (some (string s)) = unwrap_or (of_ℤ (pos 0)) (parse s)
  num _ = of_ℤ (pos 0)

  -- A size or an offset below 2^53 is read from a message as it is written there.
  pub num-int : (n : ℕ) → n < 2 ^ 53 → to_i64 (num (some (int (pos n)))) ≡ pos n
  unfolding num
  num-int n h = Float.to_i64-of_ℤ n h

-- `arr.iter().filter_map(|x| x.as_str().map(str::to_string)).collect()`
unfoldable pub strings : Items → List String
strings nil = []
strings (cons (string s) xs) = s ∷ strings xs
strings (cons _ xs) = strings xs
