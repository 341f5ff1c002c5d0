-- ===== src/Tests/World.antt =====
-- Devices, paths and stand-ins for the crates that the tests share.
use nexuspouch.Base.{String, ℕ, zero, suc, ◌-◌, List, [], ◌∷◌, Option, none, some, ◌≡◌, refl, ap}
use nexuspouch.Store.Externals.{Externals, IsLawful}
use nexuspouch.Store.Paths.{Place}

abbrev pub laptop : String
laptop = "0123456789abcdef"

abbrev pub phone : String
phone = "fedcba9876543210"

abbrev pub place : Place
place = record { root = "data" ∷ []; device_id = laptop }

-- A byte as so many "a" and a "b".
abbrev unary : ℕ → String → String
unary zero s = String.◌∷◌ "b" s
unary (suc n) s = String.◌∷◌ "a" (unary n s)

abbrev pub encode_bytes : List ℕ → String
encode_bytes [] = String.[]
encode_bytes (n ∷ ns) = unary n (encode_bytes ns)

abbrev add_one : Option (List ℕ) → Option (List ℕ)
add_one (some (n ∷ ns)) = some (suc n ∷ ns)
add_one _ = none

abbrev add_zero : Option (List ℕ) → Option (List ℕ)
add_zero (some ns) = some (0 ∷ ns)
add_zero none = none

unfoldable pub decode_bytes : String → Option (List ℕ)
decode_bytes String.[] = some []
decode_bytes (String.◌∷◌ c s) =
    let rest = decode_bytes s in
    elim (Prim.Native.Char.code c - 97) [ zero ↦ add_one rest | suc n ↦ add_zero rest ]

abbrev pub crates : Externals
crates = record {
  sha256_hex = encode_bytes;
  base64_encode = encode_bytes;
  base64_decode = decode_bytes;
  parse_f64 = λ s. none;
  encode_staging = λ m. [];
  decode_staging = λ bytes. none;
  decode_created = λ bytes. none;
  canonicalize = λ path fs. some path;
  parse_date = λ s. none;
  link_stat = λ path. (0, 0);
}

decode_unary :
    (n : ℕ) (s : String) (ns : List ℕ)
    → decode_bytes s ≡ some ns
    → decode_bytes (unary n s) ≡ some (n ∷ ns)
unfolding decode_bytes
decode_unary zero s ns h = ap add_zero h
decode_unary (suc n) s ns h = ap add_one (decode_unary n s ns h)

pub decode-encode_bytes : (ns : List ℕ) → decode_bytes (encode_bytes ns) ≡ some ns
unfolding decode_bytes
decode-encode_bytes [] = refl
decode-encode_bytes (n ∷ ns) = decode_unary n (encode_bytes ns) ns (decode-encode_bytes ns)

pub crates-IsLawful : IsLawful crates
crates-IsLawful = record { base64 = decode-encode_bytes }
