-- ===== src/Noise/Envelope.antt =====
-- src/noise/envelope.rs: frames of the encrypted channel as JSON texts with a base64 payload.
pub mod RoundTrip
use Prim.Native.Char.{Char}
use Prim.Native.String
use Prim.Native.String.{len, ◌++◌ as ◌<>◌}
use nexuspouch.Base.{
  String, ℕ, zero, suc, ◌<◌, ℤ, pos, eqb_ℤ, ◌-◌, ◌%◌, List, Bool, ◌&&◌, not, Option, none, some,
  if◌then◌else◌, ◌==◌, is_empty, is_code, Lacks, ◌≡◌,
}
use nexuspouch.Base.Decimal.{show_ℤ}
use nexuspouch.Result.{Result, ok, ◌>>=◌, ◌>>◌, ok_or, fail_if}

pub data FrameType : Type 0 where
  hs data_frame err_frame : FrameType

abbrev pub type_text : FrameType → String
type_text hs = "hs"
type_text data_frame = "data"
type_text err_frame = "err"

-- `FrameType::parse`
unfoldable pub parse_type : String → Option FrameType
parse_type s =
    if s == "hs"
    then some hs
    else if s == "data"
    then some data_frame
    else if s == "err"
    then some err_frame
    else none

pub record WireFrame : Type 0 where
  pub frame_type : FrameType
  pub payload : List ℕ

-- `WireFrame` and `WireIn`, the JSON object
pub record Wire : Type 0 where
  pub v : ℤ
  pub t : String
  pub p : String

abbrev pub protocol_version : ℤ
protocol_version = pos 2

abbrev pub equals_sign : Char
equals_sign = "="

-- `"=".repeat(n)`
abbrev pub repeat_equals : ℕ → String
repeat_equals zero = String.[]
repeat_equals (suc n) = String.◌∷◌ equals_sign (repeat_equals n)

-- `s.trim_end_matches(c)`
unfoldable pub trim_end : ℕ → String → String
trim_end n String.[] = String.[]
trim_end n (String.◌∷◌ c s) =
    let rest = trim_end n s in if is_empty rest && is_code n c then String.[] else String.◌∷◌ c rest

-- `(4 - s.len() % 4) % 4`
abbrev pub padding : String → ℕ
padding s = (4 - len s % 4) % 4

-- The crates `base64`, with the alphabet that is safe in URLs and with padding, and `serde_json`.
pub record Codec : Type 0 where
  pub base64_encode : List ℕ → String
  pub base64_decode : String → Option (List ℕ)
  pub to_json : Wire → String
  pub from_json : String → Option Wire

module _ (codec : Codec) where
  unfoldable pub to_base64url : List ℕ → String
  to_base64url bytes = trim_end b'=' (codec.base64_encode bytes)

  unfoldable pub from_base64url : String → Result String (List ℕ)
  from_base64url s = ok_or "invalid base64" (codec.base64_decode (s <> repeat_equals (padding s)))

  abbrev pub wire_of : WireFrame → Wire
  wire_of frame = record {
    v = protocol_version;
    t = type_text frame.frame_type;
    p = to_base64url frame.payload;
  }

  unfoldable pub encode_frame : WireFrame → String
  encode_frame frame = codec.to_json (wire_of frame)

  -- The texts of the crates' own errors are not modelled.
  unfoldable pub decode_frame : String → Result String WireFrame
  decode_frame raw = do
    obj ← ok_or "invalid JSON" (codec.from_json raw)
    fail_if (not (eqb_ℤ obj.v protocol_version)) ("unsupported version " <> show_ℤ obj.v)
    frame_type ← ok_or ("unsupported type " <> obj.t) (parse_type obj.t)
    payload ← from_base64url obj.p
    ok (record { frame_type = frame_type; payload = payload })

-- What the code relies on: base64 text is a body without "=" and up to three "=" behind it, is of a
-- length that is a multiple of four, and decodes to the bytes; and the JSON text of an object reads
-- back as the object.
pub record IsLawful (codec : Codec) : Type 0 where
  pub body : List ℕ → String
  pub body_lacks : (bytes : List ℕ) → Lacks b'=' (body bytes)
  pub fill : List ℕ → ℕ
  pub fill_small : (bytes : List ℕ) → fill bytes < 4
  pub padded :
      (bytes : List ℕ) → codec.base64_encode bytes ≡ body bytes <> repeat_equals (fill bytes)
  pub in_fours : (bytes : List ℕ) → len (codec.base64_encode bytes) % 4 ≡ 0
  pub decodes : (bytes : List ℕ) → codec.base64_decode (codec.base64_encode bytes) ≡ some bytes
  pub reads_back :
      (frame_type : FrameType) (p : String)
      → codec.from_json
          (codec.to_json (record { v = protocol_version; t = type_text frame_type; p = p }))
        ≡ some (record { v = protocol_version; t = type_text frame_type; p = p })
