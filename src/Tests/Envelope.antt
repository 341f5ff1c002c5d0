-- ===== src/Tests/Envelope.antt =====
-- A frame of the encrypted channel, with a stand-in for the crates.
use Prim.Native.Char
use Prim.Native.String.{len, ◌++◌ as ◌<>◌}
use text.Mathlib.TextPositions.{len-append}
use nexuspouch.Base.{
  String, ℕ, zero, suc, ◌+◌, ◌-◌, ◌%◌, ◌<◌, eqb, List, [], ◌∷◌, Option, none, some, Lacks, ◌≡◌,
  refl, ap, ◌∙◌, arith, if◌then◌else◌, ◌==◌, is_code,
}
use nexuspouch.Result.{ok}
use nexuspouch.Noise.Envelope.{
  FrameType, hs, data_frame, err_frame, type_text, Wire, WireFrame, protocol_version, Codec,
  IsLawful, repeat_equals, trim_end, encode_frame, decode_frame,
}
use nexuspouch.Noise.Envelope.RoundTrip.{
  trim_end-padded, len-repeat_equals, decode_frame-encode_frame,
}
use nexuspouch.Tests.World.{encode_bytes, decode_bytes, decode-encode_bytes}

abbrev letter : String → String → String
letter t p =
    if t == "hs"
    then String.◌∷◌ "h" p
    else if t == "data"
    then String.◌∷◌ "d" p
    else String.◌∷◌ "e" p

abbrev type_of : Prim.Native.Char.Char → String
type_of c = if is_code b'h' c then "hs" else if is_code b'd' c then "data" else "err"

abbrev read_wire : String → Option Wire
read_wire String.[] = none
read_wire (String.◌∷◌ c p) = some (record { v = protocol_version; t = type_of c; p = p })

-- What fills a text up to a multiple of four.
abbrev missing : ℕ → ℕ
missing n = if eqb (n % 4) 0 then 0 else 4 - n % 4

missing-lt : (n : ℕ) → missing n < 4
missing-lt n = ground arith

missing-full : (n : ℕ) → (n + missing n) % 4 ≡ 0
missing-full n = ground arith

abbrev full_text : List ℕ → String
full_text bytes = encode_bytes bytes <> repeat_equals (missing (len (encode_bytes bytes)))

full_text-len : (bytes : List ℕ) → len (full_text bytes) % 4 ≡ 0
full_text-len bytes =
    let n = len (encode_bytes bytes) in
    ap (λ k. k % 4)
      (len-append (encode_bytes bytes) (repeat_equals (missing n))
        ∙ ap (λ k. n + k) (len-repeat_equals (missing n)))
    ∙ missing-full n

abbrev codec : Codec
codec = record {
  base64_encode = full_text;
  base64_decode = λ s. decode_bytes (trim_end b'=' s);
  to_json = λ w. letter w.t w.p;
  from_json = read_wire;
}

encode_bytes-Lacks : (bytes : List ℕ) → Lacks b'=' (encode_bytes bytes)
encode_bytes-Lacks [] = tt
encode_bytes-Lacks (zero ∷ bytes) = (omega arith, encode_bytes-Lacks bytes)
encode_bytes-Lacks (suc n ∷ bytes) = (omega arith, encode_bytes-Lacks (n ∷ bytes))

read_back :
    (t : FrameType) (p : String)
    → read_wire (letter (type_text t) p)
      ≡ some (record { v = protocol_version; t = type_text t; p = p })
read_back hs p = refl
read_back data_frame p = refl
read_back err_frame p = refl

codec-IsLawful : IsLawful codec
codec-IsLawful = record {
  body = encode_bytes;
  body_lacks = encode_bytes-Lacks;
  fill = λ bytes. missing (len (encode_bytes bytes));
  fill_small = λ bytes. missing-lt (len (encode_bytes bytes));
  padded = λ bytes. refl;
  in_fours = full_text-len;
  decodes = λ bytes.
      ap decode_bytes (
        trim_end-padded (encode_bytes bytes) (missing (len (encode_bytes bytes)))
          (encode_bytes-Lacks bytes))
      ∙ decode-encode_bytes bytes;
  reads_back = read_back;
}

abbrev hello : WireFrame
hello = record { frame_type = data_frame; payload = 1 ∷ 2 ∷ 3 ∷ [] }

decode_frame-encode_frame_example : decode_frame codec (encode_frame codec hello) ≡ ok hello
decode_frame-encode_frame_example = decode_frame-encode_frame codec hello codec-IsLawful
