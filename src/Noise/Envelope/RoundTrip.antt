-- ===== src/Noise/Envelope/RoundTrip.antt =====
-- A frame that is encoded and decoded is the frame.
use Prim.Native.String.len
use Prim.Native.String.{len, ◌++◌ as ◌<>◌}
use text.Mathlib.TextPositions.{len-append}
use text.Mathlib.TextLemmas.{nil-append, cons-append}
use nexuspouch.Base.{
  String, ℕ, zero, suc, ◌+◌, ◌-◌, ◌%◌, ◌<◌, List, some, Lacks, ◌≡◌, refl, sym, ap, ◌∙◌, arith,
}
use nexuspouch.Result.{ok}
use nexuspouch.Noise.Envelope.{
  FrameType, hs, data_frame, err_frame, type_text, parse_type, WireFrame, Wire, protocol_version,
  Codec, IsLawful, repeat_equals, equals_sign, trim_end, padding, to_base64url, from_base64url,
  encode_frame, decode_frame,
}

trim_end-repeat_equals : (n : ℕ) → trim_end b'=' (repeat_equals n) ≡ String.[]
unfolding trim_end
trim_end-repeat_equals zero = refl
trim_end-repeat_equals (suc n) = rw (trim_end-repeat_equals n) refl

-- Padding behind a text without "=" is all that is trimmed.
pub trim_end-padded : (s : String) (n : ℕ) → Lacks b'=' s → trim_end b'=' (s <> repeat_equals n) ≡ s
unfolding trim_end
trim_end-padded String.[] n h = rw (nil-append (repeat_equals n)) (trim_end-repeat_equals n)
trim_end-padded (String.◌∷◌ c s) n h =
    let inner = trim_end-padded s n h.1 in
    rw (cons-append c s (repeat_equals n), inner) (ground (arith, h.0))

pub len-repeat_equals : (n : ℕ) → len (repeat_equals n) ≡ n
len-repeat_equals zero = len.nil
len-repeat_equals (suc n) =
    let head = len.cons equals_sign (repeat_equals n) in
    let inner = len-repeat_equals n in
    let next : 1 + len (repeat_equals n) ≡ suc n = omega arith in head ∙ next

-- The one way to fill a text up to a multiple of four.
fill-eq : (n k : ℕ) → k < 4 → (n + k) % 4 ≡ 0 → k ≡ (4 - n % 4) % 4
fill-eq n k small full = omega arith

fill-padding :
    (codec : Codec) (lawful : IsLawful codec) (bytes : List ℕ)
    → lawful.fill bytes ≡ padding (lawful.body bytes)
fill-padding codec lawful bytes =
    let total : len (codec.base64_encode bytes) ≡ len (lawful.body bytes) + lawful.fill bytes =
      ap len (lawful.padded bytes)
      ∙ len-append (lawful.body bytes) (repeat_equals (lawful.fill bytes))
      ∙ ap (λ k. len (lawful.body bytes) + k) (len-repeat_equals (lawful.fill bytes)) in
    fill-eq (len (lawful.body bytes)) (lawful.fill bytes) (lawful.fill_small bytes)
      (ap (λ k. k % 4) (sym total) ∙ lawful.in_fours bytes)

parse_type-type_text : (t : FrameType) → parse_type (type_text t) ≡ some t
unfolding parse_type
parse_type-type_text hs = refl
parse_type-type_text data_frame = refl
parse_type-type_text err_frame = refl

abbrev wire : FrameType → String → Wire
wire t p = record { v = protocol_version; t = type_text t; p = p }

-- A text that reads as the wire object of a frame is decoded to the frame.
decode_frame_of :
    (codec : Codec) (raw : String) (t : FrameType) (p : String) (bytes : List ℕ)
    → codec.from_json raw ≡ some (wire t p)
    → codec.base64_decode (p <> repeat_equals (padding p)) ≡ some bytes
    → decode_frame codec raw ≡ ok (record { frame_type = t; payload = bytes })
unfolding decode_frame from_base64url
decode_frame_of codec raw t p bytes h k = ground (arith, h, k, parse_type-type_text t)

-- Every frame comes back from its text, whatever the length of its payload: the padding that is cut
-- off before sending is what is put back after receiving. Base64 is taken for what it is: a text
-- without "=" and up to three "=" behind it, in fours, which decodes to the bytes; and the JSON of
-- the frame reads back.
pub decode_frame-encode_frame :
    (codec : Codec) (frame : WireFrame)
    → IsLawful codec
    → decode_frame codec (encode_frame codec frame) ≡ ok frame
unfolding encode_frame to_base64url
decode_frame-encode_frame codec frame lawful =
    let bytes = frame.payload in
    let p = lawful.body bytes in
    let trimmed : trim_end b'=' (codec.base64_encode bytes) ≡ p =
      ap (trim_end b'=') (lawful.padded bytes) ∙ trim_end-padded p _ (lawful.body_lacks bytes) in
    let back : codec.base64_decode (p <> repeat_equals (padding p)) ≡ some bytes =
      ap (λ k. codec.base64_decode (p <> repeat_equals k)) (sym (fill-padding codec lawful bytes))
      ∙ ap codec.base64_decode (sym (lawful.padded bytes))
      ∙ lawful.decodes bytes in
    ap (λ q. decode_frame codec (codec.to_json (wire frame.frame_type q))) trimmed
    ∙ decode_frame_of codec (codec.to_json (wire frame.frame_type p)) frame.frame_type p bytes
        (lawful.reads_back frame.frame_type p) back
