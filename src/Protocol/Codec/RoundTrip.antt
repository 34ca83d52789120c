-- ===== src/Protocol/Codec/RoundTrip.antt =====
-- Frames of internal/protocol/codec.go against their decoding.
use game_server_go.Base.{
  ℕ, ◌+◌, ◌/◌, ◌%◌, ◌^◌, ◌≤◌, ◌<◌, ◌≡◌, refl, sym, Option-cases, ◌⊎◌, inl, inr, [], ◌∷◌, Option,
  none, some, ok, err, arith, length, All,
}
use game_server_go.Base.Text.{Bytes}
use game_server_go.Messages.{Message}
use game_server_go.Protocol.Codec.{
  Frame, CodecError, nil_payload, marshal_failed, frame_too_large, max_frame_size, header_size,
  encode, decode, frame_of, le16, le32, uint16_of, uint32_of, decode_fields,
}

abbrev pub IsByte : ℕ → Type 0
IsByte b = b < 256

uint32_of_le32 :
    (v : ℕ)
    → v < 2 ^ 32
    → uint32_of (v % 256) (v / 256 % 256) (v / 65536 % 256) (v / 16777216 % 256) ≡ v
unfolding uint32_of
uint32_of_le32 v h = omega arith

uint16_of_le16 : (v : ℕ) → v < 2 ^ 16 → uint16_of (v % 256) (v / 256 % 256) ≡ v
unfolding uint16_of
uint16_of_le16 v h = omega arith

length_roundtrip : (n : ℕ) → n ≤ max_frame_size → n % 2 ^ 32 ≡ n
length_roundtrip n h = omega arith

decode_fields_fits :
    (n id seq : ℕ) (body : Bytes)
    → n ≤ max_frame_size
    → decode_fields n n id seq body ≡ ok (record { msg_id = id; seq = seq; body = body })
unfolding decode_fields
decode_fields_fits n id seq body h = ground arith

pub decode-frame_of :
    (id seq : ℕ) (body : Bytes)
    → id < 2 ^ 16
    → seq < 2 ^ 32
    → header_size + length body ≤ max_frame_size
    → decode (frame_of id seq body) ≡ ok (record { msg_id = id; seq = seq; body = body })
unfolding decode frame_of le16 le32
decode-frame_of id seq body hi hs hb =
    let n : ℕ = header_size + length body in
    rw
      (
        length_roundtrip n hb,
        uint32_of_le32 n (omega arith),
        uint16_of_le16 id hi,
        uint32_of_le32 seq hs,
      )
      (decode_fields_fits n id seq body hb)

frame_length :
    (id seq : ℕ) (body : Bytes) → length (frame_of id seq body) ≡ header_size + length body
unfolding frame_of le16 le32
frame_length id seq body = omega arith

-- A payload that marshals to at most 65526 bytes is encoded, whatever it is; the frame holds ten
-- bytes more than the body; and `decode` reads the identifier, the sequence number and the body back.
pub decode-encode :
    (marshal : Message → Option Bytes) (id seq : ℕ) (payload : Message) (body : Bytes)
    → id < 2 ^ 16
    → seq < 2 ^ 32
    → marshal payload ≡ some body
    → header_size + length body ≤ max_frame_size
    → (wire : Bytes) × (encode marshal id seq (some payload) ≡ ok wire)
      × (length wire ≡ header_size + length body)
      × (decode wire ≡ ok (record { msg_id = id; seq = seq; body = body }))
unfolding encode
decode-encode marshal id seq payload body hi hs e hb = (
  frame_of id seq body,
  rw e (ground arith),
  frame_length id seq body,
  decode-frame_of id seq body hi hs hb,
)

-- `encode` fails on a nil payload, on one that does not marshal, and on one that marshals to more
-- than 65526 bytes, with an error for each, and never else.
pub encode_errors :
    (marshal : Message → Option Bytes) (id seq : ℕ) (payload : Option Message) (e : CodecError)
    → encode marshal id seq payload ≡ err e
    → ((payload ≡ none) × (e ≡ nil_payload))
      ⊎ (m : Message) × (payload ≡ some m)
        × (((marshal m ≡ none) × (e ≡ marshal_failed))
            ⊎ (body : Bytes) × (marshal m ≡ some body)
              × (max_frame_size < header_size + length body)
              × (e ≡ frame_too_large))
unfolding encode
encode_errors marshal id seq none e h = inl (refl, ground arith)
encode_errors marshal id seq (some m) e h = inr (
  m,
  refl,
  elim (Option-cases (marshal m)) [
    | inl x ↦ inl (x, ground arith)
    | inr (body, x) ↦ inr (body, x, ground arith, ground arith)
  ],
)

decode_fields-eq-ok :
    (total actual id seq : ℕ) (body : Bytes) (f : Frame)
    → decode_fields total actual id seq body ≡ ok f
    → (total ≡ actual)
      × (total ≤ max_frame_size)
      × (f ≡ record { msg_id = id; seq = seq; body = body })
unfolding decode_fields
decode_fields-eq-ok total actual id seq body f h = ground arith

le32-uint32_of :
    (a b c d : ℕ)
    → a < 256
    → b < 256
    → c < 256
    → d < 256
    → le32 (uint32_of a b c d) ≡ a ∷ b ∷ c ∷ d ∷ []
unfolding le32 uint32_of
le32-uint32_of a b c d p q r s = ground arith

le16-uint16_of : (a b : ℕ) → a < 256 → b < 256 → le16 (uint16_of a b) ≡ a ∷ b ∷ []
unfolding le16 uint16_of
le16-uint16_of a b p q = ground arith

frame_of-uints :
    (l0 l1 l2 l3 m0 m1 s0 s1 s2 s3 : ℕ) (body : Bytes)
    → All IsByte (l0 ∷ l1 ∷ l2 ∷ l3 ∷ m0 ∷ m1 ∷ s0 ∷ s1 ∷ s2 ∷ s3 ∷ body)
    → uint32_of l0 l1 l2 l3 ≡ header_size + length body
    → header_size + length body ≤ max_frame_size
    → frame_of (uint16_of m0 m1) (uint32_of s0 s1 s2 s3) body
      ≡ l0 ∷ l1 ∷ l2 ∷ l3 ∷ m0 ∷ m1 ∷ s0 ∷ s1 ∷ s2 ∷ s3 ∷ body
unfolding frame_of
frame_of-uints l0 l1 l2 l3 m0 m1 s0 s1 s2 s3 body b e h = rw (
  length_roundtrip _ h,
  ← e,
  le32-uint32_of l0 l1 l2 l3 (omega arith) (omega arith) (omega arith) (omega arith),
  le16-uint16_of m0 m1 (omega arith) (omega arith),
  le32-uint32_of s0 s1 s2 s3 (omega arith) (omega arith) (omega arith) (omega arith),
)

uint16_of-lt : (a b : ℕ) → a < 256 → b < 256 → uint16_of a b < 2 ^ 16
unfolding uint16_of
uint16_of-lt a b p q = omega arith

uint32_of-lt : (a b c d : ℕ) → a < 256 → b < 256 → c < 256 → d < 256 → uint32_of a b c d < 2 ^ 32
unfolding uint32_of
uint32_of-lt a b c d p q r s = omega arith

-- A frame of bytes that `decode` accepts is the very frame that its fields encode to: no two frames
-- decode alike, the declared length is the true one, and the fields fit their widths.
pub decode_canonical :
    (wire : Bytes) (f : Frame)
    → All IsByte wire
    → decode wire ≡ ok f
    → (wire ≡ frame_of f.msg_id f.seq f.body)
      × (f.msg_id < 2 ^ 16)
      × (f.seq < 2 ^ 32)
      × (length wire ≤ max_frame_size)
unfolding decode
decode_canonical (l0 ∷ l1 ∷ l2 ∷ l3 ∷ m0 ∷ m1 ∷ s0 ∷ s1 ∷ s2 ∷ s3 ∷ body) f b e =
    let (total, small, fields) =
      decode_fields-eq-ok (uint32_of l0 l1 l2 l3) (header_size + length body) (uint16_of m0 m1)
        (uint32_of s0 s1 s2 s3) body f e in
    rw fields (
      sym (frame_of-uints l0 l1 l2 l3 m0 m1 s0 s1 s2 s3 body b total (omega arith)),
      uint16_of-lt m0 m1 (omega arith) (omega arith),
      uint32_of-lt s0 s1 s2 s3 (omega arith) (omega arith) (omega arith) (omega arith),
      omega arith,
    )
decode_canonical _ f b e = cc
