-- ===== src/Protocol/Codec.antt =====
-- internal/protocol/codec.go: the sequenced little-endian envelope.
pub mod RoundTrip
use game_server_go.Base.{
  ℕ, ◌+◌, ◌*◌, ◌/◌, ◌%◌, ◌^◌, ◌<◌, List, [], ◌∷◌, ◌++◌, Option, none, some, Result, ok, err, ltb,
  ◌==◌, length, if◌then◌else◌,
}
use game_server_go.Base.Text.{Bytes}
use game_server_go.Messages.{Message}

abbrev pub header_size : ℕ
header_size = 10

abbrev pub max_frame_size : ℕ
max_frame_size = 64 * 1024

-- A decoded frame: the struct Message of the package.
pub record Frame : Type 0 where
  pub msg_id : ℕ
  pub seq : ℕ
  pub body : Bytes

pub data CodecError : Type 0 where
  nil_payload marshal_failed frame_too_large invalid_header : CodecError
  length_mismatch : ℕ → ℕ → CodecError

-- binary.LittleEndian.PutUint16 and PutUint32.
unfoldable pub le16 : ℕ → Bytes
le16 v = (v % 256) ∷ (v / 256 % 256) ∷ []

unfoldable pub le32 : ℕ → Bytes
le32 v = (v % 256) ∷ (v / 256 % 256) ∷ (v / 65536 % 256) ∷ (v / 16777216 % 256) ∷ []

-- binary.LittleEndian.Uint16 and Uint32.
unfoldable pub uint16_of : ℕ → ℕ → ℕ
uint16_of a b = a + 256 * b

unfoldable pub uint32_of : ℕ → ℕ → ℕ → ℕ → ℕ
uint32_of a b c d = a + 256 * b + 65536 * c + 16777216 * d

-- The frame of a body: its total length is converted to a uint32.
unfoldable pub frame_of : ℕ → ℕ → Bytes → Bytes
frame_of msg_id seq body =
    le32 ((header_size + length body) % 2 ^ 32) ++ (le16 msg_id ++ (le32 seq ++ body))

encode_body : ℕ → ℕ → Option Bytes → Result CodecError Bytes
encode_body msg_id seq none = err marshal_failed
encode_body msg_id seq (some body) =
    if ltb max_frame_size (header_size + length body)
    then err frame_too_large
    else ok (frame_of msg_id seq body)

-- proto.Marshal is the parameter `marshal`; it may fail. A nil payload is `none`.
unfoldable pub encode : (Message → Option Bytes) → ℕ → ℕ → Option Message → Result CodecError Bytes
unfolding encode_body
encode marshal msg_id seq none = err nil_payload
encode marshal msg_id seq (some payload) = encode_body msg_id seq (marshal payload)

decode_fields : ℕ → ℕ → ℕ → ℕ → Bytes → Result CodecError Frame
decode_fields total actual msg_id seq body =
    if total == actual
    then (if ltb max_frame_size total
        then err frame_too_large
        else ok (record { msg_id = msg_id; seq = seq; body = body }))
    else err (length_mismatch total actual)

-- The test `len(data) < HeaderSize` is the pattern.
unfoldable pub decode : Bytes → Result CodecError Frame
unfolding decode_fields uint16_of uint32_of
decode (l0 ∷ l1 ∷ l2 ∷ l3 ∷ m0 ∷ m1 ∷ s0 ∷ s1 ∷ s2 ∷ s3 ∷ body) =
    decode_fields (uint32_of l0 l1 l2 l3) (header_size + length body) (uint16_of m0 m1)
      (uint32_of s0 s1 s2 s3) body
decode _ = err invalid_header
