-- ===== src/Protocol.antt =====
-- internal/platform/protocol: frames, the codec and the connection. The io.Writer and io.Reader are
-- parameters: what `Write` and `io.ReadFull` do is the caller's choice, and the documented
-- behaviour of an in-memory stream is stated in Protocol/Streams.antt.

pub mod Streams
pub mod RoundTrip
pub mod Refusals
use wmux.Prelude.{
  ℕ, suc, ◌+◌, ◌*◌, ◌/◌, ◌%◌, ◌^◌, ltb, ◌==◌, not, if◌then◌else◌, Bool, List, [], ◌∷◌, ◌++◌, Bytes,
  length,
}

abbrev pub protocol_version : ℕ
protocol_version = 1

abbrev pub header_size : ℕ
header_size = 6

abbrev pub max_payload_size : ℕ
max_payload_size = 4 * 1024 * 1024

-- `type` is one byte.
pub record Frame : Type 0 where
  pub version : ℕ
  pub type : ℕ
  pub payload : Bytes

pub data Error : Type 0 where
  version_mismatch payload_too_large short_read write_header write_payload read_header : Error
  read_payload : Error

pub data Result {ℓ} (A : Type ℓ) : Type ℓ where
  ok : A → Result A
  err : Error → Result A

-- binary.BigEndian.PutUint32 and Uint32.
abbrev pub put_uint32 : ℕ → Bytes
put_uint32 n = n / 2 ^ 24 % 256 ∷ n / 2 ^ 16 % 256 ∷ n / 2 ^ 8 % 256 ∷ n % 256 ∷ []

abbrev pub uint32 : ℕ → ℕ → ℕ → ℕ → ℕ
uint32 a b c d = ((a * 256 + b) * 256 + c) * 256 + d

abbrev pub header : Frame → Bytes
header f = f.version ∷ f.type ∷ put_uint32 (length f.payload % 2 ^ 32)

module _ {W : Type 0} (write : Bytes → W → W × Bool) where
  abbrev pub write_body : Bytes → W → W × Result (Unit {0})
  write_body [] w = (w, ok tt)
  write_body (b ∷ bs) w =
      let (w', fine) = write (b ∷ bs) w in (w', (if fine then ok tt else err write_payload))

  -- `Codec.Encode`; the second part of what `write` gives is `err == nil`.
  unfoldable pub encode : Frame → W → W × Result (Unit {0})
  encode f w =
      if ltb max_payload_size (length f.payload)
      then (w, err payload_too_large)
      else let (w', fine) = write (header f) w in
        if fine then write_body f.payload w' else (w', err write_header)

-- What io.ReadFull reports: the bytes asked for, io.EOF or io.ErrUnexpectedEOF, or another error.
pub data Read (R : Type 0) : Type 0 where
  full : Bytes → R → Read R
  ended : R → Read R
  failed : R → Read R

module _ {R : Type 0} (read_full : ℕ → R → Read R) where
  unfoldable pub read_body : ℕ → ℕ → ℕ → R → R × Result Frame
  read_body version type len r =
      if len == 0
      then (r, ok (record { version = version; type = type; payload = [] }))
      else elim (read_full len r) [
        | full body r' ↦ (r', ok (record { version = version; type = type; payload = body }))
        | ended r' ↦ (r', err short_read)
        | failed r' ↦ (r', err read_payload)
      ]

  -- The header is an array of six bytes, so the last clause is never met.
  unfoldable pub parse_header : Bytes → R → R × Result Frame
  unfolding read_body
  parse_header (v ∷ t ∷ a ∷ b ∷ c ∷ d ∷ []) r =
      if not (v == protocol_version)
      then (r, err version_mismatch)
      else if ltb max_payload_size (uint32 a b c d)
      then (r, err payload_too_large)
      else read_body v t (uint32 a b c d) r
  parse_header _ r = (r, err short_read)

  -- `Codec.Decode`.
  unfoldable pub decode : R → R × Result Frame
  unfolding parse_header
  decode r = elim (read_full header_size r) [
    | full h r' ↦ parse_header h r'
    | ended r' ↦ (r', err short_read)
    | failed r' ↦ (r', err read_header)
  ]
