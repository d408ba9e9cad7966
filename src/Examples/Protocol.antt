-- ===== src/Examples/Protocol.antt =====
-- Frames on concrete inputs: an in-memory buffer is the writer and the reader.
use wmux.Prelude.{◌≡◌, refl, [], ◌∷◌, Bytes, codes, arith, ◌<◌, ◌==◌, false, ◌++◌, length}
use wmux.Protocol.{Frame, decode, err, version_mismatch, short_read, protocol_version, header_size}
use wmux.Protocol.Refusals.{decode_refuses}
use wmux.Protocol.Streams.{
  buffer_write, buffer_write-Appends, buffer_read_full, buffer_read_full-Streams,
}
use wmux.Protocol.RoundTrip.{wire, Messages, AllFit, encode_all, Decodes, decode-encode}

abbrev messages : Messages
messages = (2, codes "hello") ∷ (7, []) ∷ (3, codes "x") ∷ []

fits : AllFit messages
fits = (omega arith, (omega arith, (omega arith, tt)))

decode-encode_example :
    (s : Bytes) × Decodes buffer_read_full messages (encode_all buffer_write messages []) s
    × (s ≡ [])
decode-encode_example =
    decode-encode buffer_write (λ w. w) buffer_read_full (λ r. r) buffer_write-Appends
      buffer_read_full-Streams messages [] (encode_all buffer_write messages []) fits refl refl

-- A frame of version 9, and a stream of two bytes.
abbrev old_frame : Frame
old_frame = record { version = 9; type = 1; payload = codes "xy" }

is_old : (old_frame.version == protocol_version) ≡ false
is_old = refl

abbrev short_stream : Bytes
short_stream = 1 ∷ 2 ∷ []

too_short : length short_stream < header_size
too_short = omega arith

decode_refuses_example :
    ((s : Bytes) × (decode buffer_read_full (wire old_frame ++ []) ≡ (s, err version_mismatch))
      × (s ≡ old_frame.payload ++ []))
    × ((s : Bytes) × (decode buffer_read_full short_stream ≡ (s, err short_read)) × (s ≡ []))
decode_refuses_example =
    decode_refuses buffer_read_full (λ r. r) buffer_read_full-Streams old_frame
      (wire old_frame ++ []) short_stream [] refl is_old too_short
