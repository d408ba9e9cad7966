-- ===== src/Protocol/Refusals.antt =====
-- What `Decode` refuses, and where it leaves the stream.
use wmux.Prelude.{ℕ, ◌≡◌, ◌<◌, ◌∙◌, refl, ◌==◌, false, [], ◌++◌, Bytes, length, arith}
use wmux.Protocol.{
  Frame, err, version_mismatch, short_read, protocol_version, header_size, header, decode,
  parse_header, Read,
}
use wmux.Protocol.Streams.{Streams}
use wmux.Protocol.RoundTrip.{wire, decode-header}

-- A frame of another version is refused before its payload is read: the payload is still there, for
-- the next read to take for a header. A stream that ends within the header is a short read.
pub decode_refuses :
    {R : Type 0} (read_full : ℕ → R → Read R) (left : R → Bytes)
    → Streams read_full left
    → (f : Frame) (r q : R) (rest : Bytes) → left r ≡ wire f ++ rest
    → (f.version == protocol_version) ≡ false
    → length (left q) < header_size
    → ((s : R) × (decode read_full r ≡ (s, err version_mismatch)) × (left s ≡ f.payload ++ rest))
      × ((s : R) × (decode read_full q ≡ (s, err short_read)) × (left s ≡ []))
unfolding decode
decode_refuses read_full left law f r q rest e other short =
    let (s, parsed, remains) = decode-header read_full left law f r rest e in
    let (t, ended_at, nothing) = law.too_few header_size q short in
    ((s, parsed ∙ refused f s other, remains), (t, rw (ended_at, decode) refl, nothing))
  where
    refused :
        (g : Frame) (s : _)
        → (g.version == protocol_version) ≡ false
        → parse_header read_full (header g) s ≡ (s, err version_mismatch)
    refused g s h = ground (arith, h)
