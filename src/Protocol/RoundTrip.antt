-- ===== src/Protocol/RoundTrip.antt =====
-- What `Encode` writes, `Decode` reads back.
use wmux.Prelude.{
  ℕ, Bool, ◌/◌, ◌≤◌, ◌<◌, ◌≡◌, refl, sym, ◌∙◌, ap, List, [], ◌∷◌, ◌++◌, Bytes, length, arith,
  append_assoc, append-nil, length-append, take-length-append, drop-length-append, ◌%◌, ◌^◌,
}
use wmux.Protocol.{
  Frame, ok, header, max_payload_size, protocol_version, encode, decode, read_body, parse_header,
  Read, uint32,
}
use wmux.Protocol.Streams.{Appends, Streams}

-- The wire format of a frame.
abbrev pub wire : Frame → Bytes
wire f = header f ++ f.payload

uint32-put_uint32 :
    (n : ℕ)
    → n < 2 ^ 32
    → uint32 (n / 2 ^ 24 % 256) (n / 2 ^ 16 % 256) (n / 2 ^ 8 % 256) (n % 256) ≡ n
uint32-put_uint32 n h = omega arith

-- A frame as every sender of the daemon builds it.
abbrev pub current : ℕ → Bytes → Frame
current t p = record { version = protocol_version; type = t; payload = p }

module _ {W : Type 0} (write : Bytes → W → W × Bool) (held : W → Bytes)
    (law : Appends write held) where
  encode-wire_of :
      (v t : ℕ) (p : Bytes) (w : W)
      → length p ≤ max_payload_size
      → let f : Frame = record { version = v; type = t; payload = p } in
        ((encode write f w).1 ≡ ok tt) × (held (encode write f w).0 ≡ held w ++ wire f)
  unfolding encode
  encode-wire_of v t [] w h = ground (arith, law.fine h0 w, law.appends h0 w)
    where
      h0 : Bytes
      h0 = header (record { version = v; type = t; payload = [] })
  encode-wire_of v t (x ∷ xs) w h = ground (
    arith,
    law.fine h0 w,
    law.appends h0 w,
    law.fine (x ∷ xs) (write h0 w).0,
    law.appends (x ∷ xs) (write h0 w).0,
    append_assoc (held w) h0 (x ∷ xs),
  )
    where
      h0 : Bytes
      h0 = header (record { version = v; type = t; payload = x ∷ xs })

  -- A frame within the limit is written whole, behind what was written before.
  pub encode-wire :
      (f : Frame) (w : W)
      → length f.payload ≤ max_payload_size
      → ((encode write f w).1 ≡ ok tt) × (held (encode write f w).0 ≡ held w ++ wire f)
  encode-wire f w h = encode-wire_of f.version f.type f.payload w h

module _ {R : Type 0} (read_full : ℕ → R → Read R) (left : R → Bytes)
    (law : Streams read_full left) where
  -- The header is read back, and then the body.
  pub decode-header :
      (f : Frame) (r : R) (rest : Bytes)
      → left r ≡ wire f ++ rest
      → (s : R) × (decode read_full r ≡ parse_header read_full (header f) s)
        × (left s ≡ f.payload ++ rest)
  unfolding decode
  decode-header f r rest e =
      let (s, got, remains) = law.enough 6 r (rw e (omega arith)) in
      (s, rw (rw e at got, decode), rw e at remains)

  read_body-payload :
      (v t : ℕ) (p rest : Bytes) (r : R)
      → left r ≡ p ++ rest
      → (s : R) × (read_body read_full v t (length p) r
          ≡ (s, ok (record { version = v; type = t; payload = p })))
        × (left s ≡ rest)
  unfolding read_body
  read_body-payload v t [] rest r e = (r, refl, e)
  read_body-payload v t (x ∷ xs) rest r e =
      let (s, got, remains) =
        law.enough (length (x ∷ xs)) r (rw e (omega (arith, length-append (x ∷ xs) rest))) in
      (
        s,
        rw (rw (e, take-length-append (x ∷ xs) rest) at got, read_body) (ground arith),
        rw (e, drop-length-append (x ∷ xs) rest) at remains,
      )

  parse_header-payload :
      (t : ℕ) (p rest : Bytes) (r : R)
      → length p ≤ max_payload_size
      → left r ≡ p ++ rest
      → let f : Frame = record { version = protocol_version; type = t; payload = p } in
        (s : R) × (parse_header read_full (header f) r ≡ (s, ok f)) × (left s ≡ rest)
  unfolding parse_header
  parse_header-payload t p rest r h e =
      let (s, got, remains) = read_body-payload protocol_version t p rest r e in
      let m : length p % 2 ^ 32 ≡ length p = omega arith in
      (s, rw (m, uint32-put_uint32 (length p) (omega arith)) (ground (arith, got)), remains)

  -- A frame of the current version on the wire is read back as it was, and what follows it is left
  -- for the next read.
  pub decode-wire :
      (t : ℕ) (p rest : Bytes) (r : R)
      → length p ≤ max_payload_size
      → left r ≡ wire (current t p) ++ rest
      → (s : R) × (decode read_full r ≡ (s, ok (current t p))) × (left s ≡ rest)
  decode-wire t p rest r h e =
      let (s, parsed, behind) = decode-header (current t p) r rest e in
      let (s', got, remains) = parse_header-payload t p rest s h behind in
      (s', parsed ∙ got, remains)

-- Messages: the type and the payload of each frame.
abbrev pub Messages : Type 0
Messages = List (ℕ × Bytes)

abbrev pub AllFit : Messages → Type 0
AllFit [] = Unit
AllFit ((t, p) ∷ ms) = (length p ≤ max_payload_size) × AllFit ms

abbrev pub wires : Messages → Bytes
wires [] = []
wires ((t, p) ∷ ms) = wire (current t p) ++ wires ms

-- `Conn.WriteFrame` for each message, `Conn.ReadFrame` as often.
abbrev pub encode_all : {W : Type 0} → (Bytes → W → W × Bool) → Messages → W → W
encode_all write [] w = w
encode_all write ((t, p) ∷ ms) w = encode_all write ms (encode write (current t p) w).0

abbrev pub Decodes : {R : Type 0} → (ℕ → R → Read R) → Messages → R → R → Type 0
Decodes read_full [] r s = r ≡ s
Decodes {R} read_full ((t, p) ∷ ms) r s =
    (m : R) × (decode read_full r ≡ (m, ok (current t p))) × Decodes read_full ms m s

encode_all-wires :
    {W : Type 0} (write : Bytes → W → W × Bool) (held : W → Bytes)
    → Appends write held
    → (ms : Messages) (w : W) → AllFit ms
    → held (encode_all write ms w) ≡ held w ++ wires ms
encode_all-wires write held law [] w h = sym (append-nil (held w))
encode_all-wires write held law ((t, p) ∷ ms) w (h, hs) =
    encode_all-wires write held law ms _ hs
    ∙ ap (λ b. b ++ wires ms) (encode-wire write held law (current t p) w h).1
    ∙ append_assoc (held w) (wire (current t p)) (wires ms)

decode_all-wires :
    {R : Type 0} (read_full : ℕ → R → Read R) (left : R → Bytes)
    → Streams read_full left
    → (ms : Messages) (r : R) → AllFit ms
    → left r ≡ wires ms
    → (s : R) × Decodes read_full ms r s × (left s ≡ [])
decode_all-wires read_full left law [] r h e = (r, refl, e)
decode_all-wires read_full left law ((t, p) ∷ ms) r (h, hs) e =
    let (m, got, behind) = decode-wire read_full left law t p (wires ms) r h e in
    let (s, gots, done) = decode_all-wires read_full left law ms m hs behind in
    (s, (m, got, gots), done)

-- Frames of the current version, none larger than the limit, that are encoded one after the other
-- into an empty lossless writer are decoded, in order and
-- unchanged, from a reader of what was written, and nothing is left over.
pub decode-encode :
    {W R : Type 0} (write : Bytes → W → W × Bool) (held : W → Bytes) (read_full : ℕ → R → Read R)
    (left : R → Bytes)
    → Appends write held
    → Streams read_full left
    → (ms : Messages) (w : W) (r : R) → AllFit ms
    → held w ≡ []
    → left r ≡ held (encode_all write ms w)
    → (s : R) × Decodes read_full ms r s × (left s ≡ [])
decode-encode write held read_full left wl rl ms w r h empty e =
    decode_all-wires read_full left rl ms r h (e ∙ encode_all-wires write held wl ms w h ∙ rw empty)
