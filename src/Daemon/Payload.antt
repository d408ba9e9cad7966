-- ===== src/Daemon/Payload.antt =====
-- internal/daemon/values.go: the payload of MsgData and MsgInput frames,
-- [session_id_len:1][session_id:N][data:rest]. The pooled buffer of AcquireDataPayload holds the
-- same bytes. `none` is ErrPayloadTooShort.
use wmux.Prelude.{
  ℕ, ◌%◌, ◌<◌, ◌≤◌, ◌≡◌, refl, false, take-append_le, drop-append_le, sym, ap, ◌∙◌, ◌↔◌, ltb,
  if◌then◌else◌, [], ◌∷◌, ◌++◌, Option, none, some, Bytes, length, take, drop, arith, length-append,
  length-take, take-length-append, drop-length-append, take-append-drop,
}

unfoldable pub encode_data_payload : Bytes → Bytes → Bytes
encode_data_payload id body = length id % 256 ∷ (id ++ body)

unfoldable pub decode_data_payload : Bytes → Option (Bytes × Bytes)
decode_data_payload [] = none
decode_data_payload (n ∷ rest) =
    if ltb (length rest) n then none else some (take n rest, drop n rest)

-- A payload is read back exactly if the id has at most 255 bytes: the length byte of a longer id is
-- the length modulo 256, so the reader takes a shorter id and counts the rest of it to the data.
pub decode-encode_iff :
    (id body : Bytes)
    → (decode_data_payload (encode_data_payload id body) ≡ some (id, body)) ↔ (length id < 256)
unfolding encode_data_payload decode_data_payload
decode-encode_iff id body = (shown, read_back)
  where
    shown : (decode_data_payload (encode_data_payload id body) ≡ some (id, body)) → length id < 256
    shown e = ground (arith, length-take (length id % 256) (id ++ body))

    read_back :
        length id < 256 → decode_data_payload (encode_data_payload id body) ≡ some (id, body)
    read_back h =
        let m : length id % 256 ≡ length id = omega arith in
        rw (m, take-length-append id body, drop-length-append id body)
          (ground (arith, length-append id body))

decode_data_payload_sound :
    (n : ℕ) (rest id body : Bytes)
    → n < 256
    → decode_data_payload (n ∷ rest) ≡ some (id, body)
    → (encode_data_payload id body ≡ n ∷ rest) × (length id < 256)
unfolding encode_data_payload decode_data_payload
decode_data_payload_sound n rest id body h e =
    ground (arith, take-append-drop n rest, length-take n rest)

-- What is encoded is always accepted: the reader takes as many bytes of the id as the length byte says,
-- which is the length modulo 256, and counts the rest of the id to the data.
decode-encode :
    (id body : Bytes)
    → decode_data_payload (encode_data_payload id body)
      ≡ some (take (length id % 256) id, drop (length id % 256) id ++ body)
unfolding encode_data_payload decode_data_payload
decode-encode id body =
    let within : length id % 256 ≤ length id = omega arith in
    let fits : ltb (length (id ++ body)) (length id % 256) ≡ false =
      ground (arith, length-append id body) in
    rw
      (
        fits,
        take-append_le (length id % 256) id body within,
        drop-append_le (length id % 256) id body within,
      )
      refl

-- Bytes are accepted as an id and a body exactly if they are the encoding of these and the id has at
-- most 255 bytes. For any id and body, the encoding is accepted as the first bytes of the id, as many
-- as its length modulo 256, and as the rest of the id followed by the body.
pub decode_data_payload_iff :
    (n : ℕ) (rest id body : Bytes)
    → n < 256
    → ((decode_data_payload (n ∷ rest) ≡ some (id, body))
        ↔ ((encode_data_payload id body ≡ n ∷ rest) × (length id < 256)))
      × (decode_data_payload (encode_data_payload id body)
          ≡ some (take (length id % 256) id, drop (length id % 256) id ++ body))
decode_data_payload_iff n rest id body h = (
  (
    decode_data_payload_sound n rest id body h,
    λ e. ap decode_data_payload (sym e.0) ∙ (decode-encode_iff id body).1 e.1,
  ),
  decode-encode id body,
)
