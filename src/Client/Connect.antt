-- ===== src/Client/Connect.antt =====
-- A client that opens its stream, against the handshake of the server.
use wmux.Prelude.{
  ℕ, ◌+◌, ◌<◌, ◌≤◌, ◌≡◌, refl, sym, ap, ◌∙◌, ltb, Bool, true, false, [], ◌∷◌, ◌++◌, none, some,
  Bytes, bytes_eq, bytes_eq_refl, lookup, insert, lookup-insert_self, lookup-insert_ne, length,
  take, drop, append-nil, length-append, take-length-append, drop-length-append, arith, ◌%◌,
}
use wmux.Protocol.{max_payload_size, Frame}
use wmux.Transport.{
  Creds, Host, Client, Server, Incoming, token_size, min_auth_payload_size, verify, judge_payload,
  judge, admits, channel_stream, sends, check_automation_mode, frame, msg_ok,
}
use wmux.Transport.Admission.{Permitted, check_automation_mode_iff}
use wmux.Transport.Registry.{
  accept, register, open_stream, open_stream_at, set_stream, broadcast_to, write_frame, fine,
  a_stream, answer, handle_conn, client,
}
use wmux.Client.Stream.{auth_frame}

-- The connection of a client that has read its id and dials.
pub record Dials (host : Host) (s : Server) (id : Bytes) (i : Incoming) : Type 0 where
  pub in_time : (i.deadline_set ≡ true) × (i.deadline_cleared ≡ true)
  pub peer : (creds : Creds) × (i.creds ≡ some creds) × Permitted host s.mode creds
  pub writes : i.frame ≡ some (auth_frame s.token id)
  pub token : length s.token ≡ token_size
  pub id_fits : (0 < length id) × (length id < 256)

verify_refl : (t : Bytes) → length t ≡ token_size → verify t t ≡ true
unfolding verify
verify_refl t h = ground (arith, h, bytes_eq_refl t)

judge-admits :
    (host : Host) (s : Server) (id : Bytes) (i : Incoming) (creds : Creds)
    → i.deadline_set ≡ true
    → i.deadline_cleared ≡ true
    → i.creds ≡ some creds
    → i.frame ≡ some (auth_frame s.token id)
    → length s.token ≡ token_size
    → check_automation_mode host s.mode creds ≡ true
    → judge host s i ≡ admits creds channel_stream (auth_frame s.token id).payload
unfolding judge judge_payload auth_frame
judge-admits host s id i creds set cleared peer writes size allowed =
    let rest : Bytes = s.token ++ length id % 256 ∷ id in
    let token_is : take token_size rest ≡ s.token =
      ap (λ k. take k rest) (sym size) ∙ take-length-append s.token (length id % 256 ∷ id) in
    let long : ltb (length (channel_stream ∷ rest)) min_auth_payload_size ≡ false =
      ground (arith, length-append s.token (length id % 256 ∷ id), size) in
    rw (set, peer, writes, long, token_is, verify_refl s.token size, allowed, cleared) refl

open_stream-opens :
    (conn : ℕ) (token id : Bytes) (s : Server) (c : Client)
    → length token ≡ token_size
    → 0 < length id
    → length id < 256
    → lookup id s.clients ≡ some c
    → c.stream ≡ none
    → open_stream conn (auth_frame token id).payload s ≡ (
      record s { clients = insert id (record c { stream = some conn }) s.clients },
      a_stream id,
      [],
    )
unfolding open_stream open_stream_at set_stream auth_frame
open_stream-opens conn token id s c size some_id small found free =
    let m : length id % 256 ≡ length id = omega arith in
    let rest : Bytes = token ++ length id ∷ id in
    let tail : drop token_size rest ≡ length id ∷ id =
      ap (λ k. drop k rest) (sym size) ∙ drop-length-append token (length id ∷ id) in
    let all : length (channel_stream ∷ rest) ≡ 1 + token_size + 1 + length id =
      omega (arith, length-append token (length id ∷ id), size) in
    let long : ltb (1 + token_size + 1 + length id) (1 + token_size + 2) ≡ false = ground arith in
    let fits : ltb (1 + token_size + 1 + length id) (1 + token_size + 1 + length id) ≡ false =
      ground arith in
    let same : take (length id) id ≡ id =
      ap (take (length id)) (sym (append-nil id)) ∙ take-length-append id [] in
    rw (m, all, tail, long, fits, same, found, free) refl

-- The registry with the stream of the client set.
abbrev streaming : ℕ → Bytes → Client → Server → Server
streaming conn id c s = record s { clients = insert id (record c { stream = some conn }) s.clients }

accept-streaming :
    (host : Host) (conn : ℕ) (i : Incoming) (s : Server) (id : Bytes) (c : Client)
    → Dials host s id i
    → lookup id s.clients ≡ some c
    → c.stream ≡ none
    → accept host conn i s ≡ (streaming conn id c s, a_stream id, [])
unfolding accept register
accept-streaming host conn i s id c d found free =
    let (creds, peer, permitted) = d.peer in
    ap (λ v. register conn i v s)
      (judge-admits host s id i creds d.in_time.0 d.in_time.1 peer d.writes d.token
        ((check_automation_mode_iff host s.mode creds).1 permitted))
    ∙ open_stream-opens conn s.token id s c d.token d.id_fits.0 d.id_fits.1 found free

within :
    (f : Frame)
    → length f.payload ≤ max_payload_size
    → ltb max_payload_size (length f.payload) ≡ false
within f small = ground arith

-- A permitted client that is registered without a stream and dials with the token and its id, of 1 to
-- 255 bytes, is accepted: the server answers OK, what is sent to the client from then on goes to the
-- new connection if that can be written to and the payload is within the limit, and every other client stays as it was.
pub handle_conn-connects :
    (host : Host) (conn : ℕ) (i : Incoming) (s : Server) (id : Bytes) (c : Client)
    → Dials host s id i
    → i.answered ≡ true
    → lookup id s.clients ≡ some c
    → c.stream ≡ none
    → ((handle_conn host conn i s).1 ≡ sends conn (frame msg_ok []) ∷ [])
      × ((writable : ℕ → Bool) (f : Frame)
          → writable conn ≡ true
          → length f.payload ≤ max_payload_size
          → broadcast_to writable id f (handle_conn host conn i s).0 ≡ (sends conn f ∷ [], fine))
      × ((j : Bytes) → bytes_eq id j ≡ false → client j (handle_conn host conn i s).0 ≡ client j s)
unfolding handle_conn answer broadcast_to write_frame client
handle_conn-connects host conn i s id c d answered found free =
    let e : handle_conn host conn i s ≡ (streaming conn id c s, sends conn (frame msg_ok []) ∷ []) =
      ap
        (λ (t, registered, refused).
          let (u, told) = answer conn i registered t in (u, refused ++ told))
        (accept-streaming host conn i s id c d found free)
      ∙ rw answered refl in
    (
      ap (λ r. r.1) e,
      λ writable f writes small.
          ap (λ r. broadcast_to writable id f r.0) e
          ∙ rw
              (
                lookup-insert_self id (record c { stream = some conn }) s.clients,
                broadcast_to,
                write_frame,
                within f small,
                writes,
              )
              refl,
      λ j ne.
          ap (λ r. client j r.0) e
          ∙ lookup-insert_ne id j (record c { stream = some conn }) s.clients ne,
    )
