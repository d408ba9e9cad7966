-- ===== src/Daemon/Output/Passes.antt =====
-- What one flush of a session's buffer does for a client, and flushes one after the other.
use wmux.Prelude.{
  subst, length-append, bytes_eq_iff, ltb, arith, ℕ, ◌<◌, ◌≡◌, refl, sym, ap, ◌∙◌, ◌⊎◌,
  if◌then◌else◌, true, false, Bool-cases, inl, inr, List, [], ◌∷◌, ◌++◌, some, Bytes, bytes_eq, Map,
  lookup, length, Returns, Returns-bind,
}
use wmux.Prelude.Keys.{Distinct}
use wmux.Session.Defs.{Service, Result, ok, err}
use wmux.Session.Service.{read_output}
use wmux.Session.Invariant.{IsWellformed}
use wmux.Protocol.{max_payload_size}
use wmux.Transport.{Client, Server}
use wmux.Daemon.Payload.{encode_data_payload, decode_data_payload, decode-encode_iff}
use wmux.Daemon.Attach.{Clients}
use wmux.Daemon.Output.{
  World, State, Effect, with_service, process, data_frame, broadcast_all, flush_read, flush_one,
  flush_each, nobody,
}
use wmux.Daemon.Output.Reads.{ReadBy, read_output-ReadBy}
use wmux.Daemon.Output.Receipt.{
  received, received-append, received-Quiet, received-broadcast, received-broadcast_empty, body_for,
  brings, Cut, Cut-trans,
}
use wmux.Daemon.Output.Keeps.{process-Kept}

-- What is in the buffer under the handle.
abbrev pub held : ℕ → State → Bytes
held h st = (st.daemon.service.cell h).buffer.content

-- An entry of the attachments: the length of the id fits the payload of a frame, and the client is one
-- of the session's.
abbrev pub Fine : Bytes → Bytes → Bytes → Clients → Type 0
Fine client id j cs =
    ((length j < 256) ⊎ (cs ≡ []))
    × (bytes_eq j id ≡ true → (lookup client cs ≡ some tt) × Distinct cs)

abbrev pub AllFine : Bytes → Bytes → Map Clients → Type 0
AllFine client id [] = Unit
AllFine client id ((j, cs) ∷ m) = Fine client id j cs × AllFine client id m

-- The client is connected, and the buffer of the session is under the handle.
pub record Ready (w : World) (client id : Bytes) (h : ℕ) (st : State) : Type 0 where
  pub peer : Client
  pub conn : ℕ
  pub known : lookup client st.server.clients ≡ some peer
  pub streaming : peer.stream ≡ some conn
  pub writes : w.writable conn ≡ true
  pub session : lookup id st.daemon.service.sessions ≡ some h
  pub wellformed : IsWellformed st.daemon.service

-- The buffer is handed out as one chunk, or not at all, and the rest stays.
pub record Passes (client id : Bytes) (h : ℕ) (st : State) (r : State × List Effect) : Type 0 where
  pub bytes : Cut id (received client id r.1) (held h st) (held h r.0)
  pub attachments : r.0.daemon.attachments ≡ st.daemon.attachments
  pub server : r.0.server ≡ st.server
  pub sessions : r.0.daemon.service.sessions ≡ st.daemon.service.sessions
  pub wellformed : IsWellformed r.0.daemon.service

unok : {a b : Bytes} → ok a ≡ ok b → a ≡ b
unok e = cc

-- What a frame of a session brings for it, or for another one.
passed-data_frame :
    (id j body : Bytes)
    → length j < 256
    → (if ltb max_payload_size (length (data_frame j body).payload)
        then []
        else body_for id (decode_data_payload (data_frame j body).payload))
      ≡ (if bytes_eq j id then brings id body else [])
unfolding data_frame encode_data_payload
passed-data_frame id j body small = elim (Bool-cases (bytes_eq j id)) [
  | inl same ↦
      let is = (bytes_eq_iff j id).0 same in
      let read = (decode-encode_iff j body).1 small in
      rw (read, same) (ground (arith, length-append j body, ap length is))
  | inr other ↦ rw ((decode-encode_iff j body).1 small, other) (ground arith)
]

gets :
    (w : World) (client id j body : Bytes) (cs : Clients) (server : Server) (c : Client) (conn : ℕ)
    → lookup client server.clients ≡ some c
    → c.stream ≡ some conn
    → w.writable conn ≡ true
    → Fine client id j cs
    → received client id (broadcast_all w (data_frame j body) cs server)
      ≡ (if bytes_eq j id then brings id body else [])
unfolding broadcast_all lookup
gets w client id j body cs server c conn known streaming writes (inr nobody, own) =
    elim (Bool-cases (bytes_eq j id)) [
      | inl same ↦ cc (ap (λ k. lookup client k) (sym nobody) ∙ (own same).0)
      | inr other ↦ rw (nobody, other) refl
    ]
gets w client id j body cs server c conn known streaming writes (inl small, own) =
    elim (Bool-cases (bytes_eq j id)) [
      | inl same ↦
          received-broadcast w client id c conn server known streaming writes (data_frame j body) cs
            (own same).0 (own same).1
          ∙ passed-data_frame id j body small
      | inr other ↦
          let nothing = passed-data_frame id j body small ∙ rw other refl in
          received-broadcast_empty w client id c conn server known streaming writes
            (data_frame j body) cs nothing
          ∙ rw other refl
    ]

-- What was received and what is left, for the session and for another one.
settle :
    (j id body before : Bytes) {out left : Bytes}
    → out ≡ (if bytes_eq j id then brings id body else [])
    → (bytes_eq j id ≡ true → (body ≡ before) × (left ≡ []))
    → (bytes_eq j id ≡ false → left ≡ before)
    → Cut id out before left
settle j id body before {out} {left} e own other = elim (Bool-cases (bytes_eq j id)) [
  | inl same ↦ let (is, gone) = own same in inr (e ∙ rw same (ap (brings id) is), gone)
  | inr ne ↦ inl (e ∙ rw ne refl, other ne)
]

flush_read-Passes :
    (w : World) (client id j : Bytes) (h : ℕ) (cs : Clients) (st : State)
    (r : Service × Result Bytes)
    → Ready w client id h st
    → Fine client id j cs
    → ReadBy id h j st.daemon.service r
    → Returns (Passes client id h st) (flush_read w j cs st r)
unfolding flush_read with_service
flush_read-Passes w client id j h cs st (s, err e) ready c a = record {
  bytes = inl (
    refl,
    ap (λ b. b.content)
        (a.other
          (elim (Bool-cases (bytes_eq j id)) [ inl same ↦ cc (a.own same).0 | inr ne ↦ ne ])),
  );
  attachments = refl;
  server = refl;
  sessions = a.sessions;
  wellformed = a.wellformed;
}
flush_read-Passes w client id j h cs st (s, ok []) ready c a = record {
  bytes = elim (Bool-cases (bytes_eq j id)) [
    | inl same ↦ inl (refl, (a.own same).1 ∙ unok (a.own same).0)
    | inr ne ↦ inl (refl, ap (λ b. b.content) (a.other ne))
  ];
  attachments = refl;
  server = refl;
  sessions = a.sessions;
  wellformed = a.wellformed;
}
flush_read-Passes w client id j h cs st (s, ok (b ∷ bs)) ready c a =
    Returns-bind (Passes client id h st) (process w j (b ∷ bs) (with_service s st)) _
      (process-Kept w j (b ∷ bs) (with_service s st))
      λ (t, es) k. record {
        bytes =
            subst (λ o. Cut id o (held h st) (held h t))
              (sym (
                received-append client id es (broadcast_all w (data_frame j (b ∷ bs)) cs t.server)
                ∙ ap
                    (λ x.
                      x ++ received client id (broadcast_all w (data_frame j (b ∷ bs)) cs t.server))
                    (received-Quiet client id es k.quiet)))
              (settle j id (b ∷ bs) (held h st)
                (gets w client id j (b ∷ bs) cs t.server ready.peer ready.conn
                  (ap (λ v. lookup client v.clients) k.kept.server ∙ ready.known) ready.streaming
                  ready.writes c)
                (λ same. (
                  unok (a.own same).0,
                  ap (λ x. x.content) (k.kept.service.buffers h) ∙ (a.own same).1,
                ))
                (λ ne. ap (λ x. x.content) (k.kept.service.buffers h ∙ a.other ne)));
        attachments = k.kept.attachments;
        server = k.kept.server;
        sessions = k.kept.service.sessions ∙ a.sessions;
        wellformed = k.kept.service.wellformed a.wellformed;
      }

pub flush_one-Passes :
    (w : World) (client id j : Bytes) (h : ℕ) (cs : Clients) (st : State)
    → Ready w client id h st
    → Fine client id j cs
    → Returns (Passes client id h st) (flush_one w j cs st)
unfolding flush_one
flush_one-Passes w client id j h cs st ready c =
    flush_read-Passes w client id j h cs st (read_output j st.daemon.service) ready c
      (read_output-ReadBy id j h st.daemon.service ready.session ready.wellformed)

pub Passes-Ready :
    {w : World} {client id : Bytes} {h : ℕ} {st : State} {r : State × List Effect}
    → Ready w client id h st
    → Passes client id h st r
    → Ready w client id h r.0
Passes-Ready {client} {id} a p = record {
  peer = a.peer;
  conn = a.conn;
  known = ap (λ v. lookup client v.clients) p.server ∙ a.known;
  streaming = a.streaming;
  writes = a.writes;
  session = ap (lookup id) p.sessions ∙ a.session;
  wellformed = p.wellformed;
}

pub Passes-trans :
    {client id : Bytes} {h : ℕ} {st s t : State} {es fs : List Effect}
    → Passes client id h st (s, es)
    → Passes client id h s (t, fs)
    → Passes client id h st (t, es ++ fs)
Passes-trans {client} {id} {h} {st} {s} {t} {es} {fs} p q = record {
  bytes =
      subst (λ o. Cut id o (held h st) (held h t)) (sym (received-append client id es fs))
        (Cut-trans id p.bytes q.bytes);
  attachments = q.attachments ∙ p.attachments;
  server = q.server ∙ p.server;
  sessions = q.sessions ∙ p.sessions;
  wellformed = q.wellformed;
}

pub flush_each-Passes :
    (w : World) (client id : Bytes) (h : ℕ) (m : Map Clients) (st : State)
    → Ready w client id h st
    → AllFine client id m
    → Returns (Passes client id h st) (flush_each w m st)
unfolding flush_each
flush_each-Passes w client id h [] st ready f = record {
  bytes = inl (refl, refl);
  attachments = refl;
  server = refl;
  sessions = refl;
  wellformed = ready.wellformed;
}
flush_each-Passes w client id h ((j, cs) ∷ m) st ready f =
    Returns-bind (Passes client id h st) (flush_one w j cs st) _
      (flush_one-Passes w client id j h cs st ready f.0)
      λ (s, es) p.
        Returns-bind (Passes client id h st) (flush_each w m s) _
          (flush_each-Passes w client id h m s (Passes-Ready ready p) f.1)
          λ (t, fs) q. Passes-trans p q
