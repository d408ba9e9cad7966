-- ===== src/Transport/Joining.antt =====
-- A connection that the server registers.
use wmux.Prelude.{
  ℕ, suc, ◌≡◌, refl, sym, ap, ◌∙◌, subst, ◌==◌, ==_iff, ltb, Bool-cases, inl, inr, [], ◌∷◌, ◌++◌,
  Option, none, some, Option-cases, Bytes, lookup, Each, Each-insert, length, take, drop,
  take-append-drop, drop-length-append, length-take, length-append, ◌+◌, arith,
}
use wmux.Transport.{
  AutomationMode, Creds, Host, Client, Server, Incoming, judge, Verdict, token_size,
  channel_control, channel_stream,
}
use wmux.Transport.Admission.{Entitled, Admitted, dropped, refused, admitted, judge-Admitted}
use wmux.Transport.Registry.{
  accept, register, open_control, open_stream, set_stream, open_stream_at, encode_to_string,
}

module _ (host : Host) (incoming : ℕ → Incoming) where
  -- Both connections of a client were entitled to their place.
  pub record Vouched (token : Bytes) (mode : AutomationMode) (id : Bytes) (c : Client)
      : Type 0 where
    pub same_id : c.id ≡ id
    pub control :
        (rest : Bytes) × Entitled host token mode (incoming c.control) c.creds channel_control rest
    pub stream :
        (conn : ℕ)
        → c.stream ≡ some conn
        → (creds : Creds) × (more : Bytes) × Entitled host token mode
            (incoming conn)
            creds
            channel_stream
            (length id ∷ id ++ more)

  pub record Kept (s t : Server) : Type 0 where
    pub same_token : t.token ≡ s.token
    pub same_mode : t.mode ≡ s.mode
    pub each : Each (Vouched s.token s.mode) t.clients

  pub same : (s : Server) → Each (Vouched s.token s.mode) s.clients → Kept s s
  same s v = record { same_token = refl; same_mode = refl; each = v }

  open_control-Kept :
      (conn : ℕ) (random : Option Bytes) (creds : Creds) (rest : Bytes) (s : Server)
      → Each (Vouched s.token s.mode) s.clients
      → Entitled host s.token s.mode (incoming conn) creds channel_control rest
      → Kept s (open_control conn random creds s).0
  unfolding open_control
  open_control-Kept conn none creds rest s v h = same s v
  open_control-Kept conn (some bytes) creds rest s v h = record {
    same_token = refl;
    same_mode = refl;
    each =
        Each-insert (Vouched s.token s.mode) (encode_to_string bytes) _ s.clients v
          (record { same_id = refl; control = (rest, h); stream = λ k e. cc });
  }

  set_stream-Kept :
      (conn : ℕ) (creds : Creds) (id more : Bytes) (found : Option Client) (s : Server)
      → lookup id s.clients ≡ found
      → Each (Vouched s.token s.mode) s.clients
      → Entitled host s.token s.mode (incoming conn) creds channel_stream (length id ∷ id ++ more)
      → Kept s (set_stream conn id found s).0
  unfolding set_stream
  set_stream-Kept conn creds id more none s e v h = same s v
  set_stream-Kept conn creds id more (some c) s e v h = elim (Option-cases c.stream) [
    | inr (k, f) ↦ rw f (same s v)
    | inl f ↦
        let old = v id c e in
        rw f (record {
          same_token = refl;
          same_mode = refl;
          each =
              Each-insert (Vouched s.token s.mode) id (record c { stream = some conn }) s.clients v
                (record {
                  same_id = old.same_id;
                  control = old.control;
                  stream = λ k g.
                      let is : conn ≡ k = cc in
                      subst
                        (λ j.
                          (peer : Creds) × (rest : Bytes) × Entitled host s.token s.mode
                            (incoming j) peer channel_stream (length id ∷ id ++ rest))
                        is (creds, more, h);
                });
        })
  ]

  open_stream_at-Kept :
      (conn : ℕ) (creds : Creds) (rest : Bytes) (s : Server)
      → Each (Vouched s.token s.mode) s.clients
      → Entitled host s.token s.mode (incoming conn) creds channel_stream rest
      → Kept s (open_stream_at conn (1 + (token_size + length rest)) rest s).0
  unfolding open_stream_at
  open_stream_at-Kept conn creds [] s v h = same s v
  open_stream_at-Kept conn creds (id_len ∷ rest) s v h =
      elim (Bool-cases (ltb (1 + (token_size + suc (length rest))) (1 + token_size + 2))) [
        | inl short ↦ rw short (same s v)
        | inr long ↦
            elim (Bool-cases
              (ltb (1 + (token_size + suc (length rest))) (1 + token_size + 1 + id_len))) [
                | inl cut ↦ rw (long, cut) (same s v)
                | inr fits ↦
                    let size : length (take id_len rest) ≡ id_len =
                      ground (arith, fits, length-take id_len rest) in
                    let parts : id_len ∷ rest
                        ≡ length (take id_len rest) ∷ take id_len rest ++ drop id_len rest =
                      ap (λ k. id_len ∷ k) (sym (take-append-drop id_len rest))
                      ∙ ap (λ k. k ∷ take id_len rest ++ drop id_len rest) (sym size) in
                    rw (long, fits)
                      (set_stream-Kept conn creds (take id_len rest) (drop id_len rest)
                        (lookup (take id_len rest) s.clients) s refl v
                        (subst
                          (λ k. Entitled host s.token s.mode (incoming conn) creds channel_stream k)
                          parts h))
              ]
      ]

  open_stream-Kept :
      (conn : ℕ) (creds : Creds) (payload rest : Bytes) (s : Server)
      → Each (Vouched s.token s.mode) s.clients
      → payload ≡ channel_stream ∷ s.token ++ rest
      → Entitled host s.token s.mode (incoming conn) creds channel_stream rest
      → Kept s (open_stream conn payload s).0
  unfolding open_stream
  open_stream-Kept conn creds payload rest s v e h =
      let size : length payload ≡ 1 + (token_size + length rest) =
        ap length e ∙ omega (arith, length-append s.token rest, h.sized) in
      let tail : drop (1 + token_size) payload ≡ rest =
        ap (drop (1 + token_size)) e
        ∙ ap (λ k. drop k (s.token ++ rest)) (sym h.sized)
        ∙ drop-length-append s.token rest in
      rw (size, tail) (open_stream_at-Kept conn creds rest s v h)

  pub accept-Kept :
      (conn : ℕ) (s : Server)
      → Each (Vouched s.token s.mode) s.clients
      → Kept s (accept host conn (incoming conn) s).0
  unfolding accept register
  accept-Kept conn s v = go (judge host s (incoming conn)) (judge-Admitted host s (incoming conn))
    where
      go :
          (verdict : Verdict)
          → Admitted host s (incoming conn) verdict
          → Kept s (register conn (incoming conn) verdict s).0
      go _ dropped = same s v
      go _ refused = same s v
      go _ (admitted {creds} {channel} {payload} {rest} e h) =
          elim (Bool-cases (channel == channel_control)) [
            | inl c ↦ rw c (
                open_control-Kept conn (incoming conn).random creds rest s v (
                  subst (λ k. Entitled host s.token s.mode (incoming conn) creds k rest)
                    ((==_iff channel channel_control).0 c) h))
            | inr nc ↦ elim (Bool-cases (channel == channel_stream)) [
              | inr ns ↦ rw (nc, ns) (same s v)
              | inl c ↦
                  let is = (==_iff channel channel_stream).0 c in
                  rw (nc, c)
                    (open_stream-Kept conn creds payload rest s v
                      (e ∙ ap (λ k. k ∷ s.token ++ rest) is)
                      (subst (λ k. Entitled host s.token s.mode (incoming conn) creds k rest) is h))
            ]
          ]
