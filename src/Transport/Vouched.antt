-- ===== src/Transport/Vouched.antt =====
-- The registry of the server over the connections, the failed answers and the other methods, in any
-- order.
use wmux.Prelude.{
  ℕ, ◌≡◌, refl, sym, ◌∙◌, inl, inr, List, [], ◌∷◌, none, some, Option-cases, Bytes, lookup, delete,
  Each, Each-nil, Each-insert, Each-delete,
}
use mathlib.Core.Path.{subst₂}
use wmux.Transport.{AutomationMode, Host, Client, Server, Incoming, new_server}
use wmux.Transport.Joining.{Vouched, Kept, same, accept-Kept}
use wmux.Transport.Registry.{
  accept, abort_control, abort_stream, kick, remove_client, close, client,
}

-- The methods that change the registry. `incoming` has what arrives on a connection.
pub data Op : Type 0 where
  accepts : ℕ → Op
  aborts_control aborts_stream kicks removes : Bytes → Op
  shuts : Op

unfoldable pub step : Host → (ℕ → Incoming) → Op → Server → Server
unfolding accept abort_control abort_stream kick remove_client close
step host incoming (accepts conn) s = (accept host conn (incoming conn) s).0
step host incoming (aborts_control id) s = abort_control id s
step host incoming (aborts_stream id) s = abort_stream id s
step host incoming (kicks id) s = (kick id s).0
step host incoming (removes id) s = remove_client id s
step host incoming shuts s = (close s).0

unfoldable pub run : Host → (ℕ → Incoming) → List Op → Server → Server
unfolding step
run host incoming [] s = s
run host incoming (o ∷ os) s = run host incoming os (step host incoming o s)

module _ (host : Host) (incoming : ℕ → Incoming) where
  Kept-trans :
      {s t u : Server}
      → Kept host incoming s t
      → (Each (Vouched host incoming t.token t.mode) t.clients → Kept host incoming t u)
      → Kept host incoming s u
  Kept-trans {s} {t} {u} a f =
      let b = f (
        subst₂ (λ k m. Each (Vouched host incoming k m) t.clients) (sym a.same_token)
          (sym a.same_mode) a.each) in
      record {
        same_token = b.same_token ∙ a.same_token;
        same_mode = b.same_mode ∙ a.same_mode;
        each =
            subst₂ (λ k m. Each (Vouched host incoming k m) u.clients) a.same_token a.same_mode
              b.each;
      }

  deleted :
      (id : Bytes) (s : Server)
      → Each (Vouched host incoming s.token s.mode) s.clients
      → Kept host incoming s (record s { clients = delete id s.clients })
  deleted id s v = record {
    same_token = refl;
    same_mode = refl;
    each = Each-delete (Vouched host incoming s.token s.mode) id s.clients v;
  }

  abort_stream-Kept :
      (id : Bytes) (s : Server)
      → Each (Vouched host incoming s.token s.mode) s.clients
      → Kept host incoming s (abort_stream id s)
  unfolding abort_stream
  abort_stream-Kept id s v = elim (Option-cases (lookup id s.clients)) [
    | inl e ↦ rw (e, abort_stream) (same host incoming s v)
    | inr (c, e) ↦
        let old = v id c e in
        rw (e, abort_stream)
          (record {
            same_token = refl;
            same_mode = refl;
            each =
                Each-insert (Vouched host incoming s.token s.mode) id (record c { stream = none })
                  s.clients v
                  (record { same_id = old.same_id; control = old.control; stream = λ k g. cc });
          })
  ]

  kick-Kept :
      (id : Bytes) (s : Server)
      → Each (Vouched host incoming s.token s.mode) s.clients
      → Kept host incoming s (kick id s).0
  unfolding kick
  kick-Kept id s v = elim (Option-cases (lookup id s.clients)) [
    | inl e ↦ rw (e, kick) (same host incoming s v)
    | inr (c, e) ↦ rw (e, kick) (deleted id s v)
  ]

  step-Kept :
      (o : Op) (s : Server)
      → Each (Vouched host incoming s.token s.mode) s.clients
      → Kept host incoming s (step host incoming o s)
  unfolding step abort_control remove_client close
  step-Kept (accepts conn) s v = accept-Kept host incoming conn s v
  step-Kept (aborts_control id) s v = deleted id s v
  step-Kept (aborts_stream id) s v = abort_stream-Kept id s v
  step-Kept (kicks id) s v = kick-Kept id s v
  step-Kept (removes id) s v = deleted id s v
  step-Kept shuts s v = record {
    same_token = refl;
    same_mode = refl;
    each = Each-nil (Vouched host incoming s.token s.mode);
  }

  run-Kept :
      (os : List Op) (s : Server)
      → Each (Vouched host incoming s.token s.mode) s.clients
      → Kept host incoming s (run host incoming os s)
  unfolding run
  run-Kept [] s v = same host incoming s v
  run-Kept (o ∷ os) s v = Kept-trans (step-Kept o s v) (run-Kept os (step host incoming o s))

  -- Whatever connections a server has seen and whatever has been done to its clients since, a client
  -- that it finds under an id bears that id. Its control connection came from a peer that the
  -- automation mode permits, and opened with an authentication frame for the control channel that
  -- carries the token of the server; its stream connection, if it has one, with one for the stream
  -- channel that carries the token, then the length of the id and the id.
  pub run-new_server-Vouched :
      (token : Bytes) (mode : AutomationMode) (os : List Op) (id : Bytes) (c : Client)
      → client id (run host incoming os (new_server token mode)) ≡ some c
      → Vouched host incoming token mode id c
  unfolding new_server client
  run-new_server-Vouched token mode os id c e =
      (run-Kept os (new_server token mode) (Each-nil (Vouched host incoming token mode))).each id c
        e
