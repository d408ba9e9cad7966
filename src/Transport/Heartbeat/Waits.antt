-- ===== src/Transport/Heartbeat/Waits.antt =====
-- How each step of the heartbeat manager changes the count of a client's missed ticks.
use mathlib.Core.Option
use wmux.Prelude.{
  ℕ, suc, ◌≡◌, refl, sym, ap, ◌∙◌, subst, ltb, if◌then◌else◌, Bool, true, false, Bool-cases, inl,
  inr, some, Option-cases, Bytes, bytes_eq, bytes_eq_iff, lookup, insert, lookup-insert,
  lookup-insert_ne, lookup-insert_self, lookup-delete_ne, arith,
}
use wmux.Prelude.Keys.{
  listed, Distinct, insert-Distinct, delete-Distinct, delete_all-Distinct, lookup-delete_all,
}
use wmux.Transport.{Client}
use wmux.Transport.Heartbeat.Beats.{
  lookup-beats, beats-Distinct, listed-beats, beat-alive, beat-dead,
}
use wmux.Transport.Heartbeat.{HeartbeatManager, track, untrack, ack, beat, beats, tick}

-- The client is in the map with a stream and a count of missed ticks.
pub record Waits (id : Bytes) (conn n : ℕ) (h : HeartbeatManager) : Type 0 where
  client : Client
  found : lookup id h.clients ≡ some client
  streaming : client.stream ≡ some conn
  count : client.missed_heartbeats ≡ n
  distinct : Distinct h.clients

pub track-Waits :
    (id : Bytes) (conn n : ℕ) (c : Client) (h : HeartbeatManager)
    → bytes_eq c.id id ≡ false
    → Waits id conn n h
    → Waits id conn n (track c h)
unfolding track
track-Waits id conn n c h ne w = record {
  client = w.client;
  found = lookup-insert_ne c.id id c h.clients ne ∙ w.found;
  streaming = w.streaming;
  count = w.count;
  distinct = insert-Distinct c.id c h.clients w.distinct;
}

pub track-Waits_fresh :
    (conn : ℕ) (c : Client) (h : HeartbeatManager)
    → c.stream ≡ some conn
    → c.missed_heartbeats ≡ 0
    → Distinct h.clients
    → Waits c.id conn 0 (track c h)
unfolding track
track-Waits_fresh conn c h streaming fresh d = record {
  client = c;
  found = lookup-insert_self c.id c h.clients;
  streaming = streaming;
  count = fresh;
  distinct = insert-Distinct c.id c h.clients d;
}

pub untrack-Waits :
    (id j : Bytes) (conn n : ℕ) (h : HeartbeatManager)
    → bytes_eq j id ≡ false
    → Waits id conn n h
    → Waits id conn n (untrack j h)
unfolding untrack
untrack-Waits id j conn n h ne w = record {
  client = w.client;
  found = lookup-delete_ne j id h.clients ne ∙ w.found;
  streaming = w.streaming;
  count = w.count;
  distinct = delete-Distinct j h.clients w.distinct;
}

unsome : {a b : Client} → some a ≡ some b → a ≡ b
unsome e = cc

pub ack-Waits :
    (id j : Bytes) (conn n now : ℕ) (h : HeartbeatManager)
    → Waits id conn n h
    → Waits id conn (if bytes_eq j id then 0 else n) (ack now j h)
unfolding ack
ack-Waits id j conn n now h w = elim (Option-cases (lookup j h.clients)) [
  | inl e ↦
      let other : bytes_eq j id ≡ false = ground (arith, bytes_eq_iff j id, w.found) in
      rw (e, ack, other) w
  | inr (c, e) ↦ elim (Bool-cases (bytes_eq j id)) [
    | inl same ↦
        let is = (bytes_eq_iff j id).0 same in
        let k : some c ≡ some w.client = sym e ∙ ap (λ i. lookup i h.clients) is ∙ w.found in
        let known : c.stream ≡ some conn =
          subst (λ i. i.stream ≡ some conn) (unsome (sym k)) w.streaming in
        let d : Client = record c { missed_heartbeats = 0; last_heartbeat_ack = now } in
        let found : lookup id (insert j d h.clients) ≡ some d =
          lookup-insert j id d h.clients ∙ rw same refl in
        rw (e, ack, same)
          (record {
            client = d;
            found = found;
            streaming = known;
            count = refl;
            distinct = insert-Distinct j d h.clients w.distinct;
          })
    | inr other ↦
        let d : Client = record c { missed_heartbeats = 0; last_heartbeat_ack = now } in
        rw (e, ack, other)
          (record {
            client = w.client;
            found = lookup-insert_ne j id d h.clients other ∙ w.found;
            streaming = w.streaming;
            count = w.count;
            distinct = insert-Distinct j d h.clients w.distinct;
          })
  ]
]

pub tick-Waits :
    (id : Bytes) (conn n : ℕ) (writable : ℕ → Bool) (h : HeartbeatManager)
    → writable conn ≡ true
    → ltb h.max_missed (suc n) ≡ false
    → Waits id conn n h
    → (listed id (tick writable h).1 ≡ false) × Waits id conn (suc n) (tick writable h).0
unfolding tick
tick-Waits id conn n writable h fine soon w =
    let c = w.client in
    let (alive, streaming, count) =
      beat-alive writable h.max_missed conn n c w.streaming w.count fine soon in
    let m = (beats writable h.max_missed h.clients).0 in
    let dead = (beats writable h.max_missed h.clients).1 in
    let spared : listed id dead ≡ false =
      listed-beats writable h.max_missed id c h.clients w.distinct w.found ∙ alive in
    let found : lookup id m ≡ some (beat writable h.max_missed c).0 =
      lookup-beats writable h.max_missed id h.clients
      ∙ ap (Option.map (λ c. (beat writable h.max_missed c).0)) w.found in
    (
      spared,
      record {
        client = (beat writable h.max_missed c).0;
        found = lookup-delete_all dead id m ∙ rw spared found;
        streaming = streaming;
        count = count;
        distinct =
            delete_all-Distinct dead m (beats-Distinct writable h.max_missed h.clients w.distinct);
      },
    )

pub tick-dead :
    (id : Bytes) (conn n : ℕ) (writable : ℕ → Bool) (h : HeartbeatManager)
    → ltb h.max_missed (suc n) ≡ true
    → Waits id conn n h
    → listed id (tick writable h).1 ≡ true
unfolding tick
tick-dead id conn n writable h late w =
    listed-beats writable h.max_missed id w.client h.clients w.distinct w.found
    ∙ beat-dead writable h.max_missed conn n w.client w.streaming w.count late

pub ack-max : (now : ℕ) (j : Bytes) (h : HeartbeatManager) → (ack now j h).max_missed ≡ h.max_missed
unfolding ack
ack-max now j h = elim (Option-cases (lookup j h.clients)) [
  | inl e ↦ rw (e, ack) refl
  | inr (c, e) ↦ rw (e, ack) refl
]
