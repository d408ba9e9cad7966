-- ===== src/Transport/Heartbeat/Silence.antt =====
-- When a client that is tracked is reported dead.
use wmux.Prelude.{
  ℕ, suc, ◌≡◌, refl, ap, ◌∙◌, ltb, ◌||◌, if◌then◌else◌, Bool, true, false, Bool-cases, inl, inr,
  List, [], ◌∷◌, ◌++◌, some, Option-cases, Bytes, bytes_eq, lookup, arith,
}
use wmux.Prelude.Keys.{listed, Distinct, insert-Distinct, delete-Distinct, delete_all-Distinct}
use wmux.Transport.{Client}
use wmux.Transport.Heartbeat.Beats.{beats-Distinct}
use wmux.Transport.Heartbeat.Waits.{
  Waits, track-Waits, track-Waits_fresh, untrack-Waits, ack-Waits, tick-Waits, tick-dead, ack-max,
}
use wmux.Transport.Heartbeat.{HeartbeatManager, new_heartbeat_manager, track, untrack, ack, tick}

pub data Op : Type 0 where
  tracks : Client → Op
  untracks : Bytes → Op
  acks : ℕ → Bytes → Op
  ticks : (ℕ → Bool) → Op

-- The ids that have been reported dead, in order.
unfoldable pub run : List Op → HeartbeatManager → HeartbeatManager × List Bytes
unfolding track untrack ack tick
run [] h = (h, [])
run (tracks c ∷ os) h = run os (track c h)
run (untracks id ∷ os) h = run os (untrack id h)
run (acks now id ∷ os) h = run os (ack now id h)
run (ticks writable ∷ os) h =
    let (u, dead, sent) = tick writable h in let (v, more) = run os u in (v, dead ++ more)

-- Whether more than `max_missed` ticks come with no acknowledgment of the client between them, when
-- `n` ticks have gone by since its last one.
unfoldable pub overdue : Bytes → ℕ → ℕ → List Op → Bool
overdue id max_missed n [] = false
overdue id max_missed n (tracks c ∷ os) = overdue id max_missed n os
overdue id max_missed n (untracks j ∷ os) = overdue id max_missed n os
overdue id max_missed n (acks now j ∷ os) =
    overdue id max_missed (if bytes_eq j id then 0 else n) os
overdue id max_missed n (ticks writable ∷ os) =
    let rest = overdue id max_missed (suc n) os in if ltb max_missed (suc n) then true else rest

-- The client is not tracked anew or given up, and can be written to.
abbrev pub Steady : Bytes → ℕ → List Op → Type 0
Steady id conn [] = Unit
Steady id conn (tracks c ∷ os) = (bytes_eq c.id id ≡ false) × Steady id conn os
Steady id conn (untracks j ∷ os) = (bytes_eq j id ≡ false) × Steady id conn os
Steady id conn (acks now j ∷ os) = Steady id conn os
Steady id conn (ticks writable ∷ os) = (writable conn ≡ true) × Steady id conn os

listed-append :
    (j : Bytes) (is ks : List Bytes) → listed j (is ++ ks) ≡ (listed j is || listed j ks)
listed-append j [] ks = refl
listed-append j (i ∷ is) ks = ground (arith, listed-append j is ks)

run-overdue :
    (id : Bytes) (conn n : ℕ) (os : List Op) (h : HeartbeatManager)
    → Steady id conn os
    → Waits id conn n h
    → listed id (run os h).1 ≡ overdue id h.max_missed n os
unfolding run overdue track untrack tick
run-overdue id conn n [] h s w = refl
run-overdue id conn n (tracks c ∷ os) h s w =
    run-overdue id conn n os (track c h) s.1 (track-Waits id conn n c h s.0 w)
run-overdue id conn n (untracks j ∷ os) h s w =
    run-overdue id conn n os (untrack j h) s.1 (untrack-Waits id j conn n h s.0 w)
run-overdue id conn n (acks now j ∷ os) h s w =
    let m : ℕ = if bytes_eq j id then 0 else n in
    run-overdue id conn m os (ack now j h) s (ack-Waits id j conn n now h w)
    ∙ ap (λ k. overdue id k m os) (ack-max now j h)
run-overdue id conn n (ticks writable ∷ os) h s w =
    listed-append id (tick writable h).1 (run os (tick writable h).0).1
    ∙ elim (Bool-cases (ltb h.max_missed (suc n))) [
      | inl late ↦ let hit = tick-dead id conn n writable h late w in rw (hit, late) refl
      | inr soon ↦
          let (spared, waits) = tick-Waits id conn n writable h s.0 soon w in
          let rest = run-overdue id conn (suc n) os (tick writable h).0 s.1 waits in
          rw (spared, soon) rest
    ]

-- The keys stay distinct, and the limit stays.
record Sound (max_missed : ℕ) (h : HeartbeatManager) : Type 0 where
  distinct : Distinct h.clients
  limit : h.max_missed ≡ max_missed

ack-Sound :
    (max_missed now : ℕ) (j : Bytes) (h : HeartbeatManager)
    → Sound max_missed h
    → Sound max_missed (ack now j h)
unfolding ack
ack-Sound max_missed now j h v = elim (Option-cases (lookup j h.clients)) [
  | inl e ↦ rw (e, ack) v
  | inr (c, e) ↦
      rw (e, ack) (record { distinct = insert-Distinct j _ h.clients v.distinct; limit = v.limit })
]

run-Sound :
    (max_missed : ℕ) (os : List Op) (h : HeartbeatManager)
    → Sound max_missed h
    → Sound max_missed (run os h).0
unfolding run track untrack tick
run-Sound max_missed [] h v = v
run-Sound max_missed (tracks c ∷ os) h v =
    run-Sound max_missed os (track c h)
      (record { distinct = insert-Distinct c.id c h.clients v.distinct; limit = v.limit })
run-Sound max_missed (untracks j ∷ os) h v =
    run-Sound max_missed os (untrack j h)
      (record { distinct = delete-Distinct j h.clients v.distinct; limit = v.limit })
run-Sound max_missed (acks now j ∷ os) h v =
    run-Sound max_missed os (ack now j h) (ack-Sound max_missed now j h v)
run-Sound max_missed (ticks writable ∷ os) h v =
    run-Sound max_missed os (tick writable h).0 (record {
      distinct =
          delete_all-Distinct _ _ (beats-Distinct writable h.max_missed h.clients v.distinct);
      limit = v.limit;
    })

starts : (max_missed : ℕ) → Sound max_missed (new_heartbeat_manager max_missed)
unfolding new_heartbeat_manager
starts max_missed = record { distinct = tt; limit = refl }

-- A client with a stream that is tracked with no missed heartbeat, at any point of the manager's
-- life, and from then on is neither tracked anew nor given up and can always be written to, is
-- reported dead exactly if more ticks than the limit come with none of its acknowledgments between
-- them, whatever the other clients do.
pub run-overdue-track :
    (max_missed conn : ℕ) (before os : List Op) (c : Client)
    → c.stream ≡ some conn
    → c.missed_heartbeats ≡ 0
    → Steady c.id conn os
    → listed c.id (run os (track c (run before (new_heartbeat_manager max_missed)).0)).1
      ≡ overdue c.id max_missed 0 os
unfolding track
run-overdue-track max_missed conn before os c streaming fresh s =
    let h = (run before (new_heartbeat_manager max_missed)).0 in
    let v = run-Sound max_missed before (new_heartbeat_manager max_missed) (starts max_missed) in
    run-overdue c.id conn 0 os (track c h) s (track-Waits_fresh conn c h streaming fresh v.distinct)
    ∙ ap (λ k. overdue c.id k 0 os) v.limit
