-- ===== src/Session/Reaper/Sweep.antt =====
-- What one tick of the reaper and one tick of the watchdog do to the sessions.
use mathlib.Core.List.{Memᴰ}
use mathlib.Core.List.Memᴰ.{head, tail}
use wmux.Prelude.{
  ℕ, ◌≡◌, refl, sym, ap, ◌∙◌, not, ◌&&◌, if◌then◌else◌, Bool, true, false, Bool-cases, inl, inr,
  List, [], ◌∷◌, none, Option-cases, Bytes, bytes_eq, bytes_eq_iff, bytes_eq_refl, arith, lookup,
  lookup-delete,
}
use wmux.Prelude.Keys.{listed}
use wmux.Session.Defs.{is_terminal, Session, ok, Service}
use wmux.Session.Service.{list, kill, with_session, last_activity, last_activity_of}
use wmux.Session.Reaper.{
  is_detached, is_recent, reap_one, reap_all, reaper_tick, watch_one, watch_all, watchdog_tick,
}

-- Both loops: the sessions that the test picks are killed, in order.
unfoldable pub sweep : (Session → Service → Bool) → List Session → Service → Service × List Bytes
sweep test [] s = (s, [])
sweep test (x ∷ xs) s =
    let t = if test x s then (kill x.id s).0 else s in
    let (u, more) = sweep test xs t in (u, if test x s then x.id ∷ more else more)

-- The sessions that the test picks lose their entries and are reported; nothing else is either
-- removed or reported.
pub record Swept (test : Session → Service → Bool) (xs : List Session) (s : Service)
    (r : Service × List Bytes) : Type 0 where
  pub kept : (j : Bytes) → listed j r.1 ≡ false → lookup j r.0.sessions ≡ lookup j s.sessions
  pub gone : (j : Bytes) → listed j r.1 ≡ true → lookup j r.0.sessions ≡ none
  pub cause :
      (j : Bytes) → listed j r.1 ≡ true → (x : Session) × Memᴰ x xs × (x.id ≡ j) × (test x s ≡ true)
  pub complete : (x : Session) → Memᴰ x xs → test x s ≡ true → listed x.id r.1 ≡ true

pub lookup-kill :
    (id j : Bytes) (s : Service)
    → lookup j (kill id s).0.sessions ≡ (if bytes_eq id j then none else lookup j s.sessions)
unfolding kill
lookup-kill id j s = elim (Option-cases (lookup id s.sessions)) [
  | inl e ↦ ground (arith, bytes_eq_iff id j)
  | inr (h, e) ↦ rw (e, kill, with_session) (lookup-delete id j s.sessions)
]

kill-other :
    (id j : Bytes) (s : Service)
    → bytes_eq id j ≡ false
    → lookup j (kill id s).0.sessions ≡ lookup j s.sessions
kill-other id j s ne = lookup-kill id j s ∙ rw ne

kill_self :
    (id j : Bytes) (s : Service) → bytes_eq id j ≡ true → lookup j (kill id s).0.sessions ≡ none
kill_self id j s same = lookup-kill id j s ∙ rw same

module _ (test : Session → Service → Bool)
    (stable : (x y : Session) (s : Service)
      → bytes_eq y.id x.id ≡ false
      → test x (kill y.id s).0 ≡ test x s) where
  picked-Swept :
      (x : Session) (xs : List Session) (s u : Service) (ids : List Bytes)
      → test x s ≡ true
      → Swept test xs (kill x.id s).0 (u, ids)
      → Swept test (x ∷ xs) s (u, x.id ∷ ids)
  picked-Swept x xs s u ids picked v = record {
    kept = λ j e. v.kept j (ground arith) ∙ kill-other x.id j s (ground arith);
    gone = λ j e. elim (Bool-cases (listed j ids)) [
      | inl more ↦ v.gone j more
      | inr no_more ↦ v.kept j no_more ∙ kill_self x.id j s (ground arith)
    ];
    cause = λ j e. elim (Bool-cases (bytes_eq x.id j)) [
      | inl same ↦ (x, head refl, (bytes_eq_iff x.id j).0 same, picked)
      | inr other ↦
          let (y, m, same, t) = v.cause j (ground arith) in
          (y, tail m, same, sym (stable y x s (rw same other)) ∙ t)
    ];
    complete = λ y m t. reported y t m;
  }
    where
      reported : (y : Session) → test y s ≡ true → Memᴰ y (x ∷ xs) → listed y.id (x.id ∷ ids) ≡ true
      reported y t (head e) = rw (e, bytes_eq_refl x.id)
      reported y t (tail m) = elim (Bool-cases (bytes_eq x.id y.id)) [
        | inl same ↦ ground arith
        | inr other ↦ ground (arith, v.complete y m (stable y x s other ∙ t))
      ]

  passed-Swept :
      (x : Session) (xs : List Session) (s : Service) (r : Service × List Bytes)
      → test x s ≡ false
      → Swept test xs s r
      → Swept test (x ∷ xs) s r
  passed-Swept x xs s r passed v = record {
    kept = v.kept;
    gone = v.gone;
    cause = λ j e. let (y, m, same, t) = v.cause j e in (y, tail m, same, t);
    complete = λ y m t. reported y t m;
  }
    where
      reported : (y : Session) → test y s ≡ true → Memᴰ y (x ∷ xs) → listed y.id r.1 ≡ true
      reported y t (head e) = cc (ap (λ z. test z s) e)
      reported y t (tail m) = v.complete y m t

  pub sweep-Swept : (xs : List Session) (s : Service) → Swept test xs s (sweep test xs s)
  unfolding sweep
  sweep-Swept [] s = record {
    kept = λ j e. refl;
    gone = λ j e. cc;
    cause = λ j e. cc;
    complete = λ x m t. elim m [ ];
  }
  sweep-Swept (x ∷ xs) s = elim (Bool-cases (test x s)) [
    | inl picked ↦ rw picked (picked-Swept x xs s _ _ picked (sweep-Swept xs (kill x.id s).0))
    | inr passed ↦ rw passed (passed-Swept x xs s _ passed (sweep-Swept xs s))
  ]

-- What the reaper picks, and what the watchdog picks.
abbrev pub is_idle : ℕ → ℕ → Session → Service → Bool
is_idle now ttl x s = is_detached x.state && not (is_recent now ttl (last_activity x.id s))

abbrev pub is_dead : (ℕ → Bool) → Session → Service → Bool
is_dead process_alive x s = not (is_terminal x.state) && not (process_alive x.pid)

-- Killing leaves the times of all sessions.
activity-kill :
    (id : Bytes) (k : ℕ) (s : Service)
    → last_activity_of ((kill id s).0.cell k) ≡ last_activity_of (s.cell k)
unfolding kill
activity-kill id k s = elim (Option-cases (lookup id s.sessions)) [
  | inl e ↦ rw (e, kill, with_session) refl
  | inr (h, e) ↦ rw (e, kill, with_session) (ground arith)
]

last_activity-kill :
    (x y : Session) (s : Service)
    → bytes_eq y.id x.id ≡ false
    → last_activity x.id (kill y.id s).0 ≡ last_activity x.id s
unfolding last_activity
last_activity-kill x y s ne = elim (Option-cases (lookup x.id s.sessions)) [
  | inl e ↦ rw (kill-other y.id x.id s ne ∙ e, e, last_activity) refl
  | inr (h, e) ↦
      rw (kill-other y.id x.id s ne ∙ e, e, last_activity) (ap ok (activity-kill y.id h s))
]

reap_all-sweep :
    (now ttl : ℕ) (xs : List Session) (s : Service)
    → reap_all now ttl xs s ≡ sweep (is_idle now ttl) xs s
unfolding reap_all reap_one sweep
reap_all-sweep now ttl [] s = refl
reap_all-sweep now ttl (x ∷ xs) s =
    ground (arith, reap_all-sweep now ttl xs s, reap_all-sweep now ttl xs (kill x.id s).0)

watch_all-sweep :
    (process_alive : ℕ → Bool) (xs : List Session) (s : Service)
    → watch_all process_alive xs s ≡ sweep (is_dead process_alive) xs s
unfolding watch_all watch_one sweep
watch_all-sweep process_alive [] s = refl
watch_all-sweep process_alive (x ∷ xs) s =
    ground
      (arith, watch_all-sweep process_alive xs s, watch_all-sweep process_alive xs (kill x.id s).0)

-- One tick of the reaper kills and reports exactly the listed sessions that are detached and whose
-- last activity is at least the idle time ago; every other session keeps its entry.
pub reaper_tick-Swept :
    (now ttl : ℕ) (s : Service) → Swept (is_idle now ttl) (list s) s (reaper_tick now ttl s)
unfolding reaper_tick
reaper_tick-Swept now ttl s =
    rw (reap_all-sweep now ttl (list s) s)
      (sweep-Swept (is_idle now ttl) (λ x y t ne. rw (last_activity-kill x y t ne)) (list s) s)

-- One tick of the watchdog kills and reports exactly the listed sessions that have not ended and
-- whose process is gone; every other session keeps its entry.
pub watchdog_tick-Swept :
    (process_alive : ℕ → Bool) (s : Service)
    → Swept (is_dead process_alive) (list s) s (watchdog_tick process_alive s)
unfolding watchdog_tick
watchdog_tick-Swept process_alive s =
    rw (watch_all-sweep process_alive (list s) s)
      (sweep-Swept (is_dead process_alive) (λ x y t ne. refl) (list s) s)
