-- ===== src/Session/Reaper.antt =====
-- internal/session/reaper.go and watchdog.go: one tick of each. The list is taken first, and each
-- step of the loop reads the service as it is then.
pub mod Sweep
use wmux.Prelude.{
  ℕ, ◌+◌, ◌<◌, ◌≤◌, ◌≡◌, refl, ◌∙◌, ltb, not, if◌then◌else◌, Bool, true, false, List, [], ◌∷◌, ◌++◌,
  Option, none, some, Bytes, arith,
}
use wmux.Session.Defs.{State, detached, is_terminal, Session, Result, ok, err, Service}
use wmux.Session.Service.{list, kill, last_activity}

abbrev pub is_detached : State → Bool
is_detached detached = true
is_detached _ = false

-- `now.Sub(lastAct) < r.idleTTL`, for an idle time that is not negative.
abbrev pub is_recent : ℕ → ℕ → Result ℕ → Bool
is_recent now ttl (ok at) = ltb now (at + ttl)
is_recent now ttl (err _) = true

-- The body of the loop of `Reaper.tick`: the service, and the ID given to OnReap.
unfoldable pub reap_one : ℕ → ℕ → Session → Service → Service × List Bytes
reap_one now ttl x s =
    if not (is_detached x.state)
    then (s, [])
    else if is_recent now ttl (last_activity x.id s)
    then (s, [])
    else ((kill x.id s).0, x.id ∷ [])

unfoldable pub reap_all : ℕ → ℕ → List Session → Service → Service × List Bytes
reap_all now ttl [] s = (s, [])
reap_all now ttl (x ∷ xs) s =
    let (t, ids) = reap_one now ttl x s in let (u, more) = reap_all now ttl xs t in (u, ids ++ more)

unfoldable pub reaper_tick : ℕ → ℕ → Service → Service × List Bytes
unfolding list
reaper_tick now ttl s = reap_all now ttl (list s) s

-- The body of the loop of `Watchdog.tick`; `process_alive` is what signal 0 tells.
unfoldable pub watch_one : (ℕ → Bool) → Session → Service → Service × List Bytes
watch_one process_alive x s =
    if is_terminal x.state
    then (s, [])
    else if process_alive x.pid
    then (s, [])
    else ((kill x.id s).0, x.id ∷ [])

unfoldable pub watch_all : (ℕ → Bool) → List Session → Service → Service × List Bytes
watch_all process_alive [] s = (s, [])
watch_all process_alive (x ∷ xs) s =
    let (t, ids) = watch_one process_alive x s in
    let (u, more) = watch_all process_alive xs t in (u, ids ++ more)

unfoldable pub watchdog_tick : (ℕ → Bool) → Service → Service × List Bytes
unfolding list
watchdog_tick process_alive s = watch_all process_alive (list s) s
