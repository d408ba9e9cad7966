-- ===== src/Client/Rpc.antt =====
-- pkg/client/client.go: `sendRequest`, as steps of the callers, of the goroutines that drain, and of
-- the daemon, which answers each request once and in order. Requests and responses are told apart
-- by the number of the request. A step that is not possible does not happen.
pub mod Matched
use wmux.Prelude.{
  ℕ, zero, suc, ◌+◌, ◌-◌, ◌==◌, ltb, ◌&&◌, if◌then◌else◌, Bool, true, false, List, [], ◌∷◌, ◌++◌,
  Option, none, some,
}

-- `ready` counts the callers that have passed `drainWg.Wait` and stand before the lock; `waiting` is
-- the request of the one that holds it; `responses` is the channel, and `drains` counts `drainWg`.
pub record Rpc : Type 0 where
  pub ready : ℕ
  pub waiting : Option ℕ
  pub sent : ℕ
  pub unanswered : List ℕ
  pub responses : Option ℕ
  pub drains : ℕ

abbrev pub idle : Rpc
idle = record { ready = 0; waiting = none; sent = 0; unanswered = []; responses = none; drains = 0 }

-- A caller passes the wait group, takes the lock and writes, takes the response, or gives up; the
-- daemon answers; a goroutine drains.
pub data Op : Type 0 where
  passes locks receives times_out answers drains : Op

abbrev is_none : Option ℕ → Bool
is_none none = true
is_none (some k) = false

unfoldable pub pass : Rpc → Rpc
pass c = if c.drains == 0 then record c { ready = suc c.ready } else c

unfoldable pub lock : Rpc → Rpc
lock c =
    if ltb 0 c.ready && is_none c.waiting
    then record c {
      ready = c.ready - 1;
      waiting = some c.sent;
      sent = suc c.sent;
      unanswered = c.unanswered ++ c.sent ∷ [];
    }
    else c

-- The request that returns, and the response that it is given.
receive_from : Option ℕ → Option ℕ → Rpc → Rpc × Option (ℕ × ℕ)
receive_from (some k) (some r) c = (record c { waiting = none; responses = none }, some (k, r))
receive_from _ _ c = (c, none)

unfoldable pub receive : Rpc → Rpc × Option (ℕ × ℕ)
unfolding receive_from
receive c = receive_from c.waiting c.responses c

time_out_from : Option ℕ → Rpc → Rpc
time_out_from none c = c
time_out_from (some k) c = record c { waiting = none; drains = suc c.drains }

unfoldable pub time_out : Rpc → Rpc
unfolding time_out_from
time_out c = time_out_from c.waiting c

answer_from : Option ℕ → List ℕ → Rpc → Rpc
answer_from none (r ∷ rs) c = record c { responses = some r; unanswered = rs }
answer_from _ _ c = c

-- `readControl` waits while the channel holds a response.
unfoldable pub answer : Rpc → Rpc
unfolding answer_from
answer c = answer_from c.responses c.unanswered c

drain_from : ℕ → Option ℕ → Rpc → Rpc
drain_from (suc n) (some r) c = record c { drains = n; responses = none }
drain_from _ _ c = c

unfoldable pub drain : Rpc → Rpc
unfolding drain_from
drain c = drain_from c.drains c.responses c

unfoldable pub step : Op → Rpc → Rpc × Option (ℕ × ℕ)
unfolding pass lock receive time_out answer drain
step passes c = (pass c, none)
step locks c = (lock c, none)
step receives c = receive c
step times_out c = (time_out c, none)
step answers c = (answer c, none)
step drains c = (drain c, none)

abbrev pub with_pair : Option (ℕ × ℕ) → List (ℕ × ℕ) → List (ℕ × ℕ)
with_pair none ps = ps
with_pair (some p) ps = p ∷ ps

-- The requests that have returned, each with the response that it was given.
unfoldable pub run : List Op → Rpc → List (ℕ × ℕ)
unfolding step
run [] c = []
run (op ∷ os) c = let (d, p) = step op c in with_pair p (run os d)
