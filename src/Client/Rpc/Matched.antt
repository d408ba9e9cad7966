-- ===== src/Client/Rpc/Matched.antt =====
-- Which response a request is given.
use wmux.Prelude.{ℕ, suc, ◌≡◌, refl, List, [], ◌∷◌, Option, none, some, arith}
use wmux.Prelude.Every.{All}
use wmux.Client.Rpc.{
  Rpc, idle, Op, passes, locks, receives, times_out, answers, drains, pass, lock, receive, time_out,
  answer, drain, with_pair, step, run,
}

-- A call begins only when the one before it has returned.
abbrev pub OneByOne : List Op → Rpc → Type 0
OneByOne [] c = Unit
OneByOne (passes ∷ os) c = (c.ready ≡ 0) × (c.waiting ≡ none) × OneByOne os (pass c)
OneByOne (op ∷ os) c = OneByOne os (step op c).0

-- Between calls, at the start of one, during one, and while the response of one that gave up is out.
data Phase : Rpc → Type 0 where
  free :
      {s : ℕ}
      → Phase (record {
        ready = 0;
        waiting = none;
        sent = s;
        unanswered = [];
        responses = none;
        drains = 0;
      })
  begun :
      {s : ℕ}
      → Phase (record {
        ready = 1;
        waiting = none;
        sent = s;
        unanswered = [];
        responses = none;
        drains = 0;
      })
  asked :
      {k s : ℕ}
      → Phase (record {
        ready = 0;
        waiting = some k;
        sent = s;
        unanswered = k ∷ [];
        responses = none;
        drains = 0;
      })
  answered :
      {k s : ℕ}
      → Phase (record {
        ready = 0;
        waiting = some k;
        sent = s;
        unanswered = [];
        responses = some k;
        drains = 0;
      })
  given_up :
      {k s : ℕ}
      → Phase (record {
        ready = 0;
        waiting = none;
        sent = s;
        unanswered = k ∷ [];
        responses = none;
        drains = 1;
      })
  late :
      {k s : ℕ}
      → Phase (record {
        ready = 0;
        waiting = none;
        sent = s;
        unanswered = [];
        responses = some k;
        drains = 1;
      })

-- What was given to the request is its own response.
abbrev Own : Option (ℕ × ℕ) → Type 0
Own none = Unit
Own (some (k, r)) = k ≡ r

pass-Phase : {c : Rpc} → Phase c → c.ready ≡ 0 → c.waiting ≡ none → Phase (pass c)
unfolding pass
pass-Phase free r w = begun
pass-Phase begun r w = absurd (omega arith)
pass-Phase asked r w = cc
pass-Phase answered r w = cc
pass-Phase given_up r w = given_up
pass-Phase late r w = late

lock-Phase : {c : Rpc} → Phase c → Phase (lock c)
unfolding lock
lock-Phase free = free
lock-Phase begun = asked
lock-Phase asked = asked
lock-Phase answered = answered
lock-Phase given_up = given_up
lock-Phase late = late

receive-Phase : {c : Rpc} → Phase c → Phase (receive c).0 × Own (receive c).1
unfolding receive
receive-Phase free = (free, tt)
receive-Phase begun = (begun, tt)
receive-Phase asked = (asked, tt)
receive-Phase answered = (free, refl)
receive-Phase given_up = (given_up, tt)
receive-Phase late = (late, tt)

time_out-Phase : {c : Rpc} → Phase c → Phase (time_out c)
unfolding time_out
time_out-Phase free = free
time_out-Phase begun = begun
time_out-Phase asked = given_up
time_out-Phase answered = late
time_out-Phase given_up = given_up
time_out-Phase late = late

answer-Phase : {c : Rpc} → Phase c → Phase (answer c)
unfolding answer
answer-Phase free = free
answer-Phase begun = begun
answer-Phase asked = answered
answer-Phase answered = answered
answer-Phase given_up = late
answer-Phase late = late

drain-Phase : {c : Rpc} → Phase c → Phase (drain c)
unfolding drain
drain-Phase free = free
drain-Phase begun = begun
drain-Phase asked = asked
drain-Phase answered = answered
drain-Phase given_up = given_up
drain-Phase late = free

abbrev pub Matches : ℕ × ℕ → Type 0
Matches (k, r) = k ≡ r

All-with_pair :
    (p : Option (ℕ × ℕ)) (ps : List (ℕ × ℕ)) → Own p → All Matches ps → All Matches (with_pair p ps)
All-with_pair none ps h a = a
All-with_pair (some (k, r)) ps h a = (h, a)

run-Matches : (os : List Op) (c : Rpc) → OneByOne os c → Phase c → All Matches (run os c)
unfolding run step
run-Matches [] c o p = tt
run-Matches (passes ∷ os) c o p = run-Matches os (pass c) o.2 (pass-Phase p o.0 o.1)
run-Matches (locks ∷ os) c o p = run-Matches os (lock c) o (lock-Phase p)
run-Matches (receives ∷ os) c o p =
    let (next, own) = receive-Phase p in
    All-with_pair (receive c).1 _ own (run-Matches os (receive c).0 o next)
run-Matches (times_out ∷ os) c o p = run-Matches os (time_out c) o (time_out-Phase p)
run-Matches (answers ∷ os) c o p = run-Matches os (answer c) o (answer-Phase p)
run-Matches (drains ∷ os) c o p = run-Matches os (drain c) o (drain-Phase p)

-- On a fresh client, with calls that begin only when the one before has returned, whatever times out
-- and however late the daemon answers: a call that returns a response is given the one to its own
-- request.
pub run-idle-Matches : (os : List Op) → OneByOne os idle → All Matches (run os idle)
run-idle-Matches os o = run-Matches os idle o free

-- The steps of two calls of which the second has passed the wait group before the first gives up.
abbrev pub crossing : List Op
crossing = passes ∷ passes ∷ locks ∷ times_out ∷ locks ∷ answers ∷ receives ∷ []

-- From any state between calls, the second one is given the response to the first.
pub crossing-mismatch : (s : ℕ) → run crossing (record idle { sent = s }) ≡ (suc s, s) ∷ []
unfolding run step pass lock receive time_out answer
crossing-mismatch s = refl
