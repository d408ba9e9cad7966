-- ===== src/Session/Restart.antt =====
-- Ends of processes and the entries of the map: what `wait_loop` removes.
use wmux.Prelude.{
  ℕ, ◌≡◌, refl, ◌==◌, true, false, none, some, Bytes, bytes_eq, lookup, arith, lookup-delete_self,
  lookup-delete_ne,
}
use wmux.Prelude.Int.{ℤ}
use wmux.Session.Defs.{exited, is_terminal, err, session_not_found, Service}
use wmux.Session.Service.{get, wait_loop}
use wmux.Session.Invariant.{IsWellformed, IsEntry}

-- The end of the process that an entry leads to removes that entry, and no other, and records the
-- exit in the session.
pub wait_loop_own :
    (s : Service) (id : Bytes) (h : ℕ) (code : ℤ) (now : ℕ)
    → IsWellformed s
    → lookup id s.sessions ≡ some h
    → let t = (wait_loop h code now s).0 in
      (lookup id t.sessions ≡ none)
      × ((j : Bytes) → bytes_eq id j ≡ false → lookup j t.sessions ≡ lookup j s.sessions)
      × ((t.cell h).session.state ≡ exited)
      × ((t.cell h).session.exit_code ≡ code)
unfolding wait_loop
wait_loop_own s id h code now v e =
    let x : IsEntry s.cell s.next id h = v.entries id h e in
    let self : (h == h) ≡ true = ground arith in
    rw (x.same_id, self)
      (lookup-delete_self id s.sessions, (λ j ne. lookup-delete_ne id j s.sessions ne), refl, refl)

-- In a well-formed service, a session may end when its ID, since it was killed, is in use again. Its
-- end then removes the entry of the new session, which has not ended, keeps its terminal as it was, and
-- can no longer be found.
pub stale_exit_removes_successor :
    (s : Service) (id : Bytes) (old new : ℕ) (code : ℤ) (now : ℕ)
    → IsWellformed s
    → lookup id s.sessions ≡ some new
    → (s.cell old).session.id ≡ id
    → (old == new) ≡ false
    → let t = (wait_loop old code now s).0 in
      (get id t ≡ err session_not_found)
      × (is_terminal (t.cell new).session.state ≡ false)
      × ((t.cell new).pty_closed ≡ (s.cell new).pty_closed)
unfolding wait_loop get
stale_exit_removes_successor s id old new code now v e same other =
    let x : IsEntry s.cell s.next id new = v.entries id new e in
    (rw (same, lookup-delete_self id s.sessions, get) refl, rw other x.live, rw other refl)
