-- ===== src/Session/Invariant.antt =====
-- What every method keeps of the service.
use wmux.Prelude.{
  ℕ, ◌+◌, ◌<◌, ◌≤◌, ◌≡◌, refl, ap, ◌∙◌, ◌==◌, Bool, true, false, Bool-cases, inl, inr, ◌⊎◌, List,
  [], ◌∷◌, Option, none, some, Option-cases, Bytes, bytes_eq, bytes_eq_iff, lookup, insert, delete,
  length, arith, Each, Each-nil, Each-insert, Each-delete, Each-imp, length-insert_new,
  length-delete_le, lookup-delete-some,
}
use wmux.Prelude.Int.{ℤ}
use wmux.Session.Ids.{validate_session_id}
use wmux.Session.Defs.{
  State, alive, detached, is_terminal, CreateOptions, Managed, Result, Service, update,
}
use wmux.Session.Service.{
  new_service, new_session, new_managed, create_locked, create, kill, at_limit, put, attach,
  attach_at, detach, detach_at, resize, meta_set, flush, read_output, wait_loop, with_session,
}

-- An entry of the map: a used handle, whose session has the entry's ID and has not ended.
pub record IsEntry (f : ℕ → Managed) (n : ℕ) (id : Bytes) (h : ℕ) : Type 0 where
  pub used : h < n
  pub same_id : (f h).session.id ≡ id
  pub live : is_terminal (f h).session.state ≡ false

pub record IsWellformed (s : Service) : Type 0 where
  pub entries : Each (IsEntry s.cell s.next) s.sessions
  pub bounded : 0 < s.max_sessions → length s.sessions ≤ s.max_sessions

pub new_service-IsWellformed : (limit : ℕ) → IsWellformed (new_service limit)
unfolding new_service
new_service-IsWellformed limit = record { entries = Each-nil _; bounded = λ p. ground arith }

-- A cell may change, if its session keeps its ID and does not end.
put-IsWellformed :
    (s : Service) (h : ℕ) (m : Managed)
    → m.session.id ≡ (s.cell h).session.id
    → (is_terminal (s.cell h).session.state ≡ false → is_terminal m.session.state ≡ false)
    → IsWellformed s
    → IsWellformed (put h m s)
put-IsWellformed s h m e live v = record {
  entries =
      Each-imp (IsEntry s.cell s.next) (IsEntry (update s.cell h m) s.next) s.sessions v.entries
        (λ id j x. elim (Bool-cases (h == j)) [
          | inl same ↦
              let y : h ≡ j = ground arith in
              record {
                used = x.used;
                same_id = rw same (e ∙ ap (λ k. (s.cell k).session.id) y ∙ x.same_id);
                live = rw same (live (rw (← y) at x.live));
              }
          | inr other ↦ record {
            used = x.used;
            same_id = rw other x.same_id;
            live = rw other x.live;
          }
        ]);
  bounded = v.bounded;
}

delete-IsWellformed :
    (s : Service) (id : Bytes)
    → IsWellformed s
    → IsWellformed (record s { sessions = delete id s.sessions })
delete-IsWellformed s id v = record {
  entries = Each-delete (IsEntry s.cell s.next) id s.sessions v.entries;
  bounded = λ p. omega (arith, length-delete_le id s.sessions, v.bounded p);
}

kill-IsWellformed : (s : Service) (id : Bytes) → IsWellformed s → IsWellformed (kill id s).0
unfolding kill
kill-IsWellformed s id v = elim (Option-cases (lookup id s.sessions)) [
  | inl e ↦ rw (e, kill, with_session) v
  | inr (h, e) ↦
      rw (e, kill, with_session)
        (put-IsWellformed (record s { sessions = delete id s.sessions }) h _ refl (λ x. x)
          (delete-IsWellformed s id v))
]

-- A method that finds its session and then keeps the service well formed.
with_session-IsWellformed :
    {A : Type 0} (id : Bytes) (s : Service) (f : ℕ → Service × Result A)
    → IsWellformed s
    → ((h : ℕ) → IsWellformed (f h).0)
    → IsWellformed (with_session id s f).0
with_session-IsWellformed id s f v k = elim (Option-cases (lookup id s.sessions)) [
  | inl e ↦ rw (e, with_session) v
  | inr (h, e) ↦ rw (e, with_session) (k h)
]

attach_at-IsWellformed :
    (s : Service) (h : ℕ) (st : State)
    → IsWellformed s
    → IsWellformed (attach_at h st s) × IsWellformed (detach_at h st s)
unfolding attach_at detach_at is_terminal
attach_at-IsWellformed s h alive v = (v, put-IsWellformed s h _ refl (λ x. refl) v)
attach_at-IsWellformed s h detached v = (put-IsWellformed s h _ refl (λ x. refl) v, v)
attach_at-IsWellformed s h _ v = (v, v)

create-IsWellformed :
    (s : Service) (id : Bytes) (opts : CreateOptions) (spawn : Option ℕ) (now : ℕ)
    → IsWellformed s
    → IsWellformed (create id opts spawn now s).0
unfolding create create_locked
create-IsWellformed s id opts none now v = ground arith
create-IsWellformed s id opts (some pid) now v = elim (Bool-cases (validate_session_id id)) [
  | inl fine ↦ rw fine (located (Option-cases (lookup id s.sessions)))
  | inr bad ↦ rw bad v
]
  where
    made : Managed
    made = new_managed id opts pid now

    t : Service
    t = record s {
      sessions = insert id s.next s.sessions;
      cell = update s.cell s.next made;
      next = s.next + 1;
    }

    old : (j : Bytes) (k : ℕ) → IsEntry s.cell s.next j k → IsEntry t.cell t.next j k
    old j k x =
        let e : (s.next == k) ≡ false = ground (arith, x.used) in
        record { used = omega (arith, x.used); same_id = rw e x.same_id; live = rw e x.live }

    self : (s.next == s.next) ≡ true
    self = ground arith

    new : IsEntry t.cell t.next id s.next
    new = record {
      used = omega arith;
      same_id = rw self (unfold new_managed new_session in refl);
      live = rw self (unfold new_managed new_session is_terminal in refl);
    }

    added : lookup id s.sessions ≡ none → at_limit s ≡ false → IsWellformed t
    added e room = record {
      entries =
          Each-insert (IsEntry t.cell t.next) id s.next s.sessions
            (Each-imp (IsEntry s.cell s.next) (IsEntry t.cell t.next) s.sessions v.entries old) new;
      bounded = λ p. ground (arith, length-insert_new id s.next s.sessions e, room);
    }

    located :
        (lookup id s.sessions ≡ none) ⊎ ((h : ℕ) × (lookup id s.sessions ≡ some h))
        → IsWellformed (create_locked id opts (some pid) now s).0
    located (inr (h, e)) = rw (e, create_locked) v
    located (inl e) = elim (Bool-cases (at_limit s)) [
      | inl full ↦ rw (e, create_locked) (rw full v)
      | inr room ↦ rw (e, create_locked) (rw room (added e room))
    ]

-- Ending the session under any handle leaves live entries only.
wait_loop-IsWellformed :
    (s : Service) (h : ℕ) (code : ℤ) (now : ℕ)
    → IsWellformed s
    → IsWellformed (wait_loop h code now s).0
unfolding wait_loop
wait_loop-IsWellformed s h code now v = record {
  entries = λ id k e.
      let (differs, found) = lookup-delete-some (s.cell h).session.id id s.sessions k e in
      let x = v.entries id k found in
      let other : (h == k) ≡ false = other_handle id k differs x.same_id in
      record { used = x.used; same_id = rw other x.same_id; live = rw other x.live };
  bounded = λ p. omega (arith, length-delete_le (s.cell h).session.id s.sessions, v.bounded p);
}
  where
    other_handle :
        (id : Bytes) (k : ℕ)
        → bytes_eq (s.cell h).session.id id ≡ false
        → (s.cell k).session.id ≡ id
        → (h == k) ≡ false
    other_handle id k differs e = elim (Bool-cases (h == k)) [
      | inl same ↦
          let y : h ≡ k = ground arith in
          let z : (s.cell h).session.id ≡ id = ap (λ (j : ℕ). (s.cell j).session.id) y ∙ e in
          cc ((bytes_eq_iff (s.cell h).session.id id).1 z)
      | inr other ↦ other
    ]

pub data Op : Type 0 where
  creates : Bytes → CreateOptions → Option ℕ → ℕ → Op
  kills attaches detaches : Bytes → Op
  resizes : Bool → Bytes → ℤ → ℤ → Op
  sets_meta : Bytes → Bytes → Bytes → Op
  flushes : Bool → ℕ → Bytes → Op
  reads : Bytes → Op
  exits : ℕ → ℤ → ℕ → Op

unfoldable pub step : Op → Service → Service
step (creates id opts spawn now) s = (create id opts spawn now s).0
step (kills id) s = (kill id s).0
step (attaches id) s = (attach id s).0
step (detaches id) s = (detach id s).0
step (resizes works id cols rows) s = (resize works id cols rows s).0
step (sets_meta id key value) s = (meta_set id key value s).0
step (flushes grow h p) s = flush grow h p s
step (reads id) s = (read_output id s).0
step (exits h code now) s = (wait_loop h code now s).0

unfoldable pub run : List Op → Service → Service
run [] s = s
run (o ∷ os) s = run os (step o s)

pub step-IsWellformed : (o : Op) (s : Service) → IsWellformed s → IsWellformed (step o s)
unfolding step attach detach resize meta_set flush read_output
step-IsWellformed (creates id opts spawn now) s v = create-IsWellformed s id opts spawn now v
step-IsWellformed (kills id) s v = kill-IsWellformed s id v
step-IsWellformed (attaches id) s v =
    with_session-IsWellformed id s _ v
      λ h. (attach_at-IsWellformed s h (s.cell h).session.state v).0
step-IsWellformed (detaches id) s v =
    with_session-IsWellformed id s _ v
      λ h. (attach_at-IsWellformed s h (s.cell h).session.state v).1
step-IsWellformed (resizes true id cols rows) s v =
    with_session-IsWellformed id s _ v λ h. put-IsWellformed s h _ refl (λ x. x) v
step-IsWellformed (resizes false id cols rows) s v = with_session-IsWellformed id s _ v λ h. v
step-IsWellformed (sets_meta id key value) s v =
    with_session-IsWellformed id s _ v λ h. put-IsWellformed s h _ refl (λ x. x) v
step-IsWellformed (flushes grow h p) s v = put-IsWellformed s h _ refl (λ x. x) v
step-IsWellformed (reads id) s v =
    with_session-IsWellformed id s _ v λ h. put-IsWellformed s h _ refl (λ x. x) v
step-IsWellformed (exits h code now) s v = wait_loop-IsWellformed s h code now v

-- From a well-formed service, after any calls and any ends of processes: every entry of the map
-- leads to a session with the entry's ID that is alive or detached, never to one that has ended;
-- and with a limit set there are never more sessions than the limit.
pub run-IsWellformed : (os : List Op) (s : Service) → IsWellformed s → IsWellformed (run os s)
unfolding run
run-IsWellformed [] s v = v
run-IsWellformed (o ∷ os) s v = run-IsWellformed os (step o s) (step-IsWellformed o s v)
