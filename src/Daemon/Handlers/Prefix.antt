-- ===== src/Daemon/Handlers/Prefix.antt =====
-- What killing by prefix does to the sessions.
use wmux.Prelude.{
  ℕ, ◌≡◌, refl, sym, ap, ◌∙◌, ◌⊎◌, ◌&&◌, ◌||◌, if◌then◌else◌, Bool, true, false, Bool-cases, inl,
  inr, List, [], ◌∷◌, none, some, Option-cases, Bytes, map, bytes_eq, bytes_eq_iff, Map, lookup,
  arith,
}
use wmux.Prelude.Keys.{listed}
use wmux.Session.Defs.{Session, Error, session_not_found, Result, ok, err, Managed, Service}
use wmux.Session.Service.{list, kill, with_session}
use wmux.Session.Invariant.{IsWellformed}
use wmux.Session.Reaper.Sweep.{lookup-kill}
use wmux.Daemon.Handlers.{
  Reply, under, filter_ids, sessions_by_prefix, kill_all, kill_targets, handle_kill_prefix,
  no_sessions, killed,
}

unsome : {a b : ℕ} → some a ≡ some b → a ≡ b
unsome e = cc

abbrev pub is_there : Bytes → Service → Bool
is_there id s = elim (lookup id s.sessions) [ none ↦ false | some _ ↦ true ]

listed-filter_ids :
    (test : Bytes → Bool) (j : Bytes) (xs : List Session)
    → listed j (filter_ids test xs) ≡ (test j && listed j (map (λ x. x.id) xs))
unfolding filter_ids
listed-filter_ids test j [] = ground arith
listed-filter_ids test j (x ∷ xs) = elim (Bool-cases (bytes_eq x.id j)) [
  | inl same ↦
      let t : test x.id ≡ test j = ap test ((bytes_eq_iff x.id j).0 same) in
      ground (arith, listed-filter_ids test j xs, same, t)
  | inr other ↦ ground (arith, listed-filter_ids test j xs, other)
]

kill_all-next :
    (id : Bytes) (ids : List Bytes) (s : Service)
    → (kill_all (id ∷ ids) s).0 ≡ (kill_all ids (kill id s).0).0
unfolding kill_all
kill_all-next id ids s = go (kill id s).1
  where
    go :
        (r : Result (Unit {0}))
        → (elim r as (λ _. Service × List Bytes × List (Bytes × Error)) [
          | ok _ ↦ (
            (kill_all ids (kill id s).0).0,
            id ∷ (kill_all ids (kill id s).0).1,
            (kill_all ids (kill id s).0).2,
          )
          | err e ↦ (
            (kill_all ids (kill id s).0).0,
            (kill_all ids (kill id s).0).1,
            (id, e) ∷ (kill_all ids (kill id s).0).2,
          )
        ]).0
          ≡ (kill_all ids (kill id s).0).0
    go (ok _) = refl
    go (err e) = refl

kill_all-lookup :
    (ids : List Bytes) (j : Bytes) (s : Service)
    → lookup j (kill_all ids s).0.sessions ≡ (if listed j ids then none else lookup j s.sessions)
unfolding kill_all
kill_all-lookup [] j s = refl
kill_all-lookup (id ∷ ids) j s =
    ap (λ t. lookup j t.sessions) (kill_all-next id ids s)
    ∙ kill_all-lookup ids j (kill id s).0
    ∙ ground (arith, lookup-kill id j s)

there-none : (j : Bytes) (s : Service) → lookup j s.sessions ≡ none → is_there j s ≡ false
there-none j s e = rw (e, is_there) refl

there-some : (j : Bytes) (h : ℕ) (s : Service) → lookup j s.sessions ≡ some h → is_there j s ≡ true
there-some j h s e = rw (e, is_there) refl

is_there-kill :
    (id j : Bytes) (s : Service)
    → is_there j (kill id s).0 ≡ (if bytes_eq id j then false else is_there j s)
is_there-kill id j s = ground (arith, lookup-kill id j s)

and_or : (a b c : Bool) → (a ≡ true → c ≡ false) → (b && c) ≡ ((a || b) && c)
and_or true b false h = ground arith
and_or true b true h = cc (h refl)
and_or false b c h = refl

or_and :
    (a b c : Bool)
    → (a ≡ true → c ≡ true)
    → (a || (b && (if a then false else c))) ≡ ((a || b) && c)
or_and true b true h = refl
or_and true b false h = cc (h refl)
or_and false b c h = refl

kill_all-missing :
    (id : Bytes) (ids : List Bytes) (s : Service)
    → lookup id s.sessions ≡ none
    → (kill_all (id ∷ ids) s).1 ≡ (kill_all ids s).1
unfolding kill_all kill
kill_all-missing id ids s e =
    let k : kill id s ≡ (s, err session_not_found) = rw (e, kill, with_session) refl in
    rw (k, kill_all) (ap (λ t. (kill_all ids t.0).1) k)

kill_all-found :
    (id : Bytes) (ids : List Bytes) (s : Service) (h : ℕ)
    → lookup id s.sessions ≡ some h
    → (kill_all (id ∷ ids) s).1 ≡ id ∷ (kill_all ids (kill id s).0).1
unfolding kill_all kill
kill_all-found id ids s h e =
    let k : (kill id s).1 ≡ ok tt = rw (e, kill, with_session) refl in rw (k, kill_all) refl

kill_all-killed :
    (ids : List Bytes) (j : Bytes) (s : Service)
    → listed j (kill_all ids s).1 ≡ (listed j ids && is_there j s)
unfolding kill_all
kill_all-killed [] j s = refl
kill_all-killed (id ∷ ids) j s = elim (Option-cases (lookup id s.sessions)) [
  | inl e ↦
      let gone : bytes_eq id j ≡ true → is_there j s ≡ false = λ same.
        there-none j s (ap (λ i. lookup i s.sessions) (sym ((bytes_eq_iff id j).0 same)) ∙ e) in
      ap (listed j) (kill_all-missing id ids s e)
      ∙ kill_all-killed ids j s
      ∙ and_or (bytes_eq id j) (listed j ids) (is_there j s) gone
  | inr (h, e) ↦
      let known : bytes_eq id j ≡ true → is_there j s ≡ true = λ same.
        there-some j h s (ap (λ i. lookup i s.sessions) (sym ((bytes_eq_iff id j).0 same)) ∙ e) in
      ap (listed j) (kill_all-found id ids s h e)
      ∙ ap (λ b. bytes_eq id j || b)
          (kill_all-killed ids j (kill id s).0 ∙ ap (λ b. listed j ids && b) (is_there-kill id j s))
      ∙ or_and (bytes_eq id j) (listed j ids) (is_there j s) known
]

listed-entries :
    (f : ℕ → Managed) (j : Bytes) (h : ℕ) (m : Map ℕ)
    → lookup j m ≡ some h
    → (f h).session.id ≡ j
    → listed j (map (λ x. x.id) (map (λ e. (f e.1).session) m)) ≡ true
unfolding lookup
listed-entries f j h [] e is = cc
listed-entries f j h ((k, g) ∷ m) e is = elim (Bool-cases (bytes_eq k j)) [
  | inl same ↦
      let i : (f g).session.id ≡ j =
        ap (λ n. (f n).session.id) (unsome (sym (rw same refl) ∙ e)) ∙ is in
      let hit : bytes_eq (f g).session.id j ≡ true = (bytes_eq_iff (f g).session.id j).1 i in
      rw hit refl
  | inr other ↦ let rest = listed-entries f j h m (ground arith) is in ground (arith, rest)
]

listed-list :
    (j : Bytes) (s : Service) (h : ℕ)
    → IsWellformed s
    → lookup j s.sessions ≡ some h
    → listed j (map (λ x. x.id) (list s)) ≡ true
unfolding list
listed-list j s h v e = listed-entries s.cell j h s.sessions e (v.entries j h e).same_id

-- The sessions after a kill by prefix, and what the response says of them.
pub record KilledUnder (prefix : Bytes) (s : Service) (r : Service × Reply) : Type 0 where
  pub sessions :
      (j : Bytes) → lookup j r.0.sessions ≡ (if under prefix j then none else lookup j s.sessions)
  pub response :
      ((r.1 ≡ no_sessions) × ((j : Bytes) → (under prefix j && is_there j s) ≡ false))
      ⊎ ((ids : List Bytes) × (errors : List (Bytes × Error)) × (r.1 ≡ killed ids errors)
          × ((j : Bytes) → listed j ids ≡ (under prefix j && is_there j s)))

listed-sessions_by_prefix :
    (prefix j : Bytes) (s : Service)
    → IsWellformed s
    → (listed j (sessions_by_prefix prefix s) && is_there j s) ≡ (under prefix j && is_there j s)
unfolding sessions_by_prefix
listed-sessions_by_prefix prefix j s v = elim (Option-cases (lookup j s.sessions)) [
  | inl e ↦ rw (there-none j s e) (ground arith)
  | inr (h, e) ↦
      let there = there-some j h s e in
      ground (arith, there, listed-filter_ids (under prefix) j (list s), listed-list j s h v e)
]

agree :
    (a b : Bool) (j : Bytes) (s : Service)
    → (a && is_there j s) ≡ (b && is_there j s)
    → (if a then none else lookup j s.sessions) ≡ (if b then none else lookup j s.sessions)
agree a b j s h = elim (Option-cases (lookup j s.sessions)) [
  | inl e ↦ ground (arith, e)
  | inr (k, e) ↦
      let there = there-some j k s e in
      let same : a ≡ b = ground (arith, there) in
      ap (λ x. if x then none else lookup j s.sessions) same
]

kill_targets-KilledUnder :
    (prefix : Bytes) (ids : List Bytes) (s : Service)
    → ((j : Bytes) → (listed j ids && is_there j s) ≡ (under prefix j && is_there j s))
    → KilledUnder prefix s (kill_targets ids s)
unfolding kill_targets
kill_targets-KilledUnder prefix [] s h = record {
  sessions = λ j. agree false (under prefix j) j s (h j);
  response = inl (refl, λ j. sym (h j));
}
kill_targets-KilledUnder prefix (id ∷ ids) s h = record {
  sessions =
      λ j. kill_all-lookup (id ∷ ids) j s ∙ agree (listed j (id ∷ ids)) (under prefix j) j s (h j);
  response = inr (_, _, refl, λ j. kill_all-killed (id ∷ ids) j s ∙ h j);
}

-- Killing by a prefix that is not empty removes exactly the sessions of a well-formed service whose
-- id is the prefix, a slash and a rest, and keeps the entry of every other session; the response
-- lists exactly the ids of those that were removed, or says that there are none.
pub handle_kill_prefix-KilledUnder :
    (p : ℕ) (ps : Bytes) (s : Service)
    → IsWellformed s
    → KilledUnder (p ∷ ps) s (handle_kill_prefix (some (p ∷ ps)) s)
unfolding handle_kill_prefix
handle_kill_prefix-KilledUnder p ps s v =
    kill_targets-KilledUnder (p ∷ ps) (sessions_by_prefix (p ∷ ps) s) s
      λ j. listed-sessions_by_prefix (p ∷ ps) j s v
