-- ===== src/Transport/Heartbeat/Beats.antt =====
-- What one tick does to the clients that are tracked.
use mathlib.Core.Option
use wmux.Prelude.{
  ℕ, suc, ◌≡◌, refl, sym, ap, ◌∙◌, ltb, ◌||◌, if◌then◌else◌, Bool, true, false, Bool-cases, inl,
  inr, List, [], ◌∷◌, none, some, Bytes, bytes_eq, bytes_eq_iff, Map, lookup, arith,
}
use wmux.Prelude.Keys.{listed, Distinct}
use wmux.Transport.{Client}
use wmux.Transport.Heartbeat.{beat, beats}

pub lookup-beats :
    (writable : ℕ → Bool) (max_missed : ℕ) (j : Bytes) (m : Map Client)
    → lookup j (beats writable max_missed m).0
      ≡ Option.map (λ c. (beat writable max_missed c).0) (lookup j m)
unfolding beats lookup
lookup-beats writable max_missed j [] = refl
lookup-beats writable max_missed j ((i, c) ∷ m) = elim (Bool-cases (bytes_eq i j)) [
  | inl same ↦ rw same refl
  | inr other ↦ rw other (lookup-beats writable max_missed j m)
]

listed-or :
    (i j : Bytes) (b : Bool) (is : List Bytes)
    → listed j (if b then i ∷ is else is) ≡ ((if b then bytes_eq i j else false) || listed j is)
listed-or i j true is = refl
listed-or i j false is = refl

pub beats-Distinct :
    (writable : ℕ → Bool) (max_missed : ℕ) (m : Map Client)
    → Distinct m
    → Distinct (beats writable max_missed m).0
unfolding beats
beats-Distinct writable max_missed [] d = tt
beats-Distinct writable max_missed ((i, c) ∷ m) d = (
  lookup-beats writable max_missed i m ∙ ap (Option.map (λ c. (beat writable max_missed c).0)) d.0,
  beats-Distinct writable max_missed m d.1,
)

listed-beats-none :
    (writable : ℕ → Bool) (max_missed : ℕ) (j : Bytes) (m : Map Client)
    → lookup j m ≡ none
    → listed j (beats writable max_missed m).1 ≡ false
unfolding beats lookup
listed-beats-none writable max_missed j [] e = refl
listed-beats-none writable max_missed j ((i, c) ∷ m) e =
    let other : bytes_eq i j ≡ false = ground arith in
    listed-or i j (beat writable max_missed c).1 (beats writable max_missed m).1
    ∙ ground (arith, listed-beats-none writable max_missed j m (ground arith))

pub listed-beats :
    (writable : ℕ → Bool) (max_missed : ℕ) (j : Bytes) (c : Client) (m : Map Client)
    → Distinct m
    → lookup j m ≡ some c
    → listed j (beats writable max_missed m).1 ≡ (beat writable max_missed c).1
unfolding beats lookup
listed-beats writable max_missed j c [] d e = cc
listed-beats writable max_missed j c ((i, k) ∷ m) d e =
    listed-or i j (beat writable max_missed k).1 (beats writable max_missed m).1
    ∙ elim (Bool-cases (bytes_eq i j)) [
      | inl same ↦
          let is : k ≡ c = ground arith in
          let gone : lookup j m ≡ none =
            ap (λ x. lookup x m) (sym ((bytes_eq_iff i j).0 same)) ∙ d.0 in
          let rest = listed-beats-none writable max_missed j m gone in
          let dead : (beat writable max_missed k).1 ≡ (beat writable max_missed c).1 =
            ap (λ x. (beat writable max_missed x).1) is in
          ground (arith, same, rest, dead)
      | inr other ↦ ground (arith, listed-beats writable max_missed j c m d.1 (ground arith))
    ]

pub beat-alive :
    (writable : ℕ → Bool) (max_missed conn n : ℕ) (c : Client)
    → c.stream ≡ some conn
    → c.missed_heartbeats ≡ n
    → writable conn ≡ true
    → ltb max_missed (suc n) ≡ false
    → ((beat writable max_missed c).1 ≡ false)
      × ((beat writable max_missed c).0.stream ≡ some conn)
      × ((beat writable max_missed c).0.missed_heartbeats ≡ suc n)
unfolding beat
beat-alive writable max_missed conn n c e f g h = (ground arith, ground arith, ground arith)

pub beat-dead :
    (writable : ℕ → Bool) (max_missed conn n : ℕ) (c : Client)
    → c.stream ≡ some conn
    → c.missed_heartbeats ≡ n
    → ltb max_missed (suc n) ≡ true
    → (beat writable max_missed c).1 ≡ true
unfolding beat
beat-dead writable max_missed conn n c e f h = ground arith
