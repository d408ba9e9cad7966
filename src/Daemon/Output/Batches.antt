-- ===== src/Daemon/Output/Batches.antt =====
-- The batchers of the sessions, by handle, and the bytes that are in them.
use wmux.Prelude.{
  ℕ, ◌≡◌, refl, sym, ap, ◌∙◌, ◌==◌, ==_iff, if◌then◌else◌, Bool-cases, inl, inr, [], ◌++◌,
  append-nil, Option, none, some, Bytes, arith,
}
use wmux.Session.Batcher.{
  Batcher, Woken, by_done, by_flush, by_tick, add, do_flush, turn, flush_now,
}

abbrev pub set_batcher : ℕ → Batcher → (ℕ → Batcher) → ℕ → Batcher
set_batcher k b f j = if k == j then b else f j

unfoldable pub handed : Option Bytes → Bytes
handed none = []
handed (some out) = out

pub buf-add : (p : Bytes) (b : Batcher) → (add p b).buf ≡ b.buf ++ p
unfolding add flush_now
buf-add p b = ground arith

pub turn-bytes :
    (woken : Woken) (b : Batcher) → handed (turn woken b).1 ++ (turn woken b).0.buf ≡ b.buf
unfolding turn do_flush handed
turn-bytes by_done b = ground arith
turn-bytes by_flush b = ground (arith, append-nil b.buf)
turn-bytes by_tick b = ground (arith, append-nil b.buf)

pub kept-set_batcher :
    (k h : ℕ) (b : Batcher) (f : ℕ → Batcher)
    → b.buf ≡ (f k).buf
    → (set_batcher k b f h).buf ≡ (f h).buf
kept-set_batcher k h b f e = elim (Bool-cases (k == h)) [
  | inl same ↦ rw same (e ∙ ap (λ j. (f j).buf) ((==_iff k h).0 same))
  | inr other ↦ rw other refl
]

pub handed-set_batcher :
    (k h : ℕ) (b : Batcher) (out : Bytes) (f : ℕ → Batcher)
    → out ++ b.buf ≡ (f k).buf
    → (if k == h then out else []) ++ (set_batcher k b f h).buf ≡ (f h).buf
handed-set_batcher k h b out f e = elim (Bool-cases (k == h)) [
  | inl same ↦ rw same (e ∙ ap (λ j. (f j).buf) ((==_iff k h).0 same))
  | inr other ↦ rw other refl
]

pub added-set_batcher :
    (k h : ℕ) (p : Bytes) (f : ℕ → Batcher)
    → (set_batcher k (add p (f k)) f h).buf ≡ (f h).buf ++ (if k == h then p else [])
added-set_batcher k h p f = elim (Bool-cases (k == h)) [
  | inl same ↦ rw same (buf-add p (f k) ∙ ap (λ j. (f j).buf ++ p) ((==_iff k h).0 same))
  | inr other ↦ rw other (sym (append-nil (f h).buf))
]
