-- ===== src/Daemon/Output/Reads.antt =====
-- What reading one session's output does to the buffer of another, or of the same.
use wmux.Prelude.{
  ℕ, ◌≡◌, refl, sym, ap, ◌∙◌, ◌==◌, ==_iff, true, false, Bool-cases, inl, inr, [], some,
  Option-cases, Bytes, bytes_eq, bytes_eq_iff, lookup, arith,
}
use wmux.Session.Buffer.{Buffer, read, check_resume}
use wmux.Session.Defs.{Service, Result, ok}
use wmux.Session.Service.{read_output, with_session}
use wmux.Session.Invariant.{IsWellformed, step, step-IsWellformed, reads}

pub record ReadBy (id : Bytes) (h : ℕ) (j : Bytes) (s : Service) (r : Service × Result Bytes)
    : Type 0 where
  pub sessions : r.0.sessions ≡ s.sessions
  pub wellformed : IsWellformed r.0
  pub own :
      bytes_eq j id ≡ true
      → (r.1 ≡ ok (s.cell h).buffer.content) × ((r.0.cell h).buffer.content ≡ [])
  pub other : bytes_eq j id ≡ false → (r.0.cell h).buffer ≡ (s.cell h).buffer

read-whole : (b : Buffer) → ((read b).0.bytes ≡ b.content) × ((read b).1.content ≡ [])
unfolding read check_resume
read-whole b = (ground arith, ground arith)

read_output-IsWellformed :
    (j : Bytes) (s : Service) → IsWellformed s → IsWellformed (read_output j s).0
unfolding step
read_output-IsWellformed j s v = step-IsWellformed (reads j) s v

-- Sessions with different ids have different handles.
handles-apart :
    (j id : Bytes) (k h : ℕ) (s : Service)
    → IsWellformed s
    → lookup j s.sessions ≡ some k
    → lookup id s.sessions ≡ some h
    → bytes_eq j id ≡ false
    → (k == h) ≡ false
handles-apart j id k h s v g e ne = elim (Bool-cases (k == h)) [
  | inr apart ↦ apart
  | inl same ↦
      let is : j ≡ id =
        sym (v.entries j k g).same_id
        ∙ ap (λ i. (s.cell i).session.id) ((==_iff k h).0 same)
        ∙ (v.entries id h e).same_id in
      cc ((bytes_eq_iff j id).1 is)
]

pub read_output-ReadBy :
    (id j : Bytes) (h : ℕ) (s : Service)
    → lookup id s.sessions ≡ some h
    → IsWellformed s
    → ReadBy id h j s (read_output j s)
unfolding read_output
read_output-ReadBy id j h s e v = record {
  sessions = elim (Option-cases (lookup j s.sessions)) [
    | inl g ↦ rw (g, read_output, with_session) refl
    | inr (k, g) ↦ rw (g, read_output, with_session) refl
  ];
  wellformed = read_output-IsWellformed j s v;
  own = λ same.
      let g : lookup j s.sessions ≡ some h =
        ap (λ i. lookup i s.sessions) ((bytes_eq_iff j id).0 same) ∙ e in
      let self : (h == h) ≡ true = (==_iff h h).1 refl in
      let (out, rest) = read-whole (s.cell h).buffer in
      rw (g, read_output, with_session) ((ap ok out, rw self rest));
  other = λ ne. elim (Option-cases (lookup j s.sessions)) [
    | inl g ↦ rw (g, read_output, with_session) refl
    | inr (k, g) ↦
        let apart : (k == h) ≡ false = handles-apart j id k h s v g e ne in
        rw (g, read_output, with_session, apart) refl
  ];
}
