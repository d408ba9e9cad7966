-- ===== src/Transport/Admission.antt =====
-- Who is in the registry of the server.
use wmux.Prelude.{
  ℕ, ◌≡◌, refl, sym, ap, ◌∙◌, ◌==◌, ==_iff, ◌↔◌, ltb, true, Bool-cases, inl, inr, [], ◌∷◌, ◌++◌,
  some, Option-cases, Bytes, bytes_eq_iff, length, take, drop, take-append-drop, arith,
}
use wmux.Protocol.{Frame}
use wmux.Transport.{
  AutomationMode, mode_open, mode_same_user, mode_children, mode_other, Creds, Host, Server,
  Incoming, verify, check_automation_mode, judge_payload, judge, Verdict, drops, refuses, admits,
  token_size, min_auth_payload_size, msg_auth, max_depth,
}
use wmux.Transport.Ancestry.{Descends, is_descendant_iff}

-- What the automation mode asks of a peer.
abbrev pub Permitted : Host → AutomationMode → Creds → Type 0
Permitted host mode_open creds = Unit
Permitted host mode_same_user creds = creds.uid ≡ host.uid
Permitted host mode_children creds = Descends host.parent_pid max_depth creds.pid host.pid
Permitted host mode_other creds = ⊥

-- The connection came from a permitted peer, and its first frame is an authentication for the channel
-- with the token of the server; `rest` is what follows the token.
pub record Entitled (host : Host) (token : Bytes) (mode : AutomationMode) (i : Incoming)
    (creds : Creds) (channel : ℕ) (rest : Bytes) : Type 0 where
  pub in_time : (i.deadline_set ≡ true) × (i.deadline_cleared ≡ true)
  pub peer : i.creds ≡ some creds
  pub permitted : Permitted host mode creds
  pub sized : length token ≡ token_size
  pub asked :
      (f : Frame) × (i.frame ≡ some f) × (f.type ≡ msg_auth) × (f.payload ≡ channel ∷ token ++ rest)

pub check_automation_mode_iff :
    (host : Host) (mode : AutomationMode) (creds : Creds)
    → (check_automation_mode host mode creds ≡ true) ↔ Permitted host mode creds
unfolding check_automation_mode
check_automation_mode_iff host mode_open creds = (λ _. tt, λ _. refl)
check_automation_mode_iff host mode_same_user creds = ==_iff creds.uid host.uid
check_automation_mode_iff host mode_children creds =
    is_descendant_iff host.parent_pid creds.pid host.pid
check_automation_mode_iff host mode_other creds = (λ e. cc, λ e. elim e [ ])

verify-equal :
    (stored candidate : Bytes)
    → verify stored candidate ≡ true
    → (length candidate ≡ token_size) × (stored ≡ candidate)
unfolding verify
verify-equal stored candidate e = ground (arith, bytes_eq_iff stored candidate)

-- What an admission says of the connection.
pub data Admitted (host : Host) (s : Server) (i : Incoming) : Verdict → Type 0 where
  dropped : Admitted host s i drops
  refused : Admitted host s i refuses
  admitted :
      {creds : Creds} {channel : ℕ} {payload rest : Bytes}
      → payload ≡ channel ∷ s.token ++ rest
      → Entitled host s.token s.mode i creds channel rest
      → Admitted host s i (admits creds channel payload)

judge_payload-Admitted :
    (host : Host) (s : Server) (i : Incoming) (creds : Creds) (f : Frame) (p : Bytes)
    → i.deadline_set ≡ true
    → i.creds ≡ some creds
    → i.frame ≡ some f
    → f.type ≡ msg_auth
    → f.payload ≡ p
    → Admitted host s i (judge_payload host s i creds p)
unfolding judge_payload
judge_payload-Admitted host s i creds f [] set e g t h = refused
judge_payload-Admitted host s i creds f (channel ∷ rest) set e g t h =
    elim (Bool-cases (ltb (length (channel ∷ rest)) min_auth_payload_size)) [
      | inl short ↦ rw short refused
      | inr long ↦ elim (Bool-cases (verify s.token (take token_size rest))) [
        | inr wrong ↦ rw (long, wrong) refused
        | inl right ↦ elim (Bool-cases (check_automation_mode host s.mode creds)) [
          | inr barred ↦ rw (long, right, barred) refused
          | inl allowed ↦ elim (Bool-cases i.deadline_cleared) [
            | inr late ↦ rw (long, right, allowed, late) dropped
            | inl cleared ↦
                let (size, same) = verify-equal s.token (take token_size rest) right in
                let parts : rest ≡ s.token ++ drop token_size rest =
                  sym (take-append-drop token_size rest)
                  ∙ ap (λ k. k ++ drop token_size rest) (sym same) in
                let whole : channel ∷ rest ≡ channel ∷ s.token ++ drop token_size rest =
                  ap (◌∷◌ channel) parts in
                simp (long, right, allowed, cleared)
                  (admitted whole (record {
                    in_time = (set, cleared);
                    peer = e;
                    permitted = (check_automation_mode_iff host s.mode creds).0 allowed;
                    sized = ap length same ∙ size;
                    asked = (f, g, t, h ∙ whole);
                  }))
          ]
        ]
      ]
    ]

pub judge-Admitted : (host : Host) (s : Server) (i : Incoming) → Admitted host s i (judge host s i)
unfolding judge
judge-Admitted host s i = elim (Bool-cases i.deadline_set) [
  | inr late ↦ rw late dropped
  | inl set ↦ elim (Option-cases i.creds) [
    | inl e ↦ rw (set, e) refused
    | inr (creds, e) ↦ elim (Option-cases i.frame) [
      | inl g ↦ rw (set, e, g) refused
      | inr (f, g) ↦ elim (Bool-cases (f.type == msg_auth)) [
        | inr bad ↦ rw (set, e, g, bad) refused
        | inl good ↦
            simp (set, e, g, good)
              (judge_payload-Admitted host s i creds f f.payload set e g
                ((==_iff f.type msg_auth).0 good) refl)
      ]
    ]
  ]
]
