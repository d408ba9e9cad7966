-- ===== src/Daemon/Output/Keeps.antt =====
-- What the calls for a chunk of output leave alone: the attachments, the transport, the sessions and
-- their buffers.
use wmux.Prelude.{
  ℕ, ◌≡◌, refl, ap, ◌∙◌, ◌==◌, ==_iff, Bool-cases, inl, inr, List, [], ◌∷◌, ◌++◌, Option, none,
  some, Option-cases, Bytes, Map, map, lookup, Returns, Returns-bind,
}
use wmux.Session.Defs.{Service, Managed, update}
use wmux.Session.Service.{meta_set, with_session}
use wmux.Session.Invariant.{IsWellformed, step, step-IsWellformed, sets_meta}
use wmux.Daemon.Osc.{Call, changes_cwd, notifies, tells_ready, marks}
use wmux.Daemon.Da.{scan_da}
use wmux.Daemon.Osc.Total.{scan_osc-total}
use wmux.Platform.Recording
use wmux.Daemon.Output.{
  World, State, Effect, sent, published, marked, injected, call_effect, apply_call, apply_calls,
  with_service, scan_osc_step, scan_da_step, persist_output, tee_result, tee_recording, process,
  client_count,
}

-- Nothing is sent to a client.
abbrev pub Quiet : List Effect → Type 0
Quiet [] = Unit
Quiet (sent c e ∷ es) = ⊥
Quiet (_ ∷ es) = Quiet es

pub Quiet-append : (es fs : List Effect) → Quiet es → Quiet fs → Quiet (es ++ fs)
Quiet-append [] fs p q = q
Quiet-append (sent c e ∷ es) fs p q = elim p [ ]
Quiet-append (published e ∷ es) fs p q = Quiet-append es fs p q
Quiet-append (marked id code exit row ∷ es) fs p q = Quiet-append es fs p q
Quiet-append (injected id r ∷ es) fs p q = Quiet-append es fs p q

pub record KeptService (s t : Service) : Type 0 where
  pub sessions : t.sessions ≡ s.sessions
  pub buffers : (h : ℕ) → (t.cell h).buffer ≡ (s.cell h).buffer
  pub wellformed : IsWellformed s → IsWellformed t

pub KeptService-refl : (s : Service) → KeptService s s
KeptService-refl s = record { sessions = refl; buffers = λ h. refl; wellformed = λ v. v }

pub KeptService-trans : {s t u : Service} → KeptService s t → KeptService t u → KeptService s u
KeptService-trans a b = record {
  sessions = b.sessions ∙ a.sessions;
  buffers = λ h. b.buffers h ∙ a.buffers h;
  wellformed = λ v. b.wellformed (a.wellformed v);
}

update-buffer :
    (f : ℕ → Managed) (k : ℕ) (m : Managed)
    → m.buffer ≡ (f k).buffer
    → (h : ℕ) → (update f k m h).buffer ≡ (f h).buffer
update-buffer f k m e h = elim (Bool-cases (k == h)) [
  | inl same ↦ let is = (==_iff k h).0 same in rw same (e ∙ ap (λ j. (f j).buffer) is)
  | inr other ↦ rw other refl
]

meta_set-IsWellformed :
    (id key value : Bytes) (s : Service) → IsWellformed s → IsWellformed (meta_set id key value s).0
unfolding step
meta_set-IsWellformed id key value s v = step-IsWellformed (sets_meta id key value) s v

meta_set-Kept : (id key value : Bytes) (s : Service) → KeptService s (meta_set id key value s).0
unfolding meta_set
meta_set-Kept id key value s = record {
  sessions = elim (Option-cases (lookup id s.sessions)) [
    | inl e ↦ rw (e, meta_set, with_session) refl
    | inr (h, e) ↦ rw (e, meta_set, with_session) refl
  ];
  buffers = λ h. elim (Option-cases (lookup id s.sessions)) [
    | inl e ↦ rw (e, meta_set, with_session) refl
    | inr (k, e) ↦ rw (e, meta_set, with_session) (update-buffer s.cell k _ refl h)
  ];
  wellformed = meta_set-IsWellformed id key value s;
}

-- The rest of the state that matters, and the service.
pub record Kept (s t : State) : Type 0 where
  pub attachments : t.daemon.attachments ≡ s.daemon.attachments
  pub server : t.server ≡ s.server
  pub service : KeptService s.daemon.service t.daemon.service

pub record KeptQuietly (s : State) (r : State × List Effect) : Type 0 where
  pub kept : Kept s r.0
  pub quiet : Quiet r.1

Kept-refl : (s : State) → Kept s s
Kept-refl s = record {
  attachments = refl;
  server = refl;
  service = KeptService-refl s.daemon.service;
}

Kept-trans : {s t u : State} → Kept s t → Kept t u → Kept s u
Kept-trans a b = record {
  attachments = b.attachments ∙ a.attachments;
  server = b.server ∙ a.server;
  service = KeptService-trans a.service b.service;
}

apply_calls-Kept : (id : Bytes) (cs : List Call) (s : Service) → KeptService s (apply_calls id cs s)
unfolding apply_calls apply_call
apply_calls-Kept id [] s = KeptService-refl s
apply_calls-Kept id (changes_cwd v ∷ cs) s =
    KeptService-trans (meta_set-Kept id _ v s) (apply_calls-Kept id cs (meta_set id _ v s).0)
apply_calls-Kept id (notifies v ∷ cs) s = apply_calls-Kept id cs s
apply_calls-Kept id (tells_ready ∷ cs) s = apply_calls-Kept id cs s
apply_calls-Kept id (marks code exit row ∷ cs) s = apply_calls-Kept id cs s

map-call_effect-Quiet : (id : Bytes) (cs : List Call) → Quiet (map (call_effect id) cs)
unfolding call_effect
map-call_effect-Quiet id [] = tt
map-call_effect-Quiet id (changes_cwd v ∷ cs) = map-call_effect-Quiet id cs
map-call_effect-Quiet id (notifies v ∷ cs) = map-call_effect-Quiet id cs
map-call_effect-Quiet id (tells_ready ∷ cs) = map-call_effect-Quiet id cs
map-call_effect-Quiet id (marks code exit row ∷ cs) = map-call_effect-Quiet id cs

map-injected-Quiet : (id : Bytes) (rs : List Bytes) → Quiet (map (injected id) rs)
map-injected-Quiet id [] = tt
map-injected-Quiet id (r ∷ rs) = map-injected-Quiet id rs

scan_da_step-Quiet : (id output : Bytes) (st : State) → Quiet (scan_da_step id output st)
unfolding scan_da_step
scan_da_step-Quiet id output st =
    map-injected-Quiet id (scan_da (client_count (lookup id st.daemon.attachments)) output)

scan_osc_step-Kept :
    (w : World) (id output : Bytes) (st : State)
    → Returns (KeptQuietly st) (scan_osc_step w id output st)
unfolding scan_osc_step with_service
scan_osc_step-Kept w id output st =
    let ((counter, calls), e) = scan_osc-total w.parse_url output (lookup id st.line_counters) in
    rw e (record {
      kept = record {
        attachments = refl;
        server = refl;
        service = apply_calls-Kept id calls st.daemon.service;
      };
      quiet = map-call_effect-Quiet id calls;
    })

persist_output-Kept :
    (w : World) (id output : Bytes) (st : State) → Kept st (persist_output w id output st)
unfolding persist_output
persist_output-Kept w id output st = elim (Option-cases (lookup id st.scrollback_writers)) [
  | inl e ↦ rw (e, persist_output) (Kept-refl st)
  | inr (x, e) ↦
      rw (e, persist_output)
        (record { attachments = refl; server = refl; service = KeptService-refl st.daemon.service })
]

tee_result-Quiet :
    (id : Bytes) (r : Recording.Writer × ℕ × Option Recording.Error) (m : Map Recording.Writer)
    → Quiet (tee_result id r m).1
unfolding tee_result
tee_result-Quiet id (x, n, none) m = tt
tee_result-Quiet id (x, n, some Recording.recording_closed) m = tt
tee_result-Quiet id (x, n, some Recording.size_limit_reached) m = tt
tee_result-Quiet id (x, n, some Recording.marshal_event) m = tt
tee_result-Quiet id (x, n, some Recording.write_event) m = tt
tee_result-Quiet id (x, n, some Recording.close_file) m = tt

tee_recording-Kept :
    (w : World) (id output : Bytes) (st : State) → KeptQuietly st (tee_recording w id output st)
unfolding tee_recording
tee_recording-Kept w id output st = elim (Option-cases (lookup id st.recordings)) [
  | inl e ↦ rw (e, tee_recording) (record { kept = Kept-refl st; quiet = tt })
  | inr (x, e) ↦
      rw (e, tee_recording)
        (record {
          kept = record {
            attachments = refl;
            server = refl;
            service = KeptService-refl st.daemon.service;
          };
          quiet = tee_result-Quiet id (Recording.write w.line w.file output x) st.recordings;
        })
]

pub process-Kept :
    (w : World) (id output : Bytes) (st : State) → Returns (KeptQuietly st) (process w id output st)
unfolding process
process-Kept w id output st =
    Returns-bind (KeptQuietly st) (scan_osc_step w id output st) _
      (scan_osc_step-Kept w id output st)
      λ (s₁, scanned) a.
        let s₂ = persist_output w id output s₁ in
        let tee = tee_recording-Kept w id output s₂ in
        record {
          kept = Kept-trans a.kept (
              Kept-trans (persist_output-Kept w id output s₁) (record {
                attachments = tee.kept.attachments;
                server = tee.kept.server;
                service = tee.kept.service;
              }));
          quiet =
              Quiet-append (scanned ++ scan_da_step id output s₁) _
                (Quiet-append scanned _ a.quiet (scan_da_step-Quiet id output s₁)) tee.quiet;
        }
