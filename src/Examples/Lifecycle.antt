-- ===== src/Examples/Lifecycle.antt =====
-- The command tracker on concrete inputs.
use wmux.Prelude.{
  ℕ, ◌≡◌, refl, ◌<◌, ◌+◌, List, [], ◌∷◌, none, some, Bytes, codes, arith, Returns, last, lookup,
  insert, bytes_eq,
}
use wmux.Prelude.Int.{ℤ, pos}
use wmux.Lifecycle.{new_tracker}
use wmux.Lifecycle.Spec.{Trace, closed}
use wmux.Lifecycle.Runs.{Marker, run, run-new_tracker}
use wmux.Lifecycle.Service.{Service, new_service, register, handle_osc}
use wmux.Lifecycle.Sessions.{
  AllSound, Handled, register-AllSound, new_service-AllSound, handle_osc-Handled,
}

abbrev clock : ℕ → ℕ
clock i = 100 + i

abbrev at : ℕ → ℤ → ℤ → Marker
at code exit row = record { code = code; exit = exit; row = row; now = clock }

-- A prompt, a command that ends with status 2, and one whose D marker is missing.
abbrev markers : List Marker
markers =
    at b'A' (pos 0) (pos 1)
    ∷ at b'B' (pos 0) (pos 1)
    ∷ at b'C' (pos 0) (pos 2)
    ∷ at b'D' (pos 2) (pos 5)
    ∷ at b'C' (pos 0) (pos 6)
    ∷ at b'A' (pos 0) (pos 8)
    ∷ []

positive : 0 < 1
positive = omega arith

run-new_tracker_example :
    Returns
      (λ r. Trace none r.1 r.0.current × (r.0.history ≡ last 1 (closed r.1)))
      (run markers (new_tracker 1))
run-new_tracker_example = run-new_tracker 1 markers positive

abbrev id : Bytes
id = codes "a"

abbrev empty : Service
empty = new_service []

abbrev registered : Service
registered = (register id empty).0

registered-AllSound : AllSound registered
registered-AllSound = register-AllSound empty id (new_service-AllSound [])

has_tracker : lookup id registered.trackers ≡ some (new_tracker 500)
unfolding register new_service lookup insert bytes_eq
has_tracker = refl

handle_osc-Handled_example :
    Returns
      (Handled id registered (new_tracker 500))
      (handle_osc id b'C' (pos 0) (pos 3) clock registered)
handle_osc-Handled_example =
    handle_osc-Handled id b'C' (pos 0) (pos 3) clock registered (new_tracker 500)
      registered-AllSound has_tracker
