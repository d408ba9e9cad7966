-- ===== src/Daemon/Osc/Total.antt =====
-- A scan always comes to an end without a panic, with and without a counter.
use wmux.Prelude.{ℕ, ◌≡◌, refl, Bytes, Option, none, some, List, [], ◌∷◌}
use wmux.Daemon.Osc.{
  OscResult, OscType, cwd, notification, shell_ready, osc133, Call, parse_osc, advance, mark,
  changes_cwd, notifies, tells_ready, scan_one, scan_results, scan_found, scan_osc,
}
use wmux.Daemon.Osc.Rows.{scan_osc-Rows}

scan_one-none :
    (t : OscType) (output v : Bytes) (cursor offset : ℕ)
    → (k : ℕ) × (call : Call) × (scan_one output cursor none t v offset ≡ some (k, none, call))
unfolding scan_one advance
scan_one-none cwd output v cursor offset = (cursor, changes_cwd v, refl)
scan_one-none notification output v cursor offset = (cursor, notifies v, refl)
scan_one-none shell_ready output v cursor offset = (cursor, tells_ready, refl)
scan_one-none osc133 output v cursor offset = (cursor, mark v 0, refl)

scan_results-none :
    (rs : List OscResult) (output : Bytes) (cursor : ℕ)
    → (k : ℕ) × (calls : List Call) × (scan_results output cursor none rs ≡ some (k, none, calls))
unfolding scan_results
scan_results-none [] output cursor = (cursor, [], refl)
scan_results-none (r ∷ rs) output cursor =
    let (k, call, e) = scan_one-none r.type output r.value cursor r.offset in
    let (k', calls, f) = scan_results-none rs output k in (k', call ∷ calls, rw (e, f) refl)

scan_found-none :
    (rs : List OscResult) (output : Bytes)
    → (r : Option ℕ × List Call) × (scan_found output none rs ≡ some r)
unfolding scan_found
scan_found-none [] output = ((none, []), refl)
scan_found-none (r ∷ rs) output =
    let (k, calls, e) = scan_results-none (r ∷ rs) output 0 in ((none, calls), rw e refl)

pub scan_osc-total :
    (parse_url : Bytes → Option Bytes) (output : Bytes) (counter : Option ℕ)
    → (r : Option ℕ × List Call) × (scan_osc parse_url output counter ≡ some r)
unfolding scan_osc
scan_osc-total parse_url output (some n) = (_, scan_osc-Rows parse_url output n)
scan_osc-total parse_url output none = scan_found-none (parse_osc parse_url output) output
