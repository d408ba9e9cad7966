-- ===== src/Examples/Reading.antt =====
-- The read loop of a session on a concrete run.
use wmux.Prelude.{ℕ, ◌+◌, ◌≡◌, refl, true, false, List, [], ◌∷◌, Bytes, codes, length}
use wmux.Session.Buffer.{new_buffer, write, read}
use wmux.Session.Batcher.{by_tick, new_batcher, add, turn, do_flush}
use wmux.Session.ReadLoop.{Reading, Step, reads, emulates, turns, hands_out, run, new_reading}
use wmux.Session.ReadLoop.Kept.{Kept, all_taken, run-new_reading-Kept}

-- A screen that counts bytes.
abbrev count : Bytes → ℕ → ℕ
count c n = n + length c

abbrev steps : List Step
steps =
    reads (codes "ab") false 1
    ∷ reads [] false 2
    ∷ turns by_tick false
    ∷ reads (codes "cd") true 3
    ∷ emulates
    ∷ hands_out
    ∷ reads (codes "ef") false 4
    ∷ []

abbrev begun : Reading ℕ
begun = new_reading 100 50 16000000 0 0 true

-- The end of the loop comes with the second chunk; the third is never read.
takes : all_taken count steps begun ≡ codes "ab" ∷ codes "cd" ∷ []
unfolding new_reading run write read add turn do_flush new_buffer new_batcher
takes = refl

hands : ((run count steps begun).1 ≡ codes "ab") × ((run count steps begun).0.emulator ≡ 2)
unfolding new_reading run write read add turn do_flush new_buffer new_batcher
hands = (refl, refl)

run-new_reading-Kept_example :
    Kept count 0 true
      (all_taken count steps (new_reading 100 50 16000000 0 0 true))
      (run count steps (new_reading 100 50 16000000 0 0 true)).1
      (run count steps (new_reading 100 50 16000000 0 0 true)).0
run-new_reading-Kept_example = run-new_reading-Kept count 0 100 50 16000000 0 true steps
