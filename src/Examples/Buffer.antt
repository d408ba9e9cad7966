-- ===== src/Examples/Buffer.antt =====
-- The output buffer on concrete inputs.
use wmux.Prelude.{◌≡◌, refl, ◌≢◌, ◌<◌, ◌≤◌, true, false, List, [], ◌∷◌, ◌++◌, some, arith}
use wmux.Session.Buffer.{Buffer, new_buffer, write, read, read_n}
use wmux.Session.Buffer.Fifo.{Op, writes, reads, reads_n, apply, run, inputs, run-fifo}
use wmux.Session.Buffer.Watermarks.{IsRegulated, run-new_buffer-IsRegulated}
use wmux.Session.Buffer.Aliasing.{write_all, hand_out, hand_out_slice_safe}

abbrev ops : List Op
ops = writes false (1 ∷ 2 ∷ 3 ∷ []) ∷ reads ∷ writes false (4 ∷ 5 ∷ []) ∷ reads_n 1 ∷ []

abbrev used : Buffer
used = (run ops (new_buffer 3 2)).1

hands_out : (run ops (new_buffer 3 2)).0 ≡ 1 ∷ 2 ∷ 3 ∷ 4 ∷ []
unfolding run apply new_buffer write read read_n
hands_out = refl

run-fifo_example :
    (run ops (new_buffer 3 2)).0 ++ (run ops (new_buffer 3 2)).1.content
    ≡ (new_buffer 3 2).content ++ inputs ops
run-fifo_example = run-fifo ops (new_buffer 3 2)

low_positive : 0 < 2
low_positive = omega arith

low_at_most_high : 2 ≤ 3
low_at_most_high = omega arith

run-new_buffer-IsRegulated_example : IsRegulated (run ops (new_buffer 3 2)).1
run-new_buffer-IsRegulated_example =
    run-new_buffer-IsRegulated 3 2 ops low_positive low_at_most_high

array_of_read_n : (read_n 9 used).0.array ≡ some 1
unfolding run apply new_buffer write read read_n
array_of_read_n = refl

hand_out_slice_safe_example :
    (write_all ((true, 6 ∷ []) ∷ []) (hand_out (some 9) used).1).array ≢ some 1
hand_out_slice_safe_example =
    hand_out_slice_safe 3 2 1 (some 9) ops ((true, 6 ∷ []) ∷ []) array_of_read_n
