-- ===== src/Examples/Platform.antt =====
-- The helpers of the platform on concrete inputs.
use wmux.Prelude.{◌≡◌, refl, ◌<◌, true, List, [], ◌∷◌, ◌++◌, Bytes, codes, length, take, arith}
use wmux.Prelude.Search.{NoByte}
use wmux.Platform.Ansi.{strip, strip-NoByte}
use wmux.Platform.Scrollback.{concat, new_writer, write_all, write_all-new_writer}

-- Red text, a title, and a sequence that is cut off.
abbrev coloured : Bytes
coloured = 27 ∷ codes "[31mred" ++ 27 ∷ codes "]0;t" ++ 7 ∷ codes "x" ++ 27 ∷ codes "[3"

strips : strip coloured ≡ codes "redx"
unfolding strip
strips = refl

strip-NoByte_example :
    NoByte 27 (strip coloured)
    × (NoByte 27 coloured → strip coloured ≡ coloured)
    × (strip (strip coloured) ≡ strip coloured)
strip-NoByte_example = strip-NoByte coloured

abbrev chunks : List Bytes
chunks = codes "abc" ∷ codes "def" ∷ codes "g" ∷ []

capped : 0 < 5
capped = omega arith

write_all-new_writer_example :
    ((write_all (λ p. (length p, true)) chunks (new_writer 5)).content ≡ take 5 (concat chunks))
    × ((write_all (λ p. (length p, true)) chunks (new_writer 5)).written
        ≡ length (take 5 (concat chunks)))
write_all-new_writer_example =
    write_all-new_writer (λ p. (length p, true)) (λ p. refl) 5 chunks capped
