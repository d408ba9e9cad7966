-- ===== src/Examples/Daemon.antt =====
-- Payloads of data frames and scans of output on concrete inputs.
use wmux.Prelude.{
  take, drop, ◌%◌, ◌≡◌, refl, ◌<◌, ◌≤◌, ◌↔◌, ◌+◌, [], ◌∷◌, ◌++◌, Option, none, some, Bytes,
  bytes_eq, codes, length, map, arith, if◌then◌else◌,
}
use wmux.Prelude.Int.{pos}
use wmux.Prelude.Atoi.{parse_uint}
use wmux.Prelude.Search.{has_prefix, index, index_byte, count_byte}
use wmux.Daemon.Da.{da1, da2, da2_seq, da1_seq0, parse_da, requests, parse_da-requests, scan_da}
use wmux.Daemon.Osc.{introducer, newlines, parse_osc, parse_osc_loop, scan_osc, marks}
use wmux.Daemon.Osc.Places.{Places, parse_osc_loop-ends}
use wmux.Daemon.Osc.Rows.{is_empty, call_at, scan_osc-Rows}
use wmux.Daemon.Payload.{encode_data_payload, decode_data_payload, decode_data_payload_iff}

is_byte : 2 < 256
is_byte = omega arith

decode_data_payload_iff_example :
    ((decode_data_payload (2 ∷ codes "abxyz") ≡ some (codes "ab", codes "xyz")) ↔ (
      (encode_data_payload (codes "ab") (codes "xyz") ≡ 2 ∷ codes "abxyz")
      × (length (codes "ab") < 256)))
    × (decode_data_payload (encode_data_payload (codes "ab") (codes "xyz"))
        ≡ some (
          take (length (codes "ab") % 256) (codes "ab"),
          drop (length (codes "ab") % 256) (codes "ab") ++ codes "xyz",
        ))
decode_data_payload_iff_example =
    decode_data_payload_iff 2 (codes "abxyz") (codes "ab") (codes "xyz") is_byte

-- Two requests among other output.
abbrev asking : Bytes
asking = codes "ab" ++ da2_seq ++ codes "x" ++ da1_seq0 ++ 27 ∷ []

parse_da-requests_example : parse_da asking ≡ requests asking
parse_da-requests_example = parse_da-requests asking

finds_both : parse_da asking ≡ da2 ∷ da1 ∷ []
unfolding parse_da has_prefix index_byte
finds_both = refl

silent_with_client : scan_da 1 asking ≡ []
unfolding scan_da
silent_with_client = refl

-- A newline, the end of a command with status 7, and another newline.
abbrev marked : Bytes
marked = 10 ∷ introducer ++ codes "133;D;7" ++ 7 ∷ 10 ∷ []

abbrev no_url : Bytes → Option Bytes
no_url v = none

fuel_fits : length marked ≤ 20
fuel_fits = omega arith

parse_osc_loop-ends_example :
    (parse_osc_loop no_url 20 0 marked ≡ parse_osc no_url marked)
    × Places marked 0 (parse_osc_loop no_url 20 0 marked)
parse_osc_loop-ends_example = parse_osc_loop-ends no_url 20 marked fuel_fits

scan_osc-Rows_example :
    scan_osc no_url marked (some 5)
    ≡ some (
      some (if is_empty (parse_osc no_url marked) then 5 else 5 + newlines marked),
      map (call_at marked 5) (parse_osc no_url marked),
    )
scan_osc-Rows_example = scan_osc-Rows no_url marked 5

sees_exit : scan_osc no_url marked (some 5) ≡ some (some 7, marks b'D' (pos 7) 6 ∷ [])
unfolding scan_osc count_byte index index_byte has_prefix bytes_eq parse_uint
sees_exit = refl
