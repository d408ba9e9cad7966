-- ===== src/Examples/Files.antt =====
-- The pages and the files of the platform on concrete inputs.
use mathlib.Core.List.{Perm, Mem}
use mathlib.Core.List.Perm
use wmux.Prelude.{
  insert, ℕ, ◌≡◌, refl, ◌⊎◌, if◌then◌else◌, Bool, true, false, inr, List, [], ◌∷◌, ◌++◌, Option,
  none, some, Bytes, codes, Map, lookup, delete, bytes_eq,
}
use wmux.Prelude.Int.{pos}
use wmux.Prelude.Every.{All, AllPairs}
use wmux.Platform.Ansi.{strip}
use wmux.Prelude.Atoi.{atoi, atoi_fails}
use wmux.Prelude.Decimal.{split_byte}
use wmux.Platform.Html.Style.{style, apply_sgr, apply_code, extended, color256, nth}
use wmux.Platform.Html.{plain, pre_tag, to_html}
use wmux.Platform.Html.Markup.{Token, tag, tokens, texts, visible, IsMarkup, to_html-IsMarkup}
use wmux.Platform.Html.Plain.{escape_string, regular, to_html-strip}
use wmux.Platform.SessionDirs.{
  removed, stays, ended_before, remove_failed, Metadata, Dir, SessionDirInfo, evict_lru,
  meta_file_name,
}
use wmux.Platform.SessionDirs.Listing.{has_ended}
use wmux.Lifecycle.{SessionState}
use wmux.Platform.Commands.{
  File, Writer, new_writer, write_fails, saves, file_of, zero_file, Op, updates, closes, notices,
  fires, ends, update, flush, notice, fire, step, run, load_from,
}
use wmux.Platform.Commands.Disk.{states, memory, ReadsBack}
use wmux.Platform.Commands.Loads.{run-load, run-latest}

-- Bold red text with a bracket in it, and a colour that is out of range.
abbrev coloured : Bytes
coloured = 27 ∷ codes "[1;31ma<b" ++ (27 ∷ codes "[38;5;300mx" ++ (27 ∷ codes "[0my"))

renders :
    to_html coloured
    ≡ b'<' ∷ pre_tag
      ++ codes
          "><span style=\"font-weight:bold;color:#aa0000\">a&lt;b</span><span style=\"font-weight:bold\">x</span>y</pre>"
unfolding to_html style apply_sgr apply_code extended color256 nth split_byte atoi atoi_fails
renders = refl

to_html-IsMarkup_example :
    (ts : List Token) × (tokens none (to_html coloured) ≡ tag pre_tag ∷ ts)
    × IsMarkup false ts
    × (texts ts ≡ visible plain coloured)
to_html-IsMarkup_example = to_html-IsMarkup coloured

coloured-regular : regular plain coloured ≡ true
unfolding regular
coloured-regular = refl

to_html-strip_example : texts (tokens none (to_html coloured)) ≡ escape_string (strip coloured)
to_html-strip_example = to_html-strip coloured coloured-regular

-- The metadata files hold the time of the end, or nothing.
abbrev parse : Bytes → Option Metadata
parse text = some (record {
  session_id = [];
  shell = [];
  cwd = [];
  cols = pos 80;
  rows = pos 24;
  started_at = 0;
  ended_at = elim text [ [] ↦ none | t ∷ rest ↦ some t ];
  exit_code = none;
})

abbrev dir : Bytes → Dir
dir text = record {
  is_dir = true;
  readable = true;
  files = record { name = meta_file_name; is_dir = false; stat = true; content = text } ∷ [];
}

-- A session that runs, and two that have ended at 9 and at 4.
abbrev base : Map Dir
base = (codes "a", dir []) ∷ (codes "b", dir (9 ∷ 0 ∷ 0 ∷ [])) ∷ (codes "c", dir (4 ∷ 0 ∷ [])) ∷ []

-- An insertion sort for any order.
insert_by :
    (SessionDirInfo → SessionDirInfo → Bool)
    → SessionDirInfo
    → List SessionDirInfo
    → List SessionDirInfo
insert_by less d [] = d ∷ []
insert_by less d (e ∷ ds) = if less e d then e ∷ insert_by less d ds else d ∷ e ∷ ds

sort : (SessionDirInfo → SessionDirInfo → Bool) → List SessionDirInfo → List SessionDirInfo
unfolding insert_by
sort less [] = []
sort less (d ∷ ds) = insert_by less d (sort less ds)

abbrev InOrder : List SessionDirInfo → Type 0
InOrder = AllPairs (λ d e. ended_before e d ≡ false)

abbrev AllEnded : List SessionDirInfo → Type 0
AllEnded = All (λ d. has_ended d.ended_at ≡ true)

-- The one that ended first goes.
evicts :
    (evict_lru parse sort (λ p. removed) (pos 3) base).0
    ≡ (codes "a", dir []) ∷ (codes "b", dir (9 ∷ 0 ∷ 0 ∷ [])) ∷ []
unfolding evict_lru sort ended_before bytes_eq delete
evicts = refl

-- A removal that fails keeps the metadata, and ends the loop.
fails :
    evict_lru parse sort (λ p. stays (λ f. bytes_eq f.name meta_file_name)) (pos 3) base
    ≡ (base, some remove_failed)
unfolding evict_lru sort ended_before bytes_eq insert lookup
fails = refl

-- A session whose state is known: the text of its file holds the time alone.
abbrev given : SessionState
given = record {
  history =
      record {
        started_at = 1;
        ended_at = 2;
        exit_code = pos 0;
        start_row = pos 3;
        end_row = pos 4;
        orphan = false;
        orphan_reason = [];
      }
      ∷ [];
  in_flight = none;
}

abbrev marshal_time : File → Option Bytes
marshal_time f = some (f.saved_at ∷ [])

abbrev unmarshal_time : Bytes → Option File
unmarshal_time [] = none
unmarshal_time (t ∷ rest) = some (file_of (codes "s") t given)

abbrev writer : Writer
writer = record {
  path = codes "c.json";
  sess_id = codes "s";
  pending = record { history = []; in_flight = none };
  has_state = false;
  closed = false;
  notified = false;
  armed = false;
  stopped = false;
}

writer_made : new_writer (codes "c.json") (codes "s") ≡ inr writer
unfolding new_writer
writer_made = refl

-- A save by the timer fails in the middle of the write.
abbrev calls : List Op
calls = updates given ∷ notices ∷ fires 5 (write_fails (some (1 ∷ []))) ∷ []

calls-ReadsBack :
    All (ReadsBack marshal_time unmarshal_time (codes "c.json") (codes "s")) (states calls)
calls-ReadsBack = (λ now. refl, tt)

no_file : lookup {V = Bytes} (codes "c.json") [] ≡ none
unfolding lookup
no_file = refl

run-load_example :
    (load_from unmarshal_time (codes "c.json") (run marshal_time calls (writer, [])).1
      ≡ (zero_file, none))
    ⊎ ((now : ℕ) × (s : SessionState) × (load_from unmarshal_time
            (codes "c.json")
            (run marshal_time calls (writer, [])).1
          ≡ (file_of (codes "s") now s, none))
        × Mem s (states calls))
run-load_example =
    run-load marshal_time unmarshal_time (codes "c.json") (codes "s") writer [] writer_made no_file
      calls calls-ReadsBack

still_running : (run marshal_time calls (writer, [])).0.stopped ≡ false
unfolding run step update notice fire
still_running = refl

remembered : (memory calls (false, none)).1 ≡ some given
remembered = refl

run-latest_example :
    ((flush marshal_time 9 saves (run marshal_time calls (writer, []))).1 ≡ none)
    × (load_from unmarshal_time
          (codes "c.json")
          (flush marshal_time 9 saves (run marshal_time calls (writer, []))).0.1
        ≡ (file_of (codes "s") 9 given, none))
    × (load_from unmarshal_time
          (codes "c.json")
          (run marshal_time (closes ∷ ends 9 saves ∷ []) (run marshal_time calls (writer, []))).1
        ≡ (file_of (codes "s") 9 given, none))
run-latest_example =
    run-latest marshal_time unmarshal_time (codes "c.json") (codes "s") writer [] writer_made
      no_file calls given 9 calls-ReadsBack still_running remembered
