-- ===== src/Examples/Handlers.antt =====
-- The handlers on concrete inputs.
use wmux.Prelude.{◌≡◌, refl, List, [], ◌∷◌, some, bytes_eq, codes, lookup, insert, delete}
use wmux.Prelude.Int.{pos}
use wmux.Prelude.Search.{contains, has_prefix}
use wmux.Session.Ids.{validate_session_id, is_allowed_id_rune}
use wmux.Session.Defs.{CreateOptions, Service}
use wmux.Session.Service.{new_service, new_session, create, create_locked, kill, list}
use wmux.Session.Invariant.{
  Op, IsWellformed, creates, step, run, new_service-IsWellformed, run-IsWellformed,
}
use wmux.Daemon.Handlers.{
  killed, handle_kill_prefix, sessions_by_prefix, filter_ids, under, kill_all,
}
use wmux.Daemon.Handlers.Prefix.{KilledUnder, handle_kill_prefix-KilledUnder}

abbrev opts : CreateOptions
opts = record {
  shell = codes "sh";
  args = [];
  cols = pos 80;
  rows = pos 24;
  cwd = [];
  env = [];
  high_watermark = pos 0;
  low_watermark = pos 0;
}

-- Two sessions under the prefix "ab", and one beside it.
abbrev made : List Op
made =
    creates (codes "ab/x") opts (some 71) 5
    ∷ creates (codes "abc") opts (some 72) 6
    ∷ creates (codes "ab/y") opts (some 73) 7
    ∷ []

abbrev service : Service
service = run made (new_service 0)

service-IsWellformed : IsWellformed service
service-IsWellformed = run-IsWellformed made (new_service 0) (new_service-IsWellformed 0)

handle_kill_prefix-KilledUnder_example :
    KilledUnder (codes "ab") service (handle_kill_prefix (some (codes "ab")) service)
handle_kill_prefix-KilledUnder_example =
    handle_kill_prefix-KilledUnder b'a' (codes "b") service service-IsWellformed

reports :
    (handle_kill_prefix (some (codes "ab")) service).1
    ≡ killed (codes "ab/x" ∷ codes "ab/y" ∷ []) []
unfolding handle_kill_prefix sessions_by_prefix filter_ids under kill_all kill list run step
    new_service create create_locked validate_session_id is_allowed_id_rune contains has_prefix
    lookup insert delete bytes_eq new_session
reports = refl
