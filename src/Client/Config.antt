-- ===== src/Client/Config.antt =====
-- pkg/client/options.go, namespace.go and the arguments of an auto-started daemon in client.go and
-- daemon.go. The emulator factory, which no argument carries, is left out.
pub mod Handover
use wmux.Prelude.{
  ℕ, zero, suc, ◌*◌, ◌^◌, if◌then◌else◌, Bool, true, false, List, [], ◌∷◌, ◌++◌, Option, none, some,
  Bytes, bytes_eq, codes,
}
use wmux.Prelude.Int.{ℤ, pos, negsuc}
use wmux.Prelude.Atoi.{atoi, atoi_fails}
use wmux.Prelude.Decimal.{decimal}

pub record Config : Type 0 where
  pub namespace : Bytes
  pub base_dir : Bytes
  pub socket : Bytes
  pub token_path : Bytes
  pub data_dir : Bytes
  pub cold_restore : Bool
  pub max_scrollback_size : ℤ
  pub auto_start : Bool
  pub rpc_timeout : ℕ
  pub debug_log_path : Bytes
  pub debug_level : ℤ
  pub debug_max_size : ℤ
  pub debug_max_files : ℤ

abbrev pub default : Config
default = record {
  namespace = codes "default";
  base_dir = [];
  socket = [];
  token_path = [];
  data_dir = [];
  cold_restore = false;
  max_scrollback_size = pos 0;
  auto_start = true;
  rpc_timeout = 10 * 10 ^ 9;
  debug_log_path = [];
  debug_level = pos 0;
  debug_max_size = pos 0;
  debug_max_files = pos 0;
}

-- A functional option.
abbrev pub Setting : Type 0
Setting = Config → Config

abbrev with_namespace : Bytes → Setting
with_namespace v c = record c { namespace = v }

abbrev with_base_dir : Bytes → Setting
with_base_dir v c = record c { base_dir = v }

abbrev with_socket : Bytes → Setting
with_socket v c = record c { socket = v }

abbrev with_token_path : Bytes → Setting
with_token_path v c = record c { token_path = v }

abbrev with_data_dir : Bytes → Setting
with_data_dir v c = record c { data_dir = v }

abbrev with_cold_restore : Bool → Setting
with_cold_restore b c = record c { cold_restore = b }

abbrev with_max_scrollback_size : ℤ → Setting
with_max_scrollback_size n c = record c { max_scrollback_size = n }

unfoldable pub apply_settings : List Setting → Setting
apply_settings [] c = c
apply_settings (o ∷ os) c = apply_settings os (o c)

unfoldable pub new_config : List Setting → Config
unfolding apply_settings
new_config os = apply_settings os default

abbrev or_else : Bytes → Bytes → Bytes
or_else [] d = d
or_else (c ∷ s) d = c ∷ s

-- `resolveConfig`; `join` is filepath.Join, and `home` is what defaultBaseDir returns.
unfoldable pub resolve_config : (Bytes → Bytes → Bytes) → Bytes → Setting
resolve_config join home c =
    let base = or_else c.base_dir home in
    let ns_dir = join base c.namespace in
    record c {
      base_dir = base;
      socket = or_else c.socket (join ns_dir (codes "daemon.sock"));
      token_path = or_else c.token_path (join ns_dir (codes "daemon.token"));
      data_dir = or_else c.data_dir (join ns_dir (codes "sessions"));
    }

abbrev pub daemon_sentinel : Bytes
daemon_sentinel = codes "__wmux_daemon__"

abbrev pub base_dir_args : Bytes → List Bytes
base_dir_args [] = []
base_dir_args (c ∷ s) = codes "--base-dir" ∷ (c ∷ s) ∷ []

unfoldable pub namespace_args : Bytes → List Bytes
namespace_args ns = if bytes_eq ns (codes "default") then [] else codes "--namespace" ∷ ns ∷ []

abbrev pub cold_restore_args : Bool → List Bytes
cold_restore_args true = codes "--cold-restore" ∷ []
cold_restore_args false = []

abbrev pub max_scrollback_args : ℤ → List Bytes
max_scrollback_args (pos (suc n)) = codes "--max-scrollback" ∷ decimal (pos (suc n)) ∷ []
max_scrollback_args _ = []

unfoldable pub build_daemon_args : Config → List Bytes
unfolding namespace_args
build_daemon_args c =
    daemon_sentinel
    ∷ (base_dir_args c.base_dir
        ++ (namespace_args c.namespace
            ++ (codes "--socket"
                ∷ c.socket
                ∷ codes "--token-path"
                ∷ c.token_path
                ∷ codes "--data-dir"
                ∷ c.data_dir
                ∷ (cold_restore_args c.cold_restore ++ max_scrollback_args c.max_scrollback_size))))

unfoldable pub is_daemon_mode : List Bytes → Bool
is_daemon_mode [] = false
is_daemon_mode (a ∷ args) = if bytes_eq a daemon_sentinel then true else is_daemon_mode args

unfoldable pub scrollback_setting : Bytes → List Setting
scrollback_setting v = if atoi_fails v then [] else with_max_scrollback_size (atoi v) ∷ []

-- The flags with a value: what each makes of it.
unfoldable pub value_flag : Bytes → Option (Bytes → List Setting)
unfolding scrollback_setting
value_flag a =
    if bytes_eq a (codes "--base-dir")
    then some (λ v. with_base_dir v ∷ [])
    else if bytes_eq a (codes "--namespace")
    then some (λ v. with_namespace v ∷ [])
    else if bytes_eq a (codes "--socket")
    then some (λ v. with_socket v ∷ [])
    else if bytes_eq a (codes "--token-path")
    then some (λ v. with_token_path v ∷ [])
    else if bytes_eq a (codes "--data-dir")
    then some (λ v. with_data_dir v ∷ [])
    else if bytes_eq a (codes "--max-scrollback")
    then some scrollback_setting
    else none

unfoldable pub bare_flag : Bytes → List Setting
bare_flag a = if bytes_eq a (codes "--cold-restore") then with_cold_restore true ∷ [] else []

-- A flag without its value, at the end, is passed over.
unfoldable pub parse_daemon_args : List Bytes → List Setting
unfolding value_flag bare_flag
parse_daemon_args [] = []
parse_daemon_args (a ∷ []) = bare_flag a
parse_daemon_args (a ∷ v ∷ rest) = elim (value_flag a) [
  | none ↦ bare_flag a ++ parse_daemon_args (v ∷ rest)
  | some f ↦ f v ++ parse_daemon_args rest
]
