-- ===== src/Client/Config/Handover.antt =====
-- What an auto-started daemon finds in its arguments.
use wmux.Prelude.{
  zero, suc, ◌^◌, ◌<◌, ◌≡◌, refl, sym, ap, ◌∙◌, Bool, Bool-cases, true, false, inl, inr, List, [],
  ◌∷◌, ◌++◌, none, Bytes, bytes_eq, bytes_eq_iff, codes, arith,
}
use wmux.Prelude.Int.{ℤ, pos, negsuc}
use wmux.Prelude.Decimal.{atoi-decimal}
use wmux.Client.Config.{
  Config, default, apply_settings, new_config, daemon_sentinel, base_dir_args, namespace_args,
  cold_restore_args, max_scrollback_args, build_daemon_args, is_daemon_mode, value_flag, bare_flag,
  parse_daemon_args, scrollback_setting,
}

-- A size that is not positive means none.
abbrev pub positive : ℤ → ℤ
positive (pos n) = pos n
positive (negsuc n) = pos 0

-- A size that an int64 holds.
abbrev pub Fits : ℤ → Type 0
Fits (pos n) = n < 2 ^ 63
Fits (negsuc n) = Unit

max_scrollback-applied :
    (n : ℤ) (c : Config)
    → Fits n
    → c.max_scrollback_size ≡ pos 0
    → apply_settings (parse_daemon_args (max_scrollback_args n)) c
      ≡ record c { max_scrollback_size = positive n }
unfolding apply_settings parse_daemon_args bytes_eq
max_scrollback-applied (pos zero) c h e = ap (λ m. record c { max_scrollback_size = m }) e
max_scrollback-applied (pos (suc n)) c h e =
    let (read, fine) = atoi-decimal (suc n) h in rw (fine, read, scrollback_setting) refl
max_scrollback-applied (negsuc n) c h e = ap (λ m. record c { max_scrollback_size = m }) e

-- The settings that stand last among the arguments.
last-applied :
    (b : Bool) (n : ℤ) (c : Config)
    → Fits n
    → c.cold_restore ≡ false
    → c.max_scrollback_size ≡ pos 0
    → apply_settings (parse_daemon_args (cold_restore_args b ++ max_scrollback_args n)) c
      ≡ record c { cold_restore = b; max_scrollback_size = positive n }
unfolding apply_settings parse_daemon_args bytes_eq
last-applied false n c h e z =
    max_scrollback-applied n c h z
    ∙ ap (λ b. record c { cold_restore = b; max_scrollback_size = positive n }) e
last-applied true (pos zero) c h e z =
    max_scrollback-applied (pos zero) (record c { cold_restore = true }) h z
last-applied true (pos (suc n)) c h e z =
    max_scrollback-applied (pos (suc n)) (record c { cold_restore = true }) h z
last-applied true (negsuc n) c h e z =
    max_scrollback-applied (negsuc n) (record c { cold_restore = true }) h z

-- What the daemon takes over from the configuration of its client.
abbrev pub handed_over : Config → Config
handed_over c = record default {
  namespace = c.namespace;
  base_dir = c.base_dir;
  socket = c.socket;
  token_path = c.token_path;
  data_dir = c.data_dir;
  cold_restore = c.cold_restore;
  max_scrollback_size = positive c.max_scrollback_size;
}

abbrev flags_of : Config → List Bytes
flags_of c =
    codes "--socket"
    ∷ c.socket
    ∷ codes "--token-path"
    ∷ c.token_path
    ∷ codes "--data-dir"
    ∷ c.data_dir
    ∷ (cold_restore_args c.cold_restore ++ max_scrollback_args c.max_scrollback_size)

flags-applied :
    (c d : Config)
    → Fits c.max_scrollback_size
    → d.cold_restore ≡ false
    → d.max_scrollback_size ≡ pos 0
    → apply_settings (parse_daemon_args (flags_of c)) d ≡ record d {
      socket = c.socket;
      token_path = c.token_path;
      data_dir = c.data_dir;
      cold_restore = c.cold_restore;
      max_scrollback_size = positive c.max_scrollback_size;
    }
unfolding apply_settings parse_daemon_args value_flag bytes_eq
flags-applied c d h e z =
    last-applied c.cold_restore c.max_scrollback_size
      (record d { socket = c.socket; token_path = c.token_path; data_dir = c.data_dir }) h e z

namespace-applied :
    (c d : Config)
    → Fits c.max_scrollback_size
    → d.cold_restore ≡ false
    → d.max_scrollback_size ≡ pos 0
    → d.namespace ≡ codes "default"
    → apply_settings (parse_daemon_args (namespace_args c.namespace ++ flags_of c)) d ≡ record d {
      namespace = c.namespace;
      socket = c.socket;
      token_path = c.token_path;
      data_dir = c.data_dir;
      cold_restore = c.cold_restore;
      max_scrollback_size = positive c.max_scrollback_size;
    }
unfolding apply_settings parse_daemon_args value_flag namespace_args bytes_eq
namespace-applied c d h e z n = elim (Bool-cases (bytes_eq c.namespace (codes "default"))) [
  | inl same ↦
      let is = n ∙ sym ((bytes_eq_iff c.namespace (codes "default")).0 same) in
      rw (same, namespace_args)
        (flags-applied c d h e z
          ∙ ap
              (λ k. record d {
                namespace = k;
                socket = c.socket;
                token_path = c.token_path;
                data_dir = c.data_dir;
                cold_restore = c.cold_restore;
                max_scrollback_size = positive c.max_scrollback_size;
              })
              is)
  | inr other ↦
      rw (other, namespace_args) (flags-applied c (record d { namespace = c.namespace }) h e z)
]

base_dir-first :
    (b : Bytes) (rest : List Bytes)
    → apply_settings (parse_daemon_args (base_dir_args b ++ rest)) default
      ≡ apply_settings (parse_daemon_args rest) (record default { base_dir = b })
unfolding apply_settings parse_daemon_args value_flag bytes_eq
base_dir-first [] rest = refl
base_dir-first (x ∷ b) rest = refl

parse_daemon_args-sentinel :
    (rest : List Bytes) → parse_daemon_args (daemon_sentinel ∷ rest) ≡ parse_daemon_args rest
unfolding parse_daemon_args value_flag bare_flag bytes_eq
parse_daemon_args-sentinel [] = refl
parse_daemon_args-sentinel (x ∷ rest) = refl

base_dir-applied :
    (c : Config)
    → Fits c.max_scrollback_size
    → apply_settings
        (parse_daemon_args (base_dir_args c.base_dir ++ (namespace_args c.namespace ++ flags_of c)))
        default
      ≡ handed_over c
base_dir-applied c h =
    base_dir-first c.base_dir (namespace_args c.namespace ++ flags_of c)
    ∙ namespace-applied c (record default { base_dir = c.base_dir }) h refl refl refl

is_daemon_mode-exe :
    (exe : Bytes) (rest : List Bytes) → is_daemon_mode (exe ∷ daemon_sentinel ∷ rest) ≡ true
unfolding is_daemon_mode bytes_eq
is_daemon_mode-exe exe rest = ground arith

-- A client that starts a daemon by itself hands its configuration over by arguments. Whatever the
-- texts are, the daemon is in daemon mode, and it starts from the namespace, the paths, the cold
-- restore and a positive scrollback size of the client, and from the defaults in all else. That is
-- for an executable that is not called like a flag, and for a size that an int64 holds.
pub new_config-build_daemon_args :
    (exe : Bytes) (c : Config)
    → value_flag exe ≡ none
    → bare_flag exe ≡ []
    → Fits c.max_scrollback_size
    → (is_daemon_mode (exe ∷ build_daemon_args c) ≡ true)
      × (new_config (parse_daemon_args (exe ∷ build_daemon_args c)) ≡ handed_over c)
unfolding is_daemon_mode build_daemon_args parse_daemon_args new_config
new_config-build_daemon_args exe c v b h = (
  is_daemon_mode-exe exe _,
  rw (v, parse_daemon_args, b)
      (ap (λ os. apply_settings os default) (parse_daemon_args-sentinel _) ∙ base_dir-applied c h),
)
