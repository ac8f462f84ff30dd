-- ===== src/Tests/System.antt =====
-- src/config.rs and the start-up of src/daemon.rs with the defaults.
use xfiles.Prelude.{
  ℕ, ◌^◌, ◌≡◌, ◌⊎◌, inl, refl, true, Option, none, some, [], Text, text_eq, codes, if◌then◌else◌,
  ◌==◌, filter,
}
use xfiles.Prelude.Numbers.{parse_unsigned}
use xfiles.Mcp.{McpManifest}
use xfiles.Plumber.{load_from_config}
use xfiles.Config.{Config, default_config, from_env}
use xfiles.Config.Env.{IsPath, IsLoaded, IsUnusable, IsBad, IsOverridden, from_env_lem}
use xfiles.Daemon.{AppState}
use xfiles.Daemon.Startup.{startup}
use xfiles.System.{Reaches, started, stepped, step, posted}
use xfiles.System.Agents.{Reaches-get_node}
use xfiles.Vfs.Paths.{normalize, split, extend_first, resolve, pop, join}
use xfiles.Vfs.Registry.{get_node}
use xfiles.Prelude.Texts.{starts_with, trim, is_whitespace, text_beq}
use xfiles.System.Invariant.{IsWellFormed, Reaches-IsWellFormed}
use xfiles.Tests.Samples.{opaque, prefixes, ascii, sample}
use xfiles.Tests.Floats.{thousandths, steady}
use xfiles.Tests.Hub.{two_channels, json, moment}

abbrev port : ℕ
port = 9999

abbrev defaults : Config opaque thousandths ℕ
defaults = default_config port

-- No tool server answers.
abbrev fetch : Text → Text ⊎ McpManifest opaque
fetch url = inl (codes "timeout")

first_state :
    (s : AppState prefixes thousandths steady two_channels ascii json) × (startup prefixes
        thousandths steady two_channels ascii json defaults
        (λ p. true)
        5
        (λ n. [])
        fetch
        ([], [])
      ≡ some s)
unfolding startup default_config load_from_config
first_state = (_, refl)

after_message :
    (s : AppState prefixes thousandths steady two_channels ascii json) × Reaches prefixes
      thousandths steady two_channels ascii json ℕ s
after_message = (
  step prefixes thousandths steady two_channels ascii json first_state.0 (posted 6 moment sample),
  stepped first_state.0 (posted 6 moment sample)
      (started defaults (λ p. true) 5 (λ n. []) fetch ([], []) first_state.0 first_state.1),
)

Reaches-IsWellFormed_example :
    IsWellFormed prefixes thousandths steady two_channels ascii json after_message.0
Reaches-IsWellFormed_example =
    Reaches-IsWellFormed prefixes thousandths steady two_channels ascii json {Addr = ℕ}
      after_message.0 after_message.1

-- One variable is set, to a text that is neither `true` nor `false`.
abbrev var : Text → Option Text
var name = if name == codes "XFILES_QUANTUM_ENABLED" then some (codes "off") else none

abbrev no_file : Text → Option (Option Text)
no_file path = none

abbrev no_toml : Text → Option (Config opaque thousandths ℕ)
no_toml text = none

abbrev no_addr : Text → Option ℕ
no_addr text = none

from_env_lem_example :
    (path : Text) × IsPath port var no_file no_toml no_addr path
    × (((cfg : Config opaque thousandths ℕ) × (base : Config opaque thousandths ℕ) × (from_env port
              var no_file no_toml no_addr
            ≡ some cfg)
          × IsLoaded port var no_file no_toml no_addr path base
          × IsOverridden port var no_file no_toml no_addr base cfg)
        ⊎ ((from_env port var no_file no_toml no_addr ≡ none)
            × (IsUnusable port var no_file no_toml no_addr path
                ⊎ IsBad no_addr (var (codes "XFILES_BIND"))
                ⊎ IsBad (parse_unsigned (2 ^ 64)) (var (codes "XFILES_MAX_AGENTS")))))
from_env_lem_example = from_env_lem port var no_file no_toml no_addr

Reaches-get_node_example : get_node after_message.0.hub.vfs (codes "/net/bob") ≡ none
unfolding normalize trim is_whitespace split extend_first filter resolve pop join text_beq
    starts_with
Reaches-get_node_example =
    Reaches-get_node prefixes thousandths steady two_channels ascii json {Addr = ℕ} after_message.0
      (codes "/net/bob") after_message.1 refl
