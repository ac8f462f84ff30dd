-- ===== src/Config/Env.antt =====
-- src/config.rs: what the variables of the environment do to the configuration.
use xfiles.Prelude.{
  ◌^◌, ◌≡◌, ◌⊎◌, ◌↔◌, inl, inr, refl, Bool, false, Option, none, some, arith, eq_iff, Text, text_eq,
  codes, Option-cases,
}
use xfiles.Prelude.Numbers.{parse_unsigned}
use xfiles.Message.{Opaque}
use xfiles.Floats.{Floats}
use xfiles.Config.{
  Config, default_config, path_or_default, override, override_flag, load_file, apply_env, from_env,
}

-- A flag is false exactly if its variable says so, or is not set and the file says so.
override_flag_iff :
    (var : Option Text) (b : Bool)
    → (override_flag var b ≡ false) ↔ ((var ≡ some (codes "false")) ⊎ ((var ≡ none) × (b ≡ false)))
override_flag_iff none b =
    (λ h. inr (refl, h), λ h. elim h [ inl e ↦ absurd (ground (arith, e)) | inr e ↦ e.1 ])
override_flag_iff (some v) b = (
  λ h. ground (arith, eq_iff v (codes "true"), eq_iff v (codes "false"), h),
  λ h. ground (arith, eq_iff v (codes "true"), eq_iff v (codes "false"), h),
)

-- A variable says something that is read as the value.
abbrev pub Sets {ℓ} : {A : Type ℓ} → (Text → Option A) → Option Text → A → Type ℓ
Sets parse var a = (v : Text) × (var ≡ some v) × (parse v ≡ some a)

-- A variable says something that does not parse.
abbrev pub IsBad {ℓ} : {A : Type ℓ} → (Text → Option A) → Option Text → Type ℓ
IsBad parse var = (v : Text) × (var ≡ some v) × (parse v ≡ none)

override_cases {ℓ} :
    {A : Type ℓ} (parse : Text → Option A) (var : Option Text) (a : A)
    → ((b : A) × (override parse var a ≡ some b) × (((var ≡ none) × (b ≡ a)) ⊎ Sets parse var b))
      ⊎ ((override parse var a ≡ none) × IsBad parse var)
override_cases parse none a = inl (a, refl, inl (refl, refl))
override_cases parse (some v) a = elim (Option-cases (parse v)) [
  | inl e ↦ inr (e, (v, refl, e))
  | inr (b, e) ↦ inl (b, e, inr (v, refl, e))
]

module _ {x : Opaque} {fl : Floats} {Addr : Type 0} (default_bind : Addr) (var : Text → Option Text)
    (file : Text → Option (Option Text)) (from_toml : Text → Option (Config x fl Addr))
    (parse_addr : Text → Option Addr) where
  -- The path of the file: what its variable says, or `xfiles.toml`.
  abbrev pub IsPath : Text → Type 0
  IsPath path =
      (var (codes "XFILES_CONFIG") ≡ some path)
      ⊎ ((var (codes "XFILES_CONFIG") ≡ none) × (path ≡ codes "xfiles.toml"))

  -- What is taken from the file: the defaults where there is none.
  abbrev pub IsLoaded : Text → Config x fl Addr → Type 0
  IsLoaded path base =
      ((file path ≡ none) × (base ≡ default_config default_bind))
      ⊎ ((text : Text) × (file path ≡ some (some text)) × (from_toml text ≡ some base))

  -- The file is there and cannot be read, or does not parse.
  abbrev pub IsUnusable : Text → Type 0
  IsUnusable path =
      (file path ≡ some none)
      ⊎ ((text : Text) × (file path ≡ some (some text)) × (from_toml text ≡ none))

  -- What `from_env` gives on top of what it loaded.
  pub record IsOverridden (base cfg : Config x fl Addr) : Type 0 where
    pub bind_addr_set :
        ((var (codes "XFILES_BIND") ≡ none) × (cfg.hub.bind_addr ≡ base.hub.bind_addr))
        ⊎ Sets parse_addr (var (codes "XFILES_BIND")) cfg.hub.bind_addr
    pub max_agents_set :
        ((var (codes "XFILES_MAX_AGENTS") ≡ none) × (cfg.hub.max_agents ≡ base.hub.max_agents))
        ⊎ Sets (parse_unsigned (2 ^ 64)) (var (codes "XFILES_MAX_AGENTS")) cfg.hub.max_agents
    pub quantum_off : (cfg.quantum.enabled ≡ false) ↔ (
        (var (codes "XFILES_QUANTUM_ENABLED") ≡ some (codes "false"))
        ⊎ ((var (codes "XFILES_QUANTUM_ENABLED") ≡ none) × (base.quantum.enabled ≡ false)))
    pub rest : cfg ≡ record base {
      hub = record base.hub { bind_addr = cfg.hub.bind_addr; max_agents = cfg.hub.max_agents };
      quantum = record base.quantum { enabled = cfg.quantum.enabled };
    }

  load_file_cases :
      (path : Text) × IsPath path
      × (((base : Config x fl Addr) × (load_file default_bind var file from_toml parse_addr
              ≡ some base)
            × IsLoaded path base)
          ⊎ ((load_file default_bind var file from_toml parse_addr ≡ none) × IsUnusable path))
  unfolding load_file
  load_file_cases = (
    path_or_default (var (codes "XFILES_CONFIG")),
    set (var (codes "XFILES_CONFIG")) refl,
    elim (Option-cases (file (path_or_default (var (codes "XFILES_CONFIG"))))) [
      | inl e ↦ inl (default_config default_bind, rw (e, load_file) refl, inl (e, refl))
      | inr (contents, e) ↦ read contents e
    ],
  )
    where
      set :
          (v : Option Text)
          → var (codes "XFILES_CONFIG") ≡ v
          → (var (codes "XFILES_CONFIG") ≡ some (path_or_default v))
            ⊎ ((var (codes "XFILES_CONFIG") ≡ none) × (path_or_default v ≡ codes "xfiles.toml"))
      set none e = inr (e, refl)
      set (some path) e = inl e

      read :
          (contents : Option Text)
          → file (path_or_default (var (codes "XFILES_CONFIG"))) ≡ some contents
          → ((base : Config x fl Addr) × (load_file default_bind var file from_toml parse_addr
                ≡ some base)
              × IsLoaded (path_or_default (var (codes "XFILES_CONFIG"))) base)
            ⊎ ((load_file default_bind var file from_toml parse_addr ≡ none)
                × IsUnusable (path_or_default (var (codes "XFILES_CONFIG"))))
      read none e = inr (rw (e, load_file) refl, inl e)
      read (some text) e = elim (Option-cases (from_toml text)) [
        | inl t ↦ inr (rw (e, load_file) t, inr (text, e, t))
        | inr (base, t) ↦ inl (base, rw (e, load_file) t, inr (text, e, t))
      ]

  -- `from_env` takes what the file says, whose path a variable may give, or the defaults where it is not
  -- there, with the address, the number of agents and the quantum router's flag set by their variables.
  -- The quantum router is then disabled exactly if its variable is the text `false`, or is not set and the
  -- file disables it: any other text enables it. It fails exactly if the file is there and cannot be read or
  -- parsed, or if the variable for the address or for the number of agents is set and does not parse.
  pub from_env_lem :
      (path : Text) × IsPath path
      × (((cfg : Config x fl Addr) × (base : Config x fl Addr) × (from_env default_bind var file
                from_toml parse_addr
              ≡ some cfg)
            × IsLoaded path base
            × IsOverridden base cfg)
          ⊎ ((from_env default_bind var file from_toml parse_addr ≡ none)
              × (IsUnusable path
                  ⊎ IsBad parse_addr (var (codes "XFILES_BIND"))
                  ⊎ IsBad (parse_unsigned (2 ^ 64)) (var (codes "XFILES_MAX_AGENTS")))))
  unfolding from_env apply_env
  from_env_lem =
      let (path, named, loaded) = load_file_cases in
      (
        path,
        named,
        elim loaded [
          | inr (l, bad) ↦ inr (rw (l, from_env) refl, inl bad)
          | inl (base, l, from) ↦
              elim (override_cases parse_addr (var (codes "XFILES_BIND")) base.hub.bind_addr) [
                | inr (a, bad) ↦ inr (rw (l, from_env, a, apply_env) refl, inr (inl bad))
                | inl (addr, a, set) ↦
                    elim (override_cases (parse_unsigned (2 ^ 64)) (var (codes "XFILES_MAX_AGENTS"))
                      base.hub.max_agents) [
                        | inr (m, bad) ↦ inr (rw (l, from_env, a, m, apply_env) refl, inr (inr bad))
                        | inl (agents, m, counted) ↦ inl (
                          _,
                          base,
                          rw (l, from_env, a, m, apply_env) refl,
                          from,
                          record {
                            bind_addr_set = set;
                            max_agents_set = counted;
                            quantum_off =
                                override_flag_iff (var (codes "XFILES_QUANTUM_ENABLED"))
                                  base.quantum.enabled;
                            rest = refl;
                          },
                        )
                      ]
              ]
        ],
      )
