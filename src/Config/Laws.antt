-- ===== src/Config/Laws.antt =====
-- config.go: which configurations `InitConfig` takes, and what `LoadAndInitConfigs` returns.
use demo_redis.Prelude.{
  String, String-cases, ◌==◌, ◌≡◌, ◌≢◌, ◌↔◌, inl, inr, refl, ap, eq_iff, Option, none, some,
  Option-cases, if◌then◌else◌, arith,
}
use demo_redis.Book.{Error}
use demo_redis.Config.{
  Config, Sources, set_build, check_addresses, init_config, load_config_file, load_config_envs,
  load_and_init_configs,
}

-- The value of a build tag, if there is one, and else the value from before.
abbrev pub Prefers : String → String → String → Type 0
Prefers tag before after = (tag ≢ "" → after ≡ tag) × (tag ≡ "" → after ≡ before)

prefers : (tag before : String) → Prefers tag before (if tag == "" then before else tag)
prefers tag before = elim (String-cases tag "") [
  | inl (t, same) ↦ (rw t (λ differs. elim (differs same) [ ]), rw t (λ _. refl))
  | inr (f, differs) ↦ (rw f (λ _. refl), rw f (λ same. elim (differs same) [ ]))
]

module _ {L N : Type 0} where
  -- Both servers have a host and a port.
  abbrev pub HasAddresses : Config L N → Type 0
  HasAddresses c =
      (c.server.host ≢ "") × (c.server.port ≢ "") × (c.redis.host ≢ "") × (c.redis.port ≢ "")

  check_addresses_iff : (c : Config L N) → (check_addresses c ≡ none) ↔ HasAddresses c
  unfolding check_addresses
  check_addresses_iff c = ground (
    arith,
    eq_iff c.server.host "",
    eq_iff c.server.port "",
    eq_iff c.redis.host "",
    eq_iff c.redis.port "",
  )

  set_build-Prefers :
      (git_commit git_tag build_time : String) (c : Config L N)
      → let c' = set_build git_commit git_tag build_time c in
        Prefers git_commit c.git_commit c'.git_commit
        × Prefers git_tag c.git_tag c'.git_tag
        × Prefers build_time c.build_time c'.build_time
        × (c'.server ≡ c.server)
        × (c'.redis ≡ c.redis)
        × (c'.bolt_db ≡ c.bolt_db)
  unfolding set_build
  set_build-Prefers git_commit git_tag build_time c = (
    prefers git_commit c.git_commit,
    prefers git_tag c.git_tag,
    prefers build_time c.build_time,
    refl,
    refl,
    refl,
  )

  -- `InitConfig` succeeds exactly when both servers have a host and a port; either way the build tags
  -- that are given replace the configured ones, the others stay, and the settings of the servers and of
  -- the database are as they were.
  pub init_config_outcome :
      (c : Config L N) (git_commit git_tag build_time : String)
      → let (c', err) = init_config c git_commit git_tag build_time in
        ((err ≡ none) ↔ HasAddresses c)
        × Prefers git_commit c.git_commit c'.git_commit
        × Prefers git_tag c.git_tag c'.git_tag
        × Prefers build_time c.build_time c'.build_time
        × (c'.server ≡ c.server)
        × (c'.redis ≡ c.redis)
        × (c'.bolt_db ≡ c.bolt_db)
  unfolding init_config set_build
  init_config_outcome c git_commit git_tag build_time =
      let set = set_build-Prefers git_commit git_tag build_time c in
      (
        check_addresses_iff (set_build git_commit git_tag build_time c),
        set.0,
        set.1,
        set.2,
        refl,
        refl,
        refl,
      )

module _ {L N F W : Type 0} (sources : Sources L N F W) where
  load_config_file_ok :
      (path : String) (w : W)
      → (load_config_file sources path w).0.1 ≡ none
      → (c : Config L N) × ((load_config_file sources path w).0.0 ≡ some c)
  unfolding load_config_file
  load_config_file_ok path w ok = elim (Option-cases (sources.open_file path w).0.1) [
    | inr (e, failed) ↦ let bad : ⊥ = ground arith in elim bad [ ]
    | inl opened ↦
        let (file, _) = (sources.open_file path w).0 in
        let ((c, err), w') = sources.decode file (sources.open_file path w).1 in
        elim (Option-cases err) [
          | inr (e, failed) ↦ let bad : ⊥ = ground arith in elim bad [ ]
          | inl decoded ↦ (c, ground arith)
        ]
  ]

  -- What `NewApp` relies on: where `LoadAndInitConfigs` returns no error, it returns a configuration
  -- that is no nil pointer, in which both servers have a host and a port and each build tag that is
  -- given is set; a tag that is not given is what envconfig made of it.
  pub load_and_init_configs-HasAddresses :
      (git_commit git_tag build_time : String) (w : W)
      → let ((config, err), _) = load_and_init_configs sources git_commit git_tag build_time w in
        err ≡ none
        → (file before c : Config L N) × (v : W) × ((sources.process "DRAP" file v).0
            ≡ (before, none))
          × (config ≡ some c)
          × HasAddresses c
          × Prefers git_commit before.git_commit c.git_commit
          × Prefers git_tag before.git_tag c.git_tag
          × Prefers build_time before.build_time c.build_time
  unfolding load_and_init_configs load_config_envs init_config
  load_and_init_configs-HasAddresses git_commit git_tag build_time w ok =
      let ((config, err), w1) = load_config_file sources "./config.yml" w in
      elim (Option-cases err) [
        | inr (e, failed) ↦ let bad : ⊥ = ground arith in elim bad [ ]
        | inl loaded ↦
            let (file, is_file) = load_config_file_ok "./config.yml" w loaded in
            let (err', w2) = sources.load_env "./config.env" w1 in
            elim (Option-cases err') [
              | inr (e, failed) ↦ let bad : ⊥ = ground arith in elim bad [ ]
              | inl set ↦
                  let ((c, err2), w3) = sources.process "DRAP" file w2 in
                  elim (Option-cases err2) [
                    | inr (e, failed) ↦ let bad : ⊥ = ground arith in elim bad [ ]
                    | inl processed ↦
                        let built = set_build git_commit git_tag build_time c in
                        let set_tags = set_build-Prefers git_commit git_tag build_time c in
                        elim (Option-cases (check_addresses built)) [
                          | inr (e, failed) ↦ let bad : ⊥ = ground arith in elim bad [ ]
                          | inl checked ↦ (
                            file,
                            c,
                            built,
                            w2,
                            ap (λ (o : Option Error). (c, o)) processed,
                            ground arith,
                            (check_addresses_iff built).0 checked,
                            set_tags.0,
                            set_tags.1,
                            set_tags.2,
                          )
                        ]
                  ]
            ]
      ]
