-- ===== src/Config/Secrets.antt =====
-- internal/config/config.go: which configurations pass, and where their secrets are from.
use agent_sets.Prelude.{
  Bool, Bool-cases, Option, Option-cases, [], ap, arith, false, inl, inr, none, none-ne-some, refl,
  some, subst, sym, true, ◌&&◌, ◌++◌, ◌||◌, ◌↔◌, ◌∙◌, ◌∷◌, ◌≡◌, ◌≢◌, ◌⊎◌,
}
use agent_sets.Prelude.Int.{ltb_ℤ, negsuc, pos, ℤ, ◌≤ℤ◌}
use agent_sets.Config.{Config}
use agent_sets.Config.Load.{
  validate, error_of, validate_errors, config_text, file_missing, file_unreadable, config_loaded,
  exited, error_if, Surroundings, get_env, config_of_yaml, of_file, after_file, or_exit,
  main_config, default_config, ConfigFile, with_env, Loading, load_config, with_env_token,
  checked_config,
}
use agent_sets.Text.{Bytes, equal, lit}
use agent_sets.Domain.{is_empty}

abbrev pub InRange : ℤ → Type 0
InRange port = (pos 1 ≤ℤ port) × (port ≤ℤ pos 65535)

abbrev pub SomeEndpoint : Config → Type 0
SomeEndpoint c =
    (c.mcp.bitbucket.endpoint ≢ [])
    ⊎ ((c.mcp.jira.endpoint ≢ []) ⊎ (c.mcp.confluence.endpoint ≢ []))

-- A key for the model, a port, and a server of tools.
abbrev pub IsUsable : Config → Type 0
IsUsable c = (c.llm.api_key ≢ []) × InRange c.server.port × SomeEndpoint c

is_empty-false : (s : Bytes) → (is_empty s ≡ false) ↔ (s ≢ [])
unfolding is_empty equal
is_empty-false [] = (λ h. ground (arith, h), λ h. absurd (h refl))
is_empty-false (x ∷ s) = (λ h k. ground (arith, k), λ h. refl)

is_empty-true : (s : Bytes) → is_empty s ≡ true → s ≡ []
unfolding is_empty equal
is_empty-true [] h = refl
is_empty-true (x ∷ s) h = ground (arith, h)

port_test : (p : ℤ) → ((ltb_ℤ p (pos 1) || ltb_ℤ (pos 65535) p) ≡ false) ↔ InRange p
port_test (pos n) = ground arith
port_test (negsuc n) = ground arith

-- The three tests of an endpoint.
endpoints_test :
    (a b c : Bytes)
    → ((is_empty a && (is_empty b && is_empty c)) ≡ false) ↔ ((a ≢ []) ⊎ ((b ≢ []) ⊎ (c ≢ [])))
endpoints_test a b c = (
  λ h. elim (Bool-cases (is_empty a)) [
    | inr e ↦ inl ((is_empty-false a).0 e)
    | inl e ↦ elim (Bool-cases (is_empty b)) [
      | inr f ↦ inr (inl ((is_empty-false b).0 f))
      | inl f ↦ inr (inr ((is_empty-false c).0 (rw (e, f) at h)))
    ]
  ],
  λ h. elim h [
    | inl x ↦ rw ((is_empty-false a).1 x) refl
    | inr y ↦ elim y [
      | inl x ↦ rw ((is_empty-false b).1 x) (and_false (is_empty a))
      | inr x ↦ rw ((is_empty-false c).1 x) (and_and_false (is_empty a) (is_empty b))
    ]
  ],
)
  where
    and_false : (x : Bool) → (x && false) ≡ false
    and_false true = refl
    and_false false = refl

    and_and_false : (x y : Bool) → (x && (y && false)) ≡ false
    and_and_false true y = and_false y
    and_and_false false y = refl

no_errors :
    (a b c : Bool) (x y z : Bytes)
    → (error_of (error_if a x ++ error_if b y ++ error_if c z) ≡ none)
      ↔ ((a ≡ false) × (b ≡ false) × (c ≡ false))
unfolding error_of
no_errors true b c x y z = (λ h. absurd (none-ne-some _ (sym h)), λ (h, _, _). ground (arith, h))
no_errors false true c x y z =
    (λ h. absurd (none-ne-some _ (sym h)), λ (_, h, _). ground (arith, h))
no_errors false false true x y z =
    (λ h. absurd (none-ne-some _ (sym h)), λ (_, _, h). ground (arith, h))
no_errors false false false x y z = (λ h. (refl, refl, refl), λ h. refl)

-- A configuration is valid just when it has a key for the model, a port between 1 and 65535 and an
-- endpoint for one of the three servers.
pub validate_iff : (c : Config) → (validate c ≡ none) ↔ IsUsable c
unfolding validate validate_errors
validate_iff c =
    let tests =
      no_errors (is_empty c.llm.api_key)
        (ltb_ℤ c.server.port (pos 1) || ltb_ℤ (pos 65535) c.server.port)
        (is_empty c.mcp.bitbucket.endpoint
          && (is_empty c.mcp.jira.endpoint && is_empty c.mcp.confluence.endpoint))
        _ _ _ in
    let ends =
      endpoints_test c.mcp.bitbucket.endpoint c.mcp.jira.endpoint c.mcp.confluence.endpoint in
    (
      λ h.
          let (a, b, d) = tests.0 h in
          ((is_empty-false c.llm.api_key).0 a, (port_test c.server.port).0 b, ends.0 d),
      λ (a, b, d).
          tests.1 ((is_empty-false c.llm.api_key).1 a, (port_test c.server.port).1 b, ends.1 d),
    )

-- yaml.v3 leaves a field alone that is tagged "-".
abbrev pub SkipsTagged : Surroundings → Type 0
SkipsTagged w =
    (b : Bytes) (c d : Config)
    → w.unmarshal_yaml b c ≡ some d
    → (d.server.webhook_secret ≡ c.server.webhook_secret)
      × (d.mcp.bitbucket.token ≡ c.mcp.bitbucket.token)
      × (d.mcp.jira.token ≡ c.mcp.jira.token)
      × (d.mcp.confluence.token ≡ c.mcp.confluence.token)

config_loaded-inj : (c d : Config) → config_loaded c ≡ config_loaded d → c ≡ d
config_loaded-inj c d h = cc h

exited_ne : (c : Config) → exited ≢ config_loaded c
exited_ne c h = ground (arith, h)

module _ (w : Surroundings) where
  -- What the variables are, or nothing.
  abbrev pub FromEnv : Config → Type 0
  FromEnv c =
      (c.server.webhook_secret ≡ get_env w (lit "WEBHOOK_SECRET") [])
      × (c.mcp.bitbucket.token ≡ get_env w (lit "BITBUCKET_MCP_TOKEN") [])
      × (c.mcp.jira.token ≡ get_env w (lit "JIRA_MCP_TOKEN") [])
      × (c.mcp.confluence.token ≡ get_env w (lit "CONFLUENCE_MCP_TOKEN") [])

  NoSecrets : Config → Type 0
  NoSecrets c =
      (c.server.webhook_secret ≡ [])
      × (c.mcp.bitbucket.token ≡ [])
      × (c.mcp.jira.token ≡ [])
      × (c.mcp.confluence.token ≡ [])

  of_yaml-NoSecrets :
      (b : Bytes) (c : Config)
      → SkipsTagged w
      → config_of_yaml (w.unmarshal_yaml b default_config) ≡ config_loaded c
      → NoSecrets c
  unfolding config_of_yaml NoSecrets
  of_yaml-NoSecrets b c skips h = elim (Option-cases (w.unmarshal_yaml b default_config)) [
    | inl e ↦ absurd (exited_ne c (rw (config_of_yaml, e) at h))
    | inr (d, e) ↦
        let k : config_loaded d ≡ config_loaded c = rw (config_of_yaml, e) at h in
        subst NoSecrets (config_loaded-inj d c k) (skips b default_config d e)
  ]

  of_file-NoSecrets :
      (f : ConfigFile) (c : Config) → SkipsTagged w → of_file w f ≡ config_loaded c → NoSecrets c
  unfolding of_file NoSecrets
  of_file-NoSecrets (config_text b) c skips h = of_yaml-NoSecrets b c skips h
  of_file-NoSecrets file_missing c skips h =
      subst NoSecrets (config_loaded-inj default_config c h) (refl, refl, refl, refl)
  of_file-NoSecrets file_unreadable c skips h = absurd (exited_ne c h)

  after_file-FromEnv :
      (l : Loading) (c : Config)
      → ((d : Config) → l ≡ config_loaded d → NoSecrets d)
      → after_file w l ≡ config_loaded c
      → FromEnv c
  unfolding after_file with_env with_env_token get_env NoSecrets
  after_file-FromEnv (config_loaded d) c from h =
      let (a, b, j, k) = from d refl in
      subst FromEnv (config_loaded-inj (with_env w d) c h) (
        ap (get_env w (lit "WEBHOOK_SECRET")) a,
        ap (get_env w (lit "BITBUCKET_MCP_TOKEN")) b,
        ap (get_env w (lit "JIRA_MCP_TOKEN")) j,
        ap (get_env w (lit "CONFLUENCE_MCP_TOKEN")) k,
      )
  after_file-FromEnv exited c from h = absurd (exited_ne c h)

  or_exit-Valid :
      (o : Option Bytes) (d c : Config) → or_exit o d ≡ config_loaded c → (o ≡ none) × (d ≡ c)
  unfolding or_exit
  or_exit-Valid none d c h = (refl, config_loaded-inj d c h)
  or_exit-Valid (some e) d c h = absurd (exited_ne c h)

  checked_config-Valid :
      (l : Loading) (c : Config)
      → checked_config l ≡ config_loaded c
      → (l ≡ config_loaded c) × (validate c ≡ none)
  unfolding checked_config
  checked_config-Valid (config_loaded d) c h =
      let (e, same) = or_exit-Valid (validate d) d c h in
      (ap config_loaded same, ap validate (sym same) ∙ e)
  checked_config-Valid exited c h = absurd (exited_ne c h)

  -- The program goes on only with a key for the model, a port between 1 and 65535 and an endpoint, and
  -- its webhook secret and the tokens of the servers are what the environment has, or empty: none comes
  -- from the file.
  pub main_config-IsUsable :
      (c : Config) → SkipsTagged w → main_config w ≡ config_loaded c → IsUsable c × FromEnv c
  unfolding main_config load_config
  main_config-IsUsable c skips h =
      let (loaded, valid) = checked_config-Valid (load_config w) c h in
      ((validate_iff c).0 valid, after_file-FromEnv _ c (λ d. of_file-NoSecrets _ d skips) loaded)
