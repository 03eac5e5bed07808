-- ===== src/Config/Loaded.antt =====
-- src/config.rs: what `Config::from_env` promises of the configuration that it returns.
use wcashexplorer.Base.{
  suc, ◌^◌, ◌≤◌, ◌≡◌, refl, ap, ◌∙◌, ◌≢◌, ◌⊎◌, inl, inr, Bool, true, false, not, ◌||◌, none, some,
  List, [], ◌∷◌, ◌++◌, length, map, is_some, Bool-cases, arith, Option-cases, All,
}
use wcashexplorer.Base.Text.{Text, text, text_eq, text_eq→eq, text_eq_iff}
use wcashexplorer.Error.{
  ok, config, guard, ok_or, >>=-eq-ok, guard-ok, ok_injective, ok_or-ok, ok->>=,
}
use wcashexplorer.Config.Env.{Env, required, env_or, parse_env, parse_unsigned, parse_bool}
use wcashexplorer.Config.Network.{load_network, validate_network}
use wcashexplorer.Config.Accepted.{IsWcash, validate_network-IsWcash}
use wcashexplorer.Config.Load.{
  Parsers, choose_auth, choose_one, validate_parent_configuration, all_distinct, RpcConfig, Config,
  endpoint, rpc_config, parent_rpcs, validate_parents, from_env,
}
use mathlib.Core.Path.{subst}
use wcashexplorer.Store.Chain.Commit.{some_injective}

module _ (parsers : Parsers) where
  open parsers use {Url, parse_bind, url_text, scheme, username, password, parse_url}

  -- http or https, and no credentials inside the URL.
  pub IsEndpoint : RpcConfig parsers → Type 0
  IsEndpoint rpc =
      ((scheme rpc.url ≡ text "http") ⊎ (scheme rpc.url ≡ text "https"))
      × (username rpc.url ≡ [])
      × (password rpc.url ≡ none)

  -- Two endpoints, and not the same one.
  pub IsQuorum : List (RpcConfig parsers) → Type 0
  IsQuorum zcash_rpcs =
      (a : RpcConfig parsers) × (b : RpcConfig parsers) × (zcash_rpcs ≡ a ∷ b ∷ [])
      × (url_text a.url ≢ url_text b.url)

  pub IsAccepted : Config parsers → Type 0
  IsAccepted c =
      IsWcash c.network
      × IsEndpoint c.wcash_rpc
      × All IsEndpoint c.zcash_rpcs
      × (c.run_indexer ≡ true → c.require_parent_quorum ≡ true → IsQuorum c.zcash_rpcs)

  clean_url :
      (url : Url)
      → (text_eq (scheme url) (text "http") || text_eq (scheme url) (text "https")) ≡ true
      → not (not (text_eq (username url) []) || is_some (password url)) ≡ true
      → ((scheme url ≡ text "http") ⊎ (scheme url ≡ text "https"))
        × (username url ≡ [])
        × (password url ≡ none)
  clean_url url http clean =
      let no_password : is_some (password url) ≡ false = ground arith in
      (
        (elim (Bool-cases (text_eq (scheme url) (text "http"))) [
          | inl e ↦ inl (text_eq→eq (scheme url) (text "http") e)
          | inr e ↦ inr (text_eq→eq (scheme url) (text "https") (rw e at http))
        ]),
        text_eq→eq (username url) [] (ground arith),
        (elim (Option-cases (password url)) [ inl e ↦ e | inr (p, e) ↦ cc (rw e at no_password) ]),
      )

  endpoint-IsEndpoint :
      (env : Env) (prefix raw_url : Text) (rpc : RpcConfig parsers)
      → endpoint parsers env prefix raw_url ≡ ok rpc
      → IsEndpoint rpc
  unfolding endpoint IsEndpoint
  endpoint-IsEndpoint env prefix raw_url rpc h =
      let (url, found, h1) =
        >>=-eq-ok (ok_or (parse_url raw_url) (config (text "invalid " ++ (prefix ++ text "_URL"))))
          _ h in
      let (u1, http, h2) =
        >>=-eq-ok
          (guard (text_eq (scheme url) (text "http") || text_eq (scheme url) (text "https"))
            (config (prefix ++ text "_URL must use http or https")))
          _ h1 in
      let (u2, clean, h3) =
        >>=-eq-ok
          (guard (not (not (text_eq (username url) []) || is_some (password url)))
            (config (text "credentials must not be embedded in " ++ (prefix ++ text "_URL"))))
          _ h2 in
      let (auth, chosen, h4) =
        >>=-eq-ok
          (ok_or
            (choose_auth (env (prefix ++ text "_COOKIE_FILE")) (env (prefix ++ text "_USERNAME"))
              (env (prefix ++ text "_PASSWORD")))
            (choose_one prefix))
          _ h3 in
      subst IsEndpoint (ok_injective h4) (
        clean_url url (guard-ok _ (config (prefix ++ text "_URL must use http or https")) http) (
          guard-ok _
            (config (text "credentials must not be embedded in " ++ (prefix ++ text "_URL")))
            clean))

  rpc_config-IsEndpoint :
      (env : Env) (prefix : Text) (required_endpoint : Bool) (rpc : RpcConfig parsers)
      → rpc_config parsers env prefix required_endpoint ≡ ok (some rpc)
      → IsEndpoint rpc
  unfolding rpc_config
  rpc_config-IsEndpoint env prefix required_endpoint rpc h =
      elim (Option-cases (env (prefix ++ text "_URL"))) [
        | inl missing ↦ elim (Bool-cases required_endpoint) [
          | inl e ↦ cc (rw (rpc_config, missing, e) at h)
          | inr e ↦ cc (rw (rpc_config, missing, e) at h)
        ]
        | inr (raw_url, found) ↦
            let (rpc', e, h1) =
              >>=-eq-ok (endpoint parsers env prefix raw_url) _ (rw (rpc_config, found) at h) in
            subst IsEndpoint (some_injective (ok_injective h1))
              (endpoint-IsEndpoint env prefix raw_url rpc' e)
      ]

  -- Endpoints only, and no more of them than prefixes.
  parent_rpcs-IsEndpoint :
      (env : Env) (prefixes : List Text) (rpcs : List (RpcConfig parsers))
      → parent_rpcs parsers env prefixes ≡ ok rpcs
      → All IsEndpoint rpcs × (length rpcs ≤ length prefixes)
  unfolding parent_rpcs
  parent_rpcs-IsEndpoint env [] rpcs h =
      subst (λ l. All IsEndpoint l × (length l ≤ 0)) (ok_injective h) (tt, omega arith)
  parent_rpcs-IsEndpoint env (prefix ∷ rest) rpcs h =
      let (found, e, h1) = >>=-eq-ok (rpc_config parsers env prefix false) _ h in
      let (others, e', h2) = >>=-eq-ok (parent_rpcs parsers env rest) _ h1 in
      let (endpoints, fewer) = parent_rpcs-IsEndpoint env rest others e' in
      subst (λ l. All IsEndpoint l × (length l ≤ suc (length rest))) (ok_injective h2)
        (elim (Option-cases found) [
          | inl missing ↦ rw missing (endpoints, omega arith)
          | inr (rpc, here) ↦
              rw here (
                (rpc_config-IsEndpoint env prefix false rpc (rw here at e), endpoints),
                omega arith,
              )
        ])

  two_distinct :
      (rpcs : List (RpcConfig parsers))
      → length rpcs ≤ 2
      → 2 ≤ length rpcs
      → all_distinct (map (λ (rpc : RpcConfig parsers). url_text rpc.url) rpcs) ≡ true
      → IsQuorum rpcs
  unfolding IsQuorum all_distinct
  two_distinct [] most least h = absurd (omega arith)
  two_distinct (a ∷ []) most least h = absurd (omega arith)
  two_distinct (a ∷ b ∷ []) most least h = (
    a,
    b,
    refl,
    λ e.
        let same = text_eq_iff (url_text a.url) (url_text b.url) in
        (let e' = same.1 e in cc (rw (all_distinct, e') at h)),
  )
  two_distinct (a ∷ b ∷ c ∷ rest) most least h = absurd (omega arith)

  validate_parents-IsQuorum :
      (run_indexer require_parent_quorum : Bool) (rpcs : List (RpcConfig parsers)) (genesis : Text)
      {u : Unit {0}}
      → length rpcs ≤ 2
      → validate_parents parsers run_indexer require_parent_quorum rpcs genesis ≡ ok u
      → run_indexer ≡ true
      → require_parent_quorum ≡ true
      → IsQuorum rpcs
  unfolding validate_parents validate_parent_configuration
  validate_parents-IsQuorum run_indexer require_parent_quorum rpcs genesis most h runs requires =
      let (u1, distinct, h1) =
        >>=-eq-ok
          (guard (all_distinct (map (λ (rpc : RpcConfig parsers). url_text rpc.url) rpcs))
            (config (text "configured Zcash parent RPC endpoints must be distinct")))
          _ h in
      let (u2, enough, h2) =
        >>=-eq-ok (validate_parent_configuration run_indexer require_parent_quorum (length rpcs)) _
          h1 in
      let least =
        guard-ok _
          (config (
            text
              "RUN_INDEXER requires two distinct Zcash parent RPC endpoints when REQUIRE_PARENT_QUORUM is enabled"))
          enough in
      two_distinct rpcs most (ground (arith, runs, requires)) (
        guard-ok _ (config (text "configured Zcash parent RPC endpoints must be distinct"))
          distinct)

  -- A configuration that loads names a Wcash network; its endpoints use http or https and have no
  -- credentials in their URLs; and where the indexer runs and the quorum is required, there are two
  -- parent endpoints with different URLs.
  pub from_env-IsAccepted :
      (env : Env) (c : Config parsers) → from_env parsers env ≡ ok c → IsAccepted c
  unfolding from_env IsAccepted
  from_env-IsAccepted env =
      ok->>= IsAccepted
        (ok_or (parse_bind (env_or env (text "WCASH_EXPLORER_BIND") (text "127.0.0.1:8080")))
          (config (text "invalid bind address")))
        _
        λ bind e1. ok->>= IsAccepted (required env (text "DATABASE_URL")) _ λ database_url e2.
          ok->>= IsAccepted (rpc_config parsers env (text "WCASH_RPC") true) _ λ wcash e3.
            ok->>= IsAccepted (ok_or wcash (config (text "WCASH_RPC_URL is required"))) _
              λ wcash_rpc e4.
                ok->>= IsAccepted
                  (parent_rpcs parsers env (text "ZCASH_RPC" ∷ text "ZCASH_RPC_SECONDARY" ∷ [])) _
                  λ zcash_rpcs e5. ok->>= IsAccepted (load_network env) _ λ network e6.
                    ok->>= IsAccepted (validate_network network) _ λ u e7.
                      ok->>= IsAccepted (parse_bool env (text "RUN_INDEXER") true) _
                        λ run_indexer e8.
                          ok->>= IsAccepted (parse_bool env (text "REQUIRE_PARENT_QUORUM") true) _
                            λ require_parent_quorum e9.
                              ok->>= IsAccepted
                                (validate_parents parsers run_indexer require_parent_quorum
                                  zcash_rpcs
                                  (env_or env (text "ZCASH_PARENT_GENESIS_HASH") (
                                    text
                                      "05a60a92d99d85997cce3b87616c089f6124d7342af37106edc76126334a2c38")))
                                _
                                λ v e10.
                                  ok->>= IsAccepted
                                    (parse_env env (parse_unsigned (2 ^ 64))
                                      (text "INDEXER_POLL_INTERVAL_MS") 2_000)
                                    _
                                    λ poll e11.
                                      ok->>= IsAccepted
                                        (parse_env env (parse_unsigned (2 ^ 64))
                                          (text "RPC_TIMEOUT_MS") 15_000)
                                        _
                                        λ timeout e12.
                                          ok->>= IsAccepted
                                            (parse_env env (parse_unsigned (2 ^ 64))
                                              (text "MAX_REORG_DEPTH") 10_000)
                                            _
                                            λ reorg e13.
                                              ok->>= IsAccepted
                                                (parse_env env (parse_unsigned (2 ^ 64))
                                                  (text "EVIDENCE_REFRESH_DEPTH") 100)
                                                _
                                                λ refresh e14.
                                                  ok->>= IsAccepted
                                                    (parse_bool env (text "RUN_MIGRATIONS") true) _
                                                    λ migrate e15. λ c h.
                                                      (let (endpoints, most) =
                                                          parent_rpcs-IsEndpoint env
                                                            (text "ZCASH_RPC"
                                                            ∷ text "ZCASH_RPC_SECONDARY"
                                                            ∷ [])
                                                            zcash_rpcs e5 in
                                                        subst IsAccepted (ok_injective h) (
                                                          (validate_network-IsWcash network).0 e7,
                                                          rpc_config-IsEndpoint env
                                                            (text "WCASH_RPC") true wcash_rpc
                                                            (e3
                                                            ∙ ap ok (
                                                            ok_or-ok wcash
                                                            (config
                                                            (text "WCASH_RPC_URL is required"))
                                                            e4)),
                                                          endpoints,
                                                          validate_parents-IsQuorum run_indexer
                                                            require_parent_quorum zcash_rpcs _ most
                                                            e10,
                                                        ))
