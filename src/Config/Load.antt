-- ===== src/Config/Load.antt =====
-- src/config.rs: `Config::from_env` and the endpoints.
use wcashexplorer.Base.{
  ℕ, ◌^◌, Bool, true, false, not, ◌&&◌, ◌||◌, Option, none, some, List, [], ◌∷◌, ◌++◌,
  if◌then◌else◌, ltb, ◌==◌, length, any, map, is_some,
}
use wcashexplorer.Base.Text.{Text, text, text_eq}
use wcashexplorer.Error.{ExplorerError, Result, ok, err, config, guard, ok_or, ◌>>=◌, ◌>>◌}
use wcashexplorer.Config.Env.{
  Env, lower, required, env_or, parse_env, parse_unsigned, parse_bool, validate_hex_id,
}
use wcashexplorer.Config.Network.{NetworkConfig, load_network, validate_network}

-- What the source uses of `url::Url` and of `SocketAddr`.
pub record Parsers : Type 1 where
  pub Url : Type 0
  pub Bind : Type 0
  pub parse_url : Text → Option Url
  pub url_text : Url → Text
  pub scheme : Url → Text
  pub username : Url → Text
  pub password : Url → Option Text
  pub parse_bind : Text → Option Bind

pub data RpcAuth : Type 0 where
  no_auth : RpcAuth
  basic : (username password : Text) → RpcAuth
  cookie : (path : Text) → RpcAuth

-- `Debug` of the credentials, which the logs may show; `quote` is the formatting of a text.
unfoldable pub debug_auth : (Text → Text) → RpcAuth → Text
debug_auth quote no_auth = text "None"
debug_auth quote (basic username password) =
    text "Basic { username: "
    ++ (quote username ++ (text ", password: " ++ (quote (text "[REDACTED]") ++ text " }")))
debug_auth quote (cookie path) = text "Cookie(" ++ (quote path ++ text ")")

unfoldable pub choose_auth : Option Text → Option Text → Option Text → Option RpcAuth
choose_auth (some path) none none = some (cookie path)
choose_auth none (some username) (some password) = some (basic username password)
choose_auth none none none = some no_auth
choose_auth _ _ _ = none

abbrev pub choose_one : Text → ExplorerError
choose_one prefix = config (
    text "configure either "
    ++ (prefix
        ++ (text "_COOKIE_FILE or both "
            ++ (prefix ++ (text "_USERNAME/" ++ (prefix ++ text "_PASSWORD"))))))

-- `prefix.to_ascii_lowercase().replace('_', "-")`.
abbrev pub label_char : ℕ → ℕ
label_char c = if c == b'_' then b'-' else lower c

unfoldable pub validate_parent_configuration : Bool → Bool → ℕ → Result (Unit {0})
validate_parent_configuration run_indexer require_parent_quorum parent_count =
    guard (not (run_indexer && require_parent_quorum && ltb parent_count 2)) (
      config (
        text
          "RUN_INDEXER requires two distinct Zcash parent RPC endpoints when REQUIRE_PARENT_QUORUM is enabled"))

-- A set of texts has as many members as the list has texts.
unfoldable pub all_distinct : List Text → Bool
all_distinct [] = true
all_distinct (t ∷ ts) = not (any (text_eq t) ts) && all_distinct ts

module _ (parsers : Parsers) where
  open parsers use {Url, Bind, parse_url, url_text, scheme, username, password, parse_bind}

  pub record RpcConfig : Type 0 where
    pub label : Text
    pub url : Url
    pub auth : RpcAuth

  pub record Config : Type 0 where
    pub bind : Bind
    pub database_url : Text
    pub wcash_rpc : RpcConfig
    pub zcash_rpcs : List RpcConfig
    pub network : NetworkConfig
    pub poll_interval_ms : ℕ
    pub rpc_timeout_ms : ℕ
    pub max_reorg_depth : ℕ
    pub evidence_refresh_depth : ℕ
    pub migrate : Bool
    pub run_indexer : Bool
    pub parent_chain : Text
    pub parent_genesis_hash : Text
    pub require_parent_quorum : Bool

  unfoldable pub endpoint : Env → Text → Text → Result RpcConfig
  endpoint env prefix raw_url = do
    url ← ok_or (parse_url raw_url) (config (text "invalid " ++ (prefix ++ text "_URL")))
    guard (text_eq (scheme url) (text "http") || text_eq (scheme url) (text "https"))
        (config (prefix ++ text "_URL must use http or https"))
    guard (not (not (text_eq (username url) []) || is_some (password url)))
        (config (text "credentials must not be embedded in " ++ (prefix ++ text "_URL")))
    auth ←
        ok_or
          (choose_auth (env (prefix ++ text "_COOKIE_FILE")) (env (prefix ++ text "_USERNAME"))
            (env (prefix ++ text "_PASSWORD")))
          (choose_one prefix)
    ok (record { label = map label_char prefix; url = url; auth = auth })

  unfoldable pub rpc_config : Env → Text → Bool → Result (Option RpcConfig)
  rpc_config env prefix required_endpoint = elim (env (prefix ++ text "_URL")) [
    | none ↦ if required_endpoint then err (config (prefix ++ text "_URL is required")) else ok none
    | some raw_url ↦ (do rpc ← endpoint env prefix raw_url; ok (some rpc))
  ]

  -- The endpoints of the prefixes that are configured.
  unfoldable pub parent_rpcs : Env → List Text → Result (List RpcConfig)
  unfolding rpc_config
  parent_rpcs env [] = ok []
  parent_rpcs env (prefix ∷ rest) = do
    found ← rpc_config env prefix false
    others ← parent_rpcs env rest
    ok (elim found [ none ↦ others | some rpc ↦ rpc ∷ others ])

  -- What is validated of the parents: distinct endpoints, enough of them, and the genesis.
  unfoldable pub validate_parents : Bool → Bool → List RpcConfig → Text → Result (Unit {0})
  validate_parents run_indexer require_parent_quorum zcash_rpcs parent_genesis_hash = do
    guard (all_distinct (map (λ (rpc : RpcConfig). url_text rpc.url) zcash_rpcs))
        (config (text "configured Zcash parent RPC endpoints must be distinct"))
    validate_parent_configuration run_indexer require_parent_quorum (length zcash_rpcs)
    validate_hex_id (text "ZCASH_PARENT_GENESIS_HASH") parent_genesis_hash

  unfoldable pub from_env : Env → Result Config
  from_env env = do
    bind ←
        ok_or (parse_bind (env_or env (text "WCASH_EXPLORER_BIND") (text "127.0.0.1:8080")))
          (config (text "invalid bind address"))
    database_url ← required env (text "DATABASE_URL")
    wcash ← rpc_config env (text "WCASH_RPC") true
    wcash_rpc ← ok_or wcash (config (text "WCASH_RPC_URL is required"))
    zcash_rpcs ← parent_rpcs env (text "ZCASH_RPC" ∷ text "ZCASH_RPC_SECONDARY" ∷ [])
    network ← load_network env
    validate_network network
    run_indexer ← parse_bool env (text "RUN_INDEXER") true
    require_parent_quorum ← parse_bool env (text "REQUIRE_PARENT_QUORUM") true
    let parent_genesis_hash : Text =
        env_or env (text "ZCASH_PARENT_GENESIS_HASH")
          (text "05a60a92d99d85997cce3b87616c089f6124d7342af37106edc76126334a2c38")
    validate_parents run_indexer require_parent_quorum zcash_rpcs parent_genesis_hash
    poll_interval_ms ←
        parse_env env (parse_unsigned (2 ^ 64)) (text "INDEXER_POLL_INTERVAL_MS") 2_000
    rpc_timeout_ms ← parse_env env (parse_unsigned (2 ^ 64)) (text "RPC_TIMEOUT_MS") 15_000
    max_reorg_depth ← parse_env env (parse_unsigned (2 ^ 64)) (text "MAX_REORG_DEPTH") 10_000
    evidence_refresh_depth ←
        parse_env env (parse_unsigned (2 ^ 64)) (text "EVIDENCE_REFRESH_DEPTH") 100
    migrate ← parse_bool env (text "RUN_MIGRATIONS") true
    ok (record {
      bind = bind;
      database_url = database_url;
      wcash_rpc = wcash_rpc;
      zcash_rpcs = zcash_rpcs;
      network = network;
      poll_interval_ms = poll_interval_ms;
      rpc_timeout_ms = rpc_timeout_ms;
      max_reorg_depth = max_reorg_depth;
      evidence_refresh_depth = evidence_refresh_depth;
      migrate = migrate;
      run_indexer = run_indexer;
      parent_chain = env_or env (text "ZCASH_PARENT_CHAIN") (text "test");
      parent_genesis_hash = parent_genesis_hash;
      require_parent_quorum = require_parent_quorum;
    })
