-- ===== src/Http/Config/Settings.antt =====
-- What the environment sets.
use Prim.Native.String.{String}
use native.Mathlib.Nat.{mod-eq_of_lt}
use c_lang_examples.Prelude.{
  ℕ, ◌≡◌, inl, inr, refl, ap, arith, Bool, true, false, ◌&&◌, ltb, Bool-cases, Option-cases,
  if◌then◌else◌, Option, none, some, u16,
}
use c_lang_examples.Http.Config.{
  Getenv, Strtoull, Config, default_host, default_port, default_tcp_backlog,
  default_read_timeout_ms, default_write_timeout_ms, default_connection_timeout_ms, uint16_max,
  int_max, parse_ull, config_init_debug, config_init_host, config_init_port,
  config_init_tcp_backlog, config_init_read_timeout_ms, config_init_write_timeout_ms,
  config_init_connection_timeout_ms, config_init_from_env,
}

-- The number that a variable stands for: its default where it is not set, and none where it has no
-- number, or one that is too big.
abbrev pub setting : Strtoull → Option String → ℕ → (ℕ → Bool) → Option ℕ
setting strtoull none default too_big = some default
setting strtoull (some value) default too_big = elim (parse_ull strtoull value) [
  | none ↦ none
  | some n ↦ if too_big n then none else some n
]

abbrev pub is_some : Option ℕ → Bool
is_some none = false
is_some (some n) = true

abbrev pub value_or : ℕ → Option ℕ → ℕ
value_or old none = old
value_or old (some n) = n

abbrev pub above : ℕ → ℕ → Bool
above most n = ltb most n

abbrev pub unlimited : ℕ → Bool
unlimited n = false

-- How a step loads a number, with what stores it in the configuration.
abbrev load : Strtoull → Option String → ℕ → (ℕ → Bool) → (ℕ → Config) → Config → Bool × Config
load strtoull value default too_big store config = elim value [
  | none ↦ (true, store default)
  | some value ↦ elim (parse_ull strtoull value) [
    | none ↦ (false, config)
    | some n ↦ if too_big n then (false, config) else (true, store n)
  ]
]

load_lem :
    (strtoull : Strtoull) (value : Option String) (default old : ℕ) (too_big : ℕ → Bool)
    (store exact : ℕ → Config) (config : Config)
    → store default ≡ exact default
    → exact old ≡ config
    → ((n : ℕ) → too_big n ≡ false → store n ≡ exact n)
    → load strtoull value default too_big store config ≡ (
      is_some (setting strtoull value default too_big),
      exact (value_or old (setting strtoull value default too_big)),
    )
load_lem strtoull none default old too_big store exact config d k same = rw d refl
load_lem strtoull (some value) default old too_big store exact config d k same =
    elim (Option-cases (parse_ull strtoull value)) [
      | inl q ↦ rw (load, setting, q, k) refl
      | inr (n, q) ↦ elim (Bool-cases (too_big n)) [
        | inl over ↦ rw (load, setting, q, over, k) refl
        | inr under ↦ rw (load, setting, q, under, same n under) refl
      ]
    ]

abbrev pub is_set : Option String → Bool
is_set none = false
is_set (some value) = true

abbrev pub text_or : String → Option String → String
text_or default none = default
text_or default (some value) = value

module _ (getenv : Getenv) (strtoull : Strtoull) where
  abbrev pub port : Option ℕ
  port = setting strtoull (getenv "HTTP_SERVER_PORT") default_port (above uint16_max)

  abbrev pub backlog : Option ℕ
  backlog =
      setting strtoull (getenv "HTTP_SERVER_TCP_BACKLOG") default_tcp_backlog (above uint16_max)

  abbrev pub reads : Option ℕ
  reads =
      setting strtoull (getenv "HTTP_SERVER_READ_TIMEOUT_MS") default_read_timeout_ms
        (above int_max)

  abbrev pub writes : Option ℕ
  writes =
      setting strtoull (getenv "HTTP_SERVER_WRITE_TIMEOUT_MS") default_write_timeout_ms unlimited

  abbrev pub connections : Option ℕ
  connections =
      setting strtoull (getenv "HTTP_SERVER_CONNECTION_TIMEOUT_MS") default_connection_timeout_ms
        unlimited

  u16_lem : (n : ℕ) → above uint16_max n ≡ false → u16 n ≡ n
  u16_lem n h = mod-eq_of_lt (ground arith)

  config_init_port_lem :
      (config : Config)
      → config_init_port getenv strtoull config
        ≡ (is_some port, record config { server_port = value_or config.server_port port })
  unfolding config_init_port
  config_init_port_lem config =
      load_lem strtoull (getenv "HTTP_SERVER_PORT") default_port config.server_port
        (above uint16_max) (λ n. record config { server_port = u16 n })
        (λ n. record config { server_port = n }) config refl refl
        (λ n h. ap (λ m. record config { server_port = m }) (u16_lem n h))

  config_init_tcp_backlog_lem :
      (config : Config)
      → config_init_tcp_backlog getenv strtoull config
        ≡ (is_some backlog, record config { tcp_backlog = value_or config.tcp_backlog backlog })
  unfolding config_init_tcp_backlog
  config_init_tcp_backlog_lem config =
      load_lem strtoull (getenv "HTTP_SERVER_TCP_BACKLOG") default_tcp_backlog config.tcp_backlog
        (above uint16_max) (λ n. record config { tcp_backlog = u16 n })
        (λ n. record config { tcp_backlog = n }) config refl refl
        (λ n h. ap (λ m. record config { tcp_backlog = m }) (u16_lem n h))

  config_init_read_timeout_ms_lem :
      (config : Config)
      → config_init_read_timeout_ms getenv strtoull config
        ≡ (is_some reads, record config { read_timeout_ms = value_or config.read_timeout_ms reads })
  unfolding config_init_read_timeout_ms
  config_init_read_timeout_ms_lem config =
      load_lem strtoull (getenv "HTTP_SERVER_READ_TIMEOUT_MS") default_read_timeout_ms
        config.read_timeout_ms (above int_max) (λ n. record config { read_timeout_ms = n })
        (λ n. record config { read_timeout_ms = n }) config refl refl (λ n h. refl)

  config_init_write_timeout_ms_lem :
      (config : Config)
      → config_init_write_timeout_ms getenv strtoull config ≡ (
        is_some writes,
        record config { write_timeout_ms = value_or config.write_timeout_ms writes },
      )
  unfolding config_init_write_timeout_ms
  config_init_write_timeout_ms_lem config =
      load_lem strtoull (getenv "HTTP_SERVER_WRITE_TIMEOUT_MS") default_write_timeout_ms
        config.write_timeout_ms unlimited (λ n. record config { write_timeout_ms = n })
        (λ n. record config { write_timeout_ms = n }) config refl refl (λ n h. refl)

  config_init_connection_timeout_ms_lem :
      (config : Config)
      → config_init_connection_timeout_ms getenv strtoull config ≡ (
        is_some connections,
        record config { connection_timeout_ms = value_or config.connection_timeout_ms connections },
      )
  unfolding config_init_connection_timeout_ms
  config_init_connection_timeout_ms_lem config =
      load_lem strtoull (getenv "HTTP_SERVER_CONNECTION_TIMEOUT_MS") default_connection_timeout_ms
        config.connection_timeout_ms unlimited (λ n. record config { connection_timeout_ms = n })
        (λ n. record config { connection_timeout_ms = n }) config refl refl (λ n h. refl)

  debug_lem :
      (config : Config)
      → config_init_debug getenv config
        ≡ record config { debug = is_set (getenv "HTTP_SERVER_DEBUG") }
  unfolding config_init_debug
  debug_lem config =
      elim (getenv "HTTP_SERVER_DEBUG")
        as (λ v.
          elim v [
            | none ↦ record config { debug = false }
            | some value ↦ record config { debug = true }
          ]
          ≡ record config { debug = is_set v }) [ none ↦ refl | some value ↦ refl ]

  host_lem :
      (config : Config)
      → config_init_host getenv config
        ≡ record config { server_host = text_or default_host (getenv "HTTP_SERVER_HOST") }
  unfolding config_init_host
  host_lem config =
      elim (getenv "HTTP_SERVER_HOST")
        as (λ v.
          elim v [
            | none ↦ record config { server_host = default_host }
            | some value ↦ record config { server_host = value }
          ]
          ≡ record config { server_host = text_or default_host v }) [
            | none ↦ refl
            | some value ↦ refl
          ]

  -- Loading the configuration succeeds exactly if every number that is set is one that its variable
  -- takes; and each field then is what the environment sets, or its default. A field whose variable
  -- has no such number keeps its value, and the others are loaded all the same.
  pub config_init_from_env_lem :
      (config : Config)
      → config_init_from_env getenv strtoull config ≡ (
        is_some port && is_some backlog && is_some reads && is_some writes && is_some connections,
        record {
          debug = is_set (getenv "HTTP_SERVER_DEBUG");
          server_host = text_or default_host (getenv "HTTP_SERVER_HOST");
          server_port = value_or config.server_port port;
          tcp_backlog = value_or config.tcp_backlog backlog;
          read_timeout_ms = value_or config.read_timeout_ms reads;
          write_timeout_ms = value_or config.write_timeout_ms writes;
          connection_timeout_ms = value_or config.connection_timeout_ms connections;
        },
      )
  unfolding config_init_from_env
  config_init_from_env_lem config =
      let loaded = record config {
        debug = is_set (getenv "HTTP_SERVER_DEBUG");
        server_host = text_or default_host (getenv "HTTP_SERVER_HOST");
      } in
      let ported = record loaded { server_port = value_or config.server_port port } in
      let logged = record ported { tcp_backlog = value_or config.tcp_backlog backlog } in
      let read = record logged { read_timeout_ms = value_or config.read_timeout_ms reads } in
      let written = record read { write_timeout_ms = value_or config.write_timeout_ms writes } in
      rw
        (
          debug_lem config,
          host_lem (record config { debug = is_set (getenv "HTTP_SERVER_DEBUG") }),
          config_init_port_lem loaded,
          config_init_tcp_backlog_lem ported,
          config_init_read_timeout_ms_lem logged,
          config_init_write_timeout_ms_lem read,
          config_init_connection_timeout_ms_lem written,
        )
        refl
