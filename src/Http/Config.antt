-- ===== src/Http/Config.antt =====
-- The configuration of the server (config.c, and `parse_ull` of commons.c). `getenv` and `strtoull`
-- are arguments: the value of a variable, if it is set; the number that is read, and whether `errno`
-- is set. The static `config` is passed on as a state. A result is `true` for RESULT_OK.
pub mod Settings
use Prim.Native.String.{String}
use c_lang_examples.Prelude.{
  ℕ, zero, suc, ◌+◌, ◌-◌, ◌^◌, Bool, true, false, not, ◌&&◌, ◌||◌, ◌==◌, leb, ltb, if◌then◌else◌,
  Option, none, some, u16,
}

abbrev pub Getenv : Type 0
Getenv = String → Option String

abbrev pub Strtoull : Type 0
Strtoull = String → ℕ × Bool

pub record Config : Type 0 where
  pub debug : Bool
  pub server_host : String
  pub server_port : ℕ
  pub tcp_backlog : ℕ
  pub read_timeout_ms : ℕ
  pub write_timeout_ms : ℕ
  pub connection_timeout_ms : ℕ

abbrev pub default_host : String
default_host = "127.0.0.1"

abbrev pub default_port : ℕ
default_port = 8080

abbrev pub default_tcp_backlog : ℕ
default_tcp_backlog = 16

abbrev pub default_read_timeout_ms : ℕ
default_read_timeout_ms = 3000

abbrev pub default_write_timeout_ms : ℕ
default_write_timeout_ms = 1

abbrev pub default_connection_timeout_ms : ℕ
default_connection_timeout_ms = 9000

abbrev pub ullong_max : ℕ
ullong_max = 2 ^ 64 - 1

abbrev pub uint16_max : ℕ
uint16_max = 65535

abbrev pub int_max : ℕ
int_max = 2147483647

-- The number, or `none` for RESULT_ERR.
unfoldable pub parse_ull : Strtoull → String → Option ℕ
parse_ull strtoull input =
    let read = strtoull input in if read.1 || (read.0 == ullong_max) then none else some read.0

unfoldable pub config_init_debug : Getenv → Config → Config
config_init_debug getenv config = elim (getenv "HTTP_SERVER_DEBUG") [
  | none ↦ record config { debug = false }
  | some value ↦ record config { debug = true }
]

unfoldable pub config_init_host : Getenv → Config → Config
config_init_host getenv config = elim (getenv "HTTP_SERVER_HOST") [
  | none ↦ record config { server_host = default_host }
  | some value ↦ record config { server_host = value }
]

unfoldable pub config_init_port : Getenv → Strtoull → Config → Bool × Config
config_init_port getenv strtoull config = elim (getenv "HTTP_SERVER_PORT") [
  | none ↦ (true, record config { server_port = default_port })
  | some value ↦ elim (parse_ull strtoull value) [
    | none ↦ (false, config)
    | some parsed_value ↦
        if ltb uint16_max parsed_value
        then (false, config)
        else (true, record config { server_port = u16 parsed_value })
  ]
]

unfoldable pub config_init_tcp_backlog : Getenv → Strtoull → Config → Bool × Config
config_init_tcp_backlog getenv strtoull config = elim (getenv "HTTP_SERVER_TCP_BACKLOG") [
  | none ↦ (true, record config { tcp_backlog = default_tcp_backlog })
  | some value ↦ elim (parse_ull strtoull value) [
    | none ↦ (false, config)
    | some parsed_value ↦
        if ltb uint16_max parsed_value
        then (false, config)
        else (true, record config { tcp_backlog = u16 parsed_value })
  ]
]

unfoldable pub config_init_read_timeout_ms : Getenv → Strtoull → Config → Bool × Config
config_init_read_timeout_ms getenv strtoull config = elim (getenv "HTTP_SERVER_READ_TIMEOUT_MS") [
  | none ↦ (true, record config { read_timeout_ms = default_read_timeout_ms })
  | some value ↦ elim (parse_ull strtoull value) [
    | none ↦ (false, config)
    | some parsed_value ↦
        if ltb int_max parsed_value
        then (false, config)
        else (true, record config { read_timeout_ms = parsed_value })
  ]
]

unfoldable pub config_init_write_timeout_ms : Getenv → Strtoull → Config → Bool × Config
config_init_write_timeout_ms getenv strtoull config = elim (getenv "HTTP_SERVER_WRITE_TIMEOUT_MS") [
  | none ↦ (true, record config { write_timeout_ms = default_write_timeout_ms })
  | some value ↦ elim (parse_ull strtoull value) [
    | none ↦ (false, config)
    | some parsed_value ↦ (true, record config { write_timeout_ms = parsed_value })
  ]
]

unfoldable pub config_init_connection_timeout_ms : Getenv → Strtoull → Config → Bool × Config
config_init_connection_timeout_ms getenv strtoull config =
    elim (getenv "HTTP_SERVER_CONNECTION_TIMEOUT_MS") [
      | none ↦ (true, record config { connection_timeout_ms = default_connection_timeout_ms })
      | some value ↦ elim (parse_ull strtoull value) [
        | none ↦ (false, config)
        | some parsed_value ↦ (true, record config { connection_timeout_ms = parsed_value })
      ]
    ]

-- Every step runs, whether or not one before it failed.
unfoldable pub config_init_from_env : Getenv → Strtoull → Config → Bool × Config
config_init_from_env getenv strtoull config =
    let host = config_init_host getenv (config_init_debug getenv config) in
    let port = config_init_port getenv strtoull host in
    let backlog = config_init_tcp_backlog getenv strtoull port.1 in
    let reads = config_init_read_timeout_ms getenv strtoull backlog.1 in
    let writes = config_init_write_timeout_ms getenv strtoull reads.1 in
    let connections = config_init_connection_timeout_ms getenv strtoull writes.1 in
    (port.0 && backlog.0 && reads.0 && writes.0 && connections.0, connections.1)
