-- ===== src/Wiring.antt =====
-- pkg/storage/postgres/postgres.go and the constructors of internal/fx that open something: what the
-- process opens while it is wired, and what its hooks close when it stops. The drivers, net/url,
-- strconv and path/filepath are parameters.
pub mod Released
use Prim.Native.String.{◌++◌, len, slice}
use text.Mathlib.Text.{starts_with}
use ofm_registration_saga_se.Prelude.{
  ℕ, String, Bool, true, false, not, ◌&&◌, Option, none, some, List, [], ◌∷◌, if◌then◌else◌,
}
use ofm_registration_saga_se.Domain.{Error, external}
use ofm_registration_saga_se.Exec.{Result, ok, err, Exec, pure, raise, handle, ◌>>=◌, ◌>>◌}
use ofm_registration_saga_se.Kafka.Wiring.{KafkaConfig, Broker, new_broker}

-- config.DBConfig, without the sizes and the lifetime of the pool.
pub record DbConfig : Type 0 where
  pub host : String
  pub port : ℕ
  pub user : String
  pub password : String
  pub name : String
  pub ssl_mode : String
  pub migrations_path : String
  pub migrations_table : String

-- url.QueryEscape, the %d of fmt, filepath.IsAbs and filepath.Abs
pub record Texts : Type 0 where
  pub query_escape : String → String
  pub decimal : ℕ → String
  pub is_abs : String → Bool
  pub abs : String → Result String

unfoldable pub address : Texts → DbConfig → String
address t c =
    "postgres://"
    ++ t.query_escape c.user
    ++ ":"
    ++ t.query_escape c.password
    ++ "@"
    ++ c.host
    ++ ":"
    ++ t.decimal c.port
    ++ "/"
    ++ t.query_escape c.name
    ++ "?sslmode="
    ++ t.query_escape c.ssl_mode

unfoldable pub migrations_address : Texts → DbConfig → String
unfolding address
migrations_address t c = address t c ++ "&x-migrations-table=" ++ t.query_escape c.migrations_table

abbrev pub as_file : Result String → Result String
as_file (err e) = err e
as_file (ok a) = ok ("file://" ++ a)

-- A relative path after "file://" is made absolute.
unfoldable pub migrations_source : Texts → String → Result String
migrations_source t path =
    let rest = slice path 7 (len path) in
    if starts_with path "file://" && not (t.is_abs rest) then as_file (t.abs rest) else ok path

pub data Resource : Type 0 where
  migrations pool tracer broker auth_client user_client : Resource

abbrev pub same_resource : Resource → Resource → Bool
same_resource migrations migrations = true
same_resource pool pool = true
same_resource tracer tracer = true
same_resource broker broker = true
same_resource auth_client auth_client = true
same_resource user_client user_client = true
same_resource _ _ = false

-- The calls of the libraries that had an effect; `migrated` is Up, also when nothing changed.
pub data Call : Type 0 where
  opened : Resource → List String → Call
  closed : Resource → Call
  registered_driver migrated : Call

-- The calls so far, the newest first, and what the OnStop hooks close.
pub record Process : Type 0 where
  pub log : List Call
  pub on_stop : List Resource

-- How the calls fail; `no_change` is migrate.ErrNoChange.
pub record Library : Type 0 where
  pub fails : Call → Option Error
  pub no_change : Error → Bool

module _ (lib : Library) where
  unfoldable pub record_call : Call → Exec Process (Unit {0})
  record_call c p = (ok tt, record p { log = c ∷ p.log })

  unfoldable pub unless_failed : Option Error → Exec Process (Unit {0}) → Exec Process (Unit {0})
  unless_failed none done = done
  unless_failed (some e) done = raise e

  unfoldable pub call : Call → Exec Process (Unit {0})
  unfolding unless_failed record_call
  call c = unless_failed (lib.fails c) (record_call c)

  -- lc.Append(fx.Hook{OnStop: ... Close()})
  unfoldable pub append_hook : Resource → Exec Process (Unit {0})
  append_hook r p = (ok tt, record p { on_stop = r ∷ p.on_stop })

  -- defer m.Close()
  unfoldable pub deferred : Resource → Exec Process (Unit {0}) → Exec Process (Unit {0})
  deferred r m p = let (result, p') = m p in (result, record p' { log = closed r ∷ p'.log })

  unfoldable pub apply_migrations : Option Error → Exec Process (Unit {0})
  unfolding record_call
  apply_migrations none = record_call migrated
  apply_migrations (some e) = if lib.no_change e then record_call migrated else raise e

  module _ (t : Texts) (c : DbConfig) where
    unfoldable pub migrate_from : Result String → Exec Process (Unit {0})
    unfolding call deferred apply_migrations migrations_address
    migrate_from (err e) = raise e
    migrate_from (ok source) = do
      call (opened migrations (source ∷ migrations_address t c ∷ []))
      deferred migrations (apply_migrations (lib.fails migrated))

    unfoldable pub run_migrations : Exec Process (Unit {0})
    unfolding migrate_from migrations_source
    run_migrations = migrate_from (migrations_source t c.migrations_path)

    -- Open
    unfoldable pub open_pool : Exec Process (Unit {0})
    unfolding call address
    open_pool = do call registered_driver; call (opened pool (address t c ∷ []))

    unfoldable pub provide_postgres_db : Exec Process (Unit {0})
    unfolding run_migrations open_pool append_hook
    provide_postgres_db = do run_migrations; open_pool; append_hook pool

  -- grpc.NewClient for an address, and Close of the connection in the hook.
  unfoldable pub provide_client : Resource → String → Exec Process (Unit {0})
  unfolding call append_hook
  provide_client r target = do call (opened r (target ∷ [])); append_hook r

  unfoldable pub provide_auth_availability_checker : String → Exec Process (Unit {0})
  unfolding provide_client
  provide_auth_availability_checker = provide_client auth_client

  unfoldable pub provide_user_availability_checker : String → Exec Process (Unit {0})
  unfolding provide_client
  provide_user_availability_checker = provide_client user_client

  -- NewBroker, which opens nothing before its first consumer, and Close in the hook.
  unfoldable pub hold_broker : Result Broker → Exec Process (Unit {0})
  unfolding append_hook record_call
  hold_broker (err e) = raise e
  hold_broker (ok b) = do record_call (opened broker b.brokers); append_hook broker

  unfoldable pub provide_event_broker : KafkaConfig → Exec Process (Unit {0})
  unfolding new_broker hold_broker
  provide_event_broker cfg = hold_broker (new_broker cfg)

  -- `configured` is whether the configuration is not nil; an error of NewTracerProvider is only
  -- logged.
  unfoldable pub install_tracing : Bool → Exec Process (Unit {0})
  unfolding call append_hook
  install_tracing configured =
      if configured
      then handle (call (opened tracer [])) (λ _. pure tt) (λ _. append_hook tracer)
      else pure tt

-- The constructors that open something.
pub data Constructor : Type 0 where
  postgres_db : DbConfig → Constructor
  event_broker : KafkaConfig → Constructor
  auth_checker user_checker : String → Constructor
  tracing : Bool → Constructor

module _ (lib : Library) (t : Texts) where
  unfoldable pub construct : Constructor → Exec Process (Unit {0})
  construct (postgres_db c) = provide_postgres_db lib t c
  construct (event_broker cfg) = provide_event_broker lib cfg
  construct (auth_checker target) = provide_auth_availability_checker lib target
  construct (user_checker target) = provide_user_availability_checker lib target
  construct (tracing configured) = install_tracing lib configured

  -- The constructors in an order of the container, up to the first error.
  unfoldable pub construct_all : List Constructor → Exec Process (Unit {0})
  construct_all [] = pure tt
  construct_all (c ∷ rest) = do construct c; construct_all rest
