-- ===== src/Tests/Wiring.antt =====
-- The process as it is wired, with migrations that are up to date and a database that is down.
use ofm_registration_saga_se.Prelude.{true, false, none, some, List, [], ◌∷◌, ◌≡◌, refl}
use ofm_registration_saga_se.Domain.{external}
use ofm_registration_saga_se.Exec.{ok}
use ofm_registration_saga_se.Kafka.Wiring.{KafkaConfig}
use ofm_registration_saga_se.Wiring.{
  DbConfig, Texts, Library, pool, opened, closed, registered_driver, migrated, Constructor,
  postgres_db, event_broker, auth_checker, tracing, construct_all, migrations_source,
}
use ofm_registration_saga_se.Wiring.Released.{IsBalanced, constructed-IsBalanced}

abbrev texts : Texts
texts = record {
  query_escape = λ s. s;
  decimal = λ n. "5432";
  is_abs = λ s. false;
  abs = λ s. ok "/srv/migration/postgres";
}

abbrev library : Library
library = record {
  fails = elim [
    | migrated ↦ some (external "no change")
    | opened pool _ ↦ some (external "connection refused")
    | opened _ _ ↦ none
    | closed _ ↦ none
    | registered_driver ↦ none
  ];
  no_change = λ e. true;
}

abbrev database : DbConfig
database = record {
  host = "db";
  port = 5432;
  user = "admin";
  password = "admin";
  name = "registration_saga";
  ssl_mode = "disable";
  migrations_path = "file://migration/postgres";
  migrations_table = "schema_migrations";
}

abbrev kafka : KafkaConfig
kafka = record {
  brokers = "kafka:9092" ∷ [];
  group_id = "registration-saga-service";
  recovery_topic = "";
  recovery_group = "";
  user_result_topic = "";
  auth_result_topic = "";
  mail_result_topic = "";
}

made_absolute :
    migrations_source texts "file://migration/postgres" ≡ ok "file:///srv/migration/postgres"
unfolding migrations_source
made_absolute = refl

abbrev constructors : List Constructor
constructors =
    tracing true ∷ event_broker kafka ∷ auth_checker "auth:9501" ∷ postgres_db database ∷ []

constructed-IsBalanced_example :
    IsBalanced (construct_all library texts constructors (record { log = []; on_stop = [] })).1
constructed-IsBalanced_example = constructed-IsBalanced library texts constructors
