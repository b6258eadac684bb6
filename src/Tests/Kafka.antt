-- ===== src/Tests/Kafka.antt =====
-- The Kafka adapters on concrete messages.
use Prim.Native.Nat.{◌*◌, ◌^◌}
use ofm_registration_saga_se.Prelude.Text.{trim_space}
use ofm_registration_saga_se.Prelude.{
  ℕ, ◌+◌, ◌≤◌, String, Bool, some, none, List, [], ◌∷◌, ◌≡◌, refl, sym, ap, ◌⊎◌, ◌||◌, true,
  if◌then◌else◌, ◌==◌,
}
use ofm_registration_saga_se.Domain.{external, permanent}
use ofm_registration_saga_se.Exec.{Result, ok, err, Exec}
use ofm_registration_saga_se.Kafka.{Message}
use ofm_registration_saga_se.Kafka.Worker.{Client, Log, consume_all}
use ofm_registration_saga_se.Kafka.Settled.{Ends, weighed, consume_all-Ends}
use ofm_registration_saga_se.Kafka.Consumer.Sound.{one}
use ofm_registration_saga_se.Kafka.Backoff.{backoff_at, second, backoff_at-bounds}
use ofm_registration_saga_se.Kafka.Publish.{
  RegistrationPayload, Envelope, Metadata, Codec, publish, IsNamed, publish-IsNamed, enveloped,
  written,
}
use ofm_registration_saga_se.Kafka.Delivery.{Delivers, publish-Delivers}
use ofm_registration_saga_se.Kafka.Subscribers.{Command, RecoveryCodec, handle_recovery, equal_fold}
use ofm_registration_saga_se.Kafka.Recovery.{handle_recovery-refused}
use ofm_registration_saga_se.Tests.Fixtures.{calm, world, bob}

-- Every call succeeds; three attempts are made.
abbrev client : Client
client = record {
  max_attempts = 3;
  positive_int = λ v. if v == "3" then some 3 else none;
  unwrap = λ v. ok v;
  enqueue = λ msg n e. none;
  marshal_dlq = λ msg n e. some "record";
  write_dead_letter = λ msg body. none;
  commit = λ msg. none;
}

abbrev messages : List Message
messages =
    record { offset = 1; headers = []; value = "bad" }
    ∷ record { offset = 2; headers = ("x-ofm-retry-attempt", "3") ∷ []; value = "bad" }
    ∷ record { offset = 3; headers = []; value = "good" }
    ∷ []

-- The handler counts its calls and accepts one payload.
abbrev accepts_good : String → Exec ℕ (Unit {0})
accepts_good payload n = if payload == "good" then (ok tt, n + 1) else (err (external "no"), n + 1)

abbrev empty : Log ℕ
empty = record { app = 0; retries = []; dead_letters = []; committed = [] }

abbrev is_bad : Message → Bool
is_bad msg = msg.value == "bad"

consume_all-Ends_example :
    (let (r, log) = consume_all client "topic" accepts_good messages empty in
      Ends (one is_bad) messages r 0 (weighed (one is_bad) log))
consume_all-Ends_example = consume_all-Ends client (one is_bad) "topic" accepts_good messages empty

backoff_at-bounds_example :
    (backoff_at 3 ≡ 2 ^ 3 * second)
    × (second ≤ backoff_at 3)
    × (backoff_at 3 ≤ backoff_at 4)
    × (backoff_at 4 ≤ 30 * second)
backoff_at-bounds_example = backoff_at-bounds 3

abbrev envelope : Envelope
envelope = record {
  event_type = "";
  payload = "";
  aggregate_type = "";
  aggregate_id = "";
  session_id = "";
  source_service = "";
  operation = "";
  correlation_id = "";
  test_run_id = "";
}

abbrev codec : Codec
codec = record {
  wrap = λ subject payload. ok payload;
  decode = λ payload. ok (record { session_id = "s1"; client_id = "c1"; user_id = "u1" });
  fresh = λ subject payload. ok (record envelope { event_type = subject; payload = payload });
  marshal = λ e. ok e.session_id;
}

abbrev metadata : Metadata
metadata = record { correlation_id = "c"; test_run_id = "" }

publish-IsNamed_example :
    (publish codec metadata none "migration.registration.failed" "{}" []).1 ≡ []
    ⊎ ((value : String) × ((publish codec metadata none "migration.registration.failed" "{}" []).1
          ≡ ("migration.registration.failed", value) ∷ [])
        × ((body : RegistrationPayload) × (codec.decode "{}" ≡ ok body)
            × IsNamed codec metadata body value))
publish-IsNamed_example =
    publish-IsNamed codec metadata none "migration.registration.failed" "{}" [] refl

abbrev command : Command
command = record {
  event_id = "e1";
  command_id = "k1";
  correlation_id = "";
  idempotency_key = "";
  test_run_id = "";
  operation = "register";
  aggregate_type = "Registration";
  aggregate_id = "c9";
  payload = "{}";
}

abbrev recovery : RecoveryCodec
recovery = record {
  decode_command = λ raw. ok command;
  decode_payload = λ raw. ok bob;
  encode_completed = λ c. ok "completed";
}

command_fits : equal_fold command.aggregate_type "registration" ≡ true
unfolding equal_fold
command_fits = refl

bob_unnamed :
    (trim_space bob.session_id == ""
      || trim_space bob.client_id == ""
      || trim_space bob.user_id == "")
    ≡ true
unfolding trim_space
bob_unnamed = refl

handle_recovery-refused_example :
    (text : String) × (handle_recovery calm recovery "migration.recovery.completed" 4 "{}" world
      ≡ (err (permanent text), world))
handle_recovery-refused_example =
    handle_recovery-refused calm recovery "migration.recovery.completed" 4 "{}" command bob world
      refl command_fits refl bob_unnamed

-- The payload comes back behind a mark.
abbrev marking : Codec
marking = record codec { wrap = λ subject payload. ok (String.◌∷◌ "#" payload) }

abbrev unmark : String → Result String
unmark String.[] = err (external "unexpected end of JSON input")
unmark (String.◌∷◌ c s) = ok s

abbrev unmarking : Client
unmarking = record client { unwrap = unmark }

abbrev unmarked : Result String → Result String
unmarked (ok value) = unmark value
unmarked (err e) = err e

unmark-wrap :
    (subject payload value : String)
    → marking.wrap subject payload ≡ ok value
    → unmarking.unwrap value ≡ ok payload
unmark-wrap subject payload value h = sym (ap unmarked h)

publish-Delivers_example :
    Delivers unmarking "saga.user.create" "{}" [] accepts_good empty
      (publish marking metadata none "saga.user.create" "{}" [])
unfolding publish enveloped written
publish-Delivers_example =
    publish-Delivers marking metadata unmarking unmark-wrap "saga.user.create" "{}" [] accepts_good
      empty refl refl refl
