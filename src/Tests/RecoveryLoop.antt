-- ===== src/Tests/RecoveryLoop.antt =====
-- A subscription to the recovery commands that fails, and one during which the service stops.
use ofm_registration_saga_se.Prelude.{◌≤◌, true, false, none, some, [], ◌∷◌, ◌≡◌, refl, ◌⊎◌}
use ofm_registration_saga_se.Domain.{Error, external}
use ofm_registration_saga_se.Kafka.RecoveryLoop.{
  subscribed, ended, subscribes, logs, waits, Loop, on_start, leave, subscribe, return_, again,
  pause, wake, Steps, here, next,
}
use ofm_registration_saga_se.Kafka.RecoveryLoop.Retried.{
  CanSubscribe, CanStep, calls, recovery-retries, recovery-ends,
}

abbrev refused : Error
refused = external "connection refused"

abbrev subscribed_twice : Loop
subscribed_twice = record {
  stopping = false;
  at = subscribed;
  acts = subscribes ∷ waits ∷ logs ∷ subscribes ∷ [];
}

two_calls : Steps 5 on_start subscribed_twice
unfolding on_start
two_calls = next (subscribe refl refl) (
    next (return_ (some refused) refl)
      (next (pause refused refl refl) (next (wake refl) (next (subscribe refl refl) here))))

recovery-retries_example : CanSubscribe subscribed_twice
recovery-retries_example = recovery-retries two_calls refl

abbrev stopping : Loop
stopping = record subscribed_twice { stopping = true }

abbrev stopped : Loop
stopped = record stopping { at = ended }

stops : Steps 3 stopping stopped
stops = next (return_ none refl) (next (again refl) (next (leave refl refl) here))

recovery-ends_example :
    (3 ≤ 3) × (calls stopped.acts ≡ calls stopping.acts) × ((stopped.at ≡ ended) ⊎ CanStep stopped)
recovery-ends_example = recovery-ends refl stops
