-- ===== src/Repository/Steps.antt =====
-- stepRepo of internal/infra/postgres/repository.go
use ofm_registration_saga_se.Prelude.{String, Option, none, some, List}
use ofm_registration_saga_se.Domain.{Step, StepKey, StepStatus, step_not_found}
use ofm_registration_saga_se.Exec.{Result, ok, err}
use ofm_registration_saga_se.Store
use ofm_registration_saga_se.Store.Statement.{create_step, update_step_status}
use ofm_registration_saga_se.World.{Env, Saga, query, write}
use ofm_registration_saga_se.Repository.Sessions.{inserted}

abbrev pub found : Option Step → Result Step
found none = err step_not_found
found (some p) = ok p

module _ (env : Env) where
  unfoldable pub create : Step → Saga Step
  create p =
      write env
        (λ now db.
          inserted (record p { created_at = now; updated_at = now }) (Store.insert_step now p db))
        (λ now. create_step now p)

  unfoldable pub get_by_key : String → StepKey → Saga Step
  get_by_key id key = query env (λ db. found (Store.get_by_key id key db.steps))

  unfoldable pub list_by_session_id : String → Saga (List Step)
  list_by_session_id id = query env (λ db. ok (Store.list_by_session_id id db.steps))

  unfoldable pub update_status : String → StepKey → StepStatus → Saga (Unit {0})
  update_status id key st = write env (λ _ _. ok tt) (λ now. update_step_status now id key st)
