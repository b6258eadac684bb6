-- ===== src/Guarantee/Calls.antt =====
-- The relation of an `IsKept`, through the repositories, the mapper and the notifications.
use ofm_registration_saga_se.Prelude.{
  String, Bool, false, Option, none, some, ◌≡◌, ◌==◌, if◌then◌else◌,
}
use ofm_registration_saga_se.Domain.{Error, Session, Step, SessionStatus, StepStatus, StepKey}
use ofm_registration_saga_se.Exec.{ok, pure}
use ofm_registration_saga_se.Exec.Moves.{
  Moves, Moves-pure, Moves-if, Moves-bind-result, moves_rules,
}
use ofm_registration_saga_se.World.{Env, World, RealtimeStatus, ask, Notification}
use ofm_registration_saga_se.Repository.Sessions
use ofm_registration_saga_se.Repository.Sessions.{get_by_id-found}
use ofm_registration_saga_se.Repository.Steps
use ofm_registration_saga_se.Application.Mapper.{
  marshalled, timestamp, to_user_create_command_payload, to_auth_create_pending_command_payload,
  to_code_sent_event_payload, to_registration_completed_event_payload,
  to_registration_failed_event_payload, MailSendResult,
}
use ofm_registration_saga_se.Application.Realtime.{
  publish_encoded, publish_registration_notification, publish_code_sent_if_ready, notify_code_sent,
}
use ofm_registration_saga_se.Guarantee.{IsKept}

module _ {env : Env} {R : World → World → Type 0} (k : IsKept env R) where
  pub create_session-Moves : (s : Session) → Moves R (Sessions.create env s)
  unfolding Sessions.create
  create_session-Moves s = k.write_moves _ _

  pub get_by_id-Moves : (id : String) → Moves R (Sessions.get_by_id env id)
  unfolding Sessions.get_by_id
  get_by_id-Moves id = k.query_moves _

  pub get_by_email-Moves : (v : String) → Moves R (Sessions.get_by_email env v)
  unfolding Sessions.get_by_email
  get_by_email-Moves v = k.query_moves _

  pub get_by_username-Moves : (v : String) → Moves R (Sessions.get_by_username env v)
  unfolding Sessions.get_by_username
  get_by_username-Moves v = k.query_moves _

  pub set_session-Moves :
      (id : String) (st : SessionStatus) → Moves R (Sessions.update_status env id st)
  unfolding Sessions.update_status
  set_session-Moves id st = k.write_moves _ _

  pub claim-Moves : (id : String) → Moves R (Sessions.claim env id)
  unfolding Sessions.claim
  claim-Moves id = k.write_moves _ _

  pub reconcile-Moves : (id : String) → Moves R (Sessions.reconcile_status env id)
  unfolding Sessions.reconcile_status
  reconcile-Moves id = k.write_moves _ _

  pub create_step-Moves : (p : Step) → Moves R (Steps.create env p)
  unfolding Steps.create
  create_step-Moves p = k.write_moves _ _

  pub list-Moves : (id : String) → Moves R (Steps.list_by_session_id env id)
  unfolding Steps.list_by_session_id
  list-Moves id = k.query_moves _

  pub set_step-Moves :
      (id : String) (key : StepKey) (st : StepStatus) → Moves R (Steps.update_status env id key st)
  unfolding Steps.update_status
  set_step-Moves id key st = k.write_moves _ _

  pub marshalled-Moves : (e : Error) (o : Option String) → Moves R (marshalled e o)
  unfolding marshalled
  marshalled-Moves e none = search (moves_rules, k.preorder)
  marshalled-Moves e (some p) = search (moves_rules, k.preorder)

  pub failed_payload-Moves :
      (s : Session) (reason : String) → Moves R (to_registration_failed_event_payload env s reason)
  unfolding to_registration_failed_event_payload timestamp
  failed_payload-Moves s reason = search (moves_rules, k.preorder, k.draw_moves, marshalled-Moves)

  pub publish_encoded-Moves :
      (n : Notification) (o : Option String)
      → (n.event_type == "registration.code_sent") ≡ false
      → Moves R (publish_encoded env n o)
  unfolding publish_encoded
  publish_encoded-Moves n none h = search (moves_rules, k.preorder)
  publish_encoded-Moves n (some body) h = search (moves_rules, k.preorder, k.send_moves)

  pub notification-Moves :
      (s : Session) (event : String) (st : RealtimeStatus) (code : String) (retry : Option Bool)
      (payload : Option String)
      → (event == "registration.code_sent") ≡ false
      → Moves R (publish_registration_notification env s event st code retry payload)
  unfolding publish_registration_notification
  notification-Moves s event st code retry payload h =
      search (moves_rules, k.preorder, publish_encoded-Moves)

  pub user_create_payload-Moves :
      (s : Session) (first_name surname : String)
      → Moves R (to_user_create_command_payload env s first_name surname)
  unfolding to_user_create_command_payload
  user_create_payload-Moves s first_name surname = marshalled-Moves _ _

  pub auth_create_payload-Moves :
      (s : Session) (email password_hash : String)
      → Moves R (to_auth_create_pending_command_payload env s email password_hash)
  unfolding to_auth_create_pending_command_payload
  auth_create_payload-Moves s email password_hash = marshalled-Moves _ _

  pub code_sent_payload-Moves : (r : MailSendResult) → Moves R (to_code_sent_event_payload env r)
  unfolding to_code_sent_event_payload timestamp
  code_sent_payload-Moves r = search (moves_rules, k.preorder, k.draw_moves, marshalled-Moves)

  pub completed_payload-Moves :
      (s : Session) → Moves R (to_registration_completed_event_payload env s)
  unfolding to_registration_completed_event_payload timestamp
  completed_payload-Moves s = search (moves_rules, k.preorder, k.draw_moves, marshalled-Moves)

  if_code_sent-Moves :
      (b : Bool) (id : String) (s : Session) (payload : Option String)
      → s.session_id ≡ id
      → Moves R (if b then notify_code_sent env id s payload else pure tt)
  if_code_sent-Moves b id s payload h =
      Moves-if b _ _ (k.notify_moves id s payload h) (Moves-pure k.preorder tt)

  pub code_sent_if_ready-Moves :
      (id : String) (payload : Option String) → Moves R (publish_code_sent_if_ready env id payload)
  unfolding publish_code_sent_if_ready
  code_sent_if_ready-Moves id payload =
      Moves-if env.has_realtime _ _
        (Moves-bind-result k.preorder _ _ (get_by_id-Moves id)
          λ w s h. if_code_sent-Moves _ id s payload (get_by_id-found env id w h))
        (Moves-pure k.preorder tt)

  pub ask-Moves : Moves R (ask env)
  unfolding ask
  ask-Moves = record { at = λ w. (k.query_moves (λ _. ok (env.answer w.calls))).at w }

pub ruleset call_rules = (
  moves_rules, create_session-Moves, get_by_id-Moves, get_by_email-Moves, get_by_username-Moves,
  set_session-Moves, claim-Moves, reconcile-Moves, create_step-Moves, list-Moves, set_step-Moves,
  failed_payload-Moves, notification-Moves, user_create_payload-Moves, auth_create_payload-Moves,
  code_sent_payload-Moves, completed_payload-Moves, code_sent_if_ready-Moves, ask-Moves,
)
