-- ===== src/Guarantee/Notify.antt =====
-- A relation that every notification keeps is kept by the code-sent notification.
use ofm_registration_saga_se.Prelude.{String, Bool, Option, none, some, ◌≡◌}
use ofm_registration_saga_se.Domain.{Session}
use ofm_registration_saga_se.Exec.Moves.{Moves, IsPreorder, moves_rules}
use ofm_registration_saga_se.World.{Env, World, notified_client, Notification, RealtimeStatus, send}
use ofm_registration_saga_se.Application.Realtime.{
  load_or_store, publish_encoded, publish_registration_notification, notify_code_sent,
}

module _ (env : Env) {R : World → World → Type 0} (order : IsPreorder R)
    (sends : (n : Notification) → Moves R (send env (notified_client n)))
    (marks : (id : String) → Moves R (load_or_store id)) where
  encoded-Moves : (n : Notification) (o : Option String) → Moves R (publish_encoded env n o)
  unfolding publish_encoded
  encoded-Moves n none = search (moves_rules, order)
  encoded-Moves n (some body) = search (moves_rules, order, sends)

  any_notification-Moves :
      (s : Session) (event : String) (st : RealtimeStatus) (code : String) (retry : Option Bool)
      (payload : Option String)
      → Moves R (publish_registration_notification env s event st code retry payload)
  unfolding publish_registration_notification
  any_notification-Moves s event st code retry payload = search (moves_rules, order, encoded-Moves)

  pub notify-Moves :
      (id : String) (s : Session) (payload : Option String)
      → s.session_id ≡ id
      → Moves R (notify_code_sent env id s payload)
  unfolding notify_code_sent
  notify-Moves id s payload _ = search (moves_rules, order, marks, any_notification-Moves) depth 8
