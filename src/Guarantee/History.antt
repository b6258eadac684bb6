-- ===== src/Guarantee/History.antt =====
-- The relation of an `IsKeptThroughout`, over whole histories.
use ofm_registration_saga_se.Prelude.{Option, none, some, List, [], ◌∷◌}
use ofm_registration_saga_se.World.{Env, World, Task}
use ofm_registration_saga_se.History.{
  Event, starts, verifies, asks_status, user_result, auth_result, mail_result, runs, pick,
  run_picked, serve, serve_all,
}
use ofm_registration_saga_se.Guarantee.{IsKeptThroughout}
use ofm_registration_saga_se.Guarantee.Progress.{
  handle_user-Moves, handle_auth-Moves, handle_mail-Moves,
}
use ofm_registration_saga_se.Guarantee.UseCases.{
  start-Moves, verify_email-Moves, get_status-Moves, run_task-Moves,
}

module _ {env : Env} {R : World → World → Type 0} (k : IsKeptThroughout env R) where
  run_picked-related : (o : Option (Task × List Task)) (w : World) → R w (run_picked env o w)
  unfolding run_picked
  run_picked-related none w = k.kept.preorder.rel_refl w
  run_picked-related (some (t, rest)) w =
      k.kept.preorder.rel_trans (k.tasks_moves w rest) ((run_task-Moves k t).at _)

  serve-related : (q : Event) (w : World) → R w (serve env q w)
  unfolding serve
  serve-related (starts q) w = (start-Moves k q).at w
  serve-related (verifies q) w = (verify_email-Moves k q).at w
  serve-related (asks_status s c) w = (get_status-Moves k s c).at w
  serve-related (user_result r) w = (handle_user-Moves k.kept r).at w
  serve-related (auth_result r) w = (handle_auth-Moves k.kept r).at w
  serve-related (mail_result r) w = (handle_mail-Moves k.kept r).at w
  serve-related (runs i) w = run_picked-related (pick i w.tasks) w

  pub serve_all-related : (qs : List Event) (w : World) → R w (serve_all env qs w)
  unfolding serve_all
  serve_all-related [] w = k.kept.preorder.rel_refl w
  serve_all-related (q ∷ rest) w =
      k.kept.preorder.rel_trans (serve-related q w) (serve_all-related rest (serve env q w))
