-- ===== src/Guarantee/Statements.antt =====
-- internal/application: what the use cases do to the tables, as statements of the repositories.
use ofm_registration_saga_se.Prelude.{String, List, [], ◌∷◌, ◌++◌, ◌≡◌, refl, ◌∙◌, sym, ap}
use ofm_registration_saga_se.Exec.Moves.{Moves, IsPreorder}
use ofm_registration_saga_se.Store.{Db}
use ofm_registration_saga_se.Store.Statement.{Stmt, apply, run, run-append}
use ofm_registration_saga_se.World.{
  Env, World, Effect, activated_user, notified_client, tick, query_cases, write_cases, send_cases,
  send, draw, spawn,
}
use ofm_registration_saga_se.Application.Realtime.{load_or_store, load_or_store_cases}
use ofm_registration_saga_se.History.{Event, serve_all}
use ofm_registration_saga_se.Guarantee.{IsKept, IsKeptThroughout}
use ofm_registration_saga_se.Guarantee.Progress.{complete-Moves}
use ofm_registration_saga_se.Guarantee.Notify.{notify-Moves}
use ofm_registration_saga_se.Guarantee.History.{serve_all-related}

-- One database is had from another by statements.
abbrev pub Reaches : Db → Db → Type 0
Reaches db db' = (qs : List Stmt) × (db' ≡ run qs db)

abbrev pub DbReaches : World → World → Type 0
DbReaches w w' = Reaches w.db w'.db

Reaches-refl : (db : Db) → Reaches db db
unfolding run
Reaches-refl db = ([], refl)

Reaches-trans : (a b c : Db) → Reaches a b → Reaches b c → Reaches a c
Reaches-trans a b c (qs, p) (rs, q) = (qs ++ rs, q ∙ ap (run rs) p ∙ sym (run-append qs rs a))

Reaches-step : (a b : Db) (s : Stmt) → Reaches a b → Reaches a (apply s b)
unfolding run
Reaches-step a b s h = Reaches-trans a b (apply s b) h (s ∷ [], refl)

DbReaches-order : IsPreorder DbReaches
DbReaches-order = record {
  rel_refl = λ w. Reaches-refl w.db;
  rel_trans = λ {s} {t} {u} h g. Reaches-trans s.db t.db u.db h g;
}

module _ (env : Env) where
  tick-Reaches : (w : World) → DbReaches w (tick env w)
  unfolding tick
  tick-Reaches w = (env.others w.calls, refl)

  send-Reaches : (e : Effect) → Moves DbReaches (send env e)
  send-Reaches e = record {
    at = λ w. send_cases (DbReaches w) env e w (tick-Reaches w) (tick-Reaches w);
  }

  load_or_store-Reaches : (id : String) → Moves DbReaches (load_or_store id)
  load_or_store-Reaches id = record {
    at = λ w. load_or_store_cases (DbReaches w) id w (Reaches-refl w.db) (λ _. Reaches-refl w.db);
  }

  DbReaches-IsKept : IsKept env DbReaches
  unfolding draw
  DbReaches-IsKept = record {
    preorder = DbReaches-order;
    query_moves = λ f. record { at = λ w. query_cases (DbReaches w) env f w (tick-Reaches w) };
    write_moves = λ result stmt. record {
      at = λ w.
          write_cases (DbReaches w) env result stmt w (tick-Reaches w)
            (Reaches-step w.db (tick env w).db (stmt (env.clock w.calls)) (tick-Reaches w));
    };
    send_moves = λ e _. send-Reaches e;
    draw_moves = λ f. record { at = λ w. Reaches-refl w.db };
    notify_moves =
        notify-Moves env DbReaches-order (λ n. send-Reaches (notified_client n))
          load_or_store-Reaches;
  }

DbReaches-IsKeptThroughout : (env : Env) → IsKeptThroughout env DbReaches
unfolding spawn
DbReaches-IsKeptThroughout env = record {
  kept = DbReaches-IsKept env;
  spawn_moves = λ t. record { at = λ w. Reaches-refl w.db };
  tasks_moves = λ w ts. Reaches-refl w.db;
  complete_moves = λ s code.
      complete-Moves (DbReaches-IsKept env) s code (send-Reaches env (activated_user s.user_id));
}

-- Over any history, in any environment, the tables change only by repository statements: those of
-- the service and those of its concurrent replicas.
pub serve_all-Reaches :
    (env : Env) (qs : List Event) (w : World) → Reaches w.db (serve_all env qs w).db
serve_all-Reaches env qs w = serve_all-related (DbReaches-IsKeptThroughout env) qs w
