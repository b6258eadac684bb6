-- ===== src/Guarantee/Database.antt =====
-- What holds of the tables after any history: uniqueness, and whose each session is.
use ofm_registration_saga_se.Prelude.{String, List, sym, subst}
use ofm_registration_saga_se.Store.{get_by_id}
use ofm_registration_saga_se.Store.Unique.{IsConsistent, run-IsConsistent}
use ofm_registration_saga_se.Store.Identity.{Persists, run-Persists}
use ofm_registration_saga_se.World.{Env, World}
use ofm_registration_saga_se.History.{Event, serve_all}
use ofm_registration_saga_se.Guarantee.Statements.{serve_all-Reaches}

-- If no two sessions share an id, an email or a username, and no two steps share a session and a
-- key, then so it is after any requests, result events and goroutines, in any order, however
-- their calls end and whatever statements of replicas come between.
pub serve_all-IsConsistent :
    (env : Env) (qs : List Event) (w : World)
    → IsConsistent w.db
    → IsConsistent (serve_all env qs w).db
serve_all-IsConsistent env qs w h =
    let (stmts, e) = serve_all-Reaches env qs w in
    subst IsConsistent (sym e) (run-IsConsistent stmts w.db h)

-- After any such history a session that was there is there still, with the same client, user,
-- email, username and time of creation.
pub serve_all-Persists :
    (env : Env) (qs : List Event) (w : World) (id : String)
    → Persists (get_by_id id w.db.sessions) (get_by_id id (serve_all env qs w).db.sessions)
serve_all-Persists env qs w id =
    let (stmts, e) = serve_all-Reaches env qs w in
    subst (λ db. Persists (get_by_id id w.db.sessions) (get_by_id id db.sessions)) (sym e)
      (run-Persists id stmts w.db)
