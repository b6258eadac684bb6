-- ===== src/Tests/Guarantee.antt =====
-- What holds over histories, at a concrete history with faults.
use ofm_registration_saga_se.Prelude.{ℕ, ◌≤◌, List, [], ◌∷◌, ◌≡◌, refl, arith}
use ofm_registration_saga_se.Store.{get_by_id}
use ofm_registration_saga_se.Domain.{SessionStatus}
use ofm_registration_saga_se.World.{Env, World}
use ofm_registration_saga_se.Store.Statement.{claim_completed}
use ofm_registration_saga_se.Store.Claims.{completions, claimable}
use ofm_registration_saga_se.Guarantee.ClaimedOnce.{completed_answers, completed_answers-le}
use ofm_registration_saga_se.Store.Unique.{IsConsistent}
use ofm_registration_saga_se.Store.Identity.{Persists}
use ofm_registration_saga_se.Application.Realtime.{contains}
use ofm_registration_saga_se.History.{Event, starts, verifies, user_result, runs, serve_all}
use ofm_registration_saga_se.Guarantee.Database.{serve_all-IsConsistent, serve_all-Persists}
use ofm_registration_saga_se.Guarantee.Notified.{code_sent_count, IsToldOnce, serve_all-IsToldOnce}
use ofm_registration_saga_se.Guarantee.Activated.{IsVerifiedFirst, serve_all-IsVerifiedFirst}
use ofm_registration_saga_se.Tests.Fixtures.{
  calm, ada, tables, faulty, world, tables-IsConsistent, bob, submission,
}

abbrev history : List Event
history =
    starts bob
    ∷ runs 0
    ∷ user_result (record {
      session_id = "s1";
      user_id = "u1";
      status = "success";
      error = "";
      timestamp = "";
    })
    ∷ verifies submission
    ∷ runs 0
    ∷ []

serve_all-IsConsistent_example : IsConsistent (serve_all faulty history world).db
serve_all-IsConsistent_example = serve_all-IsConsistent faulty history world tables-IsConsistent

serve_all-Persists_example :
    Persists
      (get_by_id "s1" world.db.sessions)
      (get_by_id "s1" (serve_all faulty history world).db.sessions)
serve_all-Persists_example = serve_all-Persists faulty history world "s1"

world-IsToldOnce : IsToldOnce "s1" world
unfolding code_sent_count contains
world-IsToldOnce = omega arith

serve_all-IsToldOnce_example :
    IsToldOnce "s1" (serve_all faulty history world)
    × (code_sent_count "s1" (serve_all faulty history world).trace ≤ 1)
serve_all-IsToldOnce_example = serve_all-IsToldOnce faulty history world "s1" world-IsToldOnce

serve_all-IsVerifiedFirst_example : IsVerifiedFirst (serve_all faulty history world).trace
serve_all-IsVerifiedFirst_example = serve_all-IsVerifiedFirst faulty history world tt

-- Two clients ask for a completed session, the second one while a replica claims it.
abbrev raced : Env
raced = record calm { others = λ n. claim_completed n "s1" ∷ [] }

abbrev completed_world : World
completed_world = record world {
  db = record tables { sessions = record ada { status = SessionStatus.completed } ∷ [] };
}

raced-undisturbed : (n : ℕ) → completions "s1" (raced.others n) ≡ 0
unfolding completions
raced-undisturbed n = refl

completed_answers-le_example :
    completed_answers raced "s1" (("s1", "c1") ∷ ("s1", "c1") ∷ []) completed_world
    ≤ claimable "s1" completed_world.db
completed_answers-le_example =
    completed_answers-le raced "s1" raced-undisturbed (("s1", "c1") ∷ ("s1", "c1") ∷ [])
      completed_world
