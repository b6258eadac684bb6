-- ===== src/Guarantee/Activated.antt =====
-- completeEmailVerification of internal/application/verify_email.go: activations and the
-- verifications before them.
use ofm_registration_saga_se.Prelude.{
  String, Bool, true, false, ◌||◌, List, [], ◌∷◌, ◌≡◌, refl, arith, ◌==◌, eq_refl,
}
use ofm_registration_saga_se.Domain.{Session, verify_email_code}
use ofm_registration_saga_se.Exec.Moves.{Moves, IsPreorder}
use ofm_registration_saga_se.World.{
  Env, World, Effect, published, notified_client, verified_email, activated_user, deactivated_user,
  deactivated_auth, tick, send_cases, send_then, Notification, query_cases, write_cases, send, draw,
  spawn,
}
use ofm_registration_saga_se.Application.Realtime.{load_or_store, load_or_store_cases}
use ofm_registration_saga_se.Application.VerifyEmail.{complete_email_verification}
use ofm_registration_saga_se.History.{Event, serve_all}
use ofm_registration_saga_se.Guarantee.{IsPlain, IsKept, IsKeptThroughout}
use ofm_registration_saga_se.Guarantee.Notify.{notify-Moves}
use ofm_registration_saga_se.Guarantee.Progress.{fail_verification-Moves, activate-Moves}
use ofm_registration_saga_se.Guarantee.History.{serve_all-related}

abbrev verifies : String → Effect → Bool
verifies u (verified_email v code) = v == u
verifies u _ = false

-- The auth service has been asked to verify a code of the user and has done so.
pub is_verified : String → List Effect → Bool
is_verified u [] = false
is_verified u (e ∷ rest) = verifies u e || is_verified u rest

abbrev AllowedAfter : Effect → List Effect → Type 0
AllowedAfter (activated_user u) before = is_verified u before ≡ true
AllowedAfter _ before = Unit

-- Every activation in the trace comes after a verification for the same user.
abbrev pub IsVerifiedFirst : List Effect → Type 0
IsVerifiedFirst [] = Unit
IsVerifiedFirst (e ∷ before) = AllowedAfter e before × IsVerifiedFirst before

abbrev Keeps : World → World → Type 0
Keeps w w' = IsVerifiedFirst w.trace → IsVerifiedFirst w'.trace

Keeps-order : IsPreorder Keeps
Keeps-order = record { rel_refl = λ w h. h; rel_trans = λ f g h. g (f h) }

-- The same, and the user's verification is not forgotten.
abbrev KeepsFor : String → World → World → Type 0
KeepsFor u w w' =
    (is_verified u w.trace ≡ true) × IsVerifiedFirst w.trace
    → (is_verified u w'.trace ≡ true) × IsVerifiedFirst w'.trace

KeepsFor-order : (u : String) → IsPreorder (KeepsFor u)
KeepsFor-order u = record { rel_refl = λ w h. h; rel_trans = λ f g h. g (f h) }

plain-AllowedAfter : (e : Effect) (before : List Effect) → IsPlain e → AllowedAfter e before
plain-AllowedAfter (activated_user _) before h = elim h [ ]
plain-AllowedAfter (notified_client n) before h = tt
plain-AllowedAfter (published _ _) before h = tt
plain-AllowedAfter (verified_email _ _) before h = tt
plain-AllowedAfter (deactivated_user _) before h = tt
plain-AllowedAfter (deactivated_auth _) before h = tt

module _ (env : Env) (u : String) where
  -- Sending what is allowed keeps the order, and the verification of `u`.
  send-KeepsFor :
      (e : Effect)
      → ((before : List Effect) → is_verified u before ≡ true → AllowedAfter e before)
      → Moves (KeepsFor u) (send env e)
  unfolding is_verified tick
  send-KeepsFor e allowed = record {
    at = λ w.
        send_cases (KeepsFor u w) env e w (λ h. h)
          (λ h. (ground (arith, h.0), (allowed _ h.0, h.1)));
  }

  load-KeepsFor : (id : String) → Moves (KeepsFor u) (load_or_store id)
  load-KeepsFor id = record {
    at = λ w. load_or_store_cases (KeepsFor u w) id w (λ h. h) (λ _ h. h);
  }

  KeepsFor-IsKept : IsKept env (KeepsFor u)
  unfolding draw tick
  KeepsFor-IsKept = record {
    preorder = KeepsFor-order u;
    query_moves = λ f. record { at = λ w. query_cases (KeepsFor u w) env f w (λ h. h) };
    write_moves = λ result stmt. record {
      at = λ w. write_cases (KeepsFor u w) env result stmt w (λ h. h) (λ h. h);
    };
    send_moves = λ e p. send-KeepsFor e (λ before _. plain-AllowedAfter e before p);
    draw_moves = λ f. record { at = λ w h. h };
    notify_moves =
        notify-Moves env (KeepsFor-order u) (λ n. send-KeepsFor (notified_client n) (λ _ _. tt))
          load-KeepsFor;
  }

module _ (env : Env) where
  plain-Keeps : (e : Effect) → IsPlain e → Moves Keeps (send env e)
  unfolding tick
  plain-Keeps e p = record {
    at = λ w. send_cases (Keeps w) env e w (λ h. h) (λ h. (plain-AllowedAfter e _ p, h));
  }

  load-Keeps : (id : String) → Moves Keeps (load_or_store id)
  load-Keeps id = record { at = λ w. load_or_store_cases (Keeps w) id w (λ h. h) (λ _ h. h) }

  notified-IsPlain-Keeps : (n : Notification) → Moves Keeps (send env (notified_client n))
  unfolding tick
  notified-IsPlain-Keeps n = record {
    at = λ w. send_cases (Keeps w) env (notified_client n) w (λ h. h) (λ h. (tt, h));
  }

  Keeps-IsKept : IsKept env Keeps
  unfolding draw tick
  Keeps-IsKept = record {
    preorder = Keeps-order;
    query_moves = λ f. record { at = λ w. query_cases (Keeps w) env f w (λ h. h) };
    write_moves = λ result stmt. record {
      at = λ w. write_cases (Keeps w) env result stmt w (λ h. h) (λ h. h);
    };
    send_moves = plain-Keeps;
    draw_moves = λ f. record { at = λ w h. h };
    notify_moves = notify-Moves env Keeps-order notified-IsPlain-Keeps load-Keeps;
  }

  -- The activation comes where the verification has been recorded.
  complete-Keeps :
      (s : Session) (code : String) → Moves Keeps (complete_email_verification env s code)
  unfolding complete_email_verification is_verified tick
  complete-Keeps s code = record {
    at = λ w h.
        send_then (λ w'. IsVerifiedFirst w'.trace) env (verified_email s.user_id code) w _ _
          (λ x. (fail_verification-Moves Keeps-IsKept s verify_email_code x).at (tick env w) h)
          (λ x. (fail_verification-Moves Keeps-IsKept s verify_email_code x).at _ (tt, h))
          ((activate-Moves (KeepsFor-IsKept env s.user_id) s
              (send-KeepsFor env s.user_id (activated_user s.user_id) (λ _ v. v))).at
            _ (rw (eq_refl s.user_id) refl, (tt, h))).1;
  }

  Keeps-IsKeptThroughout : IsKeptThroughout env Keeps
  unfolding spawn
  Keeps-IsKeptThroughout = record {
    kept = Keeps-IsKept;
    spawn_moves = λ t. record { at = λ w h. h };
    tasks_moves = λ w ts h. h;
    complete_moves = complete-Keeps;
  }

-- Over any history, in any environment, every activation of a user comes after a verification of
-- that user's email, if so it is at the start.
pub serve_all-IsVerifiedFirst :
    (env : Env) (qs : List Event) (w : World)
    → IsVerifiedFirst w.trace
    → IsVerifiedFirst (serve_all env qs w).trace
serve_all-IsVerifiedFirst env qs w = serve_all-related (Keeps-IsKeptThroughout env) qs w
