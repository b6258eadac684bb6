-- ===== src/Guarantee/Notified.antt =====
-- publishCodeSentIfReady of internal/application/service.go: how often a client is told that its
-- code was sent.
use ofm_registration_saga_se.Prelude.{
  ℕ, ◌+◌, ◌≤◌, String, Bool, true, false, ◌&&◌, Option, none, some, List, [], ◌∷◌, ◌≡◌, refl, arith,
  ◌==◌, eq_iff, if◌then◌else◌, inl, inr, Bool-cases, subst, sym,
}
use ofm_registration_saga_se.Domain.{Session}
use ofm_registration_saga_se.Exec.{pure, ignore-pure, ◌>>=◌}
use ofm_registration_saga_se.Exec.Moves.{Moves, IsPreorder}
use ofm_registration_saga_se.World.{
  Env, World, Saga, Effect, published, notified_client, verified_email, activated_user,
  deactivated_user, deactivated_auth, Notification, RealtimeStatus, tick, send_cases, query_cases,
  write_cases, send, draw, spawn,
}
use ofm_registration_saga_se.Application.Realtime.{
  contains, load_or_store, publish_encoded, publish_registration_notification, notify_code_sent,
}
use ofm_registration_saga_se.History.{Event, serve_all}
use ofm_registration_saga_se.Guarantee.{IsPlain, IsKept, IsKeptThroughout}
use ofm_registration_saga_se.Guarantee.Progress.{complete-Moves}
use ofm_registration_saga_se.Guarantee.History.{serve_all-related}

abbrev pub as_number : Bool → ℕ
as_number true = 1
as_number false = 0

bounded : (n : ℕ) (b : Bool) → n ≤ as_number b → n ≤ 1
bounded n b h = ground arith

abbrev pub tells : String → Effect → ℕ
tells id (notified_client n) =
    as_number (n.session_id == id && n.event_type == "registration.code_sent")
tells id _ = 0

-- The code-sent notifications of a session.
unfoldable pub code_sent_count : String → List Effect → ℕ
code_sent_count id [] = 0
code_sent_count id (e ∷ rest) = tells id e + code_sent_count id rest

-- No more notifications than entries in `codeSentNotified`.
abbrev pub IsToldOnce : String → World → Type 0
IsToldOnce id w = code_sent_count id w.trace ≤ as_number (contains id w.notified)

abbrev Keeps : String → World → World → Type 0
Keeps id w w' = IsToldOnce id w → IsToldOnce id w'

module _ (id : String) where
  Keeps-order : IsPreorder (Keeps id)
  Keeps-order = record { rel_refl = λ w h. h; rel_trans = λ f g h. g (f h) }

module _ (env : Env) (id : String) where
  tick-Keeps : (w : World) → Keeps id w (tick env w)
  unfolding tick
  tick-Keeps w h = h

  plain-tells : (e : Effect) → IsPlain e → tells id e ≡ 0
  plain-tells (notified_client n) h = ground arith
  plain-tells (published _ _) h = refl
  plain-tells (verified_email _ _) h = refl
  plain-tells (activated_user _) h = elim h [ ]
  plain-tells (deactivated_user _) h = refl
  plain-tells (deactivated_auth _) h = refl

  quiet-Keeps : (e : Effect) → tells id e ≡ 0 → Moves (Keeps id) (send env e)
  unfolding code_sent_count
  quiet-Keeps e p = record {
    at =
        λ w. send_cases (Keeps id w) env e w (tick-Keeps w) (λ h. omega (arith, p, tick-Keeps w h));
  }

  send-Keeps : (e : Effect) → IsPlain e → Moves (Keeps id) (send env e)
  send-Keeps e p = quiet-Keeps e (plain-tells e p)

module _ (env : Env) (P : World → Type 0) where
  -- One notification, at most, and the rest of the world as after a call.
  encoded_cases :
      (n : Notification) (o : Option String) (w : World)
      → P w
      → P (tick env w)
      → P (record (tick env w) { trace = notified_client n ∷ (tick env w).trace })
      → P (publish_encoded env n o w).1
  unfolding publish_encoded pure
  encoded_cases n none w h0 h1 h2 = h0
  encoded_cases n (some body) w h0 h1 h2 =
      subst P (sym (ignore-pure (send env (notified_client n)) tt w))
        (send_cases P env (notified_client n) w h1 h2)

  if_cases :
      (b : Bool) (m n : Saga (Unit {0})) (w : World)
      → P (m w).1
      → P (n w).1
      → P ((if b then m else n) w).1
  if_cases true m n w hm hn = hm
  if_cases false m n w hm hn = hn

  publish_cases :
      (s : Session) (event code : String) (st : RealtimeStatus) (retry : Option Bool)
      (payload : Option String) (w : World)
      → P w
      → P (tick env w)
      → ((n : Notification)
          → n.session_id ≡ s.session_id
          → P (record (tick env w) { trace = notified_client n ∷ (tick env w).trace }))
      → P (publish_registration_notification env s event st code retry payload w).1
  unfolding publish_registration_notification pure
  publish_cases s event code st retry payload w h0 h1 h2 =
      if_cases env.has_realtime _ (pure tt) w (encoded_cases _ _ w h0 h1 (h2 _ refl)) h0

module _ (env : Env) (id : String) where
  -- A session that is not in the set has had no notification, and is put there first.
  notify-new :
      (key : String) (s : Session) (payload : Option String) (w : World)
      → s.session_id ≡ key
      → contains key w.notified ≡ false
      → IsToldOnce id w
      → IsToldOnce id
          (publish_registration_notification env s "registration.code_sent" RealtimeStatus.accepted
            "" none payload
            (record w { notified = key ∷ w.notified })).1
  unfolding code_sent_count contains tick
  notify-new key s payload w e c h =
      publish_cases env (IsToldOnce id) s _ _ _ _ payload (record w { notified = key ∷ w.notified })
        (ground arith) (ground arith) (λ n p. ground (arith, eq_iff key id, eq_iff n.session_id id))

  notify-Keeps :
      (key : String) (s : Session) (payload : Option String)
      → s.session_id ≡ key
      → Moves (Keeps id) (notify_code_sent env key s payload)
  unfolding notify_code_sent ◌>>=◌ load_or_store pure
  notify-Keeps key s payload e = record {
    at = λ w h. elim (Bool-cases (contains key w.notified)) [
      | inl known ↦ rw (known, load_or_store) h
      | inr new ↦ rw (new, load_or_store) (notify-new key s payload w e new h)
    ];
  }

  Keeps-IsKept : IsKept env (Keeps id)
  unfolding draw
  Keeps-IsKept = record {
    preorder = Keeps-order id;
    query_moves = λ f. record { at = λ w. query_cases (Keeps id w) env f w (tick-Keeps env id w) };
    write_moves = λ result stmt. record {
      at = λ w.
          write_cases (Keeps id w) env result stmt w (tick-Keeps env id w) (tick-Keeps env id w);
    };
    send_moves = send-Keeps env id;
    draw_moves = λ f. record { at = λ w h. h };
    notify_moves = notify-Keeps;
  }

  Keeps-IsKeptThroughout : IsKeptThroughout env (Keeps id)
  unfolding spawn
  Keeps-IsKeptThroughout = record {
    kept = Keeps-IsKept;
    spawn_moves = λ t. record { at = λ w h. h };
    tasks_moves = λ w ts h. h;
    complete_moves = λ s code.
        complete-Moves Keeps-IsKept s code (quiet-Keeps env id (activated_user s.user_id) refl);
  }

-- If a session's code-sent notifications are at most one where it is among those told, and none
-- where it is not, then over any history, in any environment, that stays so: the client of a session
-- is told at most once that the code was sent.
pub serve_all-IsToldOnce :
    (env : Env) (qs : List Event) (w : World) (id : String)
    → IsToldOnce id w
    → IsToldOnce id (serve_all env qs w) × (code_sent_count id (serve_all env qs w).trace ≤ 1)
serve_all-IsToldOnce env qs w id h =
    let kept : IsToldOnce id (serve_all env qs w) =
      serve_all-related (Keeps-IsKeptThroughout env id) qs w h in
    (kept, bounded _ _ kept)
