-- ===== src/Wiring/Released.antt =====
-- internal/fx: what is opened is closed, at once or by a hook.
use ofm_registration_saga_se.Prelude.{
  ℕ, ◌+◌, String, Bool, true, false, not, ◌&&◌, ◌||◌, Option, none, some, List, [], ◌∷◌, ◌≡◌, refl,
  arith, inl, inr, Bool-cases,
}
use ofm_registration_saga_se.Domain.{Error}
use ofm_registration_saga_se.Exec.{Result, ok, err, Exec, pure, raise, handle, resume, ◌>>=◌, ◌>>◌}
use ofm_registration_saga_se.Kafka.Wiring.{Broker, new_broker}
use ofm_registration_saga_se.Wiring.{
  DbConfig, Texts, Resource, migrations, pool, tracer, broker, auth_client, user_client,
  same_resource, Call, opened, closed, registered_driver, migrated, Process, Library, record_call,
  unless_failed, call, append_hook, deferred, apply_migrations, migrate_from, run_migrations,
  open_pool, provide_postgres_db, provide_client, provide_auth_availability_checker,
  provide_user_availability_checker, hold_broker, provide_event_broker, install_tracing,
  Constructor, postgres_db, event_broker, auth_checker, user_checker, tracing, construct,
  construct_all, migrations_source, migrations_address, address,
}

abbrev as_number : Bool → ℕ
as_number true = 1
as_number false = 0

-- How often a resource was opened, and closed, and how many hooks close it.
abbrev pub openings : Resource → List Call → ℕ
openings r [] = 0
openings r (opened x _ ∷ rest) = as_number (same_resource r x) + openings r rest
openings r (_ ∷ rest) = openings r rest

abbrev pub closings : Resource → List Call → ℕ
closings r [] = 0
closings r (closed x ∷ rest) = as_number (same_resource r x) + closings r rest
closings r (_ ∷ rest) = closings r rest

abbrev pub hooks : Resource → List Resource → ℕ
hooks r [] = 0
hooks r (x ∷ rest) = as_number (same_resource r x) + hooks r rest

-- Every pool is opened after the migrations have been applied.
abbrev pub has_migrated : List Call → Bool
has_migrated [] = false
has_migrated (migrated ∷ rest) = true
has_migrated (_ ∷ rest) = has_migrated rest

abbrev pub is_ordered : List Call → Bool
is_ordered [] = true
is_ordered (opened r _ ∷ rest) =
    (not (same_resource r pool) || has_migrated rest) && is_ordered rest
is_ordered (_ ∷ rest) = is_ordered rest

pub record IsBalanced (p : Process) : Type 0 where
  pub released : (r : Resource) → openings r p.log ≡ closings r p.log + hooks r p.on_stop
  pub ordered : is_ordered p.log ≡ true

abbrev logged : Call → Process → Process
logged c p = record p { log = c ∷ p.log }

abbrev hooked : Resource → Process → Process
hooked r p = record p { on_stop = r ∷ p.on_stop }

opened-hooked :
    (x : Resource) (target : List String) (p : Process)
    → same_resource x pool ≡ false
    → IsBalanced p
    → IsBalanced (hooked x (logged (opened x target) p))
opened-hooked x target p other h = record {
  released = λ r. omega (arith, h.released r);
  ordered = rw (other, h.ordered) refl;
}

module _ (lib : Library) where
  -- A call that fails leaves all as it was.
  after-call :
      (P : Result (Unit {0}) × Process → Type 0) (c : Call) (k : Exec Process (Unit {0}))
      (p : Process)
      → ((e : Error) → P (err e, p))
      → P (k (logged c p))
      → P ((call lib c >> k) p)
  unfolding call record_call ◌>>=◌ handle resume raise unless_failed
  after-call P c k p failed done = by_error (lib.fails c)
    where
      by_error : (o : Option Error) → P ((unless_failed lib o (record_call lib c) >> k) p)
      by_error none = done
      by_error (some e) = failed e

  client-IsBalanced :
      (x : Resource) (target : String) (p : Process)
      → same_resource x pool ≡ false
      → IsBalanced p
      → IsBalanced (provide_client lib x target p).1
  unfolding provide_client append_hook
  client-IsBalanced x target p other h =
      after-call (λ y. IsBalanced y.1) (opened x (target ∷ [])) (append_hook lib x) p (λ e. h)
        (opened-hooked x (target ∷ []) p other h)

  broker-IsBalanced :
      (b : Result Broker) (p : Process) → IsBalanced p → IsBalanced (hold_broker lib b p).1
  unfolding hold_broker record_call append_hook ◌>>=◌ handle resume raise
  broker-IsBalanced (err e) p h = h
  broker-IsBalanced (ok b) p h = opened-hooked broker b.brokers p refl h

  tracing-IsBalanced :
      (configured : Bool) (p : Process)
      → IsBalanced p
      → IsBalanced (install_tracing lib configured p).1
  unfolding install_tracing call unless_failed record_call append_hook handle resume pure raise
  tracing-IsBalanced false p h = h
  tracing-IsBalanced true p h = by_error (lib.fails (opened tracer []))
    where
      by_error :
          (o : Option Error)
          → IsBalanced
              (handle
                (unless_failed lib o (record_call lib (opened tracer [])))
                (λ _. pure tt)
                (λ _. append_hook lib tracer)
                p).1
      by_error none = opened-hooked tracer [] p refl h
      by_error (some e) = h

  -- All is balanced, and what did not fail has applied the migrations.
  abbrev Readies : Result (Unit {0}) × Process → Type 0
  Readies x = IsBalanced x.1 × (x.0 ≡ ok tt → has_migrated x.1.log ≡ true)

  -- The migrations are closed whatever comes of Up.
  applied-Readies :
      (source : List String) (o : Option Error) (p : Process)
      → IsBalanced p
      → Readies
          (deferred lib migrations (apply_migrations lib o) (logged (opened migrations source) p))
  unfolding deferred apply_migrations record_call raise
  applied-Readies source none p h =
      (record { released = λ r. omega (arith, h.released r); ordered = h.ordered }, λ _. refl)
  applied-Readies source (some e) p h = elim (Bool-cases (lib.no_change e)) [
    | inl same ↦
        rw same
          (record { released = λ r. omega (arith, h.released r); ordered = h.ordered }, λ _. refl)
    | inr other ↦
        rw other
          (record { released = λ r. omega (arith, h.released r); ordered = h.ordered }, λ g. cc)
  ]

  module _ (t : Texts) (c : DbConfig) where
    migrated-Readies :
        (source : Result String) (p : Process)
        → IsBalanced p
        → Readies (migrate_from lib t c source p)
    unfolding migrate_from raise
    migrated-Readies (err e) p h = (h, λ g. cc)
    migrated-Readies (ok source) p h =
        after-call Readies (opened migrations (source ∷ migrations_address t c ∷ [])) _ p
          (λ e. (h, λ g. cc))
          (applied-Readies (source ∷ migrations_address t c ∷ []) (lib.fails migrated) p h)

    pool-IsBalanced :
        (p : Process)
        → IsBalanced p
        → has_migrated p.log ≡ true
        → IsBalanced ((open_pool lib t c >> append_hook lib pool) p).1
    unfolding open_pool call append_hook record_call unless_failed ◌>>=◌ handle resume raise
    pool-IsBalanced p h m =
        by_errors (lib.fails registered_driver) (lib.fails (opened pool (address t c ∷ [])))
      where
        by_errors :
            (o o' : Option Error)
            → IsBalanced
                (((unless_failed lib o (record_call lib registered_driver)
                      >> unless_failed lib o' (record_call lib (opened pool (address t c ∷ []))))
                    >> append_hook lib pool)
                  p).1
        by_errors (some e) o' = h
        by_errors none (some e) = record { released = h.released; ordered = h.ordered }
        by_errors none none = record {
          released = λ r. omega (arith, h.released r);
          ordered = rw (m, h.ordered) refl;
        }

    postgres-IsBalanced :
        (p : Process) → IsBalanced p → IsBalanced (provide_postgres_db lib t c p).1
    unfolding provide_postgres_db run_migrations ◌>>=◌ handle
    postgres-IsBalanced p h =
        by_result (migrate_from lib t c (migrations_source t c.migrations_path) p)
          (migrated-Readies (migrations_source t c.migrations_path) p h)
      where
        by_result :
            (x : Result (Unit {0}) × Process)
            → Readies x
            → IsBalanced (resume x.0 raise (λ _. open_pool lib t c >> append_hook lib pool) x.1).1
        by_result (err e, p') g = unfold resume raise in g.0
        by_result (ok u, p') g = unfold resume in pool-IsBalanced p' g.0 (g.1 refl)

module _ (lib : Library) (t : Texts) where
  construct-IsBalanced :
      (c : Constructor) (p : Process) → IsBalanced p → IsBalanced (construct lib t c p).1
  unfolding construct provide_event_broker provide_auth_availability_checker
      provide_user_availability_checker
  construct-IsBalanced (postgres_db c) p h = postgres-IsBalanced lib t c p h
  construct-IsBalanced (event_broker cfg) p h = broker-IsBalanced lib (new_broker cfg) p h
  construct-IsBalanced (auth_checker target) p h = client-IsBalanced lib auth_client target p refl h
  construct-IsBalanced (user_checker target) p h = client-IsBalanced lib user_client target p refl h
  construct-IsBalanced (tracing configured) p h = tracing-IsBalanced lib configured p h

  all-IsBalanced :
      (cs : List Constructor) (p : Process) → IsBalanced p → IsBalanced (construct_all lib t cs p).1
  unfolding construct_all pure ◌>>=◌ handle
  all-IsBalanced [] p h = h
  all-IsBalanced (c ∷ rest) p h =
      by_result (construct lib t c p) (construct-IsBalanced c p h)
        (λ p' g. all-IsBalanced rest p' g)
    where
      by_result :
          (x : Result (Unit {0}) × Process)
          → IsBalanced x.1
          → ((p' : Process) → IsBalanced p' → IsBalanced (construct_all lib t rest p').1)
          → IsBalanced (resume x.0 raise (λ _. construct_all lib t rest) x.1).1
      by_result (err e, p') g later = unfold resume raise in g
      by_result (ok u, p') g later = unfold resume in later p' g

  -- Whatever constructors run, in any order, however their calls end, up to the first that fails:
  -- each resource was opened as often as it was closed and is to be closed by a hook, and no pool
  -- was opened before migrations were applied.
  pub constructed-IsBalanced :
      (cs : List Constructor)
      → IsBalanced (construct_all lib t cs (record { log = []; on_stop = [] })).1
  constructed-IsBalanced cs =
      all-IsBalanced cs (record { log = []; on_stop = [] })
        (record { released = λ r. refl; ordered = refl })
