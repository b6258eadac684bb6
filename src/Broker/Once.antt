-- ===== src/Broker/Once.antt =====
-- internal/fx/messaging.go: deliveries through the wrapped handler, one after the other.
use ofm_registration_saga_se.Prelude.{
  ℕ, ◌≤◌, String, Bool, true, false, some, List, [], ◌∷◌, ◌≡◌, refl, subst, ◌==◌, eq_iff, arith,
  if◌then◌else◌, inl, inr, Bool-cases,
}
use ofm_registration_saga_se.Prelude.Counting.{times}
use ofm_registration_saga_se.Domain.{Error}
use ofm_registration_saga_se.Exec.{
  Result, ok, err, Exec, pure, raise, handle, resume, ignore, ◌>>=◌,
}
use ofm_registration_saga_se.Broker.{EventStore, MessageHandler, wrap}

abbrev is_ok {ℓ} : {A : Type ℓ} → Result A → Bool
is_ok (ok _) = true
is_ok (err _) = false

abbrev pub is_granted : Result Bool → Bool
is_granted (ok b) = b
is_granted (err _) = false

abbrev as_number : Bool → ℕ
as_number true = 1
as_number false = 0

at_most_one : (b : Bool) → as_number b ≤ 1
at_most_one true = omega arith
at_most_one false = omega arith

-- What the store of claims guarantees; `held` says which events are claimed.
pub record IsExclusive {S : Type 0} (store : EventStore S) (held : String → S → Bool) : Type 0 where
  pub claim_free :
      (id : String) (s : S) → is_granted (store.claim id s).0 ≡ true → held id s ≡ false
  pub claim_takes :
      (id : String) (s : S)
      → is_granted (store.claim id s).0 ≡ true
      → held id (store.claim id s).1 ≡ true
  pub claim_keeps :
      (id other : String) (s : S) → held id s ≡ true → held id (store.claim other s).1 ≡ true
  pub release_keeps :
      (id other : String) (s : S)
      → (other == id) ≡ false
      → held id s ≡ true
      → held id (store.release other s).1 ≡ true

-- The handler with a log of the events on which it was run with success, kept beside its state.
abbrev pub recording :
    {S : Type 0} → (String → String → String) → MessageHandler S → MessageHandler (S × List String)
recording event_id handler subject payload (s, runs) =
    let (r, s') = handler subject payload s in
    (r, (s', if is_ok r then event_id subject payload ∷ runs else runs))

-- The store of claims beside that log.
abbrev pub beside : {S : Type 0} → EventStore S → EventStore (S × List String)
beside store = record {
  claim = λ id x. (let (r, s) = store.claim id x.0 in (r, (s, x.1)));
  release = λ id x. (let (r, s) = store.release id x.0 in (r, (s, x.1)));
}

-- The deliveries of subjects and payloads to the wrapped handler, whatever it answers.
unfoldable pub deliver_all :
    {S : Type 0}
    → (String → String → String)
    → EventStore S
    → MessageHandler S
    → List (String × String)
    → S
    → S
unfolding wrap
deliver_all event_id store handler [] s = s
deliver_all event_id store handler ((subject, payload) ∷ rest) s =
    deliver_all event_id store handler rest (wrap event_id (some store) handler subject payload s).1

module _ {S : Type 0} (event_id : String → String → String) (store : EventStore S)
    (handler : MessageHandler S) (held : String → S → Bool) (laws : IsExclusive store held)
    (tidy : (id subject payload : String) (s : S)
      → held id s ≡ true
      → held id (handler subject payload s).1 ≡ true)
    (id : String) where
  -- Of the event at hand there is one run in the log at most, and none while it is not claimed.
  abbrev IsCovered : S × List String → Type 0
  IsCovered (s, runs) = times (λ x. x == id) runs ≤ as_number (held id s)

  -- The claim on the event stays.
  kept :
      (s s' : S) (runs : List String)
      → (held id s ≡ true → held id s' ≡ true)
      → IsCovered (s, runs)
      → IsCovered (s', runs)
  kept s s' runs stays h = elim (Bool-cases (held id s)) [
    | inl e ↦ rw (stays e) (ground (arith, h))
    | inr e ↦ ground (arith, h)
  ]

  module _ (subject payload : String) where
    abbrev eid : String
    eid = event_id subject payload

    abbrev give_back : Error → Exec (S × List String) (Unit {0})
    give_back e = ignore ((beside store).release eid) (raise e)

    abbrev run_if : Bool → Exec (S × List String) (Unit {0})
    run_if claimed =
        if claimed
        then handle (recording event_id handler subject payload) give_back (λ _. pure tt)
        else pure tt

    -- A release, with or without an error, of another event than the one at hand, or of one that
    -- has not been run.
    released-IsCovered :
        (e : Error) (s : S) (runs : List String)
        → ((eid == id) ≡ true → times (λ x. x == id) runs ≡ 0)
        → IsCovered (s, runs)
        → IsCovered (give_back e (s, runs)).1
    unfolding ignore handle
    released-IsCovered e s runs unrun h = answered (store.release eid s).0
      where
        fits : IsCovered ((store.release eid s).1, runs)
        fits = elim (Bool-cases (eid == id)) [
          | inl same ↦ omega (arith, unrun same)
          | inr other ↦ kept s (store.release eid s).1 runs (laws.release_keeps id eid s other) h
        ]

        answered :
            (r : Result (Unit {0}))
            → IsCovered
                (resume r
                  (λ _. raise {A = Unit {0}} e)
                  (λ _. raise e)
                  ((store.release eid s).1, runs)).1
        answered (ok _) = unfold resume raise in fits
        answered (err _) = unfold resume raise in fits

    -- The handler on an event that was free and is claimed now.
    handled-IsCovered :
        (r : Result (Unit {0})) (s : S) (runs : List String)
        → held eid s ≡ true
        → ((eid == id) ≡ true → times (λ x. x == id) runs ≡ 0)
        → IsCovered (s, runs)
        → IsCovered (resume r give_back (λ _. pure tt) (s, if is_ok r then eid ∷ runs else runs)).1
    unfolding resume pure
    handled-IsCovered (err e) s runs claimed unrun h = released-IsCovered e s runs unrun h
    handled-IsCovered (ok u) s runs claimed unrun h = elim (Bool-cases (eid == id)) [
      | inr other ↦ rw other (omega (arith, h))
      | inl same ↦
          let now : held id s ≡ true =
            subst (λ x. held x s ≡ true) ((eq_iff eid id).0 same) claimed in
          rw (same, now) (omega (arith, unrun same))
    ]

    claimed-IsCovered :
        (r : Result Bool) (s s' : S) (runs : List String)
        → (held id s ≡ true → held id s' ≡ true)
        → (is_granted r ≡ true → (held eid s ≡ false) × (held eid s' ≡ true))
        → IsCovered (s, runs)
        → IsCovered (resume r raise run_if (s', runs)).1
    unfolding resume raise pure handle
    claimed-IsCovered (err e) s s' runs stays grants h = kept s s' runs stays h
    claimed-IsCovered (ok false) s s' runs stays grants h = kept s s' runs stays h
    claimed-IsCovered (ok true) s s' runs stays grants h =
        let (free, taken) = grants refl in
        handled-IsCovered (handler subject payload s').0 (handler subject payload s').1 runs
          (tidy eid subject payload s' taken)
          (λ same.
            let unheld : held id s ≡ false =
              subst (λ x. held x s ≡ false) ((eq_iff eid id).0 same) free in
            none_yet unheld h)
          (kept s (handler subject payload s').1 runs (λ e. tidy id subject payload s' (stays e)) h)
      where
        none_yet : held id s ≡ false → IsCovered (s, runs) → times (λ x. x == id) runs ≡ 0
        none_yet e h = omega (arith, subst (λ b. times (λ x. x == id) runs ≤ as_number b) e h)

    wrap-IsCovered :
        (x : S × List String)
        → IsCovered x
        → IsCovered
            (wrap event_id (some (beside store)) (recording event_id handler) subject payload x).1
    unfolding wrap ◌>>=◌ handle
    wrap-IsCovered (s, runs) h =
        claimed-IsCovered (store.claim eid s).0 s (store.claim eid s).1 runs
          (laws.claim_keeps id eid s) (λ g. (laws.claim_free eid s g, laws.claim_takes eid s g)) h

  deliver_all-IsCovered :
      (ds : List (String × String)) (x : S × List String)
      → IsCovered x
      → IsCovered (deliver_all event_id (beside store) (recording event_id handler) ds x)
  unfolding deliver_all
  deliver_all-IsCovered [] x h = h
  deliver_all-IsCovered ((subject, payload) ∷ rest) x h =
      deliver_all-IsCovered rest _ (wrap-IsCovered subject payload x h)

  -- If the store grants an event to one claimant until it is released, and the handler leaves the
  -- claims alone, then of any sequence of deliveries to the wrapped handler, whatever is claimed at
  -- the start, at most one runs the handler of an event with success: so says a log that the
  -- handler itself writes at each of its successes.
  pub successes-once :
      (ds : List (String × String)) (s : S)
      → (let (s', runs) =
            deliver_all event_id (beside store) (recording event_id handler) ds (s, []) in
          times (λ x. x == id) runs ≤ 1)
  successes-once ds s =
      let x = deliver_all event_id (beside store) (recording event_id handler) ds (s, []) in
      omega (arith, deliver_all-IsCovered ds (s, []) (omega arith), at_most_one (held id x.0))
