-- ===== src/Tests/Broker.antt =====
-- The wrapped handler on a store of claims that is a list of event ids.
use ofm_registration_saga_se.Prelude.{
  ◌≤◌, String, Bool, true, false, ◌||◌, List, [], ◌∷◌, ◌==◌, eq_iff, eq_refl, ◌≡◌, refl, arith,
  if◌then◌else◌, inl, inr, Bool-cases, if_cases,
}
use ofm_registration_saga_se.Prelude.Counting.{times}
use ofm_registration_saga_se.Domain.{external}
use ofm_registration_saga_se.Exec.{Result, ok, err, ◌>>=◌, ignore, pure}
use ofm_registration_saga_se.Broker.{EventStore, MessageHandler, wrap}
use ofm_registration_saga_se.Broker.Once.{
  IsExclusive, recording, beside, deliver_all, is_granted, successes-once,
}

abbrev held : String → List String → Bool
held id [] = false
held id (x ∷ rest) = x == id || held id rest

abbrev removed : String → List String → List String
removed id [] = []
removed id (x ∷ rest) = let left = removed id rest in if x == id then left else x ∷ left

abbrev answered : Bool → String → List String → Result Bool × List String
answered b id s = if b then (ok false, s) else (ok true, id ∷ s)

abbrev claims_list : EventStore (List String)
claims_list = record {
  claim = λ id s. answered (held id s) id s;
  release = λ id s. (ok tt, removed id s);
}

claim_free :
    (id : String) (s : List String) (b : Bool) → is_granted (answered b id s).0 ≡ true → b ≡ false
claim_free id s true h = cc
claim_free id s false h = refl

claim_takes :
    (id : String) (s : List String) (b : Bool)
    → is_granted (answered b id s).0 ≡ true
    → held id (answered b id s).1 ≡ true
claim_takes id s true h = cc
claim_takes id s false h = rw (eq_refl id) refl

claim_keeps :
    (id other : String) (s : List String) (b : Bool)
    → held id s ≡ true
    → held id (answered b other s).1 ≡ true
claim_keeps id other s true h = h
claim_keeps id other s false h = ground arith

held-removed :
    (id other : String) (s : List String)
    → (other == id) ≡ false
    → held id s ≡ true
    → held id (removed other s) ≡ true
held-removed id other [] apart h = cc
held-removed id other (x ∷ rest) apart h =
    if_cases (λ left. held id left ≡ true) (x == other)
      (λ e.
        held-removed id other rest apart
          (ground (arith, eq_iff x other, eq_iff other id, eq_iff x id)))
      (λ e. elim (Bool-cases (x == id)) [
        | inl same ↦ rw same refl
        | inr differ ↦
            let kept : held id (removed other rest) ≡ true =
              held-removed id other rest apart (ground arith) in
            rw differ kept
      ])

claims_list-IsExclusive : IsExclusive claims_list held
claims_list-IsExclusive = record {
  claim_free = λ id s h. claim_free id s (held id s) h;
  claim_takes = λ id s h. claim_takes id s (held id s) h;
  claim_keeps = λ id other s h. claim_keeps id other s (held other s) h;
  release_keeps = λ id other s apart h. held-removed id other s apart h;
}

abbrev picky : MessageHandler (List String)
picky subject payload s = if payload == "bad" then (err (external "no"), s) else (ok tt, s)

picky_tidy :
    (id subject payload : String) (s : List String)
    → held id s ≡ true
    → held id (picky subject payload s).1 ≡ true
picky_tidy id subject payload s h =
    if_cases (λ (r : Result (Unit {0}) × List String). held id r.1 ≡ true) (payload == "bad")
      (λ _. h) (λ _. h)

abbrev event_of : String → String → String
event_of subject payload = subject

abbrev deliveries : List (String × String)
deliveries = ("e1", "bad") ∷ ("e1", "good") ∷ ("e2", "good") ∷ ("e1", "good") ∷ []

successes-once_example :
    times
      (λ x. x == "e1")
      (deliver_all event_of (beside claims_list) (recording event_of picky) deliveries ([], [])).1
    ≤ 1
successes-once_example =
    successes-once event_of claims_list picky held claims_list-IsExclusive picky_tidy "e1"
      deliveries []

-- The delivery after the failed one runs the handler.
deliver_all_run :
    (deliver_all event_of (beside claims_list) (recording event_of picky) deliveries ([], [])).1
    ≡ "e2" ∷ "e1" ∷ []
unfolding deliver_all wrap ◌>>=◌ ignore pure
deliver_all_run = refl
