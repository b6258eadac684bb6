-- ===== src/Kafka/RecoveryLoop/Retried.antt =====
-- internal/fx/presentation.go: the recovery subscriber is retried until the service stops.
use ofm_registration_saga_se.Prelude.{
  ℕ, suc, ◌+◌, ◌≤◌, Bool, true, false, not, ◌&&◌, none, some, List, [], ◌∷◌, ◌≡◌, refl, ap, subst,
  ◌∙◌, arith, ◌⊎◌, inl, inr,
}
use ofm_registration_saga_se.Kafka.RecoveryLoop.{
  Position, checking, subscribed, paused, ended, returned, Act, subscribes, logs, Loop, on_start,
  Step, cancel, leave, subscribe, return_, again, again_stopped, pause, wake, interrupted, Steps,
  here, next,
}

-- Whether the last thing done was to report a failure.
abbrev pub just_logged : List Act → Bool
just_logged (logs ∷ _) = true
just_logged _ = false

-- No failure is followed by another call of Subscribe before the pause is over.
abbrev pub is_paced : List Act → Bool
is_paced [] = true
is_paced (subscribes ∷ rest) = not (just_logged rest) && is_paced rest
is_paced (a ∷ rest) = is_paced rest

abbrev Fits : Position → Loop → Type 0
Fits ended l = l.stopping ≡ true
Fits paused l = Unit
Fits _ l = just_logged l.acts ≡ false

pub record IsPaced (l : Loop) : Type 0 where
  pub paced : is_paced l.acts ≡ true
  pub fits : Fits l.at l

cancelled : (p : Position) (l : Loop) → Fits p l → Fits p (record l { stopping = true })
cancelled checking l f = f
cancelled subscribed l f = f
cancelled (returned _) l f = f
cancelled paused l f = f
cancelled ended l f = refl

Step-IsPaced : {l l' : Loop} → Step l l' → IsPaced l → IsPaced l'
Step-IsPaced {l} (cancel go) h = record { paced = h.paced; fits = cancelled l.at l h.fits }
Step-IsPaced (leave f s) h = record { paced = h.paced; fits = s }
Step-IsPaced {l} (subscribe f go) h =
    let quiet = subst (λ p. Fits p l) f h.fits in
    record { paced = rw (quiet, h.paced) refl; fits = refl }
Step-IsPaced {l} (return_ e f) h = record { paced = h.paced; fits = subst (λ p. Fits p l) f h.fits }
Step-IsPaced {l} (again f) h = record { paced = h.paced; fits = subst (λ p. Fits p l) f h.fits }
Step-IsPaced {l} (again_stopped e f s) h = record {
  paced = h.paced;
  fits = subst (λ p. Fits p l) f h.fits;
}
Step-IsPaced (pause e f go) h = record { paced = h.paced; fits = tt }
Step-IsPaced (wake f) h = record { paced = h.paced; fits = refl }
Step-IsPaced (interrupted f s) h = record { paced = h.paced; fits = s }

Steps-IsPaced : {n : ℕ} {l l' : Loop} → Steps n l l' → IsPaced l → IsPaced l'
Steps-IsPaced here h = h
Steps-IsPaced (next step rest) h = Steps-IsPaced rest (Step-IsPaced step h)

abbrev pub CanSubscribe : Loop → Type 0
CanSubscribe l = (n : ℕ) × (l' : Loop) × Steps n l l' × (l'.at ≡ subscribed) × (n ≤ 3)

at-CanSubscribe :
    (l : Loop) (p : Position) → l.stopping ≡ false → l.at ≡ p → Fits p l → CanSubscribe l
at-CanSubscribe l checking go f h = (1, _, next (subscribe f go) here, refl, omega arith)
at-CanSubscribe l subscribed go f h = (0, l, here, f, omega arith)
at-CanSubscribe l (returned none) go f h =
    (2, _, next (again f) (next (subscribe refl go) here), refl, omega arith)
at-CanSubscribe l (returned (some e)) go f h = (
  3,
  _,
  next (pause e f go) (next (wake refl) (next (subscribe refl go) here)),
  refl,
  omega arith,
)
at-CanSubscribe l paused go f h =
    (2, _, next (wake f) (next (subscribe refl go) here), refl, omega arith)
at-CanSubscribe l ended go f h = cc

run-IsPaced : {n : ℕ} {l : Loop} → Steps n on_start l → IsPaced l
unfolding on_start
run-IsPaced run = Steps-IsPaced run (record { paced = refl; fits = refl })

-- In any run of the goroutine from the start of the service, no failure of Subscribe that was
-- logged is followed by another call of it before the pause is over.
recovery-is_paced : {n : ℕ} {l : Loop} → Steps n on_start l → is_paced l.acts ≡ true
recovery-is_paced run = (run-IsPaced run).paced

-- In any run of the goroutine from the start of the service, as long as the service is not
-- stopping, the goroutine can be in Subscribe, again or still, after at most three steps.
pub recovery-retries : {n : ℕ} {l : Loop} → Steps n on_start l → l.stopping ≡ false → CanSubscribe l
recovery-retries {l = l} run go = at-CanSubscribe l l.at go refl (run-IsPaced run).fits

-- What is left to do once the service is stopping: at most this many steps.
abbrev work : Position → ℕ
work ended = 0
work checking = 1
work paused = 2
work (returned _) = 2
work subscribed = 3

-- The calls of Subscribe.
abbrev pub calls : List Act → ℕ
calls [] = 0
calls (subscribes ∷ rest) = suc (calls rest)
calls (_ ∷ rest) = calls rest

abbrev pub CanStep : Loop → Type 0
CanStep l = (l' : Loop) × Step l l'

Step-work :
    {l l' : Loop}
    → Step l l'
    → l.stopping ≡ true
    → (1 + work l'.at ≤ work l.at) × (l'.stopping ≡ true) × (calls l'.acts ≡ calls l.acts)
Step-work (cancel go) s = cc
Step-work (leave f _) s = (omega (arith, ap work f), s, refl)
Step-work (subscribe f go) s = cc
Step-work (return_ e f) s = (omega (arith, ap work f), s, refl)
Step-work (again f) s = (omega (arith, ap work f), s, refl)
Step-work (again_stopped e f _) s = (omega (arith, ap work f), s, refl)
Step-work (pause e f go) s = cc
Step-work (wake f) s = (omega (arith, ap work f), s, refl)
Step-work (interrupted f _) s = (omega (arith, ap work f), s, refl)

at-CanStep : (l : Loop) (p : Position) → l.stopping ≡ true → l.at ≡ p → (l.at ≡ ended) ⊎ CanStep l
at-CanStep l checking s f = inr (_, leave f s)
at-CanStep l subscribed s f = inr (_, return_ none f)
at-CanStep l (returned none) s f = inr (_, again f)
at-CanStep l (returned (some e)) s f = inr (_, again_stopped e f s)
at-CanStep l paused s f = inr (_, interrupted f s)
at-CanStep l ended s f = inl f

ends :
    {n : ℕ} {l l' : Loop}
    → l.stopping ≡ true
    → Steps n l l'
    → (n + work l'.at ≤ work l.at) × (calls l'.acts ≡ calls l.acts) × ((l'.at ≡ ended) ⊎ CanStep l')
ends {l = l} s here = (omega arith, refl, at-CanStep l l.at s refl)
ends s (next step rest) =
    let (less, s', same) = Step-work step s in
    let (few, same', end) = ends s' rest in (omega (arith, less, few), same' ∙ same, end)

work-le : (p : Position) → work p ≤ 3
work-le ended = omega arith
work-le checking = omega arith
work-le paused = omega arith
work-le (returned _) = omega arith
work-le subscribed = omega arith

-- Once the service is stopping, the goroutine makes at most three more steps, the return of
-- Subscribe being one; it does not call Subscribe again, and it can go on until its end.
pub recovery-ends :
    {n : ℕ} {l l' : Loop}
    → l.stopping ≡ true
    → Steps n l l'
    → (n ≤ 3) × (calls l'.acts ≡ calls l.acts) × ((l'.at ≡ ended) ⊎ CanStep l')
recovery-ends {l = l} s run =
    let (few, same, end) = ends s run in (omega (arith, few, work-le l.at), same, end)
