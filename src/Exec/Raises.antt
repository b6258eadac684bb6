-- ===== src/Exec/Raises.antt =====
-- The errors that a call can return, with a rule for each way to build a call.
use ofm_registration_saga_se.Prelude.{Bool, true, false, if◌then◌else◌}
use ofm_registration_saga_se.Domain.{Error}
use ofm_registration_saga_se.Exec.{
  Result, ok, err, Exec, pure, raise, resume, handle, ◌>>=◌, ignore,
}

-- Whether an error satisfies a predicate; no error does.
abbrev pub Fails {ℓ} : {A : Type ℓ} → (Error → Type 0) → Result A → Type 0
Fails P (ok a) = Unit
Fails P (err e) = P e

-- Every error that `m` returns satisfies `P`.
pub record Raises {ℓ} {S A : Type ℓ} (P : Error → Type 0) (m : Exec S A) : Type ℓ where
  pub at : (s : S) → Fails P (m s).0

module _ {ℓ} {S A : Type ℓ} {P : Error → Type 0} where
  pub Raises-pure : (a : A) → Raises {S = S} P (pure a)
  unfolding pure
  Raises-pure a = record { at = λ s. tt }

  pub Raises-raise : (e : Error) → P e → Raises {S = S} {A = A} P (raise e)
  unfolding raise
  Raises-raise e h = record { at = λ s. h }

  pub Raises-if :
      (b : Bool) (m n : Exec S A) → Raises P m → Raises P n → Raises P (if b then m else n)
  Raises-if true m n km kn = km
  Raises-if false m n km kn = kn

module _ {ℓ} {S A B : Type ℓ} {P : Error → Type 0} where
  resume-at :
      (Q : Error → Type 0) (r : Result A) (f : Error → Exec S B) (g : A → Exec S B)
      → Fails Q r
      → ((e : Error) → Q e → Raises P (f e))
      → ((a : A) → Raises P (g a))
      → (s : S) → Fails P (resume r f g s).0
  unfolding resume
  resume-at Q (ok a) f g h kf kg s = (kg a).at s
  resume-at Q (err e) f g h kf kg s = (kf e h).at s

  pub Raises-handle :
      (Q : Error → Type 0) (m : Exec S A) (f : Error → Exec S B) (g : A → Exec S B)
      → Raises Q m
      → ((e : Error) → Q e → Raises P (f e))
      → ((a : A) → Raises P (g a))
      → Raises P (handle m f g)
  unfolding handle
  Raises-handle Q m f g km kf kg = record {
    at = λ s. resume-at Q (m s).0 f g (km.at s) kf kg (m s).1;
  }

  pub Raises-bind :
      (m : Exec S A) (g : A → Exec S B)
      → Raises P m
      → ((a : A) → Raises P (g a))
      → Raises P (m >>= g)
  unfolding ◌>>=◌
  Raises-bind m g km kg = Raises-handle P m raise g km (λ e h. Raises-raise e h) kg

  -- Where the error is not passed on, any will do.
  pub Raises-recover :
      (m : Exec S A) (f : Error → Exec S B) (g : A → Exec S B)
      → ((e : Error) → Raises P (f e))
      → ((a : A) → Raises P (g a))
      → Raises P (handle m f g)
  unfolding handle
  Raises-recover m f g kf kg = record {
    at = λ s. resume-at (λ _. Unit) (m s).0 f g (any (m s).0) (λ e _. kf e) kg (m s).1;
  }
    where
      any : (r : Result A) → Fails (λ _. Unit) r
      any (ok a) = tt
      any (err e) = tt

  pub Raises-ignore : (m : Exec S A) (k : Exec S B) → Raises P k → Raises P (ignore m k)
  unfolding ignore
  Raises-ignore m k h = Raises-recover m (λ _. k) (λ _. k) (λ _. h) (λ _. h)

pub ruleset raises_rules =
    (Raises-pure, Raises-raise, Raises-if, Raises-recover, Raises-bind, Raises-ignore)
