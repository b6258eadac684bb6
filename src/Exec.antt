-- ===== src/Exec.antt =====
-- Go functions that return `(T, error)` and change state. What was changed before an error stays
-- changed, so the state comes back beside the error too.
pub mod Moves
pub mod Raises
use ofm_registration_saga_se.Prelude.{◌≡◌, refl}
use ofm_registration_saga_se.Domain.{Error}

pub data Result {ℓ} (A : Type ℓ) : Type ℓ where
  ok : A → Result A
  err : Error → Result A

abbrev pub Exec {ℓ} : Type ℓ → Type ℓ → Type ℓ
Exec S A = S → Result A × S

module _ {ℓ} {S A : Type ℓ} where
  -- return v, nil
  unfoldable pub pure : A → Exec S A
  pure a s = (ok a, s)

  -- return nil, err
  unfoldable pub raise : Error → Exec S A
  raise e s = (err e, s)

module _ {ℓ} {S A B : Type ℓ} where
  -- The two ways on from a call, by its error.
  unfoldable pub resume : Result A → (Error → Exec S B) → (A → Exec S B) → Exec S B
  resume (ok a) failed done s = done a s
  resume (err e) failed done s = failed e s

  -- v, err := m; if err != nil { failed }; done
  unfoldable pub handle : Exec S A → (Error → Exec S B) → (A → Exec S B) → Exec S B
  unfolding resume
  handle m failed done s = let (r, s') = m s in resume r failed done s'

  infixl 5 ◌>>=◌ ◌>>◌
  -- v, err := m; if err != nil { return err }
  unfoldable pub ◌>>=◌ : Exec S A → (A → Exec S B) → Exec S B
  unfolding handle raise
  m >>= f = handle m raise f

  -- _ = m, and calls whose error is only logged
  unfoldable pub ignore : Exec S A → Exec S B → Exec S B
  unfolding handle
  ignore m k = handle m (λ _. k) (λ _. k)

  abbrev pub ◌>>◌ : Exec S A → Exec S B → Exec S B
  m >> k = m >>= λ _. k

module _ {ℓ} {S A B : Type ℓ} where
  resume-const : (r : Result A) (b : B) (s : S) → (resume r (λ _. pure b) (λ _. pure b) s).1 ≡ s
  unfolding resume pure
  resume-const (ok a) b s = refl
  resume-const (err e) b s = refl

  pub ignore-pure : (m : Exec S A) (b : B) (s : S) → (ignore m (pure b) s).1 ≡ (m s).1
  unfolding ignore handle
  ignore-pure m b s = resume-const (m s).0 b (m s).1

  -- A sequence whose first part is known.
  pub bind-ok :
      (m : Exec S A) {s s' : S} {a : A} (f : A → Exec S B) → m s ≡ (ok a, s') → (m >>= f) s ≡ f a s'
  unfolding ◌>>=◌ handle resume
  bind-ok m f e = rw e

  pub bind-err :
      (m : Exec S A) {s s' : S} {x : Error} (f : A → Exec S B)
      → m s ≡ (err x, s')
      → (m >>= f) s ≡ (err x, s')
  unfolding ◌>>=◌ handle resume raise
  bind-err m f e = rw e
