-- ===== src/Exec/Moves.antt =====
-- A relation between the states before and after a call, with a rule for each way to build a call.
use ofm_registration_saga_se.Prelude.{Bool, true, false, ◌≡◌, refl, if◌then◌else◌}
use ofm_registration_saga_se.Domain.{Error}
use ofm_registration_saga_se.Exec.{
  Result, ok, err, Exec, pure, raise, resume, handle, ◌>>=◌, ignore,
}

-- However `m` ends, it takes the state along `R`.
pub record Moves {ℓ} {S A : Type ℓ} (R : S → S → Type ℓ) (m : Exec S A) : Type ℓ where
  pub at : (s : S) → R s (m s).1

pub record IsPreorder {ℓ} {S : Type ℓ} (R : S → S → Type ℓ) : Type ℓ where
  pub rel_refl : (s : S) → R s s
  pub rel_trans : {s t u : S} → R s t → R t u → R s u

module _ {ℓ} {S A : Type ℓ} {R : S → S → Type ℓ} where
  pub Moves-pure : IsPreorder R → (a : A) → Moves R (pure a)
  unfolding pure
  Moves-pure p a = record { at = p.rel_refl }

  pub Moves-raise : IsPreorder R → (e : Error) → Moves R (raise {A = A} e)
  unfolding raise
  Moves-raise p e = record { at = p.rel_refl }

  pub Moves-if : (b : Bool) (m n : Exec S A) → Moves R m → Moves R n → Moves R (if b then m else n)
  Moves-if true m n km kn = km
  Moves-if false m n km kn = kn

module _ {ℓ} {S A B : Type ℓ} {R : S → S → Type ℓ} where
  resume-at :
      (r : Result A) (f : Error → Exec S B) (g : A → Exec S B)
      → ((e : Error) → Moves R (f e))
      → ((a : A) → Moves R (g a))
      → (s : S) → R s (resume r f g s).1
  unfolding resume
  resume-at (ok a) f g kf kg s = (kg a).at s
  resume-at (err e) f g kf kg s = (kf e).at s

  pub Moves-handle :
      IsPreorder R
      → (m : Exec S A) (f : Error → Exec S B) (g : A → Exec S B) → Moves R m
      → ((e : Error) → Moves R (f e))
      → ((a : A) → Moves R (g a))
      → Moves R (handle m f g)
  unfolding handle
  Moves-handle p m f g km kf kg = record {
    at = λ s. p.rel_trans (km.at s) (resume-at (m s).0 f g kf kg (m s).1);
  }

  pub Moves-bind :
      IsPreorder R
      → (m : Exec S A) (g : A → Exec S B) → Moves R m
      → ((a : A) → Moves R (g a))
      → Moves R (m >>= g)
  unfolding ◌>>=◌
  Moves-bind p m g km kg = Moves-handle p m raise g km (λ e. Moves-raise p e) kg

  -- The rest of the call may use what the first part can return.
  pub Moves-bind-result :
      IsPreorder R
      → (m : Exec S A) (g : A → Exec S B) → Moves R m
      → ((s : S) (a : A) → (m s).0 ≡ ok a → Moves R (g a))
      → Moves R (m >>= g)
  unfolding ◌>>=◌ handle raise
  Moves-bind-result p m g km kg = record {
    at = λ s. p.rel_trans (km.at s) (after (m s).0 (m s).1 (kg s));
  }
    where
      after :
          (r : Result A) (t : S) → ((a : A) → r ≡ ok a → Moves R (g a)) → R t (resume r raise g t).1
      after (ok a) t h = unfold resume in (h a refl).at t
      after (err e) t h = unfold resume in p.rel_refl t

  pub Moves-ignore :
      IsPreorder R → (m : Exec S A) (k : Exec S B) → Moves R m → Moves R k → Moves R (ignore m k)
  unfolding ignore
  Moves-ignore p m k km kk = Moves-handle p m (λ _. k) (λ _. k) km (λ _. kk) (λ _. kk)

pub ruleset moves_rules =
    (Moves-pure, Moves-raise, Moves-if, Moves-handle, Moves-bind, Moves-ignore)
