-- ===== src/Prelude/Counting.antt =====
-- How many elements a list has, how many of them pass a test, and sums of weights.
use ofm_registration_saga_se.Prelude.Outcome.{if◌then◌else◌}
use Prim.Native.Nat.{ℕ, suc, ◌+◌}
use mathlib.Core.Path.{◌≡◌, refl, ap, ◌∙◌}
use mathlib.Core.Bool.{Bool}
use mathlib.Core.List.{List, [], ◌∷◌, ◌++◌}
use native.Mathlib.Omega.{arith}

module _ {ℓ} {A : Type ℓ} where
  abbrev pub count : List A → ℕ
  count [] = 0
  count (x ∷ rest) = suc (count rest)

  -- The sum of the weights of the elements.
  abbrev pub total : (A → ℕ) → List A → ℕ
  total weight [] = 0
  total weight (x ∷ rest) = weight x + total weight rest

  abbrev pub times : (A → Bool) → List A → ℕ
  times test = total (λ x. if test x then 1 else 0)

  pub total-++ :
      (weight : A → ℕ) (xs ys : List A)
      → total weight (xs ++ ys) ≡ total weight xs + total weight ys
  total-++ weight [] ys = omega arith
  total-++ weight (x ∷ xs) ys = omega (arith, total-++ weight xs ys)

  pub total-const : (xs : List A) → total (λ _. 1) xs ≡ count xs
  total-const [] = refl
  total-const (x ∷ xs) = omega (arith, total-const xs)

  pub count-++ : (xs ys : List A) → count (xs ++ ys) ≡ count xs + count ys
  count-++ [] ys = omega arith
  count-++ (x ∷ xs) ys = omega (arith, count-++ xs ys)

  -- A list of which one element is known.
  pub total-at :
      (weight : A → ℕ) (before after : List A) (x : A) {xs : List A}
      → xs ≡ before ++ (x ∷ after)
      → total weight xs ≡ total weight before + (weight x + total weight after)
  total-at weight before after x e = ap (total weight) e ∙ total-++ weight before (x ∷ after)

  pub count-at :
      (before after : List A) (x : A) {xs : List A}
      → xs ≡ before ++ (x ∷ after)
      → count xs ≡ count before + suc (count after)
  count-at before after x e = ap count e ∙ count-++ before (x ∷ after)
