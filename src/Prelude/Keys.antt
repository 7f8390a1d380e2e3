-- ===== src/Prelude/Keys.antt =====
-- A unique key of a table: no two rows that the key takes for the same.
use mathlib.Core.Path.{◌≡◌, refl, ◌∙◌}
use mathlib.Core.Logic.{inl, inr}
use mathlib.Core.Bool.{Bool, true, false, ◌||◌}
use mathlib.Core.List.{List, [], ◌∷◌, ◌++◌}
use native.Mathlib.Omega.{arith}
use justmail.Prelude.Tests.{if◌then◌else◌, Bool-cases}
use justmail.Prelude.Lists.{All}
use justmail.Prelude.Table.{modify, exclude, has}

module _ {ℓ} {A : Type ℓ} where
  pub has-append : (p : A → Bool) (xs ys : List A) → has p (xs ++ ys) ≡ (has p xs || has p ys)
  has-append p [] ys = refl
  has-append p (x ∷ xs) ys = ground (arith, has-append p xs ys)

  pub has-exclude-false :
      (p q : A → Bool) (xs : List A) → has p xs ≡ false → has p (exclude q xs) ≡ false
  has-exclude-false p q [] h = refl
  has-exclude-false p q (x ∷ xs) h = ground (arith, has-exclude-false p q xs)

  -- Whether a table has a row does not depend on an update that the condition does not read.
  pub has-modify :
      (p q : A → Bool) (f : A → A) (xs : List A)
      → ((x : A) → p (f x) ≡ p x)
      → has p (modify q f xs) ≡ has p xs
  has-modify p q f [] h = refl
  has-modify p q f (x ∷ xs) h = ground (arith, h x, has-modify p q f xs h)

  has-ext : (p r : A → Bool) (xs : List A) → ((x : A) → p x ≡ r x) → has p xs ≡ has r xs
  has-ext p r [] h = refl
  has-ext p r (x ∷ xs) h = ground (arith, h x, has-ext p r xs h)

  module _ (same : A → A → Bool) where
    abbrev pub IsUnique : List A → Type 0
    IsUnique [] = Unit
    IsUnique (x ∷ xs) = (has (same x) xs ≡ false) × IsUnique xs

    -- An insert that asks for the key first.
    pub IsUnique-append :
        (xs : List A) (y : A)
        → has (λ x. same x y) xs ≡ false
        → IsUnique xs
        → IsUnique (xs ++ y ∷ [])
    IsUnique-append [] y free h = (refl, tt)
    IsUnique-append (x ∷ xs) y free (hx, h) =
        (ground (arith, has-append (same x) xs (y ∷ [])), IsUnique-append xs y (ground arith) h)

    pub IsUnique-exclude : (q : A → Bool) (xs : List A) → IsUnique xs → IsUnique (exclude q xs)
    IsUnique-exclude q [] h = tt
    IsUnique-exclude q (x ∷ xs) (hx, h) =
        ground (arith, has-exclude-false (same x) q xs hx, IsUnique-exclude q xs h)

    -- An update that leaves the columns of the key.
    pub IsUnique-modify :
        (q : A → Bool) (f : A → A) (xs : List A)
        → ((x y : A) → same (f x) y ≡ same x y)
        → ((x y : A) → same x (f y) ≡ same x y)
        → IsUnique xs
        → IsUnique (modify q f xs)
    IsUnique-modify q f [] left right h = tt
    IsUnique-modify q f (x ∷ xs) left right (hx, h) = (
      elim (Bool-cases (q x)) [
        | inl met ↦ rw met (
            has-ext (same (f x)) (same x) (modify q f xs) (left x)
            ∙ (has-modify (same x) q f xs (right x) ∙ hx))
        | inr missed ↦ rw missed (has-modify (same x) q f xs (right x) ∙ hx)
      ],
      IsUnique-modify q f xs left right h,
    )

    -- An update after which two rows are the same only where they were before.
    pub IsUnique-modify_within {κ} :
        (P : A → Type κ) (q : A → Bool) (f : A → A) (xs : List A)
        → All P xs
        → ((x y : A)
            → P x
            → P y
            → same (if q x then f x else x) (if q y then f y else y) ≡ true
            → same x y ≡ true)
        → IsUnique xs
        → IsUnique (modify q f xs)
    IsUnique-modify_within P q f [] hp step h = tt
    IsUnique-modify_within P q f (x ∷ xs) (px, hp) step (hx, h) =
        (has-modify_within xs hp hx, IsUnique-modify_within P q f xs hp step h)
      where
        has-modify_within :
            (ys : List A)
            → All P ys
            → has (same x) ys ≡ false
            → has (same (if q x then f x else x)) (modify q f ys) ≡ false
        has-modify_within [] hps hys = refl
        has-modify_within (y ∷ ys) (py, hps) hys =
            elim (Bool-cases (same (if q x then f x else x) (if q y then f y else y))) [
              | inl clash ↦ absurd (ground (arith, step x y px py clash))
              | inr apart ↦ ground (arith, apart, has-modify_within ys hps (ground arith))
            ]
