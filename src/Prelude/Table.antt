-- ===== src/Prelude/Table.antt =====
-- A database table as the list of its rows, and the statements that the services send.
use Prim.Native.Nat.{ℕ, suc, ◌+◌}
use mathlib.Core.Path.{◌≡◌, refl}
use mathlib.Core.Bool.{Bool, true, false, ◌||◌}
use mathlib.Core.List.{List, [], ◌∷◌, ◌++◌}
use mathlib.Core.Option.{Option, none, some}
use native.Mathlib.Omega.{arith}
use justmail.Prelude.Tests.{if◌then◌else◌, Bool-cases}
use mathlib.Core.Logic.{inl, inr}
use justmail.Prelude.Lists.{All, All-append}

module _ {ℓ} {A : Type ℓ} where
  -- SELECT … WHERE p
  abbrev pub select : (A → Bool) → List A → List A
  select p [] = []
  select p (x ∷ xs) = if p x then x ∷ select p xs else select p xs

  -- DELETE … WHERE p leaves these rows.
  abbrev pub exclude : (A → Bool) → List A → List A
  exclude p [] = []
  exclude p (x ∷ xs) = if p x then exclude p xs else x ∷ exclude p xs

  -- UPDATE … SET f WHERE p
  abbrev pub modify : (A → Bool) → (A → A) → List A → List A
  modify p f [] = []
  modify p f (x ∷ xs) = (if p x then f x else x) ∷ modify p f xs

  -- `rows[0]` of a SELECT.
  abbrev pub first? : (A → Bool) → List A → Option A
  first? p [] = none
  first? p (x ∷ xs) = if p x then some x else first? p xs

  -- Whether a statement touches any row: `rowCount` is not 0.
  abbrev pub has : (A → Bool) → List A → Bool
  has p [] = false
  has p (x ∷ xs) = p x || has p xs

  -- `SELECT count(*) … WHERE p`
  abbrev pub count : (A → Bool) → List A → ℕ
  count p [] = 0
  count p (x ∷ xs) = if p x then suc (count p xs) else count p xs

  pub count-append : (p : A → Bool) (xs ys : List A) → count p (xs ++ ys) ≡ count p xs + count p ys
  count-append p [] ys = omega arith
  count-append p (x ∷ xs) ys = ground (arith, count-append p xs ys)

  pub All-modify {κ} :
      {P : A → Type κ} (p : A → Bool) (f : A → A) (xs : List A)
      → ((x : A) → P x → P (f x))
      → All P xs
      → All P (modify p f xs)
  All-modify p f [] keep h = tt
  All-modify p f (x ∷ xs) keep (px, h) = ground (arith, keep x, All-modify p f xs keep h)

  pub has-exclude : (p : A → Bool) (xs : List A) → has p (exclude p xs) ≡ false
  has-exclude p [] = refl
  has-exclude p (x ∷ xs) = ground (arith, has-exclude p xs)

  -- The rows of a SELECT are those of the table that meet its condition.
  pub select_lem {κ} :
      (P : A → Type κ) (p : A → Bool) (xs : List A)
      → ((x : A) → p x ≡ true → P x)
      → All P (select p xs)
  select_lem P p [] h = tt
  select_lem P p (x ∷ xs) h = ground (arith, h x, select_lem P p xs h)

  -- ORDER BY created_at DESC, of rows in the order of insertion.
  abbrev pub newest : List A → List A
  newest [] = []
  newest (x ∷ xs) = newest xs ++ x ∷ []

  pub newest-All {κ} : (P : A → Type κ) (xs : List A) → All P xs → All P (newest xs)
  newest-All P [] h = tt
  newest-All P (x ∷ xs) (p, h) = All-append P (newest xs) (x ∷ []) (newest-All P xs h) (p, tt)

  -- The row found meets the condition.
  pub first?-eq-some : (p : A → Bool) (xs : List A) (x : A) → first? p xs ≡ some x → p x ≡ true
  first?-eq-some p [] x h = absurd (ground arith)
  first?-eq-some p (y ∷ ys) x h = elim (Bool-cases (p y)) [
    | inl met ↦ ground (arith, met)
    | inr missed ↦ ground (arith, missed, first?-eq-some p ys x)
  ]

  -- A row found is a row of the table.
  pub has-first? :
      (p q : A → Bool) (xs : List A) (x : A) → first? p xs ≡ some x → q x ≡ true → has q xs ≡ true
  has-first? p q [] x h met = absurd (ground arith)
  has-first? p q (y ∷ ys) x h met = elim (Bool-cases (p y)) [
    | inl here ↦ ground (arith, here)
    | inr missed ↦ ground (arith, missed, has-first? p q ys x)
  ]
