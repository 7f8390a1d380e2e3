-- ===== src/Prelude/Outcome.antt =====
-- What a request handler answers: a value, or the HTTP problem that it throws.
use Prim.Native.String.{String}
use mathlib.Core.Path.{◌≡◌, refl}
use mathlib.Core.Logic.{◌⊎◌, inl, inr}
use mathlib.Core.Bool.{Bool, true, false}

-- The exceptions of NestJS that the services throw, with their title.
pub data Problem : Type 0 where
  bad_request unauthorized forbidden not_found conflict bad_gateway : String → Problem
  -- An exception that no handler turns into an answer of its own.
  server_error : String → Problem

pub data Result {ℓ} (A : Type ℓ) : Type ℓ where
  ok : A → Result A
  err : Problem → Result A

module _ {ℓ κ} {A : Type ℓ} {B : Type κ} where
  infixl 5 ◌>>=◌ ◌>>◌
  -- What follows a call that may throw.
  abbrev pub ◌>>=◌ : Result A → (A → Result B) → Result B
  err problem >>= next = err problem
  ok answer >>= next = next answer

  -- The same, where the answer is not used.
  abbrev pub ◌>>◌ : Result A → Result B → Result B
  first >> second = first >>= λ _. second

-- `if (test) throw problem`
abbrev pub throw_if : Bool → Problem → Result (Unit {0})
throw_if true e = err e
throw_if false e = ok tt

module _ {ℓ κ} {A : Type ℓ} {B : Type κ} where
  -- Inversion of a chain that succeeded.
  pub >>=-eq-ok :
      {last : B} (call : Result A) (next : A → Result B)
      → (call >>= next) ≡ ok last
      → (first : A) × (next first ≡ ok last) × (call ≡ ok first)
  >>=-eq-ok (err problem) next h = cc
  >>=-eq-ok (ok first) next h = (first, h, refl)

pub throw_if-eq-ok : (b : Bool) (e : Problem) {u : Unit {0}} → throw_if b e ≡ ok u → b ≡ false
throw_if-eq-ok true e h = cc
throw_if-eq-ok false e h = refl

pub Result-cases {ℓ} :
    {A : Type ℓ} (r : Result A) → ((a : A) × (r ≡ ok a)) ⊎ ((e : Problem) × (r ≡ err e))
Result-cases (ok a) = inl (a, refl)
Result-cases (err e) = inr (e, refl)
