-- ===== src/Prelude/Regex.antt =====
-- The regular expressions that the program tests texts with: a matcher that yields what is left
-- behind each match, the preferred one first, as JavaScript backtracks, and its meaning.
use Prim.Native.Nat.{ℕ}
use mathlib.Core.Path.{◌≡◌, refl, subst}
use mathlib.Core.Logic.{inl, inr}
use mathlib.Core.Bool.{Bool, true, false}
use mathlib.Core.List.{List, [], ◌∷◌, ◌++◌}
use native.Mathlib.Omega.{arith}
use justmail.Prelude.Tests.{if◌then◌else◌, Bool-cases, ◌==◌}
use justmail.Prelude.Lists.{Text, IsIn}
use justmail.Prelude.Texts.{lower}

pub data Re : Type 0 where
  nothing : Re
  unit : (ℕ → Bool) → Re
  many : (ℕ → Bool) → Re
  followed : Re → Re → Re
  either : Re → Re → Re

-- The letters of a literal under the flag `i`.
abbrev pub literal : Text → Re
literal [] = nothing
literal (c ∷ s) = followed (unit (λ d. lower d == lower c)) (literal s)

abbrev pub run_many : (ℕ → Bool) → Text → List Text
run_many p [] = [] ∷ []
run_many p (c ∷ s) = let more = run_many p s in if p c then more ++ (c ∷ s) ∷ [] else (c ∷ s) ∷ []

abbrev pub run_unit : (ℕ → Bool) → Text → List Text
run_unit p [] = []
run_unit p (c ∷ s) = if p c then s ∷ [] else []

abbrev pub each : (Text → List Text) → List Text → List Text
each f [] = []
each f (s ∷ rest) = f s ++ each f rest

unfoldable pub match : Re → Text → List Text
match nothing s = s ∷ []
match (unit p) s = run_unit p s
match (many p) s = run_many p s
match (followed a b) s = each (match b) (match a s)
match (either a b) s = match a s ++ match b s

abbrev pub is_empty : List Text → Bool
is_empty [] = true
is_empty (s ∷ rest) = false

-- `re.test(s)`: a match at some place.
unfoldable pub test : Re → Text → Bool
test re [] = if is_empty (match re []) then false else true
test re (c ∷ s) = let later = test re s in if is_empty (match re (c ∷ s)) then later else true

-- The meaning: `Matches re s rest` where a beginning of `s`, up to `rest`, belongs to `re`.
pub data Matches : Re → Text → Text → Type 0 where
  at_once : {s : Text} → Matches nothing s s
  one : {p : ℕ → Bool} {c : ℕ} {s : Text} → p c ≡ true → Matches (unit p) (c ∷ s) s
  enough : {p : ℕ → Bool} {s : Text} → Matches (many p) s s
  more :
      {p : ℕ → Bool} {c : ℕ} {s rest : Text}
      → p c ≡ true
      → Matches (many p) s rest
      → Matches (many p) (c ∷ s) rest
  both :
      {a b : Re} {s mid rest : Text}
      → Matches a s mid
      → Matches b mid rest
      → Matches (followed a b) s rest
  left : {a b : Re} {s rest : Text} → Matches a s rest → Matches (either a b) s rest
  right : {a b : Re} {s rest : Text} → Matches b s rest → Matches (either a b) s rest

IsIn-left : (x : Text) (xs ys : List Text) → IsIn x xs → IsIn x (xs ++ ys)
IsIn-left x [] ys h = absurd h
IsIn-left x (y ∷ xs) ys (inl e) = inl e
IsIn-left x (y ∷ xs) ys (inr h) = inr (IsIn-left x xs ys h)

IsIn-right : (x : Text) (xs ys : List Text) → IsIn x ys → IsIn x (xs ++ ys)
IsIn-right x [] ys h = h
IsIn-right x (y ∷ xs) ys h = inr (IsIn-right x xs ys h)

IsIn-each :
    (f : Text → List Text) (mid rest : Text) (mids : List Text)
    → IsIn mid mids
    → IsIn rest (f mid)
    → IsIn rest (each f mids)
IsIn-each f mid rest [] h k = absurd h
IsIn-each f mid rest (m ∷ mids) (inl e) k =
    IsIn-left rest (f m) (each f mids) (subst (λ x. IsIn rest (f x)) e k)
IsIn-each f mid rest (m ∷ mids) (inr h) k =
    IsIn-right rest (f m) (each f mids) (IsIn-each f mid rest mids h k)

-- Every way to match is tried.
pub Matches-match : (re : Re) (s rest : Text) → Matches re s rest → IsIn rest (match re s)
unfolding match
Matches-match re s rest at_once = inl refl
Matches-match re (c ∷ s) rest (one {p} h) = rw h (inl refl)
Matches-match re [] rest enough = inl refl
Matches-match re (c ∷ s) rest (enough {p}) = elim (Bool-cases (p c)) [
  | inl met ↦ rw met (IsIn-right (c ∷ s) (run_many p s) ((c ∷ s) ∷ []) (inl refl))
  | inr missed ↦ rw missed (inl refl)
]
Matches-match re (c ∷ s) rest (more {p} h m) =
    rw h (IsIn-left rest (run_many p s) ((c ∷ s) ∷ []) (Matches-match (many p) s rest m))
Matches-match re s rest (both {a} {b} {mid} m n) =
    IsIn-each (match b) mid rest (match a s) (Matches-match a s mid m) (Matches-match b mid rest n)
Matches-match re s rest (left {a} {b} m) =
    IsIn-left rest (match a s) (match b s) (Matches-match a s rest m)
Matches-match re s rest (right {a} {b} m) =
    IsIn-right rest (match a s) (match b s) (Matches-match b s rest m)

not_empty : (x : Text) (xs : List Text) → IsIn x xs → is_empty xs ≡ false
not_empty x [] h = absurd h
not_empty x (y ∷ xs) h = refl

-- A text that fails the test has a match nowhere.
pub test_misses :
    (re : Re) (before s rest : Text) → test re (before ++ s) ≡ false → Matches re s rest → ⊥
unfolding test
test_misses re [] [] rest h m =
    absurd (ground (arith, not_empty rest (match re []) (Matches-match re [] rest m)))
test_misses re [] (c ∷ s) rest h m =
    absurd (ground (arith, not_empty rest (match re (c ∷ s)) (Matches-match re (c ∷ s) rest m)))
test_misses re (c ∷ before) s rest h m = test_misses re before s rest (ground arith) m
