-- ===== src/Sieve/Requires.antt =====
-- The `require` list of apps/api/src/webmail/sieve-compile.ts against the commands of the script.
use justmail.Prelude.{
  ◌≡◌, Bool, false, ◌&&◌, ◌||◌, List, [], ◌∷◌, ◌++◌, map, Text, codes, arith, refl, text_eq,
  text_eq_iff, Bool-cases, ap, ◌∙◌, sym, inl, inr,
}
use justmail.Prelude.Table.{has, select}
use justmail.Sieve.{
  Field, from, to, cc_field, subject, any, Op, contains, is, matches, Condition, ActionType,
  fileinto, keep, discard, seen, flag, redirect, stop, Action, Match, all_of, any_of, Rule,
  kind_requires, arg_of, member_of, requires_of, present, require_order, collect_requires, op_test,
  match_word,
}
use justmail.Sieve.Lexer.{Token, word, str, mark}
use justmail.Sieve.Tokens.{
  joined, header_tokens, condition_tokens, kind_tokens, action_tokens, test_tokens, body_tokens,
  guarded_tokens, rule_tokens,
}

-- Whether a token is a command or a tag of an extension: `fileinto` of RFC 5228, `:create` of RFC
-- 5490, `addflag` of RFC 5232.
abbrev pub uses : Text → Token → Bool
uses e (word w) =
    text_eq w (codes "fileinto") && text_eq (codes "fileinto") e
    || text_eq w (codes ":create") && text_eq (codes "mailbox") e
    || text_eq w (codes "addflag") && text_eq (codes "imap4flags") e
uses e _ = false

has-append : (p : Token → Bool) (xs ys : List Token) → has p (xs ++ ys) ≡ (has p xs || has p ys)
has-append p [] ys = refl
has-append p (x ∷ xs) ys = ground (arith, has-append p xs ys)

member_of-append :
    (e : Text) (xs ys : List Text) → member_of e (xs ++ ys) ≡ (member_of e xs || member_of e ys)
member_of-append e [] ys = refl
member_of-append e (x ∷ xs) ys = ground (arith, member_of-append e xs ys)

uses-kind :
    (e : Text) (k : ActionType) (arg : Text)
    → has (uses e) (kind_tokens k arg) ≡ member_of e (kind_requires k)
unfolding text_eq
uses-kind e fileinto arg = ground arith
uses-kind e keep arg = refl
uses-kind e discard arg = refl
uses-kind e seen arg = refl
uses-kind e flag arg = refl
uses-kind e redirect arg = refl
uses-kind e stop arg = refl

uses-header :
    (e : Text) (f : Field) (v : Text) → has (uses e) (header_tokens f ++ str v ∷ []) ≡ false
uses-header e from v = refl
uses-header e to v = refl
uses-header e cc_field v = refl
uses-header e subject v = refl
uses-header e any v = refl

uses-op :
    (e : Text) (op : Op) → (uses e (word (codes "header")) || uses e (word (op_test op))) ≡ false
unfolding text_eq
uses-op e contains = refl
uses-op e is = refl
uses-op e matches = refl

uses-condition : (e : Text) (c : Condition) → has (uses e) (condition_tokens c) ≡ false
uses-condition e c = ground (arith, uses-op e c.op, uses-header e c.field c.value)

uses-conditions :
    (e : Text) (cs : List Condition)
    → has (uses e) (joined (mark b',' ∷ []) (map condition_tokens cs)) ≡ false
uses-conditions e [] = refl
uses-conditions e (c ∷ []) = uses-condition e c
uses-conditions e (c ∷ d ∷ cs) =
    let rest = joined (mark b',' ∷ []) (map condition_tokens (d ∷ cs)) in
    has-append (uses e) (condition_tokens c) (mark b',' ∷ rest)
    ∙ rw (uses-condition e c) (uses-conditions e (d ∷ cs))

uses-match : (e : Text) (m : Match) → uses e (word (match_word m)) ≡ false
unfolding text_eq
uses-match e all_of = refl
uses-match e any_of = refl

uses-test : (e : Text) (m : Match) (cs : List Condition) → has (uses e) (test_tokens m cs) ≡ false
uses-test e m [] = refl
uses-test e m (c ∷ []) = uses-condition e c
uses-test e m (c ∷ d ∷ cs) = ground (
  arith,
  uses-match e m,
  uses-conditions e (c ∷ d ∷ cs),
  has-append (uses e) (joined (mark b',' ∷ []) (map condition_tokens (c ∷ d ∷ cs)))
      (mark b')' ∷ []),
)

uses-body :
    (e : Text) (xs : List Action) → has (uses e) (body_tokens xs) ≡ member_of e (requires_of xs)
uses-body e [] = refl
uses-body e (x ∷ []) =
    ground (arith, uses-kind e x.kind (arg_of x), member_of-append e (kind_requires x.kind) [])
uses-body e (x ∷ y ∷ xs) = ground (
  arith,
  uses-kind e x.kind (arg_of x),
  uses-body e (y ∷ xs),
  has-append (uses e) (action_tokens x) (body_tokens (y ∷ xs)),
  member_of-append e (kind_requires x.kind) (requires_of (y ∷ xs)),
)

uses-if : (e : Text) → uses e (word (codes "if")) ≡ false
unfolding text_eq
uses-if e = refl

uses-rule :
    (e : Text) (m : Match) (cs : List Condition) (xs : List Action)
    → has (uses e) (guarded_tokens m cs xs) ≡ member_of e (requires_of xs)
uses-rule e m [] xs = uses-body e xs
uses-rule e m (c ∷ cs) xs =
    let block = body_tokens xs ++ mark b'}' ∷ [] in
    ground (
      arith,
      uses-if e,
      uses-test e m (c ∷ cs),
      uses-body e xs,
      has-append (uses e) (test_tokens m (c ∷ cs)) (mark b'{' ∷ block),
      has-append (uses e) (body_tokens xs) (mark b'}' ∷ []),
    )

uses-rules :
    (e : Text) (rs : List Rule)
    → has (uses e) (joined [] (map rule_tokens rs)) ≡ member_of e (present rs)
uses-rules e [] = refl
uses-rules e (r ∷ []) = ground (
  arith,
  uses-rule e r.match r.conditions r.actions,
  member_of-append e (requires_of r.actions) [],
)
uses-rules e (r ∷ s ∷ rs) = ground (
  arith,
  uses-rule e r.match r.conditions r.actions,
  uses-rules e (s ∷ rs),
  has-append (uses e) (rule_tokens r) (joined [] (map rule_tokens (s ∷ rs))),
  member_of-append e (requires_of r.actions) (present (s ∷ rs)),
)

-- Only the three extensions of the order are ever present.
kind_lem :
    (e : Text) (k : ActionType)
    → member_of e require_order ≡ false
    → member_of e (kind_requires k) ≡ false
kind_lem e fileinto h = ground arith
kind_lem e keep h = refl
kind_lem e discard h = refl
kind_lem e seen h = ground arith
kind_lem e flag h = ground arith
kind_lem e redirect h = refl
kind_lem e stop h = refl

requires_lem :
    (e : Text) (xs : List Action)
    → member_of e require_order ≡ false
    → member_of e (requires_of xs) ≡ false
requires_lem e [] h = refl
requires_lem e (x ∷ xs) h =
    member_of-append e (kind_requires x.kind) (requires_of xs)
    ∙ rw (kind_lem e x.kind h) (requires_lem e xs h)

present_lem :
    (e : Text) (rs : List Rule)
    → member_of e require_order ≡ false
    → member_of e (present rs) ≡ false
present_lem e [] h = refl
present_lem e (r ∷ rs) h =
    member_of-append e (requires_of r.actions) (present rs)
    ∙ rw (requires_lem e r.actions h) (present_lem e rs h)

-- Filtering a list by the members of another leaves the members of both.
member_of-select :
    (e : Text) (ps order : List Text)
    → member_of e (select (λ x. member_of x ps) order) ≡ (member_of e order && member_of e ps)
member_of-select e ps [] = refl
member_of-select e ps (x ∷ xs) = elim (Bool-cases (text_eq x e)) [
  | inl same ↦
      let moved = ap (λ y. member_of y ps) ((text_eq_iff x e).0 same) in
      ground (arith, moved, member_of-select e ps xs)
  | inr other ↦ ground (arith, member_of-select e ps xs)
]

-- The `require` list names an extension exactly when some command or tag of the rules belongs to
-- it: what a script uses is declared, and nothing else is.
pub collect_requires_iff :
    (e : Text) (rs : List Rule)
    → member_of e (collect_requires rs) ≡ has (uses e) (joined [] (map rule_tokens rs))
unfolding collect_requires
collect_requires_iff e rs =
    member_of-select e (present rs) require_order ∙ elim (Bool-cases (member_of e require_order)) [
      | inl known ↦ rw known (sym (uses-rules e rs))
      | inr unknown ↦ rw unknown (sym (uses-rules e rs ∙ present_lem e rs unknown))
    ]
