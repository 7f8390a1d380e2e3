-- ===== src/Sieve/Tokens.antt =====
-- The tokens that stand for the rules of apps/api/src/webmail/sieve-compile.ts, and how texts put
-- together are read.
use justmail.Prelude.{◌≡◌, List, [], ◌∷◌, ◌++◌, map, Text, codes, refl, append_assoc}
use justmail.Prelude.Texts.{join}
use justmail.Sieve.{
  Field, Op, contains, is, matches, Condition, ActionType, fileinto, keep, discard, seen, flag,
  redirect, stop, Action, Match, all_of, any_of, Rule, headers, op_test, quote, arg_of, match_word,
  collect_requires,
}
use justmail.Sieve.Lexer.{Token, word, str, mark, ready, lex, lex-quote}

-- The tokens of the parts, with those of the separator between them.
abbrev pub joined : List Token → List (List Token) → List Token
joined sep [] = []
joined sep (p ∷ []) = p
joined sep (p ∷ q ∷ ps) = p ++ (sep ++ joined sep (q ∷ ps))

abbrev pub comma : List Token
comma = mark b',' ∷ []

abbrev pub one : Text → List Token
one s = str s ∷ []

-- `["name", …]`
abbrev pub header_tokens : Field → List Token
header_tokens f = mark b'[' ∷ (joined comma (map one (headers f)) ++ mark b']' ∷ [])

-- `header :op ["name", …] "value"`
abbrev pub condition_tokens : Condition → List Token
condition_tokens c =
    word (codes "header") ∷ word (op_test c.op) ∷ (header_tokens c.field ++ str c.value ∷ [])

abbrev pub kind_tokens : ActionType → Text → List Token
kind_tokens fileinto arg =
    word (codes "fileinto") ∷ word (codes ":create") ∷ str arg ∷ mark b';' ∷ []
kind_tokens keep arg = word (codes "keep") ∷ mark b';' ∷ []
kind_tokens discard arg = word (codes "discard") ∷ mark b';' ∷ []
kind_tokens seen arg = word (codes "addflag") ∷ str (codes "\\Seen") ∷ mark b';' ∷ []
kind_tokens flag arg = word (codes "addflag") ∷ str arg ∷ mark b';' ∷ []
kind_tokens redirect arg = word (codes "redirect") ∷ str arg ∷ mark b';' ∷ []
kind_tokens stop arg = word (codes "stop") ∷ mark b';' ∷ []

-- One command and its semicolon.
abbrev pub action_tokens : Action → List Token
action_tokens a = kind_tokens a.kind (arg_of a)

abbrev pub test_tokens : Match → List Condition → List Token
test_tokens m [] = []
test_tokens m (c ∷ []) = condition_tokens c
test_tokens m (c ∷ d ∷ cs) =
    word (match_word m)
    ∷ mark b'('
    ∷ (joined comma (map condition_tokens (c ∷ d ∷ cs)) ++ mark b')' ∷ [])

abbrev pub body_tokens : List Action → List Token
body_tokens actions = joined [] (map action_tokens actions)

-- The commands, under `if` and the test where the rule has conditions.
abbrev pub guarded_tokens : Match → List Condition → List Action → List Token
guarded_tokens m [] actions = body_tokens actions
guarded_tokens m (c ∷ cs) actions =
    word (codes "if")
    ∷ (test_tokens m (c ∷ cs) ++ (mark b'{' ∷ (body_tokens actions ++ mark b'}' ∷ [])))

abbrev pub rule_tokens : Rule → List Token
rule_tokens r = guarded_tokens r.match r.conditions r.actions

abbrev pub require_tokens : List Text → List (List Token)
require_tokens [] = []
require_tokens (e ∷ es) =
    (word (codes "require")
      ∷ mark b'['
      ∷ (joined comma (map one (e ∷ es)) ++ mark b']' ∷ mark b';' ∷ []))
    ∷ []

abbrev pub script_tokens : List Rule → List Token
script_tokens rs = joined [] (require_tokens (collect_requires rs) ++ map rule_tokens rs)

-- A text is read as these tokens, whatever follows it.
abbrev pub Lexes : Text → List Token → Type 0
Lexes s ts = (rest : Text) → lex ready (s ++ rest) ≡ ts ++ lex ready rest

pub Lexes-append :
    (s t : Text) (ts us : List Token) → Lexes s ts → Lexes t us → Lexes (s ++ t) (ts ++ us)
Lexes-append s t ts us hs ht rest =
    rw (append_assoc s t rest)
      (rw (hs (t ++ rest)) (rw (ht rest) (rw (append_assoc ts us (lex ready rest)) refl)))

abbrev pub LexAll : List Text → List (List Token) → Type 0
LexAll [] [] = Unit
LexAll (s ∷ ss) (t ∷ ts) = Lexes s t × LexAll ss ts
LexAll [] (t ∷ ts) = ⊥
LexAll (s ∷ ss) [] = ⊥

pub LexAll-append :
    (ss : List Text) (ts : List (List Token)) (ss' : List Text) (ts' : List (List Token))
    → LexAll ss ts
    → LexAll ss' ts'
    → LexAll (ss ++ ss') (ts ++ ts')
LexAll-append [] [] ss' ts' h h' = h'
LexAll-append (s ∷ ss) (t ∷ ts) ss' ts' (h, hs) h' = (h, LexAll-append ss ts ss' ts' hs h')
LexAll-append [] (t ∷ ts) ss' ts' h h' = absurd h
LexAll-append (s ∷ ss) [] ss' ts' h h' = absurd h

pub Lexes-join :
    (sep : Text) (us : List Token) (ss : List Text) (ts : List (List Token))
    → Lexes sep us
    → LexAll ss ts
    → Lexes (join sep ss) (joined us ts)
unfolding join
Lexes-join sep us [] [] hsep h = λ rest. refl
Lexes-join sep us (s ∷ []) (t ∷ []) hsep (h, hs) = h
Lexes-join sep us (s ∷ s' ∷ ss) (t ∷ t' ∷ ts) hsep (h, hs) =
    Lexes-append s (sep ++ join sep (s' ∷ ss)) t (us ++ joined us (t' ∷ ts)) h (
      Lexes-append sep (join sep (s' ∷ ss)) us (joined us (t' ∷ ts)) hsep
        (Lexes-join sep us (s' ∷ ss) (t' ∷ ts) hsep hs))
Lexes-join sep us [] (t ∷ ts) hsep h = absurd h
Lexes-join sep us (s ∷ ss) [] hsep h = absurd h
Lexes-join sep us (s ∷ []) (t ∷ t' ∷ ts) hsep (h, hs) = absurd hs
Lexes-join sep us (s ∷ s' ∷ ss) (t ∷ []) hsep (h, hs) = absurd hs

module _ {ℓ} {A : Type ℓ} (f : A → Text) (g : A → List Token) where
  pub LexAll-map : ((x : A) → Lexes (f x) (g x)) → (xs : List A) → LexAll (map f xs) (map g xs)
  LexAll-map h [] = tt
  LexAll-map h (x ∷ xs) = (h x, LexAll-map h xs)

pub Lexes-quote : (s : Text) → Lexes (quote s) (one s)
Lexes-quote s rest = lex-quote s rest

pub Lexes-comma : Lexes (codes ", ") comma
unfolding lex
Lexes-comma rest = refl

pub Lexes-quotes :
    (ss : List Text) → Lexes (join (codes ", ") (map quote ss)) (joined comma (map one ss))
Lexes-quotes ss =
    Lexes-join (codes ", ") comma (map quote ss) (map one ss) Lexes-comma
      (LexAll-map quote one Lexes-quote ss)

pub Lexes-op :
    (op : Op) (s : Text) (ts : List Token)
    → Lexes s ts
    → Lexes
        (codes "header " ++ (op_test op ++ (codes " " ++ s)))
        (word (codes "header") ∷ word (op_test op) ∷ ts)
unfolding lex
Lexes-op contains s ts h rest = rw (h rest) refl
Lexes-op is s ts h rest = rw (h rest) refl
Lexes-op matches s ts h rest = rw (h rest) refl

pub Lexes-match :
    (m : Match) (s : Text) (ts : List Token)
    → Lexes s ts
    → Lexes (match_word m ++ (codes " (" ++ s)) (word (match_word m) ∷ mark b'(' ∷ ts)
unfolding lex
Lexes-match all_of s ts h rest = rw (h rest) refl
Lexes-match any_of s ts h rest = rw (h rest) refl
