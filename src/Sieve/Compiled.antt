-- ===== src/Sieve/Compiled.antt =====
-- What a Sieve interpreter reads in the scripts of apps/api/src/webmail/sieve-compile.ts.
use justmail.Prelude.{
  ◌≡◌, List, [], ◌∷◌, ◌++◌, map, Text, codes, refl, append_assoc, All, append-nil, ◌∙◌, ◌∙◌,
}
use justmail.Prelude.Texts.{join}
use justmail.Sieve.{
  Field, Condition, ActionType, fileinto, keep, discard, seen, flag, redirect, stop, Action, Match,
  Rule, headers, quote, header_list, compile_condition, arg_of, compile_action, indented,
  compile_test, compile_body, compile_kind, compile_guarded, compile_rule, collect_requires,
  require_line, banner, compile_script, rule_header,
}
use justmail.Sieve.Lexer.{Token, word, str, mark, ready, lex, OneLine, lex-comment}
use justmail.Sieve.Tokens.{
  joined, comma, one, header_tokens, condition_tokens, kind_tokens, action_tokens, guarded_tokens,
  test_tokens, body_tokens, rule_tokens, require_tokens, script_tokens, Lexes, Lexes-append, LexAll,
  LexAll-append, Lexes-join, LexAll-map, Lexes-quote, Lexes-comma, Lexes-quotes, Lexes-op,
  Lexes-match,
}

Lexes-header_list : (f : Field) → Lexes (header_list f) (header_tokens f)
Lexes-header_list f =
    let names = join (codes ", ") (map quote (headers f)) in
    let read = joined comma (map one (headers f)) in
    Lexes-append (codes "[") (names ++ codes "]") (mark b'[' ∷ []) (read ++ mark b']' ∷ [])
      (unfold lex in λ rest. refl)
      (Lexes-append names (codes "]") read (mark b']' ∷ []) (Lexes-quotes (headers f))
        (unfold lex in λ rest. refl))

Lexes-condition : (c : Condition) → Lexes (compile_condition c) (condition_tokens c)
unfolding compile_condition
Lexes-condition c =
    Lexes-op c.op (header_list c.field ++ (codes " " ++ quote c.value))
      (header_tokens c.field ++ one c.value)
      (Lexes-append (header_list c.field) (codes " " ++ quote c.value) (header_tokens c.field)
        (one c.value) (Lexes-header_list c.field)
        (Lexes-append (codes " ") (quote c.value) [] (one c.value) (unfold lex in λ rest. refl)
          (Lexes-quote c.value)))

-- A command with a string.
Lexes-command :
    (name arg : Text) (ts : List Token)
    → Lexes name ts
    → Lexes (name ++ (quote arg ++ codes ";")) (ts ++ str arg ∷ mark b';' ∷ [])
Lexes-command name arg ts h =
    Lexes-append name (quote arg ++ codes ";") ts (str arg ∷ mark b';' ∷ []) h (
      Lexes-append (quote arg) (codes ";") (one arg) (mark b';' ∷ []) (Lexes-quote arg)
        (unfold lex in λ rest. refl))

Lexes-kind : (k : ActionType) (arg : Text) → Lexes (compile_kind k arg) (kind_tokens k arg)
unfolding lex
Lexes-kind fileinto arg =
    Lexes-command (codes "fileinto :create ") arg
      (word (codes "fileinto") ∷ word (codes ":create") ∷ []) (λ rest. refl)
Lexes-kind keep arg = λ rest. refl
Lexes-kind discard arg = λ rest. refl
Lexes-kind seen arg =
    Lexes-command (codes "addflag ") (codes "\\Seen") (word (codes "addflag") ∷ []) (λ rest. refl)
Lexes-kind flag arg =
    Lexes-command (codes "addflag ") arg (word (codes "addflag") ∷ []) (λ rest. refl)
Lexes-kind redirect arg =
    Lexes-command (codes "redirect ") arg (word (codes "redirect") ∷ []) (λ rest. refl)
Lexes-kind stop arg = λ rest. refl

Lexes-action : (a : Action) → Lexes (compile_action a) (action_tokens a)
unfolding compile_action
Lexes-action a = Lexes-kind a.kind (arg_of a)

Lexes-test : (m : Match) (cs : List Condition) → Lexes (compile_test m cs) (test_tokens m cs)
Lexes-test m [] = λ rest. refl
Lexes-test m (c ∷ []) = Lexes-condition c
Lexes-test m (c ∷ d ∷ cs) =
    let cases = c ∷ d ∷ cs in
    Lexes-match m (join (codes ", ") (map compile_condition cases) ++ codes ")")
      (joined comma (map condition_tokens cases) ++ mark b')' ∷ [])
      (Lexes-append (join (codes ", ") (map compile_condition cases)) (codes ")")
        (joined comma (map condition_tokens cases)) (mark b')' ∷ [])
        (Lexes-join (codes ", ") comma (map compile_condition cases) (map condition_tokens cases)
          Lexes-comma (LexAll-map compile_condition condition_tokens Lexes-condition cases))
        (unfold lex in λ rest. refl))

Lexes-indented : (a : Action) → Lexes (indented (compile_action a)) (action_tokens a)
Lexes-indented a =
    Lexes-append (codes "  ") (compile_action a) [] (action_tokens a) (unfold lex in λ rest. refl)
      (Lexes-action a)

LexAll-indented :
    (xs : List Action) → LexAll (map indented (map compile_action xs)) (map action_tokens xs)
LexAll-indented [] = tt
LexAll-indented (x ∷ xs) = (Lexes-indented x, LexAll-indented xs)

Lexes-body : (xs : List Action) → Lexes (compile_body xs) (body_tokens xs)
Lexes-body xs =
    Lexes-join (b'\n' ∷ []) [] (map indented (map compile_action xs)) (map action_tokens xs)
      (unfold lex in λ rest. refl) (LexAll-indented xs)

-- A comment and what stands behind the line.
Lexes-header :
    (name s : Text) (ts : List Token)
    → OneLine name
    → Lexes s ts
    → Lexes (rule_header name ++ (b'\n' ∷ s)) ts
unfolding lex
Lexes-header name s ts h hs rest =
    rw (append_assoc name (b'\n' ∷ s) rest) (rw (lex-comment name (s ++ rest) h) (hs rest))

Lexes-guarded :
    (m : Match) (cs : List Condition) (xs : List Action)
    → Lexes (compile_guarded m cs xs) (guarded_tokens m cs xs)
Lexes-guarded m [] xs = Lexes-body xs
Lexes-guarded m (c ∷ cs) xs =
    let block = body_tokens xs ++ mark b'}' ∷ [] in
    Lexes-append (codes "if ")
      (compile_test m (c ∷ cs) ++ (codes " {\n" ++ (compile_body xs ++ codes "\n}")))
      (word (codes "if") ∷ []) (test_tokens m (c ∷ cs) ++ (mark b'{' ∷ block))
      (unfold lex in λ rest. refl)
      (Lexes-append (compile_test m (c ∷ cs)) (codes " {\n" ++ (compile_body xs ++ codes "\n}"))
        (test_tokens m (c ∷ cs)) (mark b'{' ∷ block) (Lexes-test m (c ∷ cs))
        (Lexes-append (codes " {\n") (compile_body xs ++ codes "\n}") (mark b'{' ∷ []) block
          (unfold lex in λ rest. refl)
          (Lexes-append (compile_body xs) (codes "\n}") (body_tokens xs) (mark b'}' ∷ [])
            (Lexes-body xs) (unfold lex in λ rest. refl))))

Lexes-rule : (r : Rule) → OneLine r.name → Lexes (compile_rule r) (rule_tokens r)
unfolding compile_rule
Lexes-rule r h =
    Lexes-header r.name (compile_guarded r.match r.conditions r.actions) (rule_tokens r) h
      (Lexes-guarded r.match r.conditions r.actions)

LexAll-rules :
    (rs : List Rule)
    → All (λ r. OneLine r.name) rs
    → LexAll (map compile_rule rs) (map rule_tokens rs)
LexAll-rules [] h = tt
LexAll-rules (r ∷ rs) (h, hs) = (Lexes-rule r h, LexAll-rules rs hs)

LexAll-require : (es : List Text) → LexAll (require_line es) (require_tokens es)
LexAll-require [] = tt
LexAll-require (e ∷ es) =
    let names = joined comma (map one (e ∷ es)) in
    let close = mark b']' ∷ mark b';' ∷ [] in
    (
      Lexes-append (codes "require [") (join (codes ", ") (map quote (e ∷ es)) ++ codes "];")
          (word (codes "require") ∷ mark b'[' ∷ []) (names ++ close) (unfold lex in λ rest. refl)
          (Lexes-append (join (codes ", ") (map quote (e ∷ es))) (codes "];") names close
            (Lexes-quotes (e ∷ es)) (unfold lex in λ rest. refl)),
      tt,
    )

-- The parts of a script behind its first line, which is a comment.
lex-banner :
    (ps : List Text) (ts : List (List Token))
    → LexAll ps ts
    → lex ready (join (codes "\n\n") (banner ∷ ps) ++ codes "\n") ≡ joined [] ts
lex-banner [] [] h = unfold lex join in refl
lex-banner (p ∷ ps) (t ∷ ts) h =
    let break = codes "\n\n" in
    unfold join lex in
    Lexes-join break [] (p ∷ ps) (t ∷ ts) (λ rest. refl) h (codes "\n")
    ∙ append-nil (joined [] (t ∷ ts))
lex-banner [] (t ∷ ts) h = absurd h
lex-banner (p ∷ ps) [] h = absurd h

-- A script whose rules have names of one line is read as the `require` command of the extensions
-- collected, where there are any, and then each rule in order: its actions, guarded by its
-- conditions where it has some, every value, folder and address being one string with exactly the
-- characters of the rule. No text a rule carries leaves its string.
pub lex-compile_script :
    (rs : List Rule)
    → All (λ r. OneLine r.name) rs
    → lex ready (compile_script rs) ≡ script_tokens rs
unfolding compile_script
lex-compile_script rs h =
    let es = collect_requires rs in
    lex-banner (require_line es ++ map compile_rule rs) (require_tokens es ++ map rule_tokens rs) (
      LexAll-append (require_line es) (require_tokens es) (map compile_rule rs) (map rule_tokens rs)
        (LexAll-require es) (LexAll-rules rs h))

-- A name with a line feed ends the comment that it stands in: what follows the first line of the
-- name is read as commands, before those of the rule.
pub compile_rule_injects :
    (r : Rule) (line rest : Text)
    → OneLine line
    → r.name ≡ line ++ (b'\n' ∷ rest)
    → lex ready (compile_rule r)
      ≡ lex ready (rest ++ (b'\n' ∷ compile_guarded r.match r.conditions r.actions))
unfolding compile_rule lex
compile_rule_injects r line rest h e =
    let after = b'\n' ∷ compile_guarded r.match r.conditions r.actions in
    rw e (rw (append_assoc line (b'\n' ∷ rest) after) (lex-comment line (rest ++ after) h))
