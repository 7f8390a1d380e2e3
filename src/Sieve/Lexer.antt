-- ===== src/Sieve/Lexer.antt =====
-- The tokens of RFC 5228 for the texts that apps/api/src/webmail/sieve-compile.ts writes: words
-- (identifiers and tags), quoted strings, punctuation, and hash comments, which a line feed ends.
use justmail.Prelude.{
  ℕ, ◌≡◌, ◌≢◌, Bool, false, ◌||◌, List, [], ◌∷◌, ◌++◌, Text, arith, refl, ◌==◌, if◌then◌else◌,
  append_assoc, append-nil, Bool-cases, inl, inr,
}
use justmail.Prelude.Texts.{includes}
use justmail.Sieve.{escape, quote}

pub data Token : Type 0 where
  word : Text → Token
  str : Text → Token
  mark : ℕ → Token
  unclosed : Token

pub data Mode : Type 0 where
  ready : Mode
  in_word : Text → Mode
  in_comment : Mode
  in_string : Text → Mode
  after_backslash : Text → Mode

abbrev is_blank : ℕ → Bool
is_blank c = c == 32 || c == b'\n' || c == b'\r' || c == b'\t'

abbrev is_mark : ℕ → Bool
is_mark c =
    c == b'['
    || c == b']'
    || c == b'('
    || c == b')'
    || c == b'{'
    || c == b'}'
    || c == b','
    || c == b';'

-- What a character begins outside a word, a string and a comment.
abbrev start : ℕ → Mode × List Token
start c =
    if is_blank c
    then (ready, [])
    else if c == b'#'
    then (in_comment, [])
    else if c == b'"'
    then (in_string [], [])
    else if is_mark c
    then (ready, mark c ∷ [])
    else (in_word (c ∷ []), [])

abbrev ends_word : ℕ → Bool
ends_word c = is_blank c || c == b'#' || c == b'"' || is_mark c

abbrev after : Token → Mode × List Token → Mode × List Token
after t (m, ts) = (m, t ∷ ts)

abbrev read : Mode → ℕ → Mode × List Token
read ready c = start c
read (in_word w) c = if ends_word c then after (word w) (start c) else (in_word (w ++ c ∷ []), [])
read in_comment c = if c == b'\n' then (ready, []) else (in_comment, [])
read (in_string s) c =
    if c == b'"'
    then (ready, str s ∷ [])
    else if c == b'\\'
    then (after_backslash s, [])
    else (in_string (s ++ c ∷ []), [])
read (after_backslash s) c = (in_string (s ++ c ∷ []), [])

abbrev at_end : Mode → List Token
at_end ready = []
at_end (in_word w) = word w ∷ []
at_end in_comment = []
at_end (in_string s) = unclosed ∷ []
at_end (after_backslash s) = unclosed ∷ []

unfoldable pub lex : Mode → Text → List Token
lex m [] = at_end m
lex m (c ∷ s) = (read m c).1 ++ lex (read m c).0 s

-- The characters that stay in a comment.
abbrev pub OneLine : Text → Type 0
OneLine [] = Unit
OneLine (c ∷ s) = (c ≢ b'\n') × OneLine s

pub lex-comment :
    (s rest : Text) → OneLine s → lex in_comment (s ++ (b'\n' ∷ rest)) ≡ lex ready rest
unfolding lex
lex-comment [] rest h = refl
lex-comment (c ∷ s) rest (h, hs) = ground (arith, lex-comment s rest hs)

-- `escape` in one pass.
escape_unit :
    (c : ℕ) (s : Text)
    → escape (c ∷ s) ≡ (
        if c == b'\\'
        then b'\\' ∷ b'\\' ∷ escape s
        else if c == b'"'
        then b'\\' ∷ b'"' ∷ escape s
        else c ∷ escape s)
escape_unit c s = ground arith

lex_backslash :
    (c : ℕ) (acc rest : Text)
    → lex (in_string acc) (b'\\' ∷ c ∷ rest) ≡ lex (in_string (acc ++ c ∷ [])) rest
unfolding lex
lex_backslash c acc rest = refl

lex_plain :
    (c : ℕ) (acc rest : Text)
    → (c == b'\\') ≡ false
    → (c == b'"') ≡ false
    → lex (in_string acc) (c ∷ rest) ≡ lex (in_string (acc ++ c ∷ [])) rest
unfolding lex
lex_plain c acc rest h1 h2 = rw h2 (rw h1 refl)

lex-escape :
    (s acc rest : Text)
    → lex (in_string acc) (escape s ++ (b'"' ∷ rest)) ≡ str (acc ++ s) ∷ lex ready rest
lex-escape [] acc rest = unfold lex in rw (append-nil acc) refl
lex-escape (c ∷ s) acc rest =
    let shifted = lex-escape s (acc ++ c ∷ []) rest in
    let tail = escape s ++ (b'"' ∷ rest) in
    rw (escape_unit c s) (elim (Bool-cases (c == b'\\')) [
      | inl backslash ↦ ground (arith, lex_backslash b'\\' acc tail, append_assoc acc (c ∷ []) s)
      | inr h1 ↦ elim (Bool-cases (c == b'"')) [
        | inl mark_ ↦ ground (arith, lex_backslash b'"' acc tail, append_assoc acc (c ∷ []) s)
        | inr h2 ↦ ground (arith, lex_plain c acc tail h1 h2, append_assoc acc (c ∷ []) s)
      ]
    ])

-- A quoted text is read as one string, the text itself.
pub lex-quote : (s rest : Text) → lex ready (quote s ++ rest) ≡ str s ∷ lex ready rest
unfolding lex quote
lex-quote s rest = rw (append_assoc (escape s) (b'"' ∷ []) rest) (lex-escape s [] rest)

pub includes-OneLine : (s : Text) → includes b'\n' s ≡ false → OneLine s
unfolding includes
includes-OneLine [] h = tt
includes-OneLine (c ∷ s) h = (ground arith, includes-OneLine s (ground arith))
