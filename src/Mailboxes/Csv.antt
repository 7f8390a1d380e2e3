-- ===== src/Mailboxes/Csv.antt =====
-- `csv` of apps/api/src/mailboxes/mailboxes.service.ts.
use justmail.Prelude.{
  ℕ, ◌≡◌, ◌⊎◌, ◌↔◌, sym, ◌∙◌, Bool, true, false, ◌||◌, [], ◌∷◌, ◌++◌, arith, Text, ◌==◌,
  if◌then◌else◌, refl, inl, inr, Bool-cases, append_assoc,
}

abbrev quote_mark : ℕ
quote_mark = b'"'

-- `/[",\n]/`
abbrev special : ℕ → Bool
special c = c == quote_mark || c == b',' || c == b'\n'

pub needs_quotes : Text → Bool
needs_quotes [] = false
needs_quotes (c ∷ s) = special c || needs_quotes s

-- `.replace(/"/g, '""')`
pub double_quotes : Text → Text
double_quotes [] = []
double_quotes (c ∷ s) =
    if c == quote_mark then quote_mark ∷ quote_mark ∷ double_quotes s else c ∷ double_quotes s

-- `csv`
unfoldable pub csv : Text → Text
unfolding needs_quotes double_quotes
csv s = if needs_quotes s then quote_mark ∷ (double_quotes s ++ quote_mark ∷ []) else s

-- A reader of one field by the grammar of RFC 4180: a quoted field, where a doubled quote is a quote, or
-- a plain one, which no comma and no line break (LF or CR) belongs to. It answers the field, and the
-- text from what ends it.
abbrev pub push : ℕ → Text × Text → Text × Text
push c (field, rest) = (c ∷ field, rest)

-- Inside the quotes; the flag says that the character before was a quote.
pub read_quoted : Bool → Text → Text × Text
read_quoted after [] = ([], [])
read_quoted false (c ∷ s) =
    let quoted = read_quoted true s in
    let plain = push c (read_quoted false s) in if c == quote_mark then quoted else plain
read_quoted true (c ∷ s) =
    let doubled = push quote_mark (read_quoted false s) in
    if c == quote_mark then doubled else ([], c ∷ s)

abbrev pub ends_plain : ℕ → Bool
ends_plain c = c == b',' || c == b'\n' || c == b'\r'

pub read_plain : Text → Text × Text
read_plain [] = ([], [])
read_plain (c ∷ s) = if ends_plain c then ([], c ∷ s) else push c (read_plain s)

unfoldable pub read_field : Text → Text × Text
unfolding read_quoted read_plain
read_field [] = ([], [])
read_field (c ∷ s) = if c == quote_mark then read_quoted false s else read_plain (c ∷ s)

-- The text behind a field: the end, or a comma or line feed.
abbrev pub EndsField : Text → Type 0
EndsField [] = Unit
EndsField (c ∷ s) = (c ≡ b',') ⊎ (c ≡ b'\n')

after_quote : (rest : Text) → EndsField rest → read_quoted true rest ≡ ([], rest)
unfolding read_quoted
after_quote [] h = refl
after_quote (c ∷ rest) h = ground arith

read_quoted-double_quotes :
    (s rest : Text)
    → EndsField rest
    → read_quoted false (double_quotes s ++ (quote_mark ∷ rest)) ≡ (s, rest)
unfolding read_quoted double_quotes
read_quoted-double_quotes [] rest h = after_quote rest h
read_quoted-double_quotes (c ∷ s) rest h = ground (arith, read_quoted-double_quotes s rest h)

at_end : (rest : Text) → EndsField rest → read_plain rest ≡ ([], rest)
unfolding read_plain
at_end [] h = refl
at_end (c ∷ rest) h = ground arith

-- Whether a text has a carriage return.
abbrev pub has_return : Text → Bool
has_return [] = false
has_return (c ∷ s) = c == b'\r' || has_return s

read_plain-append :
    (s rest : Text)
    → needs_quotes s ≡ false
    → has_return s ≡ false
    → EndsField rest
    → read_plain (s ++ rest) ≡ (s, rest)
unfolding read_plain needs_quotes
read_plain-append [] rest h n k = at_end rest k
read_plain-append (c ∷ s) rest h n k = ground (arith, read_plain-append s rest)

read_unquoted :
    (s rest : Text)
    → needs_quotes s ≡ false
    → has_return s ≡ false
    → EndsField rest
    → read_field (s ++ rest) ≡ (s, rest)
unfolding read_field needs_quotes
read_unquoted [] [] h n k = refl
read_unquoted [] (c ∷ rest) h n k = ground (arith, at_end (c ∷ rest) k)
read_unquoted (c ∷ s) rest h n k = ground (arith, read_plain-append (c ∷ s) rest h n k)

-- A plain field that was read has no carriage return.
read_plain-no_return : (s : Text) → has_return (read_plain s).0 ≡ false
unfolding read_plain
read_plain-no_return [] = refl
read_plain-no_return (c ∷ s) = ground (arith, read_plain-no_return s)

read_field-no_return :
    (s rest : Text)
    → needs_quotes s ≡ false
    → read_field (s ++ rest) ≡ (s, rest)
    → has_return s ≡ false
unfolding read_field needs_quotes
read_field-no_return [] rest h e = refl
read_field-no_return (c ∷ s) rest h e =
    let plain : read_field ((c ∷ s) ++ rest) ≡ read_plain ((c ∷ s) ++ rest) = ground arith in
    (λ i. has_return ((sym e ∙ plain) i).0) ∙ read_plain-no_return ((c ∷ s) ++ rest)

-- A reader of CSV takes back from an exported field exactly the value, and stops at the comma or line
-- feed behind it, exactly when the value was quoted, which is when it has a quote, a comma or a line
-- feed, or has no carriage return: a carriage return alone is exported without quotes.
pub read_field-csv :
    (s rest : Text)
    → EndsField rest
    → (read_field (csv s ++ rest) ≡ (s, rest)) ↔ ((needs_quotes s ≡ true) ⊎ (has_return s ≡ false))
unfolding csv read_field
read_field-csv s rest h = elim (Bool-cases (needs_quotes s)) [
  | inl quoted ↦ (
    λ e. inl quoted,
    λ k. rw quoted (
        rw (append_assoc (double_quotes s) (quote_mark ∷ []) rest)
          (read_quoted-double_quotes s rest h)),
  )
  | inr plain ↦ (
    λ e.
        let same : csv s ≡ s = rw plain refl in
        inr (read_field-no_return s rest plain ((λ i. read_field (sym same i ++ rest)) ∙ e)),
    λ k. rw plain (read_unquoted s rest plain (ground arith) h),
  )
]
