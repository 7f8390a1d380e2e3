-- ===== src/Ldap/Filter.antt =====
-- `escapeFilterValue` of apps/api/src/ldap/mapping.ts against RFC 4515.
use justmail.Prelude.{
  ℕ, ◌+◌, ◌-◌, ◌*◌, ◌≡◌, ◌≢◌, ◌&&◌, [], ◌∷◌, ◌++◌, Text, refl, arith, Bool-cases, ==_iff, inl, inr,
  All, All-append, leb, ◌==◌, if◌then◌else◌,
}
use justmail.Ldap.{escape_unit, escape_filter_value}

-- The value of a lower case hexadecimal digit, and of any other character 0.
abbrev hex : ℕ → ℕ
hex c = if leb b'0' c && leb c b'9' then c - b'0' else if leb b'a' c then c - 87 else 0

-- A reader of the `valueencoding` of RFC 4515: a backslash and two digits are one octet.
unfoldable pub read_value : Text → Text
read_value [] = []
read_value (c ∷ []) = c ∷ []
read_value (c ∷ d ∷ []) = c ∷ read_value (d ∷ [])
read_value (c ∷ d ∷ e ∷ s) =
    let escaped = read_value s in
    let plain = read_value (d ∷ e ∷ s) in
    if c == b'\\' then (hex d * 16 + hex e) ∷ escaped else c ∷ plain

-- The characters that end a value or mean something else in a filter.
abbrev pub IsInert : ℕ → Type 0
IsInert c = (c ≢ b'*') × (c ≢ b'(') × (c ≢ b')') × (c ≢ 0)

escape_unit-IsInert : (c : ℕ) → All IsInert (escape_unit c)
escape_unit-IsInert c = ground arith

escape-IsInert : (s : Text) → All IsInert (escape_filter_value s)
unfolding escape_filter_value
escape-IsInert [] = tt
escape-IsInert (c ∷ s) =
    All-append IsInert (escape_unit c) (escape_filter_value s) (escape_unit-IsInert c)
      (escape-IsInert s)

read_plain : (c : ℕ) (s : Text) → c ≢ b'\\' → read_value (c ∷ s) ≡ c ∷ read_value s
unfolding read_value
read_plain c [] h = refl
read_plain c (d ∷ []) h = refl
read_plain c (d ∷ e ∷ s) h = ground arith

escaped :
    (d e : ℕ) (s : Text) → read_value (b'\\' ∷ d ∷ e ∷ s) ≡ (hex d * 16 + hex e) ∷ read_value s
unfolding read_value
escaped d e s = refl

read_unit : (c : ℕ) (s : Text) → read_value (escape_unit c ++ s) ≡ c ∷ read_value s
read_unit c s = elim (Bool-cases (c == b'\\')) [
  | inl backslash ↦ rw ((==_iff c b'\\').0 backslash) (escaped b'5' b'c' s)
  | inr h1 ↦ elim (Bool-cases (c == b'*')) [
    | inl star ↦ rw ((==_iff c b'*').0 star) (escaped b'2' b'a' s)
    | inr h2 ↦ elim (Bool-cases (c == b'(')) [
      | inl paren ↦ rw ((==_iff c b'(').0 paren) (escaped b'2' b'8' s)
      | inr h3 ↦ elim (Bool-cases (c == b')')) [
        | inl paren ↦ rw ((==_iff c b')').0 paren) (escaped b'2' b'9' s)
        | inr h4 ↦ elim (Bool-cases (c == 0)) [
          | inl nul ↦ rw ((==_iff c 0).0 nul) (escaped b'0' b'0' s)
          | inr h5 ↦ rw h1 (rw h2 (rw h3 (rw h4 (rw h5 (read_plain c s (ground arith))))))
        ]
      ]
    ]
  ]
]

read_value-escape : (s : Text) → read_value (escape_filter_value s) ≡ s
unfolding read_value escape_filter_value
read_value-escape [] = refl
read_value-escape (c ∷ s) = rw (read_unit c (escape_filter_value s)) (rw (read_value-escape s) refl)

-- A value dropped into a search filter stays one value: no character of the escaped text can end
-- or extend the assertion, and the server reads back from it exactly the value that was escaped.
pub escape_filter_value_lem :
    (s : Text) → All IsInert (escape_filter_value s) × (read_value (escape_filter_value s) ≡ s)
escape_filter_value_lem s = (escape-IsInert s, read_value-escape s)
