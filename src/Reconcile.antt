-- ===== src/Reconcile.antt =====
-- apps/api/src/dkim/dns-reconcile.ts, without the parser of CAA records. `lower_case` is JavaScript's
-- `toLowerCase`.
pub mod Identity
use justmail.Prelude.{
  ℕ, Bool, true, false, not, ◌&&◌, ◌||◌, List, [], ◌∷◌, Option, none, some, String, Text, codes,
  text_eq, leb, ◌==◌, ◌≐◌, if◌then◌else◌, length, drop,
}
use justmail.Prelude.Table.{select, first?}
use justmail.Prelude.Texts.{starts_with, trim, is_space, is_digit}

pub record ProviderRecord : Type 0 where
  pub id : Text
  pub type : String
  pub name : Text
  pub content : Text
  pub priority : Option ℕ
  pub ttl : ℕ

pub record ExpectedRecord : Type 0 where
  pub type : String
  pub name : Text
  pub content : Text

abbrev drop_last : ℕ → Text → Text
drop_last q [] = []
drop_last q (c ∷ []) = if c == q then [] else c ∷ []
drop_last q (c ∷ d ∷ s) = c ∷ drop_last q (d ∷ s)

abbrev drop_first : ℕ → Text → Text
drop_first q [] = []
drop_first q (c ∷ s) = if c == q then s else c ∷ s

-- `strip`
unfoldable pub strip : Text → Text
strip s = trim (drop_last b'"' (drop_first b'"' s))

abbrev is_word : ℕ → Bool
is_word c = leb b'a' c && leb c b'z' || leb b'A' c && leb c b'Z' || is_digit c || c == b'_'

-- `\b` behind a word character.
abbrev at_boundary : Text → Bool
at_boundary [] = true
at_boundary (c ∷ s) = not (is_word c)

abbrev kinds : List Text
kinds =
    codes "v=spf1"
    ∷ codes "v=dmarc1"
    ∷ codes "v=stsv1"
    ∷ codes "v=tlsrptv1"
    ∷ codes "v=bimi1"
    ∷ codes "v=dkim1"
    ∷ []

abbrev find_kind : Text → List Text → Option Text
find_kind c [] = none
find_kind c (k ∷ ks) =
    if starts_with c k && at_boundary (drop (length k) c) then some k else find_kind c ks

abbrev or_verify : Text → Option Text → Option Text
or_verify c (some k) = some k
or_verify c none =
    if starts_with c (codes "justmail-verify=") then some (codes "justmail-verify") else none

-- `split(/\s+/)` of a trimmed text, without the empty part that an empty text has.
abbrev onto_word : ℕ → List Text → List Text
onto_word c [] = (c ∷ []) ∷ []
onto_word c (w ∷ ws) = (c ∷ w) ∷ ws

abbrev begins_space : Text → Bool
begins_space [] = true
begins_space (c ∷ s) = is_space c

abbrev words : Text → List Text
words [] = []
words (c ∷ s) =
    if is_space c
    then words s
    else if begins_space s
    then (c ∷ []) ∷ words s
    else onto_word c (words s)

abbrev host_of : List Text → Text
host_of [] = []
host_of (w ∷ []) = w
host_of (w ∷ x ∷ ws) = x

abbrev pub same_kind : Option Text → Option Text → Bool
same_kind none b = false
same_kind (some a) none = false
same_kind (some a) (some b) = text_eq a b

abbrev pub first_of {ℓ} : {A : Type ℓ} → List A → Option A
first_of [] = none
first_of (x ∷ xs) = some x

-- `e.id !== chosen?.id`
abbrev pub is_other : Option ProviderRecord → ProviderRecord → Bool
is_other none e = true
is_other (some c) e = not (text_eq e.id c.id)

module _ (lower_case : Text → Text) where
  -- `txtKind`
  unfoldable pub txt_kind : Text → Option Text
  unfolding strip
  txt_kind content = let c = lower_case (strip content) in or_verify c (find_kind c kinds)

  -- `mxHost`
  unfoldable pub mx_host : Text → Text
  mx_host content = lower_case (drop_last b'.' (host_of (words (trim content))))

  abbrev pub of_kind : Text → ProviderRecord → Bool
  of_kind content e = same_kind (txt_kind content) (txt_kind e.content)

  -- `chooseExisting`
  unfoldable pub choose_existing : ExpectedRecord → List ProviderRecord → Option ProviderRecord
  choose_existing expected existing =
      elim (first? (λ e. text_eq (strip e.content) (strip expected.content)) existing) [
        | some exact ↦ some exact
        | none ↦
            if expected.type ≐ "TXT"
            then first? (of_kind expected.content) existing
            else if expected.type ≐ "MX"
            then first? (λ e. text_eq (mx_host e.content) (mx_host expected.content)) existing
            else if expected.type ≐ "CAA"
            then none
            else first_of existing
      ]

  -- `staleDuplicates`
  unfoldable pub stale_duplicates :
      ExpectedRecord → List ProviderRecord → Option ProviderRecord → List ProviderRecord
  stale_duplicates expected existing chosen =
      if expected.type ≐ "TXT"
      then select (λ e. of_kind expected.content e && is_other chosen e) existing
      else []
