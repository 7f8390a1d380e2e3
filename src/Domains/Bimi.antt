-- ===== src/Domains/Bimi.antt =====
-- apps/api/src/domains/bimi.ts, and the methods of domains.service.ts for the brand logo. The objects
-- of the storage are a function of the organization and the key; `decode` is the UTF-8 decoder,
-- `print` the decimal of a number, `base64` the encoder.
use justmail.Prelude.{
  ℕ, ◌*◌, Bool, false, not, ◌&&◌, ◌||◌, List, [], ◌∷◌, ◌++◌, Option, none, some, String, Text,
  codes, text_eq, length, ltb, leb, ◌==◌, if◌then◌else◌,
}
use justmail.Prelude.Texts.{to_lower, starts_with, is_space, is_digit}
use justmail.Prelude.Regex.{Re, unit, many, followed, either, literal, match, test}

-- `BIMI_MAX_BYTES`
abbrev pub max_bytes : ℕ
max_bytes = 32 * 1024

-- `BIMI_CONTENT_TYPE`
abbrev pub content_type : Text
content_type = codes "image/svg+xml"

-- `BIMI_LOGO_PATH`
abbrev pub logo_path : Text
logo_path = codes ".well-known/bimi-logo.svg"

abbrev pub letter : ℕ → Bool
letter c = leb b'a' c && leb c b'z' || leb b'A' c && leb c b'Z'

-- `\w`
abbrev pub word_unit : ℕ → Bool
word_unit c = letter c || is_digit c || c == b'_'

abbrev pub is : ℕ → Re
is c = unit (λ d. d == c)

-- `/<svg[\s>]/i`
abbrev pub svg_root : Re
svg_root = followed (literal (codes "<svg")) (unit (λ c. is_space c || c == b'>'))

abbrev pub ends_name : ℕ → Bool
ends_name c = is_space c || c == b'/' || c == b'>'

-- `/<script[\s/>]/i`
abbrev pub script : Re
script = followed (literal (codes "<script")) (unit ends_name)

-- `/<foreignObject[\s/>]/i`
abbrev pub foreign_object : Re
foreign_object = followed (literal (codes "<foreignObject")) (unit ends_name)

-- `/\son\w+\s*=/i`
abbrev pub handler : Re
handler = followed (unit is_space) (
    followed (literal (codes "on"))
      (followed (unit word_unit) (followed (many word_unit) (followed (many is_space) (is b'=')))))

-- `/(?:xlink:href|href)\s*=\s*["'](?:https?:|\/\/|data:)/i`
abbrev pub remote : Re
remote = followed (either (literal (codes "xlink:href")) (literal (codes "href"))) (
    followed (many is_space) (
      followed (is b'=') (
        followed (many is_space) (
          followed (unit (λ c. c == b'"' || c == b'\'')) (
            either (literal (codes "http:")) (
              either (literal (codes "https:"))
                (either (literal (codes "//")) (literal (codes "data:")))))))))

-- `/<!ENTITY/i`
abbrev pub entity : Re
entity = literal (codes "<!ENTITY")

-- `/<!DOCTYPE[^>]+\[/i`
abbrev pub doctype : Re
doctype =
    followed (literal (codes "<!DOCTYPE"))
      (followed (unit (λ c. not (c == b'>'))) (followed (many (λ c. not (c == b'>'))) (is b'[')))

abbrev pub wrong_type : Option Text → Bool
wrong_type none = false
wrong_type (some []) = false
wrong_type (some (c ∷ s)) = not (starts_with (to_lower (c ∷ s)) content_type)

-- `validateBimiSvg`: the reason, less the type or the size that it quotes.
unfoldable pub validate_bimi_svg : (Text → Text) → Text → Option Text → Option String
unfolding starts_with
validate_bimi_svg decode body kind =
    let svg = decode body in
    if wrong_type kind
    then some "Logo must be image/svg+xml"
    else if length body == 0
    then some "Logo is empty"
    else if ltb max_bytes (length body)
    then some "Logo is too large"
    else if not (test svg_root svg)
    then some "File does not contain an <svg> root element"
    else if test script svg
    then some "SVG must not contain <script>"
    else if test foreign_object svg
    then some "SVG must not contain <foreignObject>"
    else if test handler svg
    then some "SVG must not contain inline event handlers (on*)"
    else if test remote svg
    then some "SVG must not reference external or data: URLs"
    else if test entity svg || test doctype svg
    then some "SVG must not declare entities (XXE risk)"
    else none

-- `bimiLogoUrl`
abbrev pub logo_url : Text → Text
logo_url domain = codes "https://" ++ (domain ++ (codes "/" ++ logo_path))

-- `bimiRecordContent`
unfoldable pub record_content : Text → Text
record_content domain = codes "v=BIMI1; l=" ++ (logo_url domain ++ codes "; a=")

abbrev pub letters : Text → Text
letters [] = []
letters (c ∷ s) = if letter c then c ∷ letters s else []

-- The first rest that begins with a letter, and its letters: `([a-z]+)`.
abbrev pub capture : List Text → Option Text
capture [] = none
capture ([] ∷ rest) = capture rest
capture ((c ∷ s) ∷ rest) =
    let later = capture rest in if letter c then some (letters (c ∷ s)) else later

-- `\s*p\s*=\s*`
abbrev pub policy_tag : Re
policy_tag =
    followed (many is_space) (
      followed (literal (codes "p"))
        (followed (many is_space) (followed (is b'=') (many is_space))))

abbrev pub policy_here : Text → Option Text
policy_here s = capture (match policy_tag s)

abbrev pub or_else : Option Text → Option Text → Option Text
or_else none later = later
or_else (some a) later = some a

-- The matches behind a semicolon.
abbrev pub policy_later : Text → Option Text
policy_later [] = none
policy_later (c ∷ s) =
    let later = policy_later s in if c == b';' then or_else (policy_here s) later else later

abbrev pub lowered : Option Text → Option Text
lowered none = none
lowered (some s) = some (to_lower s)

-- `dmarcPolicy`
unfoldable pub dmarc_policy : Option Text → Option Text
unfolding match is_space
dmarc_policy none = none
dmarc_policy (some content) = lowered (or_else (policy_here content) (policy_later content))

-- `bimiDmarcOk`
abbrev pub dmarc_ok : Option Text → Bool
dmarc_ok none = false
dmarc_ok (some policy) = text_eq policy (codes "quarantine") || text_eq policy (codes "reject")
