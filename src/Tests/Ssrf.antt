-- ===== src/Tests/Ssrf.antt =====
-- Addresses and URLs.
use justmail.Prelude.{
  if◌then◌else◌, text_eq, text_eq_iff, ◌∙◌, ℕ, ◌≡◌, ◌⊎◌, ◌↔◌, true, false, [], ◌∷◌, ◌++◌, some,
  none, Text, codes, refl, arith, Option, List,
}
use justmail.Ssrf.{
  is_blocked_address, Url, is_blocked_v4, is_blocked_v6, octets, assert_public_http_url,
  strip_brackets,
}
use justmail.Ssrf.Ranges.{number, IsNonPublic, is_blocked_v4_iff, is_blocked_v6_mapped_hex}
use justmail.Ssrf.Targets.{ReadsV4, ReachesAllowed, assert_public_http_url_iff}

is_blocked_v4_iff_example :
    (is_blocked_v4 (codes "172.31.0.9") ≡ true) ↔ IsNonPublic (number 172 31 0 9)
unfolding octets
is_blocked_v4_iff_example =
    is_blocked_v4_iff (codes "172.31.0.9") 172 31 0 9 refl (ground arith) (ground arith)
      (ground arith) (ground arith)

is_blocked_v6_mapped_hex_example : is_blocked_v6 (codes "::ffff:" ++ codes "7f00:1") ≡ false
is_blocked_v6_mapped_hex_example = is_blocked_v6_mapped_hex (codes "7f00:1") (ground arith)

abbrev site : Url
site = record { protocol = codes "https:"; hostname = codes "example.org" }

read_site : octets (codes "93.184.216.34") ≡ some (93 ∷ 184 ∷ 216 ∷ 34 ∷ [])
unfolding octets
read_site = refl

abbrev version : Text → ℕ
version host = if text_eq host (codes "93.184.216.34") then 4 else 0

abbrev parsed : Text → Option Url
parsed raw = some site

abbrev resolved : Text → Option (List Text)
resolved host = some (codes "93.184.216.34" ∷ [])

version-ReadsV4 : ReadsV4 version
version-ReadsV4 addr four =
    let is : addr ≡ codes "93.184.216.34" =
      ground (arith, text_eq_iff addr (codes "93.184.216.34")) in
    (
      93,
      184,
      216,
      34,
      (λ i. octets (is i)) ∙ read_site,
      ground arith,
      ground arith,
      ground arith,
      ground arith,
    )

assert_public_http_url_iff_example :
    (assert_public_http_url version parsed resolved (codes "https://example.org/") ≡ none) ↔ (
      (url : Url) × (parsed (codes "https://example.org/") ≡ some url)
      × ((url.protocol ≡ codes "http:") ⊎ (url.protocol ≡ codes "https:"))
      × ReachesAllowed version resolved (strip_brackets url.hostname))
assert_public_http_url_iff_example =
    assert_public_http_url_iff version parsed resolved (codes "https://example.org/")
      version-ReadsV4

-- The check passes there.
passes : assert_public_http_url version parsed resolved (codes "https://example.org/") ≡ none
unfolding assert_public_http_url text_eq strip_brackets is_blocked_address is_blocked_v4 octets
passes = refl
