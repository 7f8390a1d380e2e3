-- ===== src/Ssrf.antt =====
-- apps/api/src/common/ssrf.ts. Node's `isIP`, the URL parser and the resolver are parameters.
pub mod Ranges
pub mod Targets
use justmail.Prelude.{
  ℕ, Bool, true, false, not, ◌&&◌, ◌||◌, List, [], ◌∷◌, Option, none, some, Text, text_eq, codes,
  length, drop, leb, ltb, ◌==◌, if◌then◌else◌,
}
use justmail.Prelude.Texts.{to_lower, starts_with, split, head_or, decimal, is_digit}

-- `Number` on a part: the empty text is 0, and anything but digits is NaN. (The other numerals of
-- JavaScript never arrive here: `isIP` and the pattern of a mapped address let only digits pass.)
abbrev numbers : List Text → Option (List ℕ)
numbers [] = some []
numbers (p ∷ ps) = elim (decimal 0 p) [
  | none ↦ none
  | some n ↦ elim (numbers ps) [ none ↦ none | some ns ↦ some (n ∷ ns) ]
]

-- `ip.split(".").map(Number)`
unfoldable pub octets : Text → Option (List ℕ)
unfolding split
octets ip = numbers (split b'.' ip)

-- The tests on the first two octets.
abbrev pub blocked_pair : ℕ → ℕ → Bool
blocked_pair a b =
    a == 0
    || a == 10
    || a == 127
    || a == 169 && b == 254
    || a == 172 && leb 16 b && leb b 31
    || a == 192 && b == 168
    || a == 100 && leb 64 b && leb b 127
    || leb 224 a

abbrev pub blocked_octets : Option (List ℕ) → Bool
blocked_octets none = true
blocked_octets (some []) = true
blocked_octets (some (a ∷ [])) = true
blocked_octets (some (a ∷ b ∷ [])) = true
blocked_octets (some (a ∷ b ∷ c ∷ [])) = true
blocked_octets (some (a ∷ b ∷ c ∷ d ∷ [])) =
    ltb 255 a || ltb 255 b || ltb 255 c || ltb 255 d || blocked_pair a b
blocked_octets (some (a ∷ b ∷ c ∷ d ∷ e ∷ ns)) = true

-- `isBlockedV4`
unfoldable pub is_blocked_v4 : Text → Bool
is_blocked_v4 ip = blocked_octets (octets ip)

-- `\d+`
abbrev digits : Text → Bool
digits [] = false
digits (c ∷ []) = is_digit c
digits (c ∷ d ∷ s) = is_digit c && digits (d ∷ s)

abbrev four_digits : List Text → Bool
four_digits (a ∷ b ∷ c ∷ d ∷ []) = digits a && digits b && digits c && digits d
four_digits _ = false

-- `/^::ffff:(\d+\.\d+\.\d+\.\d+)$/`, with the group that it captures.
unfoldable pub mapped : Text → Option Text
unfolding split starts_with
mapped addr =
    let rest = drop 7 addr in
    if starts_with addr (codes "::ffff:") && four_digits (split b'.' rest) then some rest else none

-- `ip.toLowerCase().split("%")[0]`
unfoldable pub without_zone : Text → Text
unfolding split
without_zone ip = head_or (split b'%' (to_lower ip))

abbrev pub blocked_prefix : Text → Bool
blocked_prefix addr =
    starts_with addr (codes "fe80")
    || starts_with addr (codes "fc")
    || starts_with addr (codes "fd")

-- `isBlockedV6` behind the folding and the zone.
unfoldable pub blocked_v6_addr : Text → Bool
unfolding text_eq starts_with
blocked_v6_addr addr =
    if text_eq addr (codes "::") || text_eq addr (codes "::1")
    then true
    else elim (mapped addr) [ some v4 ↦ is_blocked_v4 v4 | none ↦ blocked_prefix addr ]

unfoldable pub is_blocked_v6 : Text → Bool
is_blocked_v6 ip = blocked_v6_addr (without_zone ip)

-- `isBlockedAddress`; `is_ip` answers 4, 6 or 0.
unfoldable pub is_blocked_address : (Text → ℕ) → Text → Bool
is_blocked_address is_ip ip =
    if is_ip ip == 4 then is_blocked_v4 ip else if is_ip ip == 6 then is_blocked_v6 ip else true

-- What the URL parser yields, as far as it is read.
pub record Url : Type 0 where
  pub protocol : Text
  pub hostname : Text

-- `SsrfError`, one constructor for each message.
pub data SsrfError : Type 0 where
  invalid_url only_http host_not_public host_does_not_resolve resolves_to_non_public : SsrfError

-- `.replace(/^\[|\]$/g, "")`: a leading `[` and a closing `]`.
abbrev strip_close : Text → Text
strip_close [] = []
strip_close (c ∷ []) = if c == b']' then [] else c ∷ []
strip_close (c ∷ d ∷ s) = c ∷ strip_close (d ∷ s)

unfoldable pub strip_brackets : Text → Text
strip_brackets [] = []
strip_brackets (c ∷ s) = if c == b'[' then strip_close s else strip_close (c ∷ s)

abbrev any_blocked : (Text → ℕ) → List Text → Bool
any_blocked is_ip [] = false
any_blocked is_ip (a ∷ rest) = is_blocked_address is_ip a || any_blocked is_ip rest

module _ (is_ip : Text → ℕ) (parse_url : Text → Option Url)
    (resolve : Text → Option (List Text)) where
  check_resolved : Option (List Text) → Option SsrfError
  check_resolved none = some host_does_not_resolve
  check_resolved (some []) = some resolves_to_non_public
  check_resolved (some (a ∷ rest)) =
      if any_blocked is_ip (a ∷ rest) then some resolves_to_non_public else none

  check_host : Text → Option SsrfError
  check_host host =
      if not (is_ip host == 0)
      then if is_blocked_address is_ip host then some host_not_public else none
      else check_resolved (resolve host)

  check_url : Option Url → Option SsrfError
  check_url none = some invalid_url
  check_url (some url) =
      if not (text_eq url.protocol (codes "http:")) && not (text_eq url.protocol (codes "https:"))
      then some only_http
      else check_host (strip_brackets url.hostname)

  -- `assertPublicHttpUrl`: `none` where it returns, and the error that it throws.
  unfoldable pub assert_public_http_url : Text → Option SsrfError
  unfolding check_url check_host check_resolved
  assert_public_http_url raw = check_url (parse_url raw)
