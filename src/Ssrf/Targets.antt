-- ===== src/Ssrf/Targets.antt =====
-- Which URLs pass the check of apps/api/src/common/ssrf.ts.
use justmail.Prelude.{
  ℕ, ◌≡◌, ◌≢◌, ◌<◌, ◌⊎◌, ◌↔◌, false, List, [], ◌∷◌, Option, none, some, arith, Text, codes,
  text_eq_iff, ◌==◌, refl, inl, inr, Option-cases, List-cases, All, Bool-cases, ◌∙◌, ap,
}
use justmail.Ssrf.Ranges.{number, IsNonPublic, is_blocked_v4_iff}
use justmail.Ssrf.{
  octets, is_blocked_v4, is_blocked_v6, Url, is_blocked_address, strip_brackets, any_blocked,
  check_resolved, check_host, check_url, assert_public_http_url,
}

-- `isIP` answers 4 only for four decimal numbers below 256 with dots between them.
abbrev pub ReadsV4 : (Text → ℕ) → Type 0
ReadsV4 is_ip =
    (addr : Text)
    → is_ip addr ≡ 4
    → (a : ℕ) × (b : ℕ) × (c : ℕ) × (d : ℕ) × (octets addr ≡ some (a ∷ b ∷ c ∷ d ∷ []))
      × (a < 256)
      × (b < 256)
      × (c < 256)
      × (d < 256)

-- An address that the guard lets a request reach: an IPv4 address outside the blocks of
-- `IsNonPublic`, or an IPv6 address that `isBlockedV6` does not name. The latter are more than the
-- public ones, as `is_blocked_v6_mapped_hex` shows.
pub data IsAllowed (is_ip : Text → ℕ) (addr : Text) : Type 0 where
  v4 :
      (a b c d : ℕ)
      → is_ip addr ≡ 4
      → octets addr ≡ some (a ∷ b ∷ c ∷ d ∷ [])
      → a < 256
      → b < 256
      → c < 256
      → d < 256
      → ¬ IsNonPublic (number a b c d)
      → IsAllowed is_ip addr
  v6 : is_ip addr ≡ 6 → is_blocked_v6 addr ≡ false → IsAllowed is_ip addr

IsAllowed-v4 :
    (is_ip : Text → ℕ) (addr : Text)
    → ReadsV4 is_ip
    → is_ip addr ≡ 4
    → is_blocked_v4 addr ≡ false
    → IsAllowed is_ip addr
IsAllowed-v4 is_ip addr reads four free =
    let (a, b, c, d, read, ha, hb, hc, hd) = reads addr four in
    v4 a b c d four read ha hb hc hd (λ bad.
      let blocked = (is_blocked_v4_iff addr a b c d read ha hb hc hd).1 bad in
      absurd (ground (arith, blocked)))

is_blocked_address-IsAllowed :
    (is_ip : Text → ℕ) (addr : Text)
    → ReadsV4 is_ip
    → is_blocked_address is_ip addr ≡ false
    → IsAllowed is_ip addr
unfolding is_blocked_address
is_blocked_address-IsAllowed is_ip addr reads h = elim (Bool-cases (is_ip addr == 4)) [
  | inl four ↦ IsAllowed-v4 is_ip addr reads (ground arith) (ground (arith, four))
  | inr not_four ↦ elim (Bool-cases (is_ip addr == 6)) [
    | inl six ↦ v6 (ground arith) (ground (arith, not_four, six))
    | inr neither ↦ absurd (ground (arith, not_four, neither))
  ]
]

IsAllowed-is_blocked_address :
    (is_ip : Text → ℕ) (addr : Text) → IsAllowed is_ip addr → is_blocked_address is_ip addr ≡ false
unfolding is_blocked_address
IsAllowed-is_blocked_address is_ip addr (v6 six free) = ground arith
IsAllowed-is_blocked_address is_ip addr (v4 a b c d four read ha hb hc hd outside) =
    elim (Bool-cases (is_blocked_v4 addr)) [
      | inl blocked ↦ absurd (outside ((is_blocked_v4_iff addr a b c d read ha hb hc hd).0 blocked))
      | inr free ↦ ground (arith, free)
    ]

IsAllowed-ne : (is_ip : Text → ℕ) (addr : Text) → IsAllowed is_ip addr → is_ip addr ≢ 0
IsAllowed-ne is_ip addr (v6 six free) = ground arith
IsAllowed-ne is_ip addr (v4 a b c d four read ha hb hc hd outside) = ground arith

any_blocked-All :
    (is_ip : Text → ℕ) (addrs : List Text)
    → ReadsV4 is_ip
    → any_blocked is_ip addrs ≡ false
    → All (IsAllowed is_ip) addrs
any_blocked-All is_ip [] reads h = tt
any_blocked-All is_ip (a ∷ rest) reads h = (
  is_blocked_address-IsAllowed is_ip a reads (ground arith),
  any_blocked-All is_ip rest reads (ground arith),
)

any_blocked-All_converse :
    (is_ip : Text → ℕ) (addrs : List Text)
    → All (IsAllowed is_ip) addrs
    → any_blocked is_ip addrs ≡ false
any_blocked-All_converse is_ip [] h = refl
any_blocked-All_converse is_ip (a ∷ rest) (p, h) =
    ground (arith, IsAllowed-is_blocked_address is_ip a p, any_blocked-All_converse is_ip rest h)

module _ (is_ip : Text → ℕ) (resolve : Text → Option (List Text)) where
  -- The guard allows every address that a request to the host can reach, and there is one.
  pub data ReachesAllowed (host : Text) : Type 0 where
    literal : IsAllowed is_ip host → ReachesAllowed host
    named :
        (a : Text) (rest : List Text)
        → is_ip host ≡ 0
        → resolve host ≡ some (a ∷ rest)
        → All (IsAllowed is_ip) (a ∷ rest)
        → ReachesAllowed host

module _ (is_ip : Text → ℕ) (parse_url : Text → Option Url)
    (resolve : Text → Option (List Text)) where
  check_host-ReachesAllowed :
      (host : Text)
      → ReadsV4 is_ip
      → check_host is_ip parse_url resolve host ≡ none
      → ReachesAllowed is_ip resolve host
  unfolding check_host check_resolved
  check_host-ReachesAllowed host reads h = elim (Bool-cases (is_ip host == 0)) [
    | inr lit ↦ literal (is_blocked_address-IsAllowed is_ip host reads (ground arith))
    | inl name ↦ elim (Option-cases (resolve host)) [
      | inl failed ↦ absurd (ground arith)
      | inr (addrs, found) ↦ elim (List-cases addrs) [
        | inl empty ↦ absurd (ground arith)
        | inr (a, rest, e) ↦
            named a rest (ground arith) (found ∙ ap some e)
              (any_blocked-All is_ip (a ∷ rest) reads (ground arith))
      ]
    ]
  ]

  ReachesAllowed-check_host :
      (host : Text)
      → ReachesAllowed is_ip resolve host
      → check_host is_ip parse_url resolve host ≡ none
  unfolding check_host check_resolved
  ReachesAllowed-check_host host (literal p) =
      ground (arith, IsAllowed-ne is_ip host p, IsAllowed-is_blocked_address is_ip host p)
  ReachesAllowed-check_host host (named a rest p q h) =
      ground (arith, any_blocked-All_converse is_ip (a ∷ rest) h)

  -- Where `isIP` answers 4 only for dotted IPv4 addresses, a URL passes exactly when it parses, its
  -- protocol is http or https, and its host (without the brackets) is an address that the guard
  -- allows, or is none and resolves to at least one address and only to such ones. Allowed are the
  -- IPv4 addresses outside the blocks of is_blocked_v4_iff, and the IPv6 addresses that isBlockedV6
  -- does not name, which are more than the public ones: is_blocked_v6_mapped_hex has the exception.
  pub assert_public_http_url_iff :
      (raw : Text)
      → ReadsV4 is_ip
      → (assert_public_http_url is_ip parse_url resolve raw ≡ none) ↔ (
          (url : Url) × (parse_url raw ≡ some url)
          × ((url.protocol ≡ codes "http:") ⊎ (url.protocol ≡ codes "https:"))
          × ReachesAllowed is_ip resolve (strip_brackets url.hostname))
  unfolding assert_public_http_url check_url
  assert_public_http_url_iff raw reads = (
    λ h. elim (Option-cases (parse_url raw)) [
      | inl bad ↦ absurd (ground arith)
      | inr (url, parsed) ↦ (
        url,
        parsed,
        ground (
          arith,
          text_eq_iff url.protocol (codes "http:"),
          text_eq_iff url.protocol (codes "https:"),
        ),
        check_host-ReachesAllowed (strip_brackets url.hostname) reads (ground arith),
      )
    ],
    λ (url, parsed, web, host). ground (
      arith,
      text_eq_iff url.protocol (codes "http:"),
      text_eq_iff url.protocol (codes "https:"),
      ReachesAllowed-check_host (strip_brackets url.hostname) host,
    ),
  )
