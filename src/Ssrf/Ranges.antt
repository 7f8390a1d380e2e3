-- ===== src/Ssrf/Ranges.antt =====
-- The address tests of apps/api/src/common/ssrf.ts against the address blocks.
use justmail.Prelude.{
  ℕ, ◌+◌, ◌*◌, ◌/◌, ◌^◌, ◌-◌, ◌<◌, ◌≡◌, ◌⊎◌, ◌↔◌, true, false, [], ◌∷◌, ◌++◌, none, some, arith,
  Text, codes, refl, All, ◌≢◌,
}
use justmail.Prelude.Texts.{split, to_lower, lower}
use justmail.Ssrf.{
  octets, blocked_pair, is_blocked_v4, mapped, without_zone, blocked_v6_addr, is_blocked_v6,
}

-- The address as a 32-bit number.
abbrev pub number : ℕ → ℕ → ℕ → ℕ → ℕ
number a b c d = a * 2 ^ 24 + b * 2 ^ 16 + c * 2 ^ 8 + d

-- `n` lies in the block `net/len`.
abbrev pub InBlock : ℕ → ℕ → ℕ → Type 0
InBlock net len n = n / 2 ^ (32 - len) ≡ net / 2 ^ (32 - len)

-- 0/8, 10/8, 127/8, 169.254/16, 172.16/12, 192.168/16, 100.64/10, and 224/4 with 240/4.
abbrev pub IsNonPublic : ℕ → Type 0
IsNonPublic n =
    InBlock (number 0 0 0 0) 8 n
    ⊎ InBlock (number 10 0 0 0) 8 n
    ⊎ InBlock (number 127 0 0 0) 8 n
    ⊎ InBlock (number 169 254 0 0) 16 n
    ⊎ InBlock (number 172 16 0 0) 12 n
    ⊎ InBlock (number 192 168 0 0) 16 n
    ⊎ InBlock (number 100 64 0 0) 10 n
    ⊎ InBlock (number 224 0 0 0) 4 n
    ⊎ InBlock (number 240 0 0 0) 4 n

blocked_pair_sound :
    (a b c d : ℕ)
    → a < 256
    → b < 256
    → c < 256
    → d < 256
    → blocked_pair a b ≡ true
    → IsNonPublic (number a b c d)
blocked_pair_sound a b c d ha hb hc hd h = ground arith

blocked_pair_complete :
    (a b c d : ℕ)
    → a < 256
    → b < 256
    → c < 256
    → d < 256
    → IsNonPublic (number a b c d)
    → blocked_pair a b ≡ true
blocked_pair_complete a b c d ha hb hc hd h = ground arith

-- A dotted address with all four octets below 256 is refused exactly when, as a 32-bit number, it
-- lies in one of the blocks 0/8, 10/8, 127/8, 169.254/16, 172.16/12, 192.168/16, 100.64/10, 224/4
-- and 240/4.
pub is_blocked_v4_iff :
    (ip : Text) (a b c d : ℕ)
    → octets ip ≡ some (a ∷ b ∷ c ∷ d ∷ [])
    → a < 256
    → b < 256
    → c < 256
    → d < 256
    → (is_blocked_v4 ip ≡ true) ↔ IsNonPublic (number a b c d)
unfolding is_blocked_v4
is_blocked_v4_iff ip a b c d e ha hb hc hd = (
  λ h. blocked_pair_sound a b c d ha hb hc hd (ground arith),
  λ h. ground (arith, blocked_pair_complete a b c d ha hb hc hd h),
)

-- Characters of an address after folding: no zone, no dot.
abbrev pub IsHexGroup : Text → Type 0
IsHexGroup = All (λ c. (c ≢ b'.') × (c ≢ b'%') × (lower c ≡ c))

to_lower-IsHexGroup : (s : Text) → IsHexGroup s → to_lower s ≡ s
to_lower-IsHexGroup [] h = refl
to_lower-IsHexGroup (c ∷ s) (p, h) = cc (p.2, to_lower-IsHexGroup s h)

split_absent : (sep : ℕ) (s : Text) → All (λ c. c ≢ sep) s → split sep s ≡ s ∷ []
unfolding split
split_absent sep [] h = refl
split_absent sep (c ∷ s) (p, h) = ground (arith, split_absent sep s h)

IsHexGroup-no_dot : (s : Text) → IsHexGroup s → All (λ c. c ≢ b'.') s
IsHexGroup-no_dot [] h = tt
IsHexGroup-no_dot (c ∷ s) (p, h) = (p.0, IsHexGroup-no_dot s h)

IsHexGroup-no_zone : (s : Text) → IsHexGroup s → All (λ c. c ≢ b'%') s
IsHexGroup-no_zone [] h = tt
IsHexGroup-no_zone (c ∷ s) (p, h) = (p.1, IsHexGroup-no_zone s h)

mapped-IsHexGroup : (s : Text) → IsHexGroup s → mapped (codes "::ffff:" ++ s) ≡ none
unfolding mapped
mapped-IsHexGroup s h = rw (split_absent b'.' s (IsHexGroup-no_dot s h)) (ground arith)

IsHexGroup-mapped : (s : Text) → IsHexGroup s → IsHexGroup (codes "::ffff:" ++ s)
IsHexGroup-mapped s h = ground arith

without_zone-IsHexGroup : (s : Text) → IsHexGroup s → without_zone s ≡ s
unfolding without_zone
without_zone-IsHexGroup s h =
    rw (to_lower-IsHexGroup s h) (rw (split_absent b'%' s (IsHexGroup-no_zone s h)) refl)

passes_tests : (s : Text) → IsHexGroup s → blocked_v6_addr (codes "::ffff:" ++ s) ≡ false
unfolding blocked_v6_addr
passes_tests s h = rw (mapped-IsHexGroup s h) (ground arith)

-- An IPv4-mapped address whose embedded address is written in lower case, with no dot and no zone,
-- as the hexadecimal groups are that the URL parser prints, is never refused, whatever the
-- embedded address.
pub is_blocked_v6_mapped_hex :
    (s : Text) → IsHexGroup s → is_blocked_v6 (codes "::ffff:" ++ s) ≡ false
unfolding is_blocked_v6
is_blocked_v6_mapped_hex s h =
    rw (without_zone-IsHexGroup (codes "::ffff:" ++ s) (IsHexGroup-mapped s h)) (passes_tests s h)

link_local_passes :
    (c : ℕ) (s : Text)
    → (c ≡ b'9') ⊎ (c ≡ b'a') ⊎ (c ≡ b'b')
    → blocked_v6_addr (b'f' ∷ b'e' ∷ c ∷ s) ≡ false
unfolding blocked_v6_addr mapped
link_local_passes c s h = ground arith

-- An address without dot or zone, in lower case, that begins with fe9, fea or feb is not refused;
-- with a fourth digit in its first group it lies in the link-local block fe80::/10.
pub is_blocked_v6_link_local :
    (c : ℕ) (s : Text)
    → (c ≡ b'9') ⊎ (c ≡ b'a') ⊎ (c ≡ b'b')
    → IsHexGroup s
    → is_blocked_v6 (b'f' ∷ b'e' ∷ c ∷ s) ≡ false
unfolding is_blocked_v6
is_blocked_v6_link_local c s hc h =
    let whole : IsHexGroup (b'f' ∷ b'e' ∷ c ∷ s) = ground arith in
    rw (without_zone-IsHexGroup (b'f' ∷ b'e' ∷ c ∷ s) whole) (link_local_passes c s hc)
