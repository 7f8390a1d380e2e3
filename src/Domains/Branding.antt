-- ===== src/Domains/Branding.antt =====
-- What `validateBimiSvg` of apps/api/src/domains/bimi.ts keeps out, and that the seeded records of
-- domains.service.ts agree with it.
use justmail.Prelude.{
  ℕ, ◌≡◌, IsIn, inl, inr, true, false, List, [], ◌∷◌, ◌++◌, map, Option, none, some, Text, codes,
  arith, refl, ap, sym, ◌∙◌, ◌==◌, append_assoc, text_eq,
}
use justmail.Prelude.Table.{select}
use justmail.Prelude.Texts.{starts_with, includes, is_space}
use justmail.Prelude.Regex.{Re, Matches, match, test, test_misses}
use justmail.Domains.Seeds.{replace_from, replace_all, subst_all, Seed, seed_records, seeded, place}
use justmail.Domains.Bimi.{
  validate_bimi_svg, script, foreign_object, handler, remote, entity, doctype, record_content,
  dmarc_policy, dmarc_ok,
}

-- What a mark must not contain.
abbrev pub forbidden_parts : List Re
forbidden_parts = script ∷ foreign_object ∷ handler ∷ remote ∷ entity ∷ doctype ∷ []

valid-tests :
    (decode : Text → Text) (body : Text) (kind : Option Text)
    → validate_bimi_svg decode body kind ≡ none
    → (test script (decode body) ≡ false)
      × (test foreign_object (decode body) ≡ false)
      × (test handler (decode body) ≡ false)
      × (test remote (decode body) ≡ false)
      × (test entity (decode body) ≡ false)
      × (test doctype (decode body) ≡ false)
unfolding validate_bimi_svg
valid-tests decode body kind h =
    (ground arith, ground arith, ground arith, ground arith, ground arith, ground arith)

-- A logo that is accepted has no script, foreign object, event handler, remote reference or entity
-- declaration at any place of its text, as the expressions of the source describe them.
pub validate_bimi_svg_lem :
    (decode : Text → Text) (body : Text) (kind : Option Text) (part : Re) (before s rest : Text)
    → validate_bimi_svg decode body kind ≡ none
    → IsIn part forbidden_parts
    → decode body ≡ before ++ s
    → ¬ Matches part s rest
validate_bimi_svg_lem decode body kind part before s rest h bad e m =
    let (a, b, c, d, f, g) = valid-tests decode body kind h in
    elim bad [
      | inl this ↦ test_misses script before s rest (rw e at a) (rw this at m)
      | inr (inl this) ↦ test_misses foreign_object before s rest (rw e at b) (rw this at m)
      | inr (inr (inl this)) ↦ test_misses handler before s rest (rw e at c) (rw this at m)
      | inr (inr (inr (inl this))) ↦ test_misses remote before s rest (rw e at d) (rw this at m)
      | inr (inr (inr (inr (inl this)))) ↦
          test_misses entity before s rest (rw e at f) (rw this at m)
      | inr (inr (inr (inr (inr (inl this))))) ↦
          test_misses doctype before s rest (rw e at g) (rw this at m)
      | inr (inr (inr (inr (inr (inr none_left))))) ↦ elim none_left [ ]
    ]

-- A text without the character that begins a placeholder.
abbrev pub NoDollar : Text → Type 0
NoDollar [] = Unit
NoDollar (c ∷ s) = ((c == b'$') ≡ false) × NoDollar s

pub includes-NoDollar : (s : Text) → includes b'$' s ≡ false → NoDollar s
unfolding includes
includes-NoDollar [] h = tt
includes-NoDollar (c ∷ s) h = (ground arith, includes-NoDollar s (ground arith))

replace_skips :
    (pattern by s t : Text)
    → NoDollar s
    → replace_from (b'$' ∷ pattern) by 0 (s ++ t) ≡ s ++ replace_from (b'$' ∷ pattern) by 0 t
unfolding starts_with
replace_skips pattern by [] t h = refl
replace_skips pattern by (c ∷ s) t (hc, h) = ground (arith, replace_skips pattern by s t h)

replace_none : (pattern by s : Text) → NoDollar s → replace_from (b'$' ∷ pattern) by 0 s ≡ s
unfolding starts_with
replace_none pattern by [] h = refl
replace_none pattern by (c ∷ s) (hc, h) = ground (arith, replace_none pattern by s h)

NoDollar-append : (s t : Text) → NoDollar s → NoDollar t → NoDollar (s ++ t)
NoDollar-append [] t hs ht = ht
NoDollar-append (c ∷ s) t (hc, hs) ht = (hc, NoDollar-append s t hs ht)

replace_here :
    (by tail : Text)
    → replace_from (codes "${DOMAIN}") by 0 (codes "${DOMAIN}" ++ tail)
      ≡ by ++ replace_from (codes "${DOMAIN}") by 0 tail
unfolding starts_with
replace_here by tail = refl

-- A template with one placeholder, that of the domain.
subst_domain :
    (name token root head tail : Text)
    → NoDollar name
    → NoDollar head
    → NoDollar tail
    → subst_all name token root (head ++ (codes "${DOMAIN}" ++ tail)) ≡ head ++ (name ++ tail)
unfolding replace_all
subst_domain name token root head tail hn hh ht =
    let done = NoDollar-append head (name ++ tail) hh (NoDollar-append name tail hn ht) in
    rw (replace_skips (codes "{DOMAIN}") name head (codes "${DOMAIN}" ++ tail) hh) (
      rw (replace_here name tail) (
        rw (replace_none (codes "{DOMAIN}") name tail ht) (
          rw (replace_none (codes "{TOKEN}") token (head ++ (name ++ tail)) done)
            (replace_none (codes "{MAIL_ROOT}") root (head ++ (name ++ tail)) done))))

-- The records of `SEED_RECORDS` with a purpose, as they are seeded.
abbrev pub contents : ℕ → Text → ℕ → Text → Text → List Text
contents purpose root domain name token =
    map (λ s. (seeded root domain name token s).content)
      (select (λ (s : Seed). place s.purpose == purpose) seed_records)

record_content-tail :
    (name : Text)
    → record_content name
      ≡ codes "v=BIMI1; l=https://" ++ (name ++ codes "/.well-known/bimi-logo.svg; a=")
unfolding record_content
record_content-tail name =
    rw (append_assoc name (codes "/.well-known/bimi-logo.svg") (codes "; a=")) refl

seeded_bimi :
    (root : Text) (domain : ℕ) (name token : Text)
    → NoDollar name
    → contents 9 root domain name token ≡ record_content name ∷ []
unfolding includes
seeded_bimi root domain name token h =
    ap (λ c. c ∷ [])
      (subst_domain name token root (codes "v=BIMI1; l=https://")
          (codes "/.well-known/bimi-logo.svg; a=") h
          (includes-NoDollar (codes "v=BIMI1; l=https://") refl)
          (includes-NoDollar (codes "/.well-known/bimi-logo.svg; a=") refl)
        ∙ sym (record_content-tail name))

seeded_dmarc :
    (root : Text) (domain : ℕ) (name token : Text)
    → map (λ c. dmarc_ok (dmarc_policy (some c))) (contents 4 root domain name token) ≡ true ∷ []
unfolding replace_all dmarc_policy starts_with match is_space text_eq
seeded_dmarc root domain name token = refl

-- A new domain is set up for its brand logo: the one BIMI record that is seeded for a name without
-- a dollar sign is the record that `bimiRecordContent` shows for it, and the policy of the one DMARC
-- record that is seeded is one under which receivers heed BIMI.
pub seeded_branding :
    (root : Text) (domain : ℕ) (name token : Text)
    → NoDollar name
    → (contents 9 root domain name token ≡ record_content name ∷ [])
      × (map (λ c. dmarc_ok (dmarc_policy (some c))) (contents 4 root domain name token)
          ≡ true ∷ [])
seeded_branding root domain name token h =
    (seeded_bimi root domain name token h, seeded_dmarc root domain name token)
