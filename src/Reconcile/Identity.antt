-- ===== src/Reconcile/Identity.antt =====
-- Which of a provider's records apps/api/src/dkim/dns-reconcile.ts overwrites or deletes.
use justmail.Prelude.{
  ◌≡◌, ◌≢◌, ◌↔◌, Bool, true, false, ◌&&◌, List, [], ◌∷◌, Option, none, some, String, Text, text_eq,
  text_eq_iff, text_eq_refl, ◌≐◌, eq_iff, IsIn, arith, refl, Bool-cases, inl, inr, sym, subst,
  and-eq-true, ap, Option-cases,
}
use justmail.Prelude.Table.{select, first?}
use justmail.Reconcile.{
  ProviderRecord, ExpectedRecord, strip, txt_kind, mx_host, of_kind, same_kind, first_of, is_other,
  choose_existing, stale_duplicates,
}

first-IsIn :
    (p : ProviderRecord → Bool) (xs : List ProviderRecord) (e : ProviderRecord)
    → first? p xs ≡ some e
    → IsIn e xs × (p e ≡ true)
first-IsIn p [] e h = absurd (ground arith)
first-IsIn p (x ∷ xs) e h = elim (Bool-cases (p x)) [
  | inl found ↦
      let same : x ≡ e = ground arith in (inl (sym same), subst (λ z. p z ≡ true) same found)
  | inr other ↦ let (i, t) = first-IsIn p xs e (ground arith) in (inr i, t)
]

select_iff :
    (p : ProviderRecord → Bool) (xs : List ProviderRecord) (e : ProviderRecord)
    → IsIn e (select p xs) ↔ (IsIn e xs × (p e ≡ true))
select_iff p [] e = (λ h. absurd h, λ (h, t). absurd h)
select_iff p (x ∷ xs) e = elim (Bool-cases (p x)) [
  | inl found ↦ rw found (
    λ h. elim h [
      | inl same ↦ (inl same, rw same found)
      | inr i ↦ let (j, t) = (select_iff p xs e).0 i in (inr j, t)
    ],
    λ (h, t). elim h [ inl same ↦ inl same | inr i ↦ inr ((select_iff p xs e).1 (i, t)) ],
  )
  | inr other ↦ rw other (
    λ h. let (j, t) = (select_iff p xs e).0 h in (inr j, t),
    λ (h, t). elim h [
      | inl same ↦ absurd (ground (arith, ap p same))
      | inr i ↦ (select_iff p xs e).1 (i, t)
    ],
  )
]

differs : (a b : String) → (a ≐ b) ≡ false → a ≢ b
differs a b h same = ground (arith, (eq_iff a b).1 same)

exact_chosen :
    (lower_case : Text → Text) (expected : ExpectedRecord) (existing : List ProviderRecord)
    (r e : ProviderRecord)
    → first? (λ r. text_eq (strip r.content) (strip expected.content)) existing ≡ some r
    → choose_existing lower_case expected existing ≡ some e
    → r ≡ e
unfolding choose_existing
exact_chosen lower_case expected existing r e found h = ground arith

module _ (lower_case : Text → Text) where
  -- The records that the expected one may take the place of: one of the same content, a TXT record of
  -- the same recognised kind, an MX record of the same host, and for a type that is none of TXT, MX and
  -- CAA the first one.
  pub data IsSame (expected : ExpectedRecord) (existing : List ProviderRecord) (e : ProviderRecord)
      : Type 0 where
    exact : strip e.content ≡ strip expected.content → IsSame expected existing e
    by_kind :
        expected.type ≡ "TXT"
        → (kind : Text) → txt_kind lower_case expected.content ≡ some kind
        → txt_kind lower_case e.content ≡ some kind
        → IsSame expected existing e
    by_host :
        expected.type ≡ "MX"
        → mx_host lower_case e.content ≡ mx_host lower_case expected.content
        → IsSame expected existing e
    by_name :
        expected.type ≢ "TXT"
        → expected.type ≢ "MX"
        → expected.type ≢ "CAA"
        → first_of existing ≡ some e
        → IsSame expected existing e

  kinds_agree :
      (a b : Option Text) → same_kind a b ≡ true → (kind : Text) × (a ≡ some kind) × (b ≡ some kind)
  kinds_agree none b h = absurd (ground arith)
  kinds_agree (some a) none h = absurd (ground arith)
  kinds_agree (some a) (some b) h = (a, refl, rw ((text_eq_iff a b).0 h) refl)

  head-IsIn : (xs : List ProviderRecord) (e : ProviderRecord) → first_of xs ≡ some e → IsIn e xs
  head-IsIn [] e h = absurd (ground arith)
  head-IsIn (x ∷ xs) e h = inl (ground arith)

  -- Without a record of the same content, by the type of the expected one.
  choose_inexact :
      (expected : ExpectedRecord) (existing : List ProviderRecord) (e : ProviderRecord)
      → first? (λ r. text_eq (strip r.content) (strip expected.content)) existing ≡ none
      → choose_existing lower_case expected existing ≡ some e
      → IsIn e existing × IsSame expected existing e
  unfolding choose_existing
  choose_inexact expected existing e missing h = elim (Bool-cases (expected.type ≐ "TXT")) [
    | inl txt ↦
        let (i, t) = first-IsIn (of_kind lower_case expected.content) existing e (ground arith) in
        let (kind, a, b) =
          kinds_agree (txt_kind lower_case expected.content) (txt_kind lower_case e.content) t in
        (i, by_kind ((eq_iff expected.type "TXT").0 txt) kind a b)
    | inr not_txt ↦ elim (Bool-cases (expected.type ≐ "MX")) [
      | inl mx ↦
          let (i, t) =
            first-IsIn
              (λ r. text_eq (mx_host lower_case r.content) (mx_host lower_case expected.content))
              existing e (ground arith) in
          (
            i,
            by_host ((eq_iff expected.type "MX").0 mx) (
                (text_eq_iff (mx_host lower_case e.content) (mx_host lower_case expected.content)).0
                  t),
          )
      | inr not_mx ↦ elim (Bool-cases (expected.type ≐ "CAA")) [
        | inl caa ↦ absurd (ground arith)
        | inr not_caa ↦
            let chosen : first_of existing ≡ some e = ground arith in
            (
              head-IsIn existing e chosen,
              by_name (differs expected.type "TXT" not_txt) (differs expected.type "MX" not_mx)
                  (differs expected.type "CAA" not_caa) chosen,
            )
      ]
    ]
  ]

  -- A synchronisation overwrites only a record that the provider holds under that name, and only
  -- one of the same content, or for a TXT record one of the same recognised kind, for an MX record
  -- one of the same host, and for a type that is none of TXT, MX and CAA the first one.
  pub choose_existing_lem :
      (expected : ExpectedRecord) (existing : List ProviderRecord) (e : ProviderRecord)
      → choose_existing lower_case expected existing ≡ some e
      → IsIn e existing × IsSame expected existing e
  choose_existing_lem expected existing e h =
      let same = λ (r : ProviderRecord). text_eq (strip r.content) (strip expected.content) in
      elim (Option-cases (first? same existing)) [
        | inl missing ↦ choose_inexact expected existing e missing h
        | inr (r, found) ↦
            let (i, t) = first-IsIn same existing r found in
            subst (λ z. IsIn z existing × IsSame expected existing z)
              (exact_chosen lower_case expected existing r e found h)
              (i, exact ((text_eq_iff (strip r.content) (strip expected.content)).0 t))
      ]

  -- After the write exactly those TXT records are deleted that have the recognised kind of the expected
  -- one and are not the chosen record; for another type, or a content of no recognised kind, none is.
  pub stale_duplicates_iff :
      (expected : ExpectedRecord) (existing : List ProviderRecord) (chosen : Option ProviderRecord)
      (e : ProviderRecord)
      → IsIn e (stale_duplicates lower_case expected existing chosen) ↔ (
          (expected.type ≡ "TXT")
          × IsIn e existing
          × ((kind : Text) × (txt_kind lower_case expected.content ≡ some kind)
              × (txt_kind lower_case e.content ≡ some kind))
          × (is_other chosen e ≡ true))
  unfolding stale_duplicates
  stale_duplicates_iff expected existing chosen e =
      let p = λ (r : ProviderRecord). of_kind lower_case expected.content r && is_other chosen r in
      let (out, back) = select_iff p existing e in
      elim (Bool-cases (expected.type ≐ "TXT")) [
        | inl txt ↦ rw txt (
          λ h.
              let (i, t) = out h in
              let (k, other) =
                and-eq-true (of_kind lower_case expected.content e) (is_other chosen e) t in
              (
                (eq_iff expected.type "TXT").0 txt,
                i,
                kinds_agree (txt_kind lower_case expected.content) (txt_kind lower_case e.content)
                    k,
                other,
              ),
          λ (_, i, (kind, a, b), other). back (i, rw a (rw b (rw (text_eq_refl kind) other))),
        )
        | inr not_txt ↦
            rw not_txt
              (λ h. absurd h, λ (txt, _, _, _). absurd (differs expected.type "TXT" not_txt txt))
      ]
