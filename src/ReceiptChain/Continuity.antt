-- ===== src/ReceiptChain/Continuity.antt =====
-- Which lists of receipts `verifyChain` passes (tools/oap-receipt-chain/cli.js).
use mathlib.Core.Path.{subst}
use oap_spec.Prelude.{
  append-nil, nil-append, ap, ◌∙◌, sym, ℕ, suc, ℤ, pos, ◌≤ℤ◌, String, Bool, true, Option, none,
  some, List, [], ◌∷◌, ◌≡◌, ◌↔◌, ◌⊎◌, inl, inr, refl, arith, ◌=s=◌, eq_iff, All, Bool-cases,
  Option-cases,
}
use oap_spec.ReceiptChain.{
  Entry, Host, text_of, hash_of, next_ts, link_issues, time_issues, signature_issues, verify_from,
  verify_chain,
}

some_inj : (s t : String) → ◌≡◌ {A = Option String} (some s) (some t) → s ≡ t
some_inj s t h = cc h

module _ {N : Type 0} (host : Host N) where
  -- Each receipt has the link given, and the next the hash of it.
  abbrev pub LinkedFrom : Option String → List (Entry N) → Type 0
  LinkedFrom link [] = Unit
  LinkedFrom link (r ∷ rs) = (r.prev_receipt_hash ≡ link) × LinkedFrom (some (hash_of host r)) rs

  -- Each receipt has a date, none earlier than the one before it.
  abbrev pub DatedFrom : ℤ → List (Entry N) → Type 0
  DatedFrom least [] = Unit
  DatedFrom least (r ∷ rs) =
      (t : ℤ) × (host.date r.issued_at ≡ some t) × (least ≤ℤ t) × DatedFrom t rs

  -- There is no key, or no signature, or the signature verifies.
  abbrev pub IsVerified : Entry N → Type 0
  IsVerified r =
      (host.check ≡ none)
      ⊎ ((r.signature ≡ none)
          ⊎ ((check : String → String → Option Bool) × (value : String) × (host.check ≡ some check)
              × (r.signature ≡ some value)
              × (check (text_of host r) value ≡ some true)))

  link_issues_iff :
      (i : ℕ) (prev : Option String) (r : Entry N)
      → link_issues host i prev r ≡ [] ↔ r.prev_receipt_hash ≡ prev
  unfolding link_issues
  link_issues_iff i none r = elim (Option-cases r.prev_receipt_hash) [
    | inl e ↦ (λ h. e, λ h. ground (arith, e))
    | inr (s, e) ↦ (λ h. ground (arith, e, h), λ h. cc (e, h))
  ]
  link_issues_iff i (some t) r = elim (Option-cases r.prev_receipt_hash) [
    | inl e ↦ (λ h. ground (arith, e, h), λ h. cc (e, h))
    | inr (s, e) ↦ elim (Bool-cases (s =s= t)) [
      | inl q ↦ (λ h. e ∙ ap some ((eq_iff s t).0 q), λ h. ground (arith, e, q))
      | inr q ↦ (
        λ h. ground (arith, e, q, h),
        λ h. ground (arith, q, (eq_iff s t).1 (some_inj s t (sym e ∙ h))),
      )
    ]
  ]

  signature_issues_iff : (i : ℕ) (r : Entry N) → signature_issues host i r ≡ [] ↔ IsVerified r
  unfolding signature_issues
  signature_issues_iff i r = (
    λ h. elim (Option-cases host.check) [
      | inl n ↦ inl n
      | inr (c, n) ↦ elim (Option-cases r.signature) [
        | inl m ↦ inr (inl m)
        | inr (v, m) ↦ inr (inr (c, v, n, m, ground (arith, n, m, h)))
      ]
    ],
    λ h. elim h [
      | inl z ↦ ground (arith, z)
      | inr (inl z) ↦ elim (Option-cases host.check) [
        | inl n ↦ ground (arith, n)
        | inr (c, n) ↦ ground (arith, n, z)
      ]
      | inr (inr (c, v, p, q, k)) ↦ ground (arith, p, q, k)
    ],
  )

  time_issues-nil :
      (i : ℕ) (least : ℤ) (d : Option ℤ)
      → time_issues host i least d ≡ []
      → (t : ℤ) × (d ≡ some t) × (least ≤ℤ t) × (next_ts host least d ≡ t)
  unfolding time_issues
  time_issues-nil i least none h = cc
  time_issues-nil i least (some t) h = (t, refl, ground (arith, h), ground (arith, h))

  next_ts-some :
      (least : ℤ) (d : Option ℤ) (t : ℤ) → d ≡ some t → least ≤ℤ t → next_ts host least d ≡ t
  next_ts-some least d t e l = ground (arith, e, l)

  time_issues-some :
      (i : ℕ) (least : ℤ) (d : Option ℤ) (t : ℤ)
      → d ≡ some t
      → least ≤ℤ t
      → time_issues host i least d ≡ []
  unfolding time_issues
  time_issues-some i least d t e l = ground (arith, e, l)

  verify_from_iff :
      (i : ℕ) (prev : Option String) (least : ℤ) (rs : List (Entry N))
      → verify_from host i prev least rs ≡ []
        ↔ LinkedFrom prev rs × DatedFrom least rs × All IsVerified rs
  unfolding verify_from
  verify_from_iff i prev least [] = (λ h. (tt, tt, tt), λ h. refl)
  verify_from_iff i prev least (r ∷ rs) =
      let links = link_issues_iff i prev r in
      let seals = signature_issues_iff i r in
      let ih =
        verify_from_iff (suc i) (some (hash_of host r)) (next_ts host least (host.date r.issued_at))
          rs in
      (
        λ h.
            let (a, rest) = append-nil _ _ h in
            let (b, rest') = append-nil _ _ rest in
            let (c, d) = append-nil _ _ rest' in
            let (t, e, l, n) = time_issues-nil i least (host.date r.issued_at) b in
            let (x, y, z) = ih.0 d in
            ((links.0 a, x), (t, e, l, subst (λ u. DatedFrom u rs) n y), (seals.0 c, z)),
        λ h.
            let (t, e, l, y) = h.1 in
            let n = next_ts-some least (host.date r.issued_at) t e l in
            nil-append _ _ (links.1 h.0.0) (
              nil-append _ _ (time_issues-some i least (host.date r.issued_at) t e l) (
                nil-append _ _ (seals.1 h.2.0)
                  (ih.1 (h.0.1, subst (λ u. DatedFrom u rs) (sym n) y, h.2.1)))),
      )

  -- `verifyChain` reports no issue exactly if the first receipt has no link and each other one the hash of
  -- the one before it, all have dates, the first not before 1970 and none earlier than the one before,
  -- and every signature verifies for which there is a key.
  pub verify_chain_iff :
      (rs : List (Entry N))
      → verify_chain host rs ≡ [] ↔ LinkedFrom none rs × DatedFrom (pos 0) rs × All IsVerified rs
  unfolding verify_chain
  verify_chain_iff rs = verify_from_iff 0 none (pos 0) rs
