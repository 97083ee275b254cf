-- ===== src/Conformance/Acceptance.antt =====
-- Which implementations `verifyConformance` accepts (reference/agent/conformance-verifier.js).
use oap_spec.Prelude.{
  Bool, Option, ◌+s◌, eq_iff, String, true, false, not, ◌&&◌, ◌||◌, none, some, List, [], ◌∷◌, ◌++◌,
  ◌≡◌, ◌↔◌, ◌⊎◌, inl, inr, arith, ◌=s=◌, any, if◌then◌else◌, Bool-cases, Option-cases, List-cases,
  ap, ◌∙◌,
}
use oap_spec.Json.{obj}
use oap_spec.Conformance.{
  Web, Receipt, Anchor, canonical_registry_url, resolve_key, has_passed, claims,
  verify_peer_witnesses, verify_registry_anchor,
}
use oap_spec.Conformance.Verdict.{
  Step, manifest, receipt_fetch, suite_trust, validity, signature, peer_witnesses, registry_anchor,
  Options, has_placeholder, trusts, has_failures, signed_payload, signs, fits_schema, manifest_url,
  verify_live, verify_claims, verify_signatures, verify_receipt, verify_conformance,
}
use oap_spec.Conformance.Witnesses.{IsWitnessed, verify_peer_witnesses_iff}

module _ {N K : Type 0} (web : Web N K) (options : Options N) where
  -- The sample tests are not run, or show no failure.
  abbrev pub IsLive : Type 0
  IsLive = (options.reverify && has_failures web options) ≡ false

  -- The receipt names a file of the canonical registry that can be fetched and parsed, and the hash in
  -- it, if it has one, is that of the receipt.
  pub record IsAnchored (r : Receipt N) : Type 0 where
    pub anchor : Anchor
    pub body : String
    pub listing : Option String
    pub given : r.registry_anchor ≡ some anchor
    pub canonical : anchor.repo_url ≡ canonical_registry_url
    pub fetched :
        web.fetch_text (
          "https://raw.githubusercontent.com/openagentprotocol-OAP/oap-registry/"
          +s anchor.commit_sha +s "/" +s anchor.file_path)
        ≡ some body
    pub parsed : web.parse_listing body ≡ some listing
    pub matches :
        (hash : String) → listing ≡ some hash → hash ≡ web.sha256_hex (web.stringify (obj r.fields))

  verify_registry_anchor-IsAnchored :
      (r : Receipt N) → verify_registry_anchor web r ≡ none → IsAnchored r
  unfolding verify_registry_anchor
  verify_registry_anchor-IsAnchored r h = elim (Option-cases r.registry_anchor) [
    | inl e ↦ absurd (ground (arith, e, h))
    | inr (a, e) ↦ elim (Bool-cases (a.repo_url =s= canonical_registry_url)) [
      | inr c ↦ absurd (ground (arith, e, c, h))
      | inl c ↦
          elim (Option-cases (
            web.fetch_text (
              "https://raw.githubusercontent.com/openagentprotocol-OAP/oap-registry/"
              +s a.commit_sha +s "/" +s a.file_path))) [
                | inl f ↦ absurd (ground (arith, e, c, f, h))
                | inr (body, f) ↦ elim (Option-cases (web.parse_listing body)) [
                  | inl p ↦ absurd (ground (arith, e, c, f, p, h))
                  | inr (listing, p) ↦ record {
                    anchor = a;
                    body = body;
                    listing = listing;
                    given = e;
                    canonical = (eq_iff a.repo_url canonical_registry_url).0 c;
                    fetched = f;
                    parsed = p;
                    matches = λ hash l.
                        (eq_iff hash (web.sha256_hex (web.stringify (obj r.fields)))).0
                          (ground (arith, e, c, f, p, l, h));
                  }
                ]
              ]
    ]
  ]

  IsAnchored-verify_registry_anchor :
      (r : Receipt N) → IsAnchored r → verify_registry_anchor web r ≡ none
  unfolding verify_registry_anchor
  IsAnchored-verify_registry_anchor r k =
      let c = (eq_iff k.anchor.repo_url canonical_registry_url).1 k.canonical in
      elim (Option-cases k.listing) [
        | inl l ↦ ground (arith, k.given, c, k.fetched, k.parsed, l)
        | inr (hash, l) ↦ ground (
          arith,
          k.given,
          c,
          k.fetched,
          k.parsed,
          l,
          (eq_iff hash (web.sha256_hex (web.stringify (obj r.fields)))).1 (k.matches hash l),
        )
      ]

  -- A claim of L4 or L5 is witnessed and anchored.
  abbrev pub IsBacked : Receipt N → Type 0
  IsBacked r =
      ((claims "L5" r.claimed_levels || claims "L4" r.claimed_levels) ≡ false)
      ⊎ (IsWitnessed web r (if claims "L5" r.claimed_levels then 3 else 1) × IsAnchored r)

  -- The implementation signed the receipt, and no signature is a placeholder.
  pub record IsSigned (r : Receipt N) : Type 0 where
    pub real : has_placeholder r.signatures ≡ false
    pub key : K
    pub resolved : resolve_key web r.implementation_did ≡ some key
    pub verified : any (signs web options (signed_payload web options r) key) r.signatures ≡ true

  -- The receipt stands.
  pub record Stands (r : Receipt N) : Type 0 where
    pub schema :
        (validate : Receipt N → Bool) → options.ajv_validate ≡ some validate → validate r ≡ true
    pub suite : trusts r.suite_version options.trusted_suite_versions ≡ true
    pub current : (not (r.not_after =s= "") && has_passed web r.not_after) ≡ false
    pub signed : IsSigned r
    pub backed : IsBacked r
    pub live : IsLive

  fits_schema_iff :
      (r : Receipt N)
      → fits_schema web options r ≡ true
        ↔ ((validate : Receipt N → Bool) → options.ajv_validate ≡ some validate → validate r ≡ true)
  fits_schema_iff r = elim (Option-cases options.ajv_validate) [
    | inl e ↦ (λ h validate q. cc (e, q), λ h. ground (arith, e))
    | inr (validate, e) ↦
        (λ h other q. ground (arith, e, q, h), λ h. ground (arith, e, h validate e))
  ]

  verify_live_iff :
      (steps : List Step) (r : Receipt N)
      → (verify_live web options steps r).accepted ≡ true ↔ IsLive
  unfolding verify_live
  verify_live_iff steps r = (λ e. ground (arith, e), λ h. ground (arith, h))

  verify_claims_iff :
      (steps : List Step) (r : Receipt N)
      → (verify_claims web options steps r).accepted ≡ true ↔ IsBacked r × IsLive
  unfolding verify_claims
  verify_claims_iff steps r =
      elim (Bool-cases (claims "L5" r.claimed_levels || claims "L4" r.claimed_levels)) [
        | inr f ↦ (
          λ e. (inl f, (verify_live_iff steps r).0 (ground (arith, f, e))),
          λ h. ground (arith, f, (verify_live_iff steps r).1 h.1),
        )
        | inl t ↦
            let wit =
              verify_peer_witnesses_iff web r (if claims "L5" r.claimed_levels then 3 else 1) in
            elim (Option-cases
              (verify_peer_witnesses web r (if claims "L5" r.claimed_levels then 3 else 1))) [
                | inr (fault, n) ↦ (
                  λ e. ground (arith, t, n, e),
                  λ h. elim h.0 [ inl f ↦ cc (t, f) | inr b ↦ cc (n, wit.1 b.0) ],
                )
                | inl n ↦ elim (Option-cases (verify_registry_anchor web r)) [
                  | inr (fault, a) ↦ (
                    λ e. ground (arith, t, n, a, e),
                    λ h. elim h.0 [
                      | inl f ↦ cc (t, f)
                      | inr b ↦ cc (a, IsAnchored-verify_registry_anchor r b.1)
                    ],
                  )
                  | inl a ↦ (
                    λ e. (
                      inr (wit.0 n, verify_registry_anchor-IsAnchored r a),
                      (verify_live_iff (steps ++ peer_witnesses true ∷ registry_anchor true ∷ [])
                            r).0
                          (ground (arith, t, n, a, e)),
                    ),
                    λ h. ground (
                      arith,
                      t,
                      n,
                      a,
                      (verify_live_iff (steps ++ peer_witnesses true ∷ registry_anchor true ∷ [])
                            r).1
                          h.1,
                    ),
                  )
                ]
              ]
      ]

  verify_signatures_iff :
      (steps : List Step) (r : Receipt N)
      → (verify_signatures web options steps r).accepted ≡ true ↔ IsSigned r × IsBacked r × IsLive
  unfolding verify_signatures
  verify_signatures_iff steps r = elim (List-cases r.signatures) [
    | inl e ↦ (
      λ a. ground (arith, e, a),
      λ h. cc (h.0.verified, ap (any (signs web options (signed_payload web options r) h.0.key)) e),
    )
    | inr (s, ss, e) ↦ elim (Bool-cases (has_placeholder (s ∷ ss))) [
      | inl p ↦ (λ a. ground (arith, e, p, a), λ h. cc (h.0.real, p, ap has_placeholder e))
      | inr p ↦ elim (Option-cases (resolve_key web r.implementation_did)) [
        | inl k ↦ (λ a. ground (arith, e, p, k, a), λ h. cc (h.0.resolved, k))
        | inr (key, k) ↦
            elim (Bool-cases
              (any (signs web options (signed_payload web options r) key) (s ∷ ss))) [
                | inr n ↦ (
                  λ a. ground (arith, e, p, k, n, a),
                  λ h.
                      let q : h.0.key ≡ key = cc (h.0.resolved, k) in
                      cc (
                        n,
                        h.0.verified,
                        ap
                            (λ z.
                              any (signs web options (signed_payload web options r) z) r.signatures)
                            q,
                        ap (any (signs web options (signed_payload web options r) key)) e,
                      ),
                )
                | inl y ↦
                    let all = verify_claims_iff (steps ++ signature true ∷ []) r in
                    (
                      λ a.
                          let b = all.0 (ground (arith, e, p, k, y, a)) in
                          (
                            record {
                              real = ap has_placeholder e ∙ p;
                              key = key;
                              resolved = k;
                              verified =
                                  ap (any (signs web options (signed_payload web options r) key)) e
                                  ∙ y;
                            },
                            b.0,
                            b.1,
                          ),
                      λ h. ground (arith, e, p, k, y, all.1 (h.1, h.2)),
                    )
              ]
      ]
    ]
  ]

  verify_receipt_iff :
      (steps : List Step) (r : Receipt N)
      → (verify_receipt web options steps r).accepted ≡ true ↔ Stands r
  unfolding verify_receipt
  verify_receipt_iff steps r =
      let sig = verify_signatures_iff (steps ++ suite_trust true ∷ validity true ∷ []) r in
      elim (Bool-cases (fits_schema web options r)) [
        | inr f ↦ (λ a. ground (arith, f, a), λ h. cc (f, (fits_schema_iff r).1 h.schema))
        | inl f ↦ elim (Bool-cases (trusts r.suite_version options.trusted_suite_versions)) [
          | inr t ↦ (λ a. ground (arith, f, t, a), λ h. cc (t, h.suite))
          | inl t ↦ elim (Bool-cases (not (r.not_after =s= "") && has_passed web r.not_after)) [
            | inl c ↦ (λ a. ground (arith, f, t, c, a), λ h. cc (c, h.current))
            | inr c ↦ (
              λ a.
                  let b = sig.0 (ground (arith, f, t, c, a)) in
                  record {
                    schema = (fits_schema_iff r).0 f;
                    suite = t;
                    current = c;
                    signed = b.0;
                    backed = b.1;
                    live = b.2;
                  },
              λ h. ground (arith, f, t, c, sig.1 (h.signed, h.backed, h.live)),
            )
          ]
        ]
      ]

  -- What makes a target acceptable: its manifest names a receipt that can be fetched and that stands.
  pub record IsConformant (target_url : String) : Type 0 where
    pub receipt_uri : String
    pub receipt : Receipt N
    pub manifest : web.fetch_manifest (manifest_url web options target_url) ≡ some receipt_uri
    pub named : (receipt_uri =s= "") ≡ false
    pub fetched : web.fetch_receipt receipt_uri ≡ some receipt
    pub stands : Stands receipt

  -- A target is accepted exactly if its manifest names a receipt that can be fetched, passes the schema
  -- validator if one is given, comes from a trusted suite, has not expired, holds no placeholder and a
  -- signature by the key of the implementation; if it claims L4 or L5, then it names a file of the
  -- canonical registry that can be fetched and parsed and whose hash, if it has one, is the receipt's,
  -- and has one witness, or three for L5, as `verifyPeerWitnesses` accepts them, which looks at the
  -- receipt of a witness only if it names one; and the sample tests are not run or show no failure.
  pub verify_conformance_iff :
      (target_url : String)
      → (verify_conformance web options target_url).accepted ≡ true ↔ IsConformant target_url
  unfolding verify_conformance
  verify_conformance_iff target_url =
      elim (Option-cases (web.fetch_manifest (manifest_url web options target_url))) [
        | inl m ↦ (λ a. ground (arith, m, a), λ h. cc (m, h.manifest))
        | inr (uri, m) ↦ elim (Bool-cases (uri =s= "")) [
          | inl u ↦ (λ a. ground (arith, m, u, a), λ h. ground (arith, m, u, h.manifest, h.named))
          | inr u ↦ elim (Option-cases (web.fetch_receipt uri)) [
            | inl f ↦
                (λ a. ground (arith, m, u, f, a), λ h. ground (arith, m, h.manifest, f, h.fetched))
            | inr (r, f) ↦
                let all = verify_receipt_iff (manifest true ∷ receipt_fetch true ∷ []) r in
                (
                  λ a. record {
                    receipt_uri = uri;
                    receipt = r;
                    manifest = m;
                    named = u;
                    fetched = f;
                    stands = all.0 (ground (arith, m, u, f, a));
                  },
                  λ h. ground (
                    arith,
                    h.manifest,
                    h.named,
                    h.fetched,
                    (verify_receipt_iff (manifest true ∷ receipt_fetch true ∷ []) h.receipt).1
                        h.stands,
                  ),
                )
          ]
        ]
      ]
