-- ===== src/Conformance/Witnesses.antt =====
-- Which receipts `verifyPeerWitnesses` passes (reference/agent/conformance-verifier.js).
use oap_spec.Prelude.{
  ℕ, ◌≤◌, String, true, false, none, some, List, [], ◌∷◌, ◌≡◌, ◌↔◌, ◌⊎◌, inl, inr, refl, arith,
  ◌=s=◌, ltb, length, any, All, Bool-cases, Option-cases,
}
use oap_spec.Conformance.{
  Web, Receipt, Witness, is_placeholder, is_l4_plus, org_of, check_independent, resolve_key,
  verify_signature, has_passed, check_own_receipt, check_witness, check_witnesses, witness_payload,
  verify_peer_witnesses,
}

-- No two witnesses have one organisation, and none has one of those given.
abbrev pub Independent : List String → List Witness → Type 0
Independent orgs [] = Unit
Independent orgs (w ∷ ws) =
    (any (λ o. o =s= org_of w) orgs ≡ false) × Independent (org_of w ∷ orgs) ws

check_independent_iff :
    (orgs : List String) (ws : List Witness)
    → check_independent orgs ws ≡ none ↔ Independent orgs ws
unfolding check_independent
check_independent_iff orgs [] = (λ e. tt, λ e. refl)
check_independent_iff orgs (w ∷ ws) =
    let ih = check_independent_iff (org_of w ∷ orgs) ws in
    elim (Bool-cases (any (λ o. o =s= org_of w) orgs)) [
      | inl t ↦ (λ e. cc (t, e), λ h. cc (t, h.0))
      | inr f ↦ (λ e. (f, ih.0 (ground (arith, f, e))), λ h. ground (arith, f, ih.1 h.1))
    ]

module _ {N K : Type 0} (web : Web N K) where
  -- The receipt that the witness names for itself has not expired and claims L4 or L5.
  pub record IsHolder (w : Witness) : Type 0 where
    pub receipt : Receipt N
    pub fetched : web.fetch_receipt w.witness_receipt_uri ≡ some receipt
    pub dated : (receipt.not_after =s= "") ≡ false
    pub current : has_passed web receipt.not_after ≡ false
    pub level : is_l4_plus receipt.claimed_levels ≡ true

  check_own_receipt_iff :
      (w : Witness)
      → check_own_receipt web w ≡ none ↔ ((w.witness_receipt_uri =s= "") ≡ true) ⊎ IsHolder w
  unfolding check_own_receipt
  check_own_receipt_iff w = elim (Bool-cases (w.witness_receipt_uri =s= "")) [
    | inl e ↦ (λ h. inl e, λ h. ground (arith, e))
    | inr n ↦ elim (Option-cases (web.fetch_receipt w.witness_receipt_uri)) [
      | inl f ↦ (
        λ h. ground (arith, n, f, h),
        λ h. elim h [ inl e ↦ ground (arith, n, e) | inr r ↦ cc (f, r.fetched) ],
      )
      | inr (r, f) ↦ (
        λ h. inr (record {
          receipt = r;
          fetched = f;
          dated = ground (arith, n, f, h);
          current = ground (arith, n, f, h);
          level = ground (arith, n, f, h);
        }),
        λ h. elim h [
          | inl e ↦ ground (arith, n, e)
          | inr k ↦ ground (arith, k.fetched, k.dated, k.current, k.level)
        ],
      )
    ]
  ]

  -- The witness signed, with a key of its DID document, and holds L4 or L5, if it names a receipt.
  pub record IsValid (payload : String) (w : Witness) : Type 0 where
    pub value : String
    pub signature : w.signature ≡ some value
    pub real : is_placeholder (some value) ≡ false
    pub key : K
    pub resolved : resolve_key web w.witness_did ≡ some key
    pub verified : verify_signature web payload value key ≡ true
    pub own : ((w.witness_receipt_uri =s= "") ≡ true) ⊎ IsHolder w

  check_witness_iff :
      (payload : String) (w : Witness) → check_witness web payload w ≡ none ↔ IsValid payload w
  unfolding check_witness
  check_witness_iff payload w = elim (Option-cases w.signature) [
    | inl e ↦ (λ h. ground (arith, e, h), λ h. cc (e, h.signature))
    | inr (v, e) ↦ elim (Option-cases (resolve_key web w.witness_did)) [
      | inl f ↦ (λ h. ground (arith, e, f, h), λ h. cc (f, h.resolved))
      | inr (k, f) ↦ (
        λ h. record {
          value = v;
          signature = e;
          real = ground (arith, e, f, h);
          key = k;
          resolved = f;
          verified = ground (arith, e, f, h);
          own = (check_own_receipt_iff w).0 (ground (arith, e, f, h));
        },
        λ h.
            ground (
              arith,
              h.signature,
              h.real,
              h.resolved,
              h.verified,
              (check_own_receipt_iff w).1 h.own,
            ),
      )
    ]
  ]

  check_witnesses_iff :
      (payload : String) (ws : List Witness)
      → check_witnesses web payload ws ≡ none ↔ All (IsValid payload) ws
  unfolding check_witnesses
  check_witnesses_iff payload [] = (λ e. tt, λ e. refl)
  check_witnesses_iff payload (w ∷ ws) =
      let one = check_witness_iff payload w in
      let ih = check_witnesses_iff payload ws in
      elim (Option-cases (check_witness web payload w)) [
        | inl n ↦ (λ e. (one.0 n, ih.0 (ground (arith, n, e))), λ h. ground (arith, n, ih.1 h.1))
        | inr (fault, f) ↦ (λ e. ground (arith, f, e), λ h. cc (f, one.1 h.0))
      ]

  -- The witnesses of a receipt are enough, independent and valid.
  pub record IsWitnessed (r : Receipt N) (required : ℕ) : Type 0 where
    pub enough : required ≤ length r.peer_witnesses
    pub independent : Independent [] r.peer_witnesses
    pub valid : All (IsValid (witness_payload web r)) r.peer_witnesses

  -- The witnesses of a receipt are accepted exactly if they are as many as required, no two have one
  -- organisation, or DID where none is given, and each signed the receipt without its witnesses with a
  -- key of its DID document, by no placeholder, and, if it names a receipt of its own, that receipt has
  -- not expired and claims L4 or L5.
  pub verify_peer_witnesses_iff :
      (r : Receipt N) (required : ℕ)
      → verify_peer_witnesses web r required ≡ none ↔ IsWitnessed r required
  unfolding verify_peer_witnesses
  verify_peer_witnesses_iff r required =
      let ind = check_independent_iff [] r.peer_witnesses in
      let val = check_witnesses_iff (witness_payload web r) r.peer_witnesses in
      elim (Bool-cases (ltb (length r.peer_witnesses) required)) [
        | inl t ↦ (λ e. ground (arith, t, e), λ h. ground (arith, t, h.enough))
        | inr t ↦ elim (Option-cases (check_independent [] r.peer_witnesses)) [
          | inr (f, n) ↦ (λ e. ground (arith, t, n, e), λ h. cc (n, ind.1 h.independent))
          | inl n ↦ (
            λ e. record {
              enough = ground (arith, t);
              independent = ind.0 n;
              valid = val.0 (ground (arith, t, n, e));
            },
            λ h. ground (arith, t, n, val.1 h.valid),
          )
        ]
      ]
