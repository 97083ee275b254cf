-- ===== src/Threshold/Quorum.antt =====
-- Which thresholds and which sets of shares are accepted.
use oap_spec.Prelude.{
  ℕ, zero, suc, ◌+◌, ◌-◌, ◌*◌, ◌≤◌, ◌<◌, String, true, false, some, List, [], ◌∷◌, ◌==◌, ◌≡◌, ◌↔◌,
  refl, arith, ltb, length, eq_refl, Bool-cases, inl, inr,
}
use oap_spec.Threshold.{
  Scheme, Share, Stub, Partial, Aggregate, ok, make_shares, create, find_share, sign_all,
  sign_with_shares, verify_parts, verify,
}

eq_of_eqb : (i idx : ℕ) → (suc i == idx) ≡ true → suc i ≡ idx
eq_of_eqb i idx e = ground arith

lt_of_neb : (i idx : ℕ) → i < idx → (suc i == idx) ≡ false → suc i < idx
lt_of_neb i idx l e = ground arith

pred_of : (i idx : ℕ) → suc i ≡ idx → i ≡ idx - 1
pred_of i idx e = omega arith

module _ {K : Type 0} where
  length-make_shares : (keys : ℕ → K) (i n : ℕ) → length (make_shares keys i n) ≡ n
  unfolding make_shares
  length-make_shares keys i zero = refl
  length-make_shares keys i (suc n) = omega (arith, length-make_shares keys (suc i) n)

  pub find_share-make_shares :
      (keys : ℕ → K) (i n idx : ℕ)
      → i < idx
      → idx ≤ i + n
      → find_share idx (make_shares keys i n) ≡ some (record { index = idx; key = keys (idx - 1) })
  unfolding make_shares find_share
  find_share-make_shares keys i zero idx l h = absurd (omega arith)
  find_share-make_shares keys i (suc n) idx l h = elim (Bool-cases (suc i == idx)) [
    | inl e ↦ rw (e) (cc (eq_of_eqb i idx e, pred_of i idx (eq_of_eqb i idx e)))
    | inr e ↦ rw (e) (find_share-make_shares keys (suc i) n idx (lt_of_neb i idx l e) (omega arith))
  ]

  -- A group is made, with its shares, exactly if the threshold is at most their number and more than
  -- two thirds of it.
  pub create_iff :
      (keys : ℕ → K) (id : String) (n m : ℕ)
      → (create keys id n m
          ≡ ok (record { group_id = id; n = n; m = m; shares = make_shares keys 0 n }))
        ↔ ((m ≤ n) × (2 * n < 3 * m))
  unfolding create
  create_iff keys id n m = ((λ h. ground arith), (λ h. ground arith))

ltb-ge : (m n : ℕ) → m ≤ n → ltb n m ≡ false
ltb-ge m n h = ground arith

module _ {K : Type 0} (scheme : Scheme K) (stub : Stub K) (message : String) where
  -- Every index has a share.
  abbrev pub Known : List ℕ → Type 0
  Known [] = Unit
  Known (idx ∷ rest) = ((s : Share K) × (find_share idx stub.shares ≡ some s)) × Known rest

  module _ (honest : (k : K) → scheme.check k message (scheme.sign k message) ≡ true) where
    verify_parts-sign_all :
        (idxs : List ℕ)
        → Known idxs
        → (parts : List Partial) × (sign_all scheme stub message idxs ≡ ok parts)
          × (verify_parts scheme stub message parts ≡ true)
    unfolding sign_all verify_parts
    verify_parts-sign_all [] h = ([], refl, refl)
    verify_parts-sign_all (idx ∷ rest) ((s, found), h) =
        let (parts, same, fine) = verify_parts-sign_all rest h in
        (
          record { index = idx; sig = scheme.sign s.key message } ∷ parts,
          rw (found, same, sign_all) refl,
          rw (found, verify_parts) (ground (arith, honest s.key, fine)),
        )

    -- Enough participants, all of whom hold a share of the group, make an aggregate that the group
    -- verifies for the message.
    pub verify-sign_with_shares :
        (idxs : List ℕ)
        → stub.m ≤ length idxs
        → Known idxs
        → (sig : Aggregate) × (sign_with_shares scheme stub message idxs ≡ ok sig)
          × (verify scheme stub message sig ≡ true)
    unfolding sign_with_shares verify
    verify-sign_with_shares idxs enough h =
        let (parts, same, fine) = verify_parts-sign_all idxs h in
        (
          record {
            group_id = stub.group_id;
            threshold = stub.m;
            n = stub.n;
            participants = idxs;
            partial_signatures = parts;
          },
          rw (same, ltb-ge stub.m (length idxs) enough) refl,
          ground (arith, fine, eq_refl stub.group_id),
        )

  -- The check does not compare the participants with the partial signatures: an aggregate that names
  -- enough participants and holds no signature verifies for every message.
  pub verify_unsigned :
      (idxs : List ℕ)
      → stub.m ≤ length idxs
      → verify scheme stub message (record {
        group_id = stub.group_id;
        threshold = stub.m;
        n = stub.n;
        participants = idxs;
        partial_signatures = [];
      })
        ≡ true
  unfolding verify verify_parts
  verify_unsigned idxs enough = ground (arith, eq_refl stub.group_id)
