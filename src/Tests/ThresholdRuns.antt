-- ===== src/Tests/ThresholdRuns.antt =====
-- The theorems on threshold signatures, for a group of four with threshold three.
use oap_spec.Prelude.{ℕ, ◌-◌, ◌≤◌, ◌<◌, String, true, [], ◌∷◌, some, ◌≡◌, ◌=s=◌, eq_refl, arith}
use oap_spec.Threshold.{
  Scheme, Share, Stub, Aggregate, ok, make_shares, find_share, sign_with_shares, verify,
}
use oap_spec.Threshold.Quorum.{find_share-make_shares, verify-sign_with_shares}

abbrev keys : ℕ → String
keys i = "key"

abbrev toy : Scheme String
toy = record { sign = λ k message. message; check = λ k message sig. message =s= sig }

abbrev group : Stub String
group = record { group_id = "g"; n = 4; m = 3; shares = make_shares keys 0 4 }

known : (idx : ℕ) → 0 < idx → idx ≤ 4 → (s : Share String) × (find_share idx group.shares ≡ some s)
known idx l h =
    (record { index = idx; key = keys (idx - 1) }, find_share-make_shares keys 0 4 idx l h)

verify-sign_with_shares_example :
    (sig : Aggregate) × (sign_with_shares toy group "transfer" (1 ∷ 2 ∷ 4 ∷ []) ≡ ok sig)
    × (verify toy group "transfer" sig ≡ true)
verify-sign_with_shares_example =
    verify-sign_with_shares toy group "transfer" (λ k. eq_refl "transfer") (1 ∷ 2 ∷ 4 ∷ [])
      (omega arith)
      (
        known 1 (omega arith) (omega arith),
        (known 2 (omega arith) (omega arith), (known 4 (omega arith) (omega arith), tt)),
      )
