-- ===== src/Threshold.antt =====
-- `FrostStub` of reference/threshold-signing/threshold-signing.js: shares of a group, and signatures
-- by enough of them. `K` is the type of the key pairs, and `Scheme` the Ed25519 of the runtime.
pub mod Quorum
use oap_spec.Prelude.{
  ℕ, zero, suc, ◌+◌, ◌*◌, ◌/◌, String, Bool, true, false, not, ◌&&◌, Option, none, some, List, [],
  ◌∷◌, ◌==◌, ◌=s=◌, if◌then◌else◌, ltb, length,
}

pub record Scheme (K : Type 0) : Type 0 where
  pub sign : K → String → String
  pub check : K → String → String → Bool  -- by the public key

pub record Share (K : Type 0) : Type 0 where
  pub index : ℕ
  pub key : K

pub record Stub (K : Type 0) : Type 0 where
  pub group_id : String
  pub n : ℕ
  pub m : ℕ
  pub shares : List (Share K)

pub record Partial : Type 0 where
  pub index : ℕ
  pub sig : String

pub record Aggregate : Type 0 where
  pub group_id : String
  pub threshold : ℕ
  pub n : ℕ
  pub participants : List ℕ
  pub partial_signatures : List Partial

pub data Failure : Type 0 where
  above_n below_floor below_threshold : Failure
  unknown_share : ℕ → Failure

pub data Result {ℓ} (A : Type ℓ) : Type ℓ where
  ok : A → Result A
  err : Failure → Result A

module _ {K : Type 0} where
  -- The loop of the constructor; `keys` is what `generateKeyPairSync` gives in each round.
  unfoldable pub make_shares : (keys : ℕ → K) → (i rounds : ℕ) → List (Share K)
  make_shares keys i zero = []
  make_shares keys i (suc rounds) =
      record { index = suc i; key = keys i } ∷ make_shares keys (suc i) rounds

  unfoldable pub create : (keys : ℕ → K) → (group_id : String) → (n m : ℕ) → Result (Stub K)
  create keys group_id n m =
      if ltb n m
      then err above_n
      else if ltb m (2 * n / 3 + 1)
      then err below_floor
      else ok (record { group_id = group_id; n = n; m = m; shares = make_shares keys 0 n })

  -- `shares.find(s => s.index === idx)`
  unfoldable pub find_share : ℕ → List (Share K) → Option (Share K)
  find_share idx [] = none
  find_share idx (s ∷ shares) =
      let rest = find_share idx shares in if s.index == idx then some s else rest

module _ {K : Type 0} (scheme : Scheme K) where
  unfoldable pub sign_all : Stub K → String → List ℕ → Result (List Partial)
  sign_all stub message [] = ok []
  sign_all stub message (idx ∷ rest) = elim (find_share idx stub.shares) [
    | none ↦ err (unknown_share idx)
    | some share ↦ elim (sign_all stub message rest) [
      | ok parts ↦ ok (record { index = idx; sig = scheme.sign share.key message } ∷ parts)
      | err e ↦ err e
    ]
  ]

  unfoldable pub sign_with_shares : Stub K → String → List ℕ → Result Aggregate
  sign_with_shares stub message participating =
      if ltb (length participating) stub.m
      then err below_threshold
      else elim (sign_all stub message participating) [
        | err e ↦ err e
        | ok parts ↦ ok (record {
          group_id = stub.group_id;
          threshold = stub.m;
          n = stub.n;
          participants = participating;
          partial_signatures = parts;
        })
      ]

  unfoldable pub verify_parts : Stub K → String → List Partial → Bool
  verify_parts stub message [] = true
  verify_parts stub message (part ∷ parts) = elim (find_share part.index stub.shares) [
    | none ↦ false
    | some share ↦ scheme.check share.key message part.sig && verify_parts stub message parts
  ]

  unfoldable pub verify : Stub K → String → Aggregate → Bool
  verify stub message sig =
      sig.group_id =s= stub.group_id
      && not (ltb (length sig.participants) stub.m)
      && verify_parts stub message sig.partial_signatures
