-- ===== src/Sdk/Stored.antt =====
-- `MemoryStore` is a store as the server of the SDK relies on (sdks/typescript/src/storage.ts), and what
-- its listings and its deletion come to.
use mathlib.Core.List.{reverse}
use oap_spec.Prelude.{
  ℕ, zero, suc, ◌+◌, ◌-◌, String, false, List, [], ◌∷◌, ◌≡◌, refl, arith, ◌=s=◌, ◌==◌, length,
  eq_iff,
}
use oap_spec.Sdk.{Receipt, plus, IsStore}
use oap_spec.Sdk.Memory.{
  Memory, memory_store, of_principal, not_of_principal, slice_last, drop, delete_by_principal,
  receipts_by_principal,
}

module _ {N : Type 0} where
  tip-cancel :
      (id now : String) (m : Memory N)
      → ((memory_store {N = N}).cancel_subscription id now m).1.chain_tip ≡ m.chain_tip
  unfolding memory_store
  tip-cancel id now m = ground arith

  held-cancel :
      (id now : String) (m : Memory N)
      → ((memory_store {N = N}).cancel_subscription id now m).1.receipts ≡ m.receipts
  unfolding memory_store
  held-cancel id now m = ground arith

-- `MemoryStore` keeps its receipts in the order of insertion, and no operation but the insertion of a
-- receipt, the deletion and the setting of the tip changes the receipts or the tip.
unfoldable pub memory-IsStore : {N : Type 0} → IsStore (memory_store {N = N})
unfolding memory_store held-cancel tip-cancel
memory-IsStore {N} = record {
  held = λ m. m.receipts;
  held-insert = λ r m. refl;
  held-set = λ h m. refl;
  tip-set = λ h m. refl;
  held-subscription = λ b m. refl;
  tip-subscription = λ b m. refl;
  held-cancel = λ id now m. held-cancel id now m;
  tip-cancel = λ id now m. tip-cancel id now m;
  held-incident = λ i m. refl;
  tip-incident = λ i m. refl;
  held-increment = λ key ttl_ms t m. refl;
  tip-increment = λ key ttl_ms t m. refl;
}

module _ {N : Type 0} where
  of_principal-not_same :
      (did : String) (rs : List (Receipt N)) → of_principal did (not_of_principal did rs) ≡ []
  unfolding of_principal not_of_principal
  of_principal-not_same did [] = refl
  of_principal-not_same did (r ∷ rs) = ground (arith, of_principal-not_same did rs)

  of_principal-not_other :
      (did other : String) (rs : List (Receipt N))
      → (did =s= other) ≡ false
      → of_principal other (not_of_principal did rs) ≡ of_principal other rs
  unfolding of_principal not_of_principal
  of_principal-not_other did other [] ne = refl
  of_principal-not_other did other (r ∷ rs) ne = ground (
    arith,
    of_principal-not_other did other rs ne,
    eq_iff r.principal_did did,
    eq_iff r.principal_did other,
    eq_iff did other,
  )

  length-not_of_principal :
      (did : String) (rs : List (Receipt N))
      → length (not_of_principal did rs) + length (of_principal did rs) ≡ length rs
  unfolding of_principal not_of_principal
  length-not_of_principal did [] = omega arith
  length-not_of_principal did (r ∷ rs) = ground (arith, length-not_of_principal did rs)

  slice_last-nil : (n : ℕ) → reverse (slice_last {A = Receipt N} (plus n) []) ≡ []
  unfolding slice_last drop
  slice_last-nil zero = refl
  slice_last-nil (suc n) =
      let rest : 0 - suc n ≡ 0 = omega arith in
      let some_limit : (suc n == 0) ≡ false = ground arith in
      rw (rest, slice_last) (rw some_limit refl)

  -- A deletion answers the number of the receipts that the principal has, after it no listing of the
  -- principal has any, whatever the limit, every listing of another principal is as before, and so
  -- is the tip.
  pub delete_by_principal_lem :
      (did : String) (m : Memory N)
      → ((delete_by_principal did m).0 ≡ length (of_principal did m.receipts))
        × ((limit : ℕ) → receipts_by_principal did (plus limit) (delete_by_principal did m).1 ≡ [])
        × ((other : String) (limit : ℕ)
            → (did =s= other) ≡ false
            → receipts_by_principal other (plus limit) (delete_by_principal did m).1
              ≡ receipts_by_principal other (plus limit) m)
        × ((delete_by_principal did m).1.chain_tip ≡ m.chain_tip)
  unfolding delete_by_principal receipts_by_principal
  delete_by_principal_lem did m = (
    omega (arith, length-not_of_principal did m.receipts),
    (λ limit. rw (of_principal-not_same did m.receipts) (slice_last-nil limit)),
    (λ other limit ne. rw (of_principal-not_other did other m.receipts ne) refl),
    refl,
  )
