-- ===== src/Server/Deletion.antt =====
-- What a deletion of data leaves in the tables (reference/server/server.js).
use oap_spec.Prelude.{
  String, some, List, [], ◌∷◌, ◌≡◌, refl, arith, ◌=s=◌, eq_iff, Bool-cases, inl, inr, length, ◌+◌,
  ◌≢◌,
}
use oap_spec.Server.{Receipt, Tables}
use oap_spec.Server.Records.{select_by_principal, delete_by_principal, data_delete}

module _ {N : Type 0} where
  select-delete_same :
      (did : String) (rows : List (Receipt N))
      → select_by_principal did (delete_by_principal did rows) ≡ []
  unfolding select_by_principal delete_by_principal
  select-delete_same did [] = refl
  select-delete_same did (r ∷ rows) = ground (arith, select-delete_same did rows)

  select-delete_other :
      (did other : String) (rows : List (Receipt N))
      → other ≢ did
      → select_by_principal other (delete_by_principal did rows) ≡ select_by_principal other rows
  unfolding select_by_principal delete_by_principal
  select-delete_other did other [] ne = refl
  select-delete_other did other (r ∷ rows) ne = ground (
    arith,
    select-delete_other did other rows ne,
    eq_iff r.principal_did did,
    eq_iff r.principal_did other,
  )

  length-select-delete :
      (did : String) (rows : List (Receipt N))
      → length (select_by_principal did rows) + length (delete_by_principal did rows) ≡ length rows
  unfolding select_by_principal delete_by_principal
  length-select-delete did [] = refl
  length-select-delete did (r ∷ rows) = ground (arith, length-select-delete did rows)

  -- What `data_delete` does to the receipts of one principal.
  pub record Deletes (did : String) (t u : Tables N) : Type 0 where
    pub own : select_by_principal did u.receipts ≡ []
    pub others :
        (other : String)
        → other ≢ did
        → select_by_principal other u.receipts ≡ select_by_principal other t.receipts
    pub tip : u.chain_tip ≡ t.chain_tip

  -- Deleting for a principal that is named reports how many receipts were the principal's; after it
  -- none is left, those of any other principal are as before, and the chain tip is not changed.
  pub data_delete_lem :
      (did : String) (t : Tables N)
      → did ≢ ""
      → ((data_delete did t).0 ≡ some (length (select_by_principal did t.receipts)))
        × Deletes did t (data_delete did t).1
  unfolding data_delete
  data_delete_lem did t ne = elim (Bool-cases (did =s= "")) [
    | inl e ↦ absurd (ne ((eq_iff did "").0 e))
    | inr e ↦
        rw (e, data_delete)
          (
            ground (arith, length-select-delete did t.receipts),
            record {
              own = select-delete_same did t.receipts;
              others = λ other n. select-delete_other did other t.receipts n;
              tip = refl;
            },
          )
  ]
