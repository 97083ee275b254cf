-- ===== src/Broker/Catalog.antt =====
-- A broker's table of manifests as a catalog: a function from providers to rows (reference/match-broker/broker.js).
use oap_spec.Prelude.{
  String, false, Option, none, some, List, [], ◌∷◌, ◌≡◌, refl, sym, ap, ◌∙◌, ◌=s=◌, eq_iff,
  if◌then◌else◌, All, Bool-cases, inl, inr,
}
use oap_spec.Broker.Published.{ne_comm}
use oap_spec.Broker.{
  Host, Manifest, Row, Broker, upsert_row, row_of, register, rebuild_and_publish_index,
}

module _ {N : Type 0} (host : Host N) where
  abbrev pub Catalog : Type 0
  Catalog = String → Option (Row N)

  -- The row of a provider, by SELECT … WHERE provider_did = ?
  abbrev pub row_at : String → List (Row N) → Option (Row N)
  row_at did [] = none
  row_at did (r ∷ rows) = if r.provider_did =s= did then some r else row_at did rows

  -- Requests to register, one after the other.
  abbrev pub run : Broker N → List (String × Manifest N) → Broker N
  run b [] = b
  run b ((did, m) ∷ rest) = run (register host did m b) rest

  -- A provider has the row of its manifest, and the others have what they had.
  abbrev pub publish : String → Manifest N → Catalog → Catalog
  publish did m c d = if did =s= d then some (row_of host did m) else c d

  abbrev pub replay : Catalog → List (String × Manifest N) → Catalog
  replay c [] = c
  replay c ((did, m) ∷ rest) = replay (publish did m c) rest

  -- Ids are the hashes of DIDs, and a provider's row is the catalog's.
  record Holds (b : Broker N) (c : Catalog) : Type 0 where
    ids : All (λ (r : Row N). r.id ≡ host.sha256 r.provider_did) b.manifests
    rows : (d : String) → row_at d b.manifests ≡ c d

  upsert_row-ids :
      (new : Row N) (rows : List (Row N))
      → new.id ≡ host.sha256 new.provider_did
      → All (λ (r : Row N). r.id ≡ host.sha256 r.provider_did) rows
      → All (λ (r : Row N). r.id ≡ host.sha256 r.provider_did) (upsert_row new rows)
  unfolding upsert_row
  upsert_row-ids new [] e h = (e, tt)
  upsert_row-ids new (r ∷ rows) e h = elim (Bool-cases (r.provider_did =s= new.provider_did)) [
    | inl same ↦
        rw same (h.0 ∙ ap host.sha256 ((eq_iff r.provider_did new.provider_did).0 same), h.1)
    | inr other ↦ rw other (h.0, upsert_row-ids new rows e h.1)
  ]

  row_at-upsert_row :
      (d : String) (new : Row N) (rows : List (Row N))
      → new.id ≡ host.sha256 new.provider_did
      → All (λ (r : Row N). r.id ≡ host.sha256 r.provider_did) rows
      → row_at d (upsert_row new rows)
        ≡ (if new.provider_did =s= d then some new else row_at d rows)
  unfolding upsert_row
  row_at-upsert_row d new [] e h = refl
  row_at-upsert_row d new (r ∷ rows) e h = elim (Bool-cases (r.provider_did =s= new.provider_did)) [
    | inl same ↦
        let did : r.provider_did ≡ new.provider_did =
          (eq_iff r.provider_did new.provider_did).0 same in
        let id : r.id ≡ new.id = h.0 ∙ ap host.sha256 did ∙ sym e in
        let whole : (record new { id = r.id }) ≡ new = ap (λ i. record new { id = i }) id in
        rw same (elim (Bool-cases (new.provider_did =s= d)) [
          | inl here ↦ rw here (ap some whole)
          | inr there ↦ rw (there, ap (λ s. s =s= d) did ∙ there) refl
        ])
    | inr other ↦ rw other (elim (Bool-cases (r.provider_did =s= d)) [
      | inl here ↦
          let apart : (new.provider_did =s= d) ≡ false =
            rw ((eq_iff r.provider_did d).0 here) at
              (ne_comm r.provider_did new.provider_did other) in
          rw (here, apart) refl
      | inr there ↦ rw there (row_at-upsert_row d new rows e h.1)
    ])
  ]

  register-Holds :
      (did : String) (m : Manifest N) (b : Broker N) (c : Catalog)
      → Holds b c
      → Holds (register host did m b) (publish did m c)
  unfolding register rebuild_and_publish_index row_of
  register-Holds did m b c h = record {
    ids = upsert_row-ids (row_of host did m) b.manifests refl h.ids;
    rows = λ d.
        row_at-upsert_row d (row_of host did m) b.manifests refl h.ids
        ∙ ap (λ o. if did =s= d then some (row_of host did m) else o) (h.rows d);
  }

  run-Holds :
      (b : Broker N) (c : Catalog) (rs : List (String × Manifest N))
      → Holds b c
      → Holds (run b rs) (replay c rs)
  run-Holds b c [] h = h
  run-Holds b c ((did, m) ∷ rest) h =
      run-Holds (register host did m b) (publish did m c) rest (register-Holds did m b c h)

  -- From no manifest, any run of registrations leaves the table that the catalog describes: each
  -- provider has the row of its latest manifest, and one that has registered none has no row.
  pub run-eq-replay :
      (b : Broker N) (rs : List (String × Manifest N))
      → b.manifests ≡ []
      → (d : String) → row_at d (run b rs).manifests ≡ replay (λ d. none) rs d
  run-eq-replay b rs empty d =
      (run-Holds b (λ d. none) rs (record { ids = rw empty tt; rows = λ d. rw empty refl })).rows d
