-- ===== src/Broker/Published.antt =====
-- What a broker's index holds after any registrations (reference/match-broker/broker.js).
use oap_spec.Prelude.{
  ℕ, zero, suc, ◌+◌, String, true, false, some, List, [], ◌∷◌, map, ◌≡◌, refl, sym, ◌∙◌, arith,
  ◌=s=◌, eq_iff, get_elem?, get_elem?-map, All, Bool-cases, inl, inr, lookup, lookup-store,
  lookup-store_ne,
}
use oap_spec.Merkle.{Step, Tree, build_merkle_tree, verify_inclusion_proof}
use oap_spec.Merkle.Inclusion.{verify-build_merkle_tree}
use oap_spec.Broker.{
  Host, Manifest, Row, Entry, Broker, latest_root, cache_from, upsert_row, row_of,
  rebuild_and_publish_index, index_manifest_bm25, register,
}

pub ne_comm : (s t : String) → (s =s= t) ≡ false → (t =s= s) ≡ false
ne_comm s t h = ground (arith, (eq_iff s t).0, (eq_iff t s).0, (eq_iff s t).1)

module _ {N : Type 0} where
  -- No row is the provider's.
  abbrev pub IsFresh : String → List (Row N) → Type 0
  IsFresh did rows = All (λ r. (r.provider_did =s= did) ≡ false) rows

  -- No provider has two rows.
  abbrev pub HasOneEach : List (Row N) → Type 0
  HasOneEach [] = Unit
  HasOneEach (r ∷ rows) = IsFresh r.provider_did rows × HasOneEach rows

  upsert_row-IsFresh :
      (did : String) (new : Row N) (rows : List (Row N))
      → (new.provider_did =s= did) ≡ false
      → IsFresh did rows
      → IsFresh did (upsert_row new rows)
  unfolding upsert_row
  upsert_row-IsFresh did new [] ne h = (ne, tt)
  upsert_row-IsFresh did new (r ∷ rows) ne h =
      elim (Bool-cases (r.provider_did =s= new.provider_did)) [
        | inl e ↦ rw e (ne, h.1)
        | inr e ↦ rw e (h.0, upsert_row-IsFresh did new rows ne h.1)
      ]

  upsert_row-HasOneEach :
      (new : Row N) (rows : List (Row N)) → HasOneEach rows → HasOneEach (upsert_row new rows)
  unfolding upsert_row
  upsert_row-HasOneEach new [] h = (tt, tt)
  upsert_row-HasOneEach new (r ∷ rows) h = elim (Bool-cases (r.provider_did =s= new.provider_did)) [
    | inl e ↦ rw e (rw ((eq_iff r.provider_did new.provider_did).0 e) at h)
    | inr e ↦ rw e (
      upsert_row-IsFresh r.provider_did new rows (ne_comm r.provider_did new.provider_did e) h.0,
      upsert_row-HasOneEach new rows h.1,
    )
  ]

  lookup-cache_from_fresh :
      (did : String) (tree : Tree) (i : ℕ) (rows : List (Row N)) (cache : List (String × Entry))
      → IsFresh did rows
      → lookup did (cache_from tree i rows cache) ≡ lookup did cache
  unfolding cache_from
  lookup-cache_from_fresh did tree i [] cache h = refl
  lookup-cache_from_fresh did tree i (r ∷ rows) cache h =
      lookup-cache_from_fresh did tree (i + 1) rows _ h.1
      ∙ lookup-store_ne did r.provider_did cache _ h.0

  lookup-cache_from :
      (tree : Tree) (i j k : ℕ) (rows : List (Row N)) (cache : List (String × Entry)) (row : Row N)
      → k ≡ i + j
      → HasOneEach rows
      → get_elem? rows j ≡ some row
      → lookup row.provider_did (cache_from tree i rows cache)
        ≡ some (record {
          root = tree.root;
          proof = get_elem? tree.proofs k;
          leaf_index = k;
          leaf_hash = row.leaf_hash;
        })
  unfolding cache_from
  lookup-cache_from tree i j k [] cache row s h e = cc
  lookup-cache_from tree i zero k (r ∷ rows) cache row s h e =
      let place : k ≡ i = omega (arith, s) in
      let same : r ≡ row = cc in
      rw (place, sym same)
        (lookup-cache_from_fresh r.provider_did tree (i + 1) rows _ h.0
          ∙ lookup-store r.provider_did cache _)
  lookup-cache_from tree i (suc j) k (r ∷ rows) cache row s h e =
      lookup-cache_from tree (i + 1) j k rows _ row (omega (arith, s)) h.1 e

module _ {N : Type 0} (host : Host N) where
  -- The brokers that come of registrations, from the index that is built at the start.
  pub data Reach : Broker N → Type 0 where
    start : Reach (
        rebuild_and_publish_index host
          (record { manifests = []; corpus = []; roots = []; cache = [] }))
    registered :
        {b : Broker N} (did : String) (m : Manifest N) → Reach b → Reach (register host did m b)

  Reach-HasOneEach : {b : Broker N} → Reach b → HasOneEach b.manifests
  unfolding register rebuild_and_publish_index
  Reach-HasOneEach start = tt
  Reach-HasOneEach (registered {b} did m r) =
      upsert_row-HasOneEach (row_of host did m) b.manifests (Reach-HasOneEach r)

  -- What `indexCache` and the latest root say of a row.
  pub record IsProved (b : Broker N) (j : ℕ) (row : Row N) : Type 0 where
    pub path : List Step
    pub root : String
    pub latest : latest_root b.roots ≡ some root
    pub cached :
        lookup row.provider_did b.cache
        ≡ some
            (record { root = root; proof = some path; leaf_index = j; leaf_hash = row.leaf_hash })
    pub verified : verify_inclusion_proof host.sha256 row.leaf_hash path root ≡ true

  module _ (no_empty : (s : String) → (host.sha256 s =s= "") ≡ false) where
    rebuild-IsProved :
        (b : Broker N) (j : ℕ) (row : Row N)
        → HasOneEach b.manifests
        → get_elem? b.manifests j ≡ some row
        → IsProved (rebuild_and_publish_index host b) j row
    unfolding rebuild_and_publish_index
    rebuild-IsProved b j row h e =
        let leaves = map (λ r. r.leaf_hash) b.manifests in
        let tree = build_merkle_tree host.sha256 leaves in
        let (path, at, fine) =
          verify-build_merkle_tree host.sha256 no_empty leaves j row.leaf_hash
            (get_elem?-map (λ r. r.leaf_hash) b.manifests j e) in
        record {
          path = path;
          root = tree.root;
          latest = refl;
          cached = rw (sym at) (lookup-cache_from tree 0 j j b.manifests [] row (omega arith) h e);
          verified = fine;
        }

    -- If no digest is the empty text, then after any registrations every row of the table has an entry
    -- in the cache, under the latest root, with a proof of its leaf that a client's check accepts.
    pub Reach-IsProved :
        {b : Broker N} (j : ℕ) (row : Row N)
        → Reach b
        → get_elem? b.manifests j ≡ some row
        → IsProved b j row
    unfolding rebuild_and_publish_index register
    Reach-IsProved j row start e = cc
    Reach-IsProved j row (registered {b} did m r) e =
        rebuild-IsProved
          (record b {
            manifests = upsert_row (row_of host did m) b.manifests;
            corpus = index_manifest_bm25 host (host.sha256 did) m b.corpus;
          })
          j row (upsert_row-HasOneEach (row_of host did m) b.manifests (Reach-HasOneEach r)) e
