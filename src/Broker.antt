-- ===== src/Broker.antt =====
-- The match broker of reference/match-broker/broker.js: its tables, `rebuildAndPublishIndex` and the
-- registration of a manifest. SQLite keeps rows in the order of their first insertion. A manifest is
-- read as the fields that the broker takes from it; the times of roots are left out.
pub mod Signing
pub mod Search
pub mod Filter
pub mod Ranking
pub mod Resolve
pub mod Published
pub mod Catalog
pub mod Answers
use oap_spec.Prelude.{
  ℕ, ◌+◌, String, Bool, Option, none, some, List, [], ◌∷◌, ◌++◌, map, ◌=s=◌, if◌then◌else◌, length,
  get_elem?, join, lookup, store,
}
use oap_spec.Json.{Json}
use oap_spec.Merkle.{Step, Tree, build_merkle_tree}
use oap_spec.Broker.Search.{term_freqs_of, tokenize}

-- What a request registers; a missing text is "", a missing list is empty.
pub record Manifest (N : Type 0) : Type 0 where
  pub json : Json N
  pub description : String
  pub categories : List String
  pub actions : List (String × String)  -- name and description
  pub jurisdictions : List String  -- `[manifest.jurisdiction]`, if that is there
  pub conformance_level : Option N
  pub reputation_score : Option N
  pub avg_cost_usd : Option N
  pub risk_class : String

-- A row of the table manifests; `jurisdictions` is the list whose JSON it holds.
pub record Row (N : Type 0) : Type 0 where
  pub id : String
  pub provider_did : String
  pub manifest_json : String
  pub leaf_hash : String
  pub conformance_level : N
  pub reputation_score : N
  pub avg_cost_usd : Option N
  pub categories_text : String
  pub description_text : String
  pub actions_text : String
  pub jurisdictions : List String
  pub risk_class : String
  pub updated_at : ℕ

-- A row of bm25_corpus, under the id of its manifest.
pub record Document : Type 0 where
  pub term_freqs : List (String × ℕ)
  pub doc_length : ℕ

-- A row of index_roots.
pub record Root : Type 0 where
  pub root_hash : String
  pub leaf_count : ℕ

-- An entry of `indexCache`.
pub record Entry : Type 0 where
  pub root : String
  pub proof : Option (List Step)
  pub leaf_index : ℕ
  pub leaf_hash : String

pub record Broker (N : Type 0) : Type 0 where
  pub manifests : List (Row N)
  pub corpus : List (String × Document)
  pub roots : List Root  -- the latest first
  pub cache : List (String × Entry)

-- The runtime and its numbers.
pub record Host (N : Type 0) : Type 0 where
  pub sha256 : String → String
  pub stringify : Json N → String
  pub to_lower : String → String
  pub is_falsy : N → Bool
  pub zero : N
  pub half : N
  pub unixepoch : ℕ

-- `v || d` on numbers
abbrev pub or_number : {N : Type 0} → (N → Bool) → Option N → N → N
or_number falsy none d = d
or_number falsy (some n) d = if falsy n then d else n

-- `v || null`
abbrev pub or_null : {N : Type 0} → (N → Bool) → Option N → Option N
or_null falsy none = none
or_null falsy (some n) = if falsy n then none else some n

-- The latest root, or that there is none.
abbrev pub latest_root : List Root → Option String
latest_root [] = none
latest_root (r ∷ _) = some r.root_hash

-- The last loop of `rebuildAndPublishIndex`, from row `i` on.
unfoldable pub cache_from :
    {N : Type 0} → Tree → ℕ → List (Row N) → List (String × Entry) → List (String × Entry)
cache_from tree i [] cache = cache
cache_from tree i (row ∷ rows) cache = cache_from tree (i + 1) rows (
    store row.provider_did
      (record {
        root = tree.root;
        proof = get_elem? tree.proofs i;
        leaf_index = i;
        leaf_hash = row.leaf_hash;
      })
      cache)

-- ON CONFLICT(provider_did) DO UPDATE: every column but `id`
unfoldable pub upsert_row : {N : Type 0} → Row N → List (Row N) → List (Row N)
upsert_row new [] = new ∷ []
upsert_row new (row ∷ rows) =
    let rest = upsert_row new rows in
    if row.provider_did =s= new.provider_did then record new { id = row.id } ∷ rows else row ∷ rest

module _ {N : Type 0} (host : Host N) where
  unfoldable pub rebuild_and_publish_index : Broker N → Broker N
  rebuild_and_publish_index b =
      let leaves = map (λ r. r.leaf_hash) b.manifests in
      let tree = build_merkle_tree host.sha256 leaves in
      record b {
        roots = record { root_hash = tree.root; leaf_count = length leaves } ∷ b.roots;
        cache = cache_from tree 0 b.manifests [];
      }

  unfoldable pub row_of : String → Manifest N → Row N
  row_of did m = record {
    id = host.sha256 did;
    provider_did = did;
    manifest_json = host.stringify m.json;
    leaf_hash = host.sha256 (host.stringify m.json);
    conformance_level = or_number host.is_falsy m.conformance_level host.zero;
    reputation_score = or_number host.is_falsy m.reputation_score host.half;
    avg_cost_usd = or_null host.is_falsy m.avg_cost_usd;
    categories_text = join ", " m.categories;
    description_text = m.description;
    actions_text = join " " (map (λ a. a.0) m.actions);
    jurisdictions = m.jurisdictions;
    risk_class = if m.risk_class =s= "" then "low" else m.risk_class;
    updated_at = host.unixepoch;
  }

  -- `indexManifestBm25`
  unfoldable pub index_manifest_bm25 :
      String → Manifest N → List (String × Document) → List (String × Document)
  index_manifest_bm25 id m corpus =
      let tokens = tokenize host.to_lower (
        join " " (
          m.description
          ∷ join " " m.categories
          ∷ join " " (map (λ a. a.0) m.actions)
          ∷ join " " (map (λ a. a.1) m.actions)
          ∷ [])) in
      store id (record { term_freqs = term_freqs_of tokens; doc_length = length tokens }) corpus

  -- POST /oap/manifests, past its check of the request.
  unfoldable pub register : String → Manifest N → Broker N → Broker N
  register did m b = rebuild_and_publish_index (record b {
    manifests = upsert_row (row_of did m) b.manifests;
    corpus = index_manifest_bm25 (host.sha256 did) m b.corpus;
  })
