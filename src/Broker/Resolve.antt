-- ===== src/Broker/Resolve.antt =====
-- POST /oap/resolve, GET /oap/index/proof and GET /oap/index/attestation (reference/match-broker/broker.js).
use oap_spec.Prelude.{
  ℕ, suc, ℤ, pos, negsuc, String, Bool, Option, none, some, List, [], ◌∷◌, if◌then◌else◌, ltb,
  ◌=s=◌, ◌==◌, ◌-◌, length, lookup,
}
use oap_spec.Json.{Json}
use oap_spec.Merkle.{Step}
use oap_spec.Broker.{Row, Document, Entry, Broker, latest_root}
use oap_spec.Broker.Search.{Floats, tokenize, build_idf}
use oap_spec.Broker.Filter.{Filters, passes_constraints}
use oap_spec.Broker.Ranking.{Weights, Ranked, DecisionRecord, rank_candidates}
use oap_spec.Broker.Signing.{sign_decision}

-- What the handlers take from the runtime and from SQLite.
pub record Engine (N : Type 0) : Type 0 where
  pub floats : Floats N
  pub weight : Weights N
  pub categories_of : String → List String
  pub to_lower : String → String
  pub stringify : Json N → String
  pub sign : String → String
  pub round4 : N → N  -- Math.round(x * 10000) / 10000
  pub mentions : String → Document → Bool  -- term_freqs LIKE …
  pub avg_doc_length : List (String × Document) → N  -- AVG(doc_length), or 1
  pub now : ℕ
  pub computed_at : String

-- An intent: its query, or else its description, and the integer `top_k`, none if there is none.
pub record Query (N : Type 0) : Type 0 where
  pub text' : String
  pub top_k : Option ℤ
  pub filters : Filters N

pub record Listed (N : Type 0) : Type 0 where
  pub rank : ℕ
  pub provider_did : String
  pub final_score : N
  pub manifest_json : String
  pub leaf_hash : Option String
  pub leaf_index : Option ℕ
  pub root_hash : Option String
  pub proof_path : List Step
  pub decision : DecisionRecord N
  pub signature : String

pub record Answer (N : Type 0) : Type 0 where
  pub candidates : List (Listed N)
  pub total_indexed : ℕ
  pub index_root : Option String

-- Math.min(intent.top_k || 10, 50)
unfoldable pub limit_of : Option ℤ → ℤ
limit_of none = pos 10
limit_of (some (pos k)) = if k == 0 then pos 10 else if ltb 50 k then pos 50 else pos k
limit_of (some (negsuc k)) = negsuc k

unfoldable pub slice_first {ℓ} : {A : Type ℓ} → ℕ → List A → List A
slice_first n [] = []
slice_first n (x ∷ xs) = let rest = slice_first (n - 1) xs in if n == 0 then [] else x ∷ rest

-- `xs.slice(0, end)`: a negative end counts from the end of the list.
unfoldable pub slice_to {ℓ} : {A : Type ℓ} → ℤ → List A → List A
slice_to (pos n) xs = slice_first n xs
slice_to (negsuc n) xs = slice_first (length xs - suc n) xs

unfoldable pub count_mentions : (Document → Bool) → List (String × Document) → ℕ
count_mentions test [] = 0
count_mentions test ((_, d) ∷ rest) =
    let later = count_mentions test rest in if test d then suc later else later

unfoldable pub select_passing {ℓ} : {A : Type ℓ} → (A → Bool) → List A → List A
select_passing test [] = []
select_passing test (x ∷ xs) =
    let rest = select_passing test xs in if test x then x ∷ rest else rest

-- `cached.proof || []`
abbrev pub proof_or_empty : Option Entry → List Step
proof_or_empty none = []
proof_or_empty (some e) = elim e.proof [ none ↦ [] | some path ↦ path ]

abbrev leaf_hash_of : Option Entry → Option String
leaf_hash_of none = none
leaf_hash_of (some e) = some e.leaf_hash

abbrev leaf_index_of : Option Entry → Option ℕ
leaf_index_of none = none
leaf_index_of (some e) = some e.leaf_index

module _ {N : Type 0} (engine : Engine N) (version : String) where
  unfoldable pub list_one : Broker N → ℕ → Ranked N → Listed N
  list_one b rank c =
      let cached = lookup c.row.provider_did b.cache in
      record {
        rank = suc rank;
        provider_did = c.row.provider_did;
        final_score = engine.round4 c.final_score;
        manifest_json = c.row.manifest_json;
        leaf_hash = leaf_hash_of cached;
        leaf_index = leaf_index_of cached;
        root_hash = latest_root b.roots;
        proof_path = proof_or_empty cached;
        decision = c.decision_record;
        signature =
            sign_decision engine.stringify engine.sign version engine.computed_at c.decision_record;
      }

  -- `ranked.map((c, rank) => …)`, from a rank on
  unfoldable pub list_from : Broker N → ℕ → List (Ranked N) → List (Listed N)
  list_from b rank [] = []
  list_from b rank (c ∷ cs) = list_one b rank c ∷ list_from b (suc rank) cs

  unfoldable pub ranked_of : Broker N → Query N → List (Row N) → List (Ranked N)
  ranked_of b query filtered =
      let tokens = tokenize engine.to_lower query.text' in
      let idf_map =
        build_idf engine.floats (length b.corpus)
          (λ term. count_mentions (engine.mentions term) b.corpus) tokens [] in
      rank_candidates engine.floats engine.weight b.corpus tokens idf_map
        (engine.avg_doc_length b.corpus) engine.now filtered

  -- A response with no candidate leaves out the ranking function and the count of filtered rows.
  unfoldable pub resolve : Broker N → Query N → Answer N
  resolve b query =
      let filtered =
        select_passing
          (λ m. passes_constraints engine.floats.num_lt engine.categories_of m query.filters)
          b.manifests in
      record {
        candidates = list_from b 0 (slice_to (limit_of query.top_k) (ranked_of b query filtered));
        total_indexed = length b.manifests;
        index_root = latest_root b.roots;
      }

-- GET /oap/index/proof: what it says of a provider.
pub data ProofAnswer : Type 0 where
  provider_not_indexed : Option String → ProofAnswer
  inclusion :
      (leaf_hash : String) → (leaf_index : ℕ) → (root : String) → Option (List Step) → ProofAnswer

-- `cached.root || latestRoot`
abbrev root_or : String → Option String → String
root_or root latest = if root =s= "" then elim latest [ none ↦ root | some r ↦ r ] else root

unfoldable pub index_proof : {N : Type 0} → Broker N → String → ProofAnswer
index_proof b did = elim (lookup did b.cache) [
  | none ↦ provider_not_indexed (latest_root b.roots)
  | some e ↦ inclusion e.leaf_hash e.leaf_index (root_or e.root (latest_root b.roots)) e.proof
]
