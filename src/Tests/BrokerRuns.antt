-- ===== src/Tests/BrokerRuns.antt =====
-- The theorems on the match broker, for a broker at which one provider is registered.
use oap_spec.Prelude.{
  ℕ, pos, ◌+◌, ◌-◌, ◌*◌, ◌/◌, String, true, none, some, [], ◌∷◌, ◌≡◌, refl, ltb, ◌==◌,
  if◌then◌else◌, length, All,
}
use oap_spec.Json.{Json, str}
use oap_spec.Broker.{
  Manifest, Broker, Host, row_of, upsert_row, rebuild_and_publish_index, register,
}
use oap_spec.Broker.Search.{Floats}
use oap_spec.Broker.Ranking.{Weights, Inputs, DecisionRecord}
use oap_spec.Broker.Resolve.{Engine, Query, resolve}
use oap_spec.Broker.Published.{Reach, start, registered, IsProved, Reach-IsProved}
use oap_spec.Broker.Answers.{IsWithin, length-resolve, IsBacked, resolve-IsBacked}
use oap_spec.Broker.Catalog.{row_at, run, replay, run-eq-replay}
use oap_spec.Tests.{digest, digest-filled}

abbrev shown : Json ℕ → String
shown (str s) = s
shown _ = "{}"

abbrev toy : Host ℕ
toy = record {
  sha256 = digest;
  stringify = shown;
  to_lower = λ s. s;
  is_falsy = λ n. n == 0;
  zero = 0;
  half = 1;
  unixepoch = 1000;
}

abbrev numbers : Floats ℕ
numbers = record {
  of_nat = λ n. n;
  add = λ m n. m + n;
  sub = λ m n. m - n;
  mul = λ m n. m * n;
  div = λ m n. m / n;
  log = λ n. n;
  least = λ m n. if ltb m n then m else n;
  greatest = λ m n. if ltb m n then n else m;
  num_lt = ltb;
  same = ◌==◌;
  is_falsy = λ n. n == 0;
  half = 1;
  k1 = 1;
  b = 1;
}

abbrev weights : Weights ℕ
weights = record { bm25 = 40; reputation = 25; conformance = 15; cost_score = 10; freshness = 10 }

abbrev engine : Engine ℕ
engine = record {
  floats = numbers;
  weight = weights;
  categories_of = λ s. s ∷ [];
  to_lower = λ s. s;
  stringify = shown;
  sign = λ s. "signed";
  round4 = λ n. n;
  mentions = λ s d. true;
  avg_doc_length = λ corpus. 1;
  now = 2000;
  computed_at = "now";
}

abbrev air : Manifest ℕ
air = record {
  json = str "air";
  description = "flights to book";
  categories = "travel" ∷ [];
  actions = ("book", "book a flight") ∷ [];
  jurisdictions = "DE" ∷ [];
  conformance_level = some 3;
  reputation_score = none;
  avg_cost_usd = some 2;
  risk_class = "";
}

abbrev empty : Broker ℕ
empty = record { manifests = []; corpus = []; roots = []; cache = [] }

abbrev broker : Broker ℕ
broker = register toy "did:web:air" air (rebuild_and_publish_index toy empty)

abbrev reach : Reach toy broker
reach = registered "did:web:air" air start

abbrev query : Query ℕ
query = record {
  text' = "book a flight";
  top_k = some (pos 3);
  filters = record {
    jurisdiction = some ("DE" ∷ []);
    risk_class = "low";
    min_conformance_level = some 2;
    max_cost_usd = none;
    categories = [];
  };
}

Reach-IsProved_example : IsProved toy broker 0 (row_of toy "did:web:air" air)
unfolding register rebuild_and_publish_index upsert_row
Reach-IsProved_example =
    Reach-IsProved toy digest-filled 0 (row_of toy "did:web:air" air) reach refl

length-resolve_example :
    IsWithin (some (pos 3)) (length (resolve engine "v1" broker query).candidates)
length-resolve_example = length-resolve toy engine "v1" broker query (λ k e. cc e)

resolve-IsBacked_example :
    All (IsBacked toy engine "v1" broker query) (resolve engine "v1" broker query).candidates
resolve-IsBacked_example = resolve-IsBacked toy engine "v1" broker query digest-filled reach

abbrev inputs : ℕ → Inputs ℕ
inputs n = record {
  bm25_raw = n;
  bm25_normalized = n;
  reputation_score = n;
  conformance_level = n;
  conformance_score = n;
  cost_score = n;
  freshness_score = n;
}

abbrev decision : DecisionRecord ℕ
decision = record {
  candidate_did = "did:web:air";
  inputs = inputs 1;
  weights = weights;
  final_score = 5;
}

run-eq-replay_example :
    row_at toy "did:web:air"
      (run toy empty (
        ("did:web:air", air)
        ∷ ("did:web:sea", air)
        ∷ ("did:web:air", record air { risk_class = "high" })
        ∷ [])).manifests
    ≡ replay toy
        (λ d. none)
        (("did:web:air", air)
          ∷ ("did:web:sea", air)
          ∷ ("did:web:air", record air { risk_class = "high" })
          ∷ [])
        "did:web:air"
run-eq-replay_example =
    run-eq-replay toy empty
      (("did:web:air", air)
        ∷ ("did:web:sea", air)
        ∷ ("did:web:air", record air { risk_class = "high" })
        ∷ [])
      refl "did:web:air"
