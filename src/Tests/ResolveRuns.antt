-- ===== src/Tests/ResolveRuns.antt =====
-- The theorems on a resolver's response, for three candidates.
use oap_spec.Prelude.{ℕ, String, true, none, some, List, [], ◌∷◌, ◌≡◌, All, arith}
use oap_spec.Json.{num, obj, end, field}
use oap_spec.Aql.Resolve.{Candidate, Intent, Accepted, sort_key, resolve_intent}
use oap_spec.Aql.Ranking.{Comes, resolve_intent-Comes}
use oap_spec.Aql.Order.{NoLess, Descending, RankedFrom, resolve_intent-Descending}
use oap_spec.Tests.AqlRuns.{toy, cheap}

abbrev offer : String → ℕ → ℕ → Candidate ℕ
offer id price score = record {
  id = id;
  content = obj (field "price" (num price) end);
  score = some score;
  cost = "";
  quality = some (("performance_score", num score) ∷ []);
}

abbrev offers : List (Candidate ℕ)
offers = offer "a" 12 3 ∷ offer "b" 40 9 ∷ offer "c" 15 5 ∷ []

abbrev intent : Intent ℕ
intent = record {
  constraints = cheap;
  quality_floor = some (("performance_score", num 4) ∷ []);
  budget = none;
  resolution_policy = "";
}

resolve_intent-Comes_example :
    All (Comes toy intent offers) (resolve_intent toy intent offers).candidates
resolve_intent-Comes_example = resolve_intent-Comes toy intent offers

asym : (a b : Accepted ℕ) → toy.num_lt (sort_key toy a) (sort_key toy b) ≡ true → NoLess toy b a
asym a b h = ground arith

trans : (a b c : Accepted ℕ) → NoLess toy a b → NoLess toy b c → NoLess toy a c
trans a b c h k = ground arith

resolve_intent-Descending_example :
    Descending toy (resolve_intent toy intent offers).candidates
    × RankedFrom 0 (resolve_intent toy intent offers).candidates
resolve_intent-Descending_example = resolve_intent-Descending toy asym trans intent offers
