-- ===== src/Tests/ParserRuns.antt =====
-- The theorems on the parser, for an intent of one leaf.
use oap_spec.Prelude.{ℕ, true, Option, none, some, [], ◌∷◌, ◌≡◌, ◌↔◌, ◌=s=◌, ◌==◌, if◌then◌else◌}
use oap_spec.Json.{Json, null, str, num, arr, obj, nil, cons, end, field}
use oap_spec.Aql.Parser.{validate_constraint_tree, Intent, Runtime, parse_intent}
use oap_spec.Aql.Trees.{IsTree}
use oap_spec.Aql.Grammar.{validate_constraint_tree_iff}
use oap_spec.Aql.Intents.{IsAdmissible, parse_intent_iff}

abbrev leaf_json : Json ℕ
leaf_json =
    obj (field "path" (str "/cost") (field "operator" (str "lte") (field "value" (num 5) end)))

abbrev tree_json : Json ℕ
tree_json =
    obj (field "all_of" (arr (cons leaf_json (cons (obj (field "not" leaf_json end)) nil))) end)

abbrev intent : Intent ℕ
intent = record {
  constraints = tree_json;
  budget =
      some
        (record { allocation = "ranked_top_k"; top_k = some 2; distribution = some (1 ∷ 0 ∷ []) });
  category = "subscription";
  max_event_rate_per_minute = some 6;
  from = "today";
  to = "tomorrow";
}

abbrev toy : Runtime ℕ
toy = record {
  read = λ v. some intent;
  parse_json = λ s. none;
  sums_to_one = λ ns. true;
  of_nat = λ n. n;
  num_eq = ◌==◌;
  date = λ s. if s =s= "today" then some 1 else if s =s= "tomorrow" then some 2 else none;
  show = λ n. "0";
}

validate_constraint_tree_iff_example :
    validate_constraint_tree (λ n. "0") tree_json "/constraints" ≡ [] ↔ IsTree tree_json
validate_constraint_tree_iff_example =
    validate_constraint_tree_iff (λ n. "0") tree_json "/constraints"

parse_intent_iff_example :
    parse_intent toy null ≡ ([], some intent)
    ↔ (◌≡◌ {A = Option (Intent ℕ)} (some intent) (some intent)) × IsAdmissible toy intent
parse_intent_iff_example = parse_intent_iff toy null intent
