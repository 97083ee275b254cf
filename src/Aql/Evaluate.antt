-- ===== src/Aql/Evaluate.antt =====
-- `evaluate` and `evalNode` (reference/aql/src/evaluator.js).
use oap_spec.Prelude.{String, Bool, true, false, not, List, [], ◌∷◌, ◌++◌, map, if◌then◌else◌}
use oap_spec.Json.{Json}
use oap_spec.Aql.{Host, Node, all_of, any_of, negation, leaf, Nodes, none_left, also}
use oap_spec.Aql.Path.{resolve_path}
use oap_spec.Aql.Leaf.{compare_leaf}

-- A constraint evaluation record; `reason` is left out.
pub record Evaluation (N : Type 0) : Type 0 where
  pub path : String
  pub operator : String
  pub value : Json N
  pub passed : Bool
  pub negated : Bool

abbrev pub mark_negated : {N : Type 0} → Evaluation N → Evaluation N
mark_negated e = record e { negated = true }

module _ {N : Type 0} (host : Host N) where
  unfoldable pub leaf_passes : String → String → Json N → Json N → Bool
  leaf_passes path operator value candidate =
      compare_leaf host (resolve_path host candidate path) operator value

  -- `evalNode`: the result, and the list that was handed in with the records pushed to it. A loop
  -- goes through all children, also where the result is settled.
  unfoldable mutual
    pub eval_node : Node N → Json N → List (Evaluation N) → Bool × List (Evaluation N)
    eval_node (all_of children) candidate log = eval_all children candidate true log
    eval_node (any_of children) candidate log = eval_any children candidate false log
    eval_node (negation child) candidate log =
        let (inner, child_evals) = eval_node child candidate [] in
        (not inner, log ++ map mark_negated child_evals)
    eval_node (leaf path operator value) candidate log =
        let passed = leaf_passes path operator value candidate in
        (
          passed,
          log
              ++ record {
                path = path;
                operator = operator;
                value = value;
                passed = passed;
                negated = false;
              }
                ∷ [],
        )

    pub eval_all : Nodes N → Json N → Bool → List (Evaluation N) → Bool × List (Evaluation N)
    eval_all none_left candidate all_passed log = (all_passed, log)
    eval_all (also child rest) candidate all_passed log =
        let (passed, log') = eval_node child candidate log in
        eval_all rest candidate (if not passed then false else all_passed) log'

    pub eval_any : Nodes N → Json N → Bool → List (Evaluation N) → Bool × List (Evaluation N)
    eval_any none_left candidate any_passed log = (any_passed, log)
    eval_any (also child rest) candidate any_passed log =
        let (passed, log') = eval_node child candidate log in
        eval_any rest candidate (if passed then true else any_passed) log'

  unfoldable pub evaluate : Node N → Json N → Bool × List (Evaluation N)
  evaluate constraints candidate = eval_node constraints candidate []
