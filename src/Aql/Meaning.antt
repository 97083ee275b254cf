-- ===== src/Aql/Meaning.antt =====
-- What a constraint tree means, beside how `evalNode` computes it.
use oap_spec.Prelude.{
  Bool, true, false, not, ◌&&◌, ◌||◌, List, [], ◌∷◌, ◌++◌, map, ◌≡◌, refl, sym, ◌∙◌, arith,
  if◌then◌else◌,
}
use mathlib.Core.List.{append_assoc, append-nil}
use mathlib.Core.Path.{ap₂}
use oap_spec.Json.{Json}
use oap_spec.Aql.{Host, Node, all_of, any_of, negation, leaf, Nodes, none_left, also}
use oap_spec.Aql.Evaluate.{
  Evaluation, mark_negated, leaf_passes, eval_node, eval_all, eval_any, evaluate,
}

pair_path {ℓ κ} :
    {A : Type ℓ} {B : Type κ} {a b : A} {x y : B} → a ≡ b → x ≡ y → ◌≡◌ {A = A × B} (a, x) (b, y)
pair_path p q = ap₂ (λ a x. (a, x)) p q

and_true : (a : Bool) → a ≡ (a && true)
and_true a = ground arith

or_false : (a : Bool) → a ≡ (a || false)
or_false a = ground arith

and_step : (p s r : Bool) → ((if not p then false else s) && r) ≡ (s && (p && r))
and_step p s r = ground arith

or_step : (p s r : Bool) → ((if p then true else s) || r) ≡ (s || (p || r))
or_step p s r = ground arith

module _ {N : Type 0} (host : Host N) (candidate : Json N) where
  -- The Boolean function that a tree stands for.
  unfoldable mutual
    pub meaning : Node N → Bool
    meaning (all_of children) = meaning_all children
    meaning (any_of children) = meaning_any children
    meaning (negation child) = not (meaning child)
    meaning (leaf path operator value) = leaf_passes host path operator value candidate

    pub meaning_all : Nodes N → Bool
    meaning_all none_left = true
    meaning_all (also child rest) = meaning child && meaning_all rest

    pub meaning_any : Nodes N → Bool
    meaning_any none_left = false
    meaning_any (also child rest) = meaning child || meaning_any rest

  -- One record for each leaf, from left to right, marked where it stands under a negation.
  unfoldable mutual
    pub trace : Node N → List (Evaluation N)
    trace (all_of children) = trace_all children
    trace (any_of children) = trace_all children
    trace (negation child) = map mark_negated (trace child)
    trace (leaf path operator value) =
        record {
          path = path;
          operator = operator;
          value = value;
          passed = leaf_passes host path operator value candidate;
          negated = false;
        }
        ∷ []

    pub trace_all : Nodes N → List (Evaluation N)
    trace_all none_left = []
    trace_all (also child rest) = trace child ++ trace_all rest

  mutual
    unfolding eval_node meaning trace

    eval_node_lem :
        (node : Node N) (log : List (Evaluation N))
        → eval_node host node candidate log ≡ (meaning node, log ++ trace node)
    eval_node_lem (all_of children) log = eval_all_lem children true log
    eval_node_lem (any_of children) log = eval_any_lem children false log
    eval_node_lem (negation child) log = rw (eval_node_lem child [])
    eval_node_lem (leaf path operator value) log = refl

    eval_all_lem :
        (children : Nodes N) (so_far : Bool) (log : List (Evaluation N))
        → eval_all host children candidate so_far log
          ≡ (so_far && meaning_all children, log ++ trace_all children)
    eval_all_lem none_left so_far log = pair_path (and_true so_far) (sym (append-nil log))
    eval_all_lem (also child rest) so_far log = rw (eval_node_lem child log) (
        eval_all_lem rest (if not (meaning child) then false else so_far) (log ++ trace child)
        ∙ pair_path (and_step (meaning child) so_far (meaning_all rest))
            (append_assoc log (trace child) (trace_all rest)))

    eval_any_lem :
        (children : Nodes N) (so_far : Bool) (log : List (Evaluation N))
        → eval_any host children candidate so_far log
          ≡ (so_far || meaning_any children, log ++ trace_all children)
    eval_any_lem none_left so_far log = pair_path (or_false so_far) (sym (append-nil log))
    eval_any_lem (also child rest) so_far log = rw (eval_node_lem child log) (
        eval_any_lem rest (if meaning child then true else so_far) (log ++ trace child)
        ∙ pair_path (or_step (meaning child) so_far (meaning_any rest))
            (append_assoc log (trace child) (trace_all rest)))

  -- Evaluating a tree gives the Boolean function that it stands for, and exactly one record for each
  -- leaf, in order: the loops go through all children, and a record is marked as negated exactly
  -- where its leaf stands under a negation.
  pub evaluate-eq-meaning :
      (node : Node N) → evaluate host node candidate ≡ (meaning node, trace node)
  unfolding evaluate
  evaluate-eq-meaning node = eval_node_lem node []

  abbrev pub negate_each : Nodes N → Nodes N
  negate_each none_left = none_left
  negate_each (also child rest) = also (negation child) (negate_each rest)

  meaning-negate_each :
      (children : Nodes N)
      → (meaning_any (negate_each children) ≡ not (meaning_all children))
        × (meaning_all (negate_each children) ≡ not (meaning_any children))
  unfolding meaning
  meaning-negate_each none_left = (refl, refl)
  meaning-negate_each (also child rest) =
      let (any', all') = meaning-negate_each rest in (ground arith, ground arith)

  -- De Morgan: a candidate passes the negation of `all_of` exactly if it passes `any_of` the negated
  -- children, and the negation of `any_of` exactly if it passes `all_of` them.
  pub evaluate_de_morgan :
      (children : Nodes N)
      → ((evaluate host (negation (all_of children)) candidate).0
          ≡ (evaluate host (any_of (negate_each children)) candidate).0)
        × ((evaluate host (negation (any_of children)) candidate).0
            ≡ (evaluate host (all_of (negate_each children)) candidate).0)
  unfolding meaning
  evaluate_de_morgan children =
      let (any', all') = meaning-negate_each children in
      (
        rw (evaluate-eq-meaning, evaluate-eq-meaning) (sym any'),
        rw (evaluate-eq-meaning, evaluate-eq-meaning) (sym all'),
      )
