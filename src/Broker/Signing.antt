-- ===== src/Broker/Signing.antt =====
-- `sign` (reference/match-broker/broker.js), and what its array of keys does to nested objects.
use oap_spec.Prelude.{String, Option, none, some, List, [], ◌∷◌, map, ◌≡◌, refl}
use oap_spec.Json.{
  Json, undefined, null, bool, num, str, arr, obj, Items, nil, cons, Fields, end, field, entries,
  sort_keys, before,
}
use oap_spec.Predicate.{get}
use oap_spec.Broker.Ranking.{Weights, Inputs, DecisionRecord}

-- The fields with the given names, in their order, as far as there are any.
abbrev add_field : {N : Type 0} → String → Option (Json N) → Fields N → Fields N
add_field k none rest = rest
add_field k (some v) rest = field k v rest

unfoldable pub pick : {N : Type 0} → List String → Fields N → Fields N
pick [] fs = end
pick (k ∷ ks) fs = add_field k (get k fs) (pick ks fs)

-- What `JSON.stringify(v, keys)` writes: of every object, at any depth, the fields named by `keys`.
unfoldable mutual
  pub restrict : {N : Type 0} → List String → Json N → Json N
  restrict keys undefined = undefined
  restrict keys null = null
  restrict keys (bool b) = bool b
  restrict keys (num n) = num n
  restrict keys (str s) = str s
  restrict keys (arr vs) = arr (restrict_items keys vs)
  restrict keys (obj fs) = obj (pick keys (restrict_fields keys fs))

  pub restrict_items : {N : Type 0} → List String → Items N → Items N
  restrict_items keys nil = nil
  restrict_items keys (cons v vs) = cons (restrict keys v) (restrict_items keys vs)

  pub restrict_fields : {N : Type 0} → List String → Fields N → Fields N
  restrict_fields keys end = end
  restrict_fields keys (field k v fs) = field k (restrict keys v) (restrict_fields keys fs)

-- `Object.keys(payload).sort()`
unfoldable pub sorted_keys : {N : Type 0} → Fields N → List String
sorted_keys fs = map (λ e. e.0) (sort_keys (entries fs))

-- What is signed, for a payload that is an object.
unfoldable pub signing_form : {N : Type 0} → Fields N → Json N
signing_form fs = restrict (sorted_keys fs) (obj fs)

unfoldable pub decision_fields :
    {N : Type 0} → (version computed_at : String) → DecisionRecord N → Fields N
decision_fields version computed_at d = field "candidate_did" (str d.candidate_did) (
    field "ranking_function_id" (str "oap-bm25-multifactor-v1") (
      field "ranking_function_version" (str version) (
        field "inputs"
          (obj (
            field "bm25_raw" (num d.inputs.bm25_raw) (
              field "bm25_normalized" (num d.inputs.bm25_normalized) (
                field "reputation_score" (num d.inputs.reputation_score) (
                  field "conformance_level" (num d.inputs.conformance_level) (
                    field "conformance_score" (num d.inputs.conformance_score) (
                      field "cost_score" (num d.inputs.cost_score)
                        (field "freshness_score" (num d.inputs.freshness_score) end))))))))
          (field "weights"
            (obj (
              field "bm25" (num d.weights.bm25) (
                field "reputation" (num d.weights.reputation) (
                  field "conformance" (num d.weights.conformance) (
                    field "cost_score" (num d.weights.cost_score)
                      (field "freshness" (num d.weights.freshness) end))))))
            (field "final_score" (num d.final_score)
              (field "computed_at" (str computed_at) end))))))

unfoldable pub sign_decision :
    {N : Type 0}
    → (stringify : Json N → String) → (sign : String → String) → (version computed_at : String)
    → DecisionRecord N
    → String
sign_decision stringify sign version computed_at d =
    sign (stringify (signing_form (decision_fields version computed_at d)))

-- The signature of a decision record does not depend on its inputs and weights: two records for one
-- candidate with one final score and time have the same signature, whatever else they say.
pub sign_decision-inputs :
    {N : Type 0} (stringify : Json N → String) (sign : String → String)
    (version computed_at : String) (d : DecisionRecord N) (inputs : Inputs N) (weights : Weights N)
    → sign_decision stringify sign version computed_at
        (record d { inputs = inputs; weights = weights })
      ≡ sign_decision stringify sign version computed_at d
unfolding sign_decision signing_form sorted_keys decision_fields restrict pick sort_keys before
sign_decision-inputs stringify sign version computed_at d inputs weights = refl
