-- ===== src/Broker/Ranking.antt =====
-- The scores and `rankCandidates` (reference/match-broker/broker.js).
use oap_spec.Prelude.{
  ℕ, ◌-◌, ◌==◌, String, Bool, Option, none, some, List, [], ◌∷◌, map, if◌then◌else◌, lookup,
  sort_by,
}
use oap_spec.Broker.{Row, Document}
use oap_spec.Broker.Search.{Floats, bm25_score}

-- WEIGHT
pub record Weights (N : Type 0) : Type 0 where
  pub bm25 : N
  pub reputation : N
  pub conformance : N
  pub cost_score : N
  pub freshness : N

-- `decisionRecord.inputs`
pub record Inputs (N : Type 0) : Type 0 where
  pub bm25_raw : N
  pub bm25_normalized : N
  pub reputation_score : N
  pub conformance_level : N
  pub conformance_score : N
  pub cost_score : N
  pub freshness_score : N

pub record DecisionRecord (N : Type 0) : Type 0 where
  pub candidate_did : String
  pub inputs : Inputs N
  pub weights : Weights N
  pub final_score : N

pub record Ranked (N : Type 0) : Type 0 where
  pub row : Row N
  pub final_score : N
  pub decision_record : DecisionRecord N

unfoldable pub costs_of : {N : Type 0} → List (Row N) → List N
costs_of [] = []
costs_of (row ∷ rows) = elim row.avg_cost_usd [
  | none ↦ costs_of rows
  | some cost ↦ cost ∷ costs_of rows
]

-- The document of a candidate, or what `?.` and `||` put in its place.
abbrev pub document_or_empty : Option Document → Document
document_or_empty none = record { term_freqs = []; doc_length = 1 }
document_or_empty (some d) = if d.doc_length == 0 then record d { doc_length = 1 } else d

module _ {N : Type 0} (f : Floats N) (weight : Weights N) where
  -- Math.max(...costs) and Math.min(...costs) of a list that begins with `c`
  unfoldable pub fold_costs : (N → N → N) → N → List N → N
  fold_costs op c [] = c
  fold_costs op c (d ∷ ds) = fold_costs op (op c d) ds

  unfoldable pub compute_conformance_score : N → N
  compute_conformance_score level = f.div level (f.of_nat 4)

  unfoldable pub compute_cost_score : Option N → List N → N
  compute_cost_score none costs = f.half
  compute_cost_score (some cost) [] = f.half
  compute_cost_score (some cost) (c ∷ cs) =
      let most = fold_costs f.greatest c cs in
      let least = fold_costs f.least c cs in
      if f.same most least
      then f.of_nat 1
      else f.sub (f.of_nat 1) (f.div (f.sub cost least) (f.sub most least))

  -- `now` and `updated_at` are seconds; the difference is not negative.
  unfoldable pub compute_freshness_score : (now updated_at : ℕ) → N
  compute_freshness_score now updated_at =
      let age_days = f.div (f.of_nat (now - updated_at)) (f.of_nat 86400) in
      f.greatest (f.of_nat 0) (f.sub (f.of_nat 1) (f.div age_days (f.of_nat 365)))

  unfoldable pub final_score_of : Inputs N → N
  final_score_of i =
      f.add
        (f.add
          (f.add
            (f.add (f.mul weight.bm25 i.bm25_normalized)
              (f.mul weight.reputation i.reputation_score))
            (f.mul weight.conformance i.conformance_score))
          (f.mul weight.cost_score i.cost_score))
        (f.mul weight.freshness i.freshness_score)

  module _ (corpus : List (String × Document)) (query_tokens : List String)
      (idf_map : List (String × N)) (avg_doc_length : N) (now : ℕ) where
    unfoldable pub inputs_of : List N → Row N → Inputs N
    inputs_of costs c =
        let doc = document_or_empty (lookup c.id corpus) in
        let raw =
          bm25_score f (f.of_nat 0) query_tokens doc.term_freqs (f.of_nat doc.doc_length)
            avg_doc_length idf_map in
        record {
          bm25_raw = raw;
          bm25_normalized = f.least (f.div raw (f.of_nat 10)) (f.of_nat 1);
          reputation_score = c.reputation_score;
          conformance_level = c.conformance_level;
          conformance_score = compute_conformance_score c.conformance_level;
          cost_score = compute_cost_score c.avg_cost_usd costs;
          freshness_score = compute_freshness_score now c.updated_at;
        }

    unfoldable pub rank_one : List N → Row N → Ranked N
    rank_one costs c =
        let inputs = inputs_of costs c in
        record {
          row = c;
          final_score = final_score_of inputs;
          decision_record = record {
            candidate_did = c.provider_did;
            inputs = inputs;
            weights = weight;
            final_score = final_score_of inputs;
          };
        }

    -- `(a, b) => b.finalScore - a.finalScore`
    abbrev pub scores_less : Ranked N → Ranked N → Bool
    scores_less a b = f.num_lt a.final_score b.final_score

    unfoldable pub rank_candidates : List (Row N) → List (Ranked N)
    rank_candidates candidates =
        sort_by scores_less (map (rank_one (costs_of candidates)) candidates)
