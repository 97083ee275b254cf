-- ===== src/Aql/Resolve.antt =====
-- `resolveIntent`, `checkQualityFloor` and `scoreFromEvaluations` (reference/aql/src/index.js). A
-- response's generated ids, its times, its placeholder signature, the texts of explanations and the
-- projected payload of a candidate are left out. `sort` is the stable sort of the language.
use oap_spec.Prelude.{
  ℕ, suc, String, Bool, true, false, not, ◌&&◌, Option, none, some, List, [], ◌∷◌, ◌=s=◌, length,
  if◌then◌else◌,
}
use oap_spec.Json.{Json, undefined, num, str}
use oap_spec.Aql.{Host, Node}
use oap_spec.Aql.Evaluate.{Evaluation, evaluate}

pub record Candidate (N : Type 0) : Type 0 where
  pub id : String
  pub content : Json N  -- `record`
  pub score : Option N
  pub cost : String  -- "" if absent
  pub quality : Option (List (String × Json N))

pub record Intent (N : Type 0) : Type 0 where
  pub constraints : Node N
  pub quality_floor : Option (List (String × Json N))
  pub budget : Option (Json N)  -- `budget.amount`
  pub resolution_policy : String  -- "" if absent

pub data Outcome : Type 0 where
  accept : Outcome
  over_budget : Outcome
  below_quality_floor : Outcome
  reject : Outcome

pub record Decision (N : Type 0) : Type 0 where
  pub outcome : Outcome
  pub constraint_evaluations : List (Evaluation N)

pub record Accepted (N : Type 0) : Type 0 where
  pub candidate_id : String
  pub rank : ℕ
  pub score : N
  pub decision_record : Decision N
  pub is_over_budget : Bool  -- `over_budget`

pub record Rejected (N : Type 0) : Type 0 where
  pub candidate_id : String
  pub decision_record : Decision N

pub record Response (N : Type 0) : Type 0 where
  pub candidates : List (Accepted N)
  pub rejected : List (Rejected N)

unfoldable pub declared : {N : Type 0} → String → List (String × Json N) → Option (Json N)
declared key [] = none
declared key ((k, v) ∷ rest) = let more = declared key rest in if k =s= key then some v else more

unfoldable pub count_passed : {N : Type 0} → List (Evaluation N) → ℕ
count_passed [] = 0
count_passed (e ∷ es) = if e.passed then suc (count_passed es) else count_passed es

-- `forEach((c, i) => c.rank = i + 1)`, from an index on
unfoldable pub set_ranks : {N : Type 0} → ℕ → List (Accepted N) → List (Accepted N)
set_ranks i [] = []
set_ranks i (c ∷ cs) = record c { rank = suc i } ∷ set_ranks (suc i) cs

unfoldable pub slice_one : {N : Type 0} → List (Accepted N) → List (Accepted N)
slice_one [] = []
slice_one (c ∷ cs) = c ∷ []

module _ {N : Type 0} (host : Host N) where
  -- One key of a quality floor against what the candidate declares.
  unfoldable pub falls_short : Json N → Option (Json N) → Bool
  falls_short required none = true
  falls_short required (some undefined) = true
  falls_short (num r) (some (num a)) = host.num_lt a r
  falls_short _ (some _) = false

  unfoldable pub any_short : List (String × Json N) → List (String × Json N) → Bool
  any_short [] quality = false
  any_short ((key, required) ∷ floor) quality =
      let more = any_short floor quality in
      if falls_short required (declared key quality) then true else more

  -- Whether there is a text to return.
  unfoldable pub check_quality_floor :
      Option (List (String × Json N)) → Option (List (String × Json N)) → Bool
  check_quality_floor (some floor) (some quality) = any_short floor quality
  check_quality_floor _ _ = false

  unfoldable pub exceeds : Option (Json N) → String → Bool
  exceeds none cost = false
  exceeds (some amount) cost =
      not (cost =s= "") && host.num_lt (host.to_number amount) (host.to_number (str cost))

  unfoldable pub score_from_evaluations : List (Evaluation N) → N
  score_from_evaluations [] = host.zero
  score_from_evaluations (e ∷ es) = host.ratio (count_passed (e ∷ es)) (length (e ∷ es))

  unfoldable pub outcome_of : Intent N → Candidate N → Outcome
  outcome_of intent c =
      if not (evaluate host intent.constraints c.content).0
      then reject
      else if check_quality_floor intent.quality_floor c.quality
      then below_quality_floor
      else if exceeds intent.budget c.cost
      then over_budget
      else accept

  unfoldable pub decision_of : Intent N → Candidate N → Decision N
  decision_of intent c = record {
    outcome = outcome_of intent c;
    constraint_evaluations = (evaluate host intent.constraints c.content).1;
  }

  abbrev pub or_else : Option N → N → N
  or_else none d = d
  or_else (some s) _ = s

  abbrev pub accepted_of : Candidate N → Decision N → N → Bool → Accepted N
  accepted_of c decision default is_over = record {
    candidate_id = c.id;
    rank = 0;
    score = or_else c.score default;
    decision_record = decision;
    is_over_budget = is_over;
  }

  -- The loop body: `accepted` and `rejected` with the candidate in one of them. Both lists are built
  -- from the last candidate on.
  unfoldable pub place : Candidate N → Decision N → Response N → Response N
  place c decision response = elim (decision.outcome) [
    | accept ↦ record response {
      candidates =
          accepted_of c decision (score_from_evaluations decision.constraint_evaluations) false
          ∷ response.candidates;
    }
    | over_budget ↦ record response {
      candidates = accepted_of c decision host.zero true ∷ response.candidates;
    }
    | _ ↦ record response {
      rejected = record { candidate_id = c.id; decision_record = decision } ∷ response.rejected;
    }
  ]

  unfoldable pub decide_all : Intent N → List (Candidate N) → Response N
  decide_all intent [] = record { candidates = []; rejected = [] }
  decide_all intent (c ∷ cs) = place c (decision_of intent c) (decide_all intent cs)

  -- `score || 0`
  abbrev pub sort_key : Accepted N → N
  sort_key a = if host.is_falsy a.score then host.zero else a.score

  unfoldable pub insert_accepted : Accepted N → List (Accepted N) → List (Accepted N)
  insert_accepted a [] = a ∷ []
  insert_accepted a (b ∷ bs) =
      let rest = insert_accepted a bs in
      if host.num_lt (sort_key a) (sort_key b) then b ∷ rest else a ∷ b ∷ bs

  unfoldable pub sort_accepted : List (Accepted N) → List (Accepted N)
  sort_accepted [] = []
  sort_accepted (a ∷ bs) = insert_accepted a (sort_accepted bs)

  unfoldable pub resolve_intent : Intent N → List (Candidate N) → Response N
  resolve_intent intent cs =
      let decided = decide_all intent cs in
      let sorted = sort_accepted decided.candidates in
      record {
        candidates =
            set_ranks 0
              (if intent.resolution_policy =s= "single_best" then slice_one sorted else sorted);
        rejected = decided.rejected;
      }
