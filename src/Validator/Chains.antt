-- ===== src/Validator/Chains.antt =====
-- The validator's check of a chain beside the agent's (reference/validator/validate.js,
-- reference/agent/agent.js).
use oap_spec.Prelude.{
  ℕ, suc, String, Bool, true, false, Option, none, some, List, [], ◌∷◌, map, ◌≡◌, ◌↔◌, refl, sym,
  ◌=s=◌, if◌then◌else◌,
}
use oap_spec.Json.{Json}
use oap_spec.Agent.{Receipt, Agent, receipt_json, hash_json, check_from}
use oap_spec.Validator.{Problem, chain_problems, validate_receipt_chain, expected_previous}
use oap_spec.Agent as A
use oap_spec.Validator as V

-- Both checks go on if a link is right, and stop with an answer if it is not.
go_on_iff :
    (b : Bool) (problem : Problem) (later : List Problem) (id : String) (next : Option String)
    → (later ≡ []) ↔ (next ≡ none)
    → ((if b then later else problem ∷ later) ≡ []) ↔ ((if b then next else some id) ≡ none)
go_on_iff true problem later id next h = h
go_on_iff false problem later id next h = ((λ e. cc e), (λ e. cc e))

is_text-receipt_json :
    {N : Type 0} (host : V.Host N) (r : Receipt N) (t : String)
    → V.is_text host (V.prop (receipt_json r) "previous_receipt_hash") t
      ≡ (r.previous_receipt_hash =s= t)
unfolding receipt_json
is_text-receipt_json host r t = refl

module _ {N : Type 0} (agent_host : A.Host N) (host : V.Host N)
    (same_text : (v : Json N) → host.stringify v ≡ agent_host.stringify v)
    (same_hash : (s : String) → host.sha256_hex s ≡ agent_host.sha256_hex s)
    (truthy : (r : Receipt N) → agent_host.is_falsy (receipt_json r) ≡ false) where
  hash_json-expected :
      (r : Receipt N)
      → hash_json agent_host (receipt_json r) ≡ expected_previous host (receipt_json r)
  unfolding hash_json expected_previous
  hash_json-expected r =
      rw (truthy r, same_text (receipt_json r), same_hash (agent_host.stringify (receipt_json r)))
        refl

  chain_problems_iff :
      (i : ℕ) (r : Receipt N) (rs : List (Receipt N))
      → (chain_problems host i (receipt_json r) (map receipt_json rs) ≡ [])
        ↔ (check_from agent_host (hash_json agent_host (receipt_json r)) rs ≡ none)
  unfolding chain_problems check_from
  chain_problems_iff i r [] = ((λ _. refl), (λ _. refl))
  chain_problems_iff i r (s ∷ rs) =
      rw
        (
          is_text-receipt_json host s (expected_previous host (receipt_json r)),
          sym (hash_json-expected r),
        )
        (go_on_iff (s.previous_receipt_hash =s= hash_json agent_host (receipt_json r)) _ _
          s.receipt_id _ (chain_problems_iff (suc i) s rs))

  -- With one `JSON.stringify` and one SHA-256, the validator finds no problem in a list of local
  -- receipts exactly if the agent's own check finds none.
  pub validate_receipt_chain_iff :
      (rs : List (Receipt N))
      → (validate_receipt_chain host (map receipt_json rs) ≡ [])
        ↔ (check_from agent_host "genesis" rs ≡ none)
  unfolding validate_receipt_chain check_from
  validate_receipt_chain_iff [] = ((λ _. refl), (λ _. refl))
  validate_receipt_chain_iff (r ∷ rs) = rw (is_text-receipt_json host r "genesis") (
      go_on_iff (r.previous_receipt_hash =s= "genesis") _ _ r.receipt_id _
        (chain_problems_iff 1 r rs))
