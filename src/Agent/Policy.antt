-- ===== src/Agent/Policy.antt =====
-- What the policy layers of the agent decide, and what follows for a call.
use oap_spec.Prelude.{
  ◌+◌, String, true, false, none, some, ◌≡◌, ◌↔◌, ◌⊎◌, inl, inr, refl, arith, length, Bool-cases,
  Option-cases, length-append,
}
use oap_spec.Json.{Json}
use oap_spec.Agent.{
  Host, Verdict, allow, block, Manifest, Action, Agent, Draw, ok, one_of, is_block, over_cap,
  evaluate_policy, find_action, create_local_receipt, invoke,
}

is_block-true : (v : Verdict) → is_block v ≡ true → v ≡ block
is_block-true v h = ground arith

module _ {N : Type 0} (host : Host N) (agent : Agent N) (m : Manifest) where
  -- A call is blocked exactly if the tool does not serve the user's jurisdiction or is embargoed; it is
  -- allowed exactly if it is not blocked and its cost does not exceed the spending cap.
  pub evaluate_policy_iff :
      (action : Action) (id : String)
      → (((evaluate_policy host agent m action id).outcome ≡ block)
          ↔ ((one_of "DE" m.jurisdictions ≡ false) ⊎ (one_of m.tool_did agent.embargo_list ≡ true)))
        × (((evaluate_policy host agent m action id).outcome ≡ allow) ↔ (
            (one_of "DE" m.jurisdictions ≡ true)
            × (one_of m.tool_did agent.embargo_list ≡ false)
            × (over_cap host agent.max_cost_per_call_eur action.cost ≡ false)))
  unfolding evaluate_policy
  evaluate_policy_iff action id =
      (((λ h. grind arith), (λ h. grind arith)), ((λ h. grind arith), (λ h. grind arith)))

  -- A spending cap of 0 is no cap: where 0 counts as falsy, no cost exceeds it.
  pub zero_cap_allows :
      (action : Action) (id : String) (cap : N)
      → agent.max_cost_per_call_eur ≡ some cap
      → host.is_falsy_num cap ≡ true
      → one_of "DE" m.jurisdictions ≡ true
      → one_of m.tool_did agent.embargo_list ≡ false
      → (evaluate_policy host agent m action id).outcome ≡ allow
  unfolding evaluate_policy over_cap
  zero_cap_allows action id cap e z d b = grind arith

  not_blocked :
      (action : Action) (id : String)
      → is_block (evaluate_policy host agent m action id).outcome ≡ false
      → (one_of "DE" m.jurisdictions ≡ true) × (one_of m.tool_did agent.embargo_list ≡ false)
  unfolding evaluate_policy
  not_blocked action id h = (grind arith, grind arith)

  -- `invoke` either adds one receipt, or fails and leaves the agent as it was; it fails exactly if the
  -- manifest has no such action or the tool does not serve the jurisdiction or is embargoed.
  pub invoke_effect :
      (draw : Draw) (action : String) (input output : Json N)
      → (((invoke host draw m action input output agent).0 ≡ ok tt)
          × (length (invoke host draw m action input output agent).1.receipts
              ≡ 1 + length agent.receipts)
          × (one_of "DE" m.jurisdictions ≡ true)
          × (one_of m.tool_did agent.embargo_list ≡ false))
        ⊎ (((invoke host draw m action input output agent).1 ≡ agent)
            × ((find_action action m.actions ≡ none)
                ⊎ ((one_of "DE" m.jurisdictions ≡ false)
                    ⊎ (one_of m.tool_did agent.embargo_list ≡ true))))
  unfolding invoke create_local_receipt
  invoke_effect draw action input output = elim (Option-cases (find_action action m.actions)) [
    | inl missing ↦ rw (missing, invoke) (inr (refl, inl refl))
    | inr (a, found) ↦
        let (blocks, allows) = evaluate_policy_iff a draw.decision_id in
        elim (Bool-cases (is_block (evaluate_policy host agent m a draw.decision_id).outcome)) [
          | inl blocked ↦
              rw (found, blocked, invoke) (inr (refl, inr (blocks.0 (is_block-true _ blocked))))
          | inr passed ↦
              rw (found, passed, invoke)
                (inl (
                  refl,
                  omega (arith, length-append agent.receipts),
                  (not_blocked a draw.decision_id passed).0,
                  (not_blocked a draw.decision_id passed).1,
                ))
        ]
  ]
