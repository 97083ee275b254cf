-- ===== src/Tests/AgentRuns.antt =====
-- The theorems on the agent and the validator, for an agent that invoked a tool and was stopped.
use oap_spec.Prelude.{ℕ, String, true, false, none, some, [], ◌∷◌, ◌≡◌, refl, ltb, length, ◌==◌}
use oap_spec.Json.{Json, str, obj, arr, nil, cons, end, field}
use oap_spec.Agent.{
  Host, Manifest, Agent, Draw, Receipt, valid, invoke, kill_switch, verify_receipt_chain,
}
use oap_spec.Agent.Receipts.{here, invoked, killed, verify_receipt_chain-Run}
use oap_spec.Validator.{
  validate_receipt_chain, infer_conformance_level, has_base, has_market, has_trust,
  has_collaboration, has_audit,
}
use oap_spec.Validator as V

-- A receipt's text is its link.
abbrev shown : Json ℕ → String
shown (str s) = s
shown _ = ""

abbrev link_of : Json ℕ → String
link_of v = shown (V.prop v "previous_receipt_hash")

abbrev toy : Host ℕ
toy = record {
  stringify = link_of;
  sha256_hex = λ s. s;
  parse_float = λ s. 5;
  num_lt = ltb;
  is_falsy = λ v. false;
  is_falsy_num = λ n. n == 0;
}

abbrev toy_validator : V.Host ℕ
toy_validator = record { stringify = link_of; sha256_hex = λ s. s; is_falsy_num = λ n. n == 0 }

abbrev weather : Manifest
weather = record {
  tool_did = "did:web:weather";
  jurisdictions = "DE" ∷ [];
  actions = record { id = "forecast"; cost = some "5" } ∷ [];
  subscribe_endpoint = true;
}

abbrev fresh : Agent ℕ
fresh = record {
  principal_did = "did:web:me";
  agent_did = "did:web:agent";
  scope_id = "default";
  embargo_list = [];
  chinese_walls = [];
  max_cost_per_call_eur = some 0;
  subscriptions = [];
  receipts = [];
  previous_receipt_hash = "genesis";
}

abbrev draw : Draw
draw = record { decision_id = "pol_1"; receipt_id = "01"; now = "now" }

abbrev stopped : Agent ℕ
stopped =
    kill_switch toy draw (invoke toy draw weather "forecast" (str "Bonn") (str "rain") fresh).1

verify_receipt_chain-Run_example :
    verify_receipt_chain toy stopped ≡ valid (length stopped.receipts)
verify_receipt_chain-Run_example =
    verify_receipt_chain-Run toy {start = fresh} refl refl
      (killed draw (invoked draw weather "forecast" (str "Bonn") (str "rain") here))

abbrev first_receipt : Receipt ℕ
first_receipt = record {
  receipt_id = "urn:oap:receipt:01";
  type' = "kill_switch";
  timestamp = "now";
  principal_did = "did:web:me";
  agent_did = "did:web:agent";
  tool_did = "self";
  action_id = str "none";
  input_hash = "h";
  output_hash = "h";
  policy_decision = none;
  previous_receipt_hash = "genesis";
}

abbrev small_manifest : Json ℕ
small_manifest = obj (
    field "endpoints" (obj (field "invoke" (str "/oap/invoke") end)) (
      field "tool" (obj (field "did" (str "did:web:weather") end))
        (field "actions" (arr (cons (str "forecast") nil)) end)))
