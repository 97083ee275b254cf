-- ===== src/Tests/AdapterRuns.antt =====
-- The theorems on the adapters: a tool that keeps its definition, a task for `echo` sent to the tool
-- server, and a call of the second of two listed tools.
use oap_spec.Prelude.{
  ℕ, String, Bool, true, false, Option, none, some, List, [], ◌∷◌, ◌≡◌, ◌↔◌, refl, ◌=s=◌,
}
use oap_spec.Json.{Json, undefined, str, obj, end}
use oap_spec.Server.Invoke.{Envelope, Input, texts, invoke}
use oap_spec.Adapters.{Action, Tool, oap_action_to_mcp_tool, mcp_tool_to_oap_action}
use oap_spec.Adapters.Naming.{IsName, mcp_tool_to_oap_action-back_iff}
use oap_spec.Adapters.Mcp.{Identity, Message}
use oap_spec.Adapters.A2a.{
  Manifest, Task, TaskResult, post, result, action_of, a2a_task_to_oap_request, a2a_gateway,
}
use oap_spec.Adapters.Gateway.{invoke_oap, a2a_gateway-invoke}
use oap_spec.Tests.ServerRuns.{toy, draw, call, empty}

abbrev is_falsy : Json ℕ → Bool
is_falsy undefined = true
is_falsy _ = false

abbrev tool : Tool ℕ
tool = record { name = "do_thing"; description = "Does it."; input_schema = obj end }

mcp_tool_to_oap_action-back_iff_example :
    oap_action_to_mcp_tool (mcp_tool_to_oap_action is_falsy tool) ≡ tool
    ↔ IsName 63 "do_thing" × (("Does it." =s= "") ≡ false) × (is_falsy (obj end) ≡ false)
mcp_tool_to_oap_action-back_iff_example = mcp_tool_to_oap_action-back_iff is_falsy tool refl

abbrev action : String → Action ℕ
action id = record {
  id = id;
  version = "1.0.0";
  summary = id;
  description_for_agents = "";
  input_schema = obj end;
  side_effects = "read";
}

abbrev manifest : Manifest ℕ
manifest = record {
  name = "Tool";
  description_for_agents = "A tool.";
  version = "1.0.0";
  legal_name = "Owner";
  did_host = "tool.example";
  supports_streaming = false;
  has_subscribe = false;
  auth_methods = "api_key" ∷ [];
  actions = action "echo" ∷ action "store_note" ∷ [];
}

abbrev who : Identity
who = record { principal_did = "did:web:me"; agent_did = "did:web:agent" }

abbrev task : Task ℕ
task = record {
  id = "task_1";
  skill = "echo";
  parts = some (record { type' = "application/json"; text = none; body = str "hi" } ∷ []);
  input = undefined;
}

abbrev read : Envelope ℕ → Input ℕ
read e = record { json = str "hi"; value = some ""; content = some ""; dids = texts }

abbrev request : Envelope ℕ
request = a2a_task_to_oap_request is_falsy "r1" task who "echo"

a2a_gateway-invoke_example :
    (r : TaskResult ℕ) × ((a2a_gateway is_falsy
        (invoke_oap toy draw (call 60000) "" "" read)
        manifest
        who
        "r1"
        (post "tasks/send" "1" task)
        empty).0
      ≡ result "1" r)
    × (r.state ≡ "failed")
    × (r.artifact ≡ none)
    × ((a2a_gateway is_falsy
          (invoke_oap toy draw (call 60000) "" "" read)
          manifest
          who
          "r1"
          (post "tasks/send" "1" task)
          empty).1
        ≡ (invoke toy draw (call 60000) "" request (read request) empty).1)
unfolding action_of
a2a_gateway-invoke_example =
    a2a_gateway-invoke toy draw (call 60000) "" "" read is_falsy manifest who "r1" "1" task "echo"
      empty refl

abbrev known : List (Action ℕ)
known = action "echo" ∷ action "store_note" ∷ []

abbrev fetch : Envelope ℕ → ℕ → Option (Json ℕ × Json ℕ) × ℕ
fetch e n = (some (str "response", str "output"), n)

abbrev message : Message ℕ
message = record {
  id = str "7";
  method = "tools/call";
  name = some "store_note";
  arguments = str "x";
}

abbrev exported_note : Tool ℕ
exported_note = record { name = "store_note"; description = "store_note"; input_schema = obj end }
