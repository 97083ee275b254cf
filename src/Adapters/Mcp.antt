-- ===== src/Adapters/Mcp.antt =====
-- The MCP side of adapters/mcp/oap-mcp-adapter.js: a tool call as an OAP request, and the server on
-- lines of JSON RPC. The request's answer is that of `fetch`.
use oap_spec.Prelude.{String, Bool, Option, none, some, List, ◌=s=◌, if◌then◌else◌}
use oap_spec.Json.{Json, undefined, str, obj, end}
use oap_spec.Server.Invoke.{Envelope}
use oap_spec.Adapters.{Tool}

pub record Identity : Type 0 where
  pub principal_did : String
  pub agent_did : String

-- A message; `id`, a name and arguments that are missing are undefined or none, and so are `params`.
pub record Message (N : Type 0) : Type 0 where
  pub id : Json N
  pub method : String
  pub name : Option String
  pub arguments : Json N

pub data Reply (N : Type 0) : Type 0 where
  tools : (id : Json N) → List (Tool N) → Reply N
  content : (id : Json N) → Json N → Reply N
  initialized : (id : Json N) → Reply N
  failed_call : (id : Json N) → Reply N
  unknown_method : (id : Json N) → Reply N

abbrev pub id_of : {N : Type 0} → Reply N → Json N
id_of (tools id ts) = id
id_of (content id v) = id
id_of (initialized id) = id
id_of (failed_call id) = id
id_of (unknown_method id) = id

-- What a JSON text of a value keeps: a value that is undefined is left out.
abbrev pub sent : {N : Type 0} → Json N → Option (Json N)
sent undefined = none
sent v = some v

module _ {N : Type 0} (is_falsy : Json N → Bool) where
  -- The envelope that `handleMcpToolCall` sends.
  unfoldable pub tool_call_envelope :
      (request_id : String) → Identity → (action_id : Option String) → (input : Json N) → Envelope N
  tool_call_envelope request_id who action_id input = record {
    oap_version = some "1.0";
    request_id = some (str request_id);
    principal_did = some who.principal_did;
    agent_did = some who.agent_did;
    action = action_id;
    input = sent input;
  }

  -- A line of `createMcpServer`, on the text's value if it parses; `fetch` takes the other side's
  -- state along, and is the response to an envelope as JSON with its output, none if it throws.
  unfoldable pub on_line :
      {S : Type 0}
      → (fetch : Envelope N → S → Option (Json N × Json N) × S) → (request_id : String) → Identity
      → List (Tool N)
      → Option (Message N)
      → S
      → Option (Reply N) × S
  on_line fetch request_id who known none s = (none, s)
  on_line fetch request_id who known (some m) s =
      if m.method =s= "tools/list"
      then (some (tools m.id known), s)
      else if m.method =s= "tools/call"
      then (let input = if is_falsy m.arguments then obj end else m.arguments in
          let (answer, after) = fetch (tool_call_envelope request_id who m.name input) s in
          elim answer [
            | none ↦ (some (failed_call m.id), after)
            | some (response, output) ↦
                (some (content m.id (if is_falsy output then response else output)), after)
          ])
      else if m.method =s= "initialize"
      then (some (initialized m.id), s)
      else (some (unknown_method m.id), s)
