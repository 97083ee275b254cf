-- ===== src/Adapters/A2a.antt =====
-- adapters/a2a/oap-a2a-adapter.js: an agent card of a manifest, a task as an OAP request, a response as a task, and the
-- gateway. Text that is missing is "", a value that is missing undefined.
use oap_spec.Prelude.{
  String, Bool, not, ◌&&◌, ◌||◌, Option, none, some, List, [], ◌∷◌, map, ◌=s=◌, ◌+s◌, if◌then◌else◌,
  is_some,
}
use oap_spec.Json.{Json, str, obj, field, end}
use oap_spec.Server.Invoke.{Envelope}
use oap_spec.Adapters.{Action, or_text}
use oap_spec.Adapters.Mcp.{Identity, sent}

-- What the card is made of: `supports_streaming` and `has_subscribe` are truth values.
pub record Manifest (N : Type 0) : Type 0 where
  pub name : String
  pub description_for_agents : String
  pub version : String
  pub legal_name : String
  pub did_host : String  -- tool.did.replace('did:web:', '')
  pub supports_streaming : Bool
  pub has_subscribe : Bool
  pub auth_methods : List String
  pub actions : List (Action N)

pub record Skill (N : Type 0) : Type 0 where
  pub id : String
  pub name : String
  pub description : String
  pub input_schema : Json N

pub record Card (N : Type 0) : Type 0 where
  pub name : String
  pub description : String
  pub url : String
  pub version : String
  pub organization : String
  pub provider_url : String
  pub streaming : Bool
  pub push_notifications : Bool
  pub authentication : List String
  pub skills : List (Skill N)

abbrev authentication_type : String → String
authentication_type m =
    if m =s= "oauth2_1" then "oauth2" else if m =s= "api_key" then "apiKey" else m

-- A part of a message; `text` is none if it is no text.
pub record Part (N : Type 0) : Type 0 where
  pub type' : String
  pub text : Option String
  pub body : Json N  -- its data

-- The params of a task; `parts` is none if the message has no such array.
pub record Task (N : Type 0) : Type 0 where
  pub id : String
  pub skill : String
  pub parts : Option (List (Part N))
  pub input : Json N

-- A response; `error` is none if there is no error, and else its message.
pub record OapResponse (N : Type 0) : Type 0 where
  pub status : String
  pub output : Json N
  pub error : Option String

pub record TaskResult (N : Type 0) : Type 0 where
  pub id : String
  pub state : String
  pub artifact : Option (Json N)
  pub message : Option String

unfoldable pub find_part : {N : Type 0} → (Part N → Bool) → List (Part N) → Option (Part N)
find_part p [] = none
find_part p (x ∷ xs) = let later = find_part p xs in if p x then some x else later

-- A request to the gateway: of JSON RPC with its method, id and params, or another.
pub data Request (N : Type 0) : Type 0 where
  get : (path origin : String) → Request N
  post : (method id : String) → Task N → Request N
  other : Request N

pub data Reply (N : Type 0) : Type 0 where
  card : Card N → Reply N
  result : (id : String) → TaskResult N → Reply N
  failed_call : (id : String) → Reply N
  unknown_method : (id : String) → Reply N
  thrown : Reply N
  next : Reply N

module _ {N : Type 0} (is_falsy : Json N → Bool) where
  -- `oapManifestToAgentCard`
  unfoldable pub oap_manifest_to_agent_card : Manifest N → (a2a_endpoint : String) → Card N
  oap_manifest_to_agent_card m a2a_endpoint = record {
    name = m.name;
    description = m.description_for_agents;
    url = a2a_endpoint;
    version = m.version;
    organization = m.legal_name;
    provider_url = "https://" +s m.did_host;
    streaming = m.supports_streaming;
    push_notifications = m.has_subscribe;
    authentication = map authentication_type m.auth_methods;
    skills =
        map
          (λ (a : Action N). record {
            id = a.id;
            name = a.summary;
            description = a.description_for_agents;
            input_schema = a.input_schema;
          })
          m.actions;
  }

  abbrev pub or_empty_object : Json N → Json N
  or_empty_object v = if is_falsy v then obj end else v

  -- `textPart.text || textPart.data`
  abbrev text_or_body : Part N → Json N
  text_or_body p = elim p.text [ none ↦ p.body | some t ↦ if t =s= "" then p.body else str t ]

  -- `extractA2aInput`
  unfoldable pub extract_a2a_input : Task N → Json N
  extract_a2a_input t = elim t.parts [
    | none ↦ or_empty_object t.input
    | some parts ↦ elim (find_part (λ p. p.type' =s= "application/json") parts) [
      | some p ↦ p.body
      | none ↦ elim (find_part (λ p. (p.type' =s= "text/plain") || is_some p.text) parts) [
        | some p ↦ obj (field "text" (text_or_body p) end)
        | none ↦ or_empty_object t.input
      ]
    ]
  ]

  -- `a2aTaskToOapRequest`
  unfoldable pub a2a_task_to_oap_request :
      (request_id : String) → Task N → Identity → (action_id : String) → Envelope N
  a2a_task_to_oap_request request_id t who action_id = record {
    oap_version = some "1.0";
    request_id = some (str request_id);
    principal_did = some who.principal_did;
    agent_did = some who.agent_did;
    action = some (or_text action_id (or_text t.skill t.id));
    input = sent (extract_a2a_input t);
  }

  abbrev pub state_of : String → String
  state_of s = if s =s= "ok" then "completed" else if s =s= "accepted" then "working" else "failed"

  -- `oapResponseToA2aTask`
  unfoldable pub oap_response_to_a2a_task : OapResponse N → (task_id : String) → TaskResult N
  oap_response_to_a2a_task r task_id =
      let state = state_of r.status in
      record {
        id = task_id;
        state = state;
        artifact =
            if (state =s= "completed") && not (is_falsy r.output) then some r.output else none;
        message =
            if state =s= "failed"
            then elim r.error [ none ↦ none | some m ↦ some (or_text m "Unknown error") ]
            else none;
      }

  abbrev first_id : List (Action N) → Option String
  first_id [] = none
  first_id (a ∷ _) = some a.id

  -- The action that a task is sent to; none is a read of a field of undefined.
  unfoldable pub action_of : Manifest N → Task N → Option String
  action_of m t = if t.skill =s= "" then first_id m.actions else some t.skill

  -- `createA2aGateway`; `invoke_oap` takes the state along, and gives none if it throws.
  unfoldable pub a2a_gateway :
      {S : Type 0}
      → (invoke_oap : Envelope N → S → Option (OapResponse N) × S) → Manifest N
      → Identity
      → (request_id : String) → Request N
      → S
      → Reply N × S
  a2a_gateway invoke_oap m who request_id (get path origin) s =
      if path =s= "/.well-known/agent.json"
      then (card (oap_manifest_to_agent_card m origin), s)
      else (next, s)
  a2a_gateway invoke_oap m who request_id other s = (next, s)
  a2a_gateway invoke_oap m who request_id (post method id t) s =
      if method =s= "tasks/send"
      then elim (action_of m t) [
        | none ↦ (thrown, s)
        | some action_id ↦
            let (answer, after) =
              invoke_oap (a2a_task_to_oap_request request_id t who action_id) s in
            elim answer [
              | none ↦ (failed_call id, after)
              | some r ↦ (result id (oap_response_to_a2a_task r (or_text t.id id)), after)
            ]
      ]
      else (unknown_method id, s)
