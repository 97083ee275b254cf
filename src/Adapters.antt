-- ===== src/Adapters.antt =====
-- The adapters of adapters/: what they share, the translation of tool definitions to OAP actions and
-- back (adapters/mcp/oap-mcp-adapter.js, adapters/openai-functions/oap-openai-adapter.js). Texts are
-- walked by characters, which are the code units on the basic plane.
pub mod Naming
pub mod Mcp
pub mod A2a
pub mod Serving
pub mod Gateway
use Prim.Native.Char.{Char, code}
use Prim.Native.String
use oap_spec.Prelude.{
  ℕ, zero, suc, String, Bool, ◌&&◌, ◌||◌, Option, none, some, List, map, ◌+s◌, ◌=s=◌, ◌==◌, leb,
  if◌then◌else◌, [], ◌∷◌,
}
use oap_spec.Json.{Json, undefined, str, obj, end, field}

-- An OAP action; a text or a schema that is missing is "" or undefined.
pub record Action (N : Type 0) : Type 0 where
  pub id : String
  pub version : String
  pub summary : String
  pub description_for_agents : String
  pub input_schema : Json N
  pub side_effects : String

-- A tool of MCP, or a function of OpenAI.
pub record Tool (N : Type 0) : Type 0 where
  pub name : String
  pub description : String
  pub input_schema : Json N

-- `a || b` on texts
abbrev pub or_text : String → String → String
or_text a b = if a =s= "" then b else a

-- [a-z0-9_]
unfoldable pub is_id_char : Char → Bool
is_id_char c = let n = code c in leb b'a' n && leb n b'z' || leb b'0' n && leb n b'9' || n == b'_'

-- `.replace(/[^a-z0-9_]/g, '_')`
unfoldable pub sanitize : String → String
sanitize String.[] = ""
sanitize (String.◌∷◌ c s) = String.◌∷◌ (if is_id_char c then c else "_") (sanitize s)

-- `.substring(0, n)`
unfoldable pub take_chars : ℕ → String → String
take_chars zero s = ""
take_chars (suc n) String.[] = ""
take_chars (suc n) (String.◌∷◌ c s) = String.◌∷◌ c (take_chars n s)

abbrev pub object_schema : {N : Type 0} → Json N
object_schema = obj (field "type" (str "object") end)

module _ {N : Type 0} where
  -- `oapActionToMcpTool`
  unfoldable pub oap_action_to_mcp_tool : Action N → Tool N
  oap_action_to_mcp_tool a = record {
    name = a.id;
    description = or_text a.description_for_agents a.summary;
    input_schema = a.input_schema;
  }

  -- `oapManifestToMcpTools`, on the array `actions`, if there is one; none is a throw.
  unfoldable pub oap_manifest_to_mcp_tools : Option (List (Action N)) → Option (List (Tool N))
  oap_manifest_to_mcp_tools none = none
  oap_manifest_to_mcp_tools (some actions) = some (map oap_action_to_mcp_tool actions)

  module _ (is_falsy : Json N → Bool) where
    -- `mcpToolToOapAction`
    unfoldable pub mcp_tool_to_oap_action : Tool N → Action N
    mcp_tool_to_oap_action t = record {
      id = take_chars 63 (sanitize t.name);
      version = "1.0.0";
      summary = take_chars 240 (or_text t.description t.name);
      description_for_agents = or_text t.description ("Invokes the " +s t.name +s " tool.");
      input_schema = if is_falsy t.input_schema then object_schema else t.input_schema;
      side_effects = "external";
    }

    -- `oapActionToOpenAiFunction`: name, description and parameters.
    unfoldable pub oap_action_to_open_ai_function : Action N → Tool N
    oap_action_to_open_ai_function a = record {
      name = a.id;
      description = or_text a.description_for_agents a.summary;
      input_schema =
          if is_falsy a.input_schema
          then obj (field "type" (str "object") (field "properties" (obj end) end))
          else a.input_schema;
    }

    -- `openAiFunctionToOapAction`
    unfoldable pub open_ai_function_to_oap_action : Tool N → Action N
    open_ai_function_to_oap_action f = record {
      id = take_chars 63 (sanitize f.name);
      version = "1.0.0";
      summary = take_chars 240 (or_text f.description f.name);
      description_for_agents = or_text f.description ("Invokes " +s f.name +s ".");
      input_schema = if is_falsy f.input_schema then object_schema else f.input_schema;
      side_effects = "external";
    }
