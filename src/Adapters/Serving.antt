-- ===== src/Adapters/Serving.antt =====
-- What the MCP server of the adapter answers (adapters/mcp/oap-mcp-adapter.js).
use oap_spec.Prelude.{
  ℕ, zero, suc, String, Bool, false, Option, none, some, List, [], ◌∷◌, ◌≡◌, refl, ap, ◌∙◌,
  Option-cases, inl, inr, if◌then◌else◌, map, get_elem?, ◌⊎◌,
}
use oap_spec.Json.{Json}
use oap_spec.Server.Invoke.{Envelope}
use oap_spec.Adapters.{Action, Tool, oap_action_to_mcp_tool}
use oap_spec.Adapters.Mcp.{Identity, Message, content, failed_call, tool_call_envelope, on_line}

module _ {N : Type 0} (is_falsy : Json N → Bool) where
  exported :
      (actions : List (Action N)) (i : ℕ) (t : Tool N)
      → get_elem? (map oap_action_to_mcp_tool actions) i ≡ some t
      → (a : Action N) × (get_elem? actions i ≡ some a) × (t.name ≡ a.id)
  unfolding oap_action_to_mcp_tool
  exported [] i t e = cc e
  exported (a ∷ actions) zero t e = (a, refl, cc e)
  exported (a ∷ actions) (suc i) t e = exported actions i t e

  -- A call of the tool at a place of the list is sent, once, as a request for the action at that place
  -- with the arguments of the call, and is answered under the id of the call: by an error if the
  -- request throws, and else by the output, or by the response where that is falsy.
  pub on_line-call :
      {S : Type 0} (fetch : Envelope N → S → Option (Json N × Json N) × S) (request_id : String)
      (who : Identity) (actions : List (Action N)) (m : Message N) (s : S) (i : ℕ) (t : Tool N)
      → get_elem? (map oap_action_to_mcp_tool actions) i ≡ some t
      → m.method ≡ "tools/call"
      → m.name ≡ some t.name
      → is_falsy m.arguments ≡ false
      → (a : Action N) × (get_elem? actions i ≡ some a)
        × (let sent =
              fetch (tool_call_envelope is_falsy request_id who (some a.id) m.arguments) s in
            let answer =
              on_line is_falsy fetch request_id who
                (map oap_action_to_mcp_tool actions)
                (some m)
                s in
            (answer.1 ≡ sent.1)
            × (((sent.0 ≡ none) × (answer.0 ≡ some (failed_call m.id)))
                ⊎ ((response : Json N) × (output : Json N) × (sent.0 ≡ some (response, output))
                    × (answer.0
                        ≡ some (content m.id (if is_falsy output then response else output))))))
  unfolding on_line
  on_line-call fetch request_id who actions m s i t listed method name given =
      let (a, at, same) = exported actions i t listed in
      let asked : m.name ≡ some a.id = name ∙ ap some same in
      (
        a,
        at,
        (rw (method, on_line)
            (rw (asked, given)
              (elim (Option-cases
                (fetch (tool_call_envelope is_falsy request_id who (some a.id) m.arguments) s).0) [
                  | inl e ↦ rw e (rw (asked, given) (refl, inl (refl, refl)))
                  | inr (r, e) ↦ rw e (rw (asked, given) (refl, inr (r.0, r.1, refl, refl)))
                ]))),
      )
