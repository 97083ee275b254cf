-- ===== src/Server/Invoke.antt =====
-- POST /oap/invoke with `dispatch` and the table of actions (reference/server/server.js).
use Prim.Native.Char.{code}
use oap_spec.Prelude.{
  ℕ, ◌+◌, String, Bool, true, false, not, ◌&&◌, ◌||◌, Option, none, some, List, [], ◌∷◌, ◌+s◌,
  ◌=s=◌, ◌==◌, leb, is_some, if◌then◌else◌, store,
}
use oap_spec.Json.{Json, null, num, str, arr, obj, nil, end, field}
use oap_spec.Server.{Note, Tables, Host, Draw}
use oap_spec.Server.RateLimit.{Call, admitted, retry_after_seconds, check_rpm}
use oap_spec.Server.Receipts.{Report, persist_receipt}

-- An entry of ACTIONS, as far as the handler reads it.
pub record Action : Type 0 where
  pub id : String
  pub writes : Bool  -- side_effects === 'write'
  pub rpm : ℕ

unfoldable pub actions : List Action
actions =
    record { id = "echo"; writes = false; rpm = 600 }
    ∷ record { id = "compute_hash"; writes = false; rpm = 600 }
    ∷ record { id = "store_note"; writes = true; rpm = 60 }
    ∷ record { id = "request_cooling_off"; writes = false; rpm = 60 }
    ∷ []

unfoldable pub find_in : String → List Action → Option Action
find_in id [] = none
find_in id (a ∷ rest) = let later = find_in id rest in if a.id =s= id then some a else later

-- `findAction`
unfoldable pub find_action : String → Option Action
find_action id = find_in id actions

-- The body of the request; a field that is undefined is none.
pub record Envelope (N : Type 0) : Type 0 where
  pub oap_version : Option String
  pub request_id : Option (Json N)
  pub principal_did : Option String
  pub agent_did : Option String
  pub action : Option String
  pub input : Option (Json N)

pub data Response (N : Type 0) : Type 0 where
  refused : (status : ℕ) → (error : String) → Response N
  failed : (status : ℕ) → (error receipt_id : String) → Response N
  succeeded : (output : Json N) → (receipt_id receipt_hash : String) → Response N
  crashed : Response N  -- an error that the handler does not catch

-- The regular expression for a bearer token, on a header of ASCII characters.
abbrev lower : ℕ → ℕ
lower n = if leb b'A' n && leb n b'Z' then n + 32 else n

abbrev is_space : ℕ → Bool
is_space n = n == 32 || leb 9 n && leb n 13

unfoldable pub after_word : List ℕ → String → Option String
after_word [] s = some s
after_word (n ∷ ns) String.[] = none
after_word (n ∷ ns) (String.◌∷◌ c s) =
    let rest = after_word ns s in if lower (code c) == n then rest else none

unfoldable pub has_more : String → Bool
has_more String.[] = false
has_more (String.◌∷◌ c s) = let rest = has_more s in if is_space (code c) then rest else true

abbrev space_then_more : String → Bool
space_then_more String.[] = false
space_then_more (String.◌∷◌ c s) = is_space (code c) && has_more s

unfoldable pub is_bearer : String → Bool
is_bearer auth = elim (after_word (b'b' ∷ b'e' ∷ b'a' ∷ b'r' ∷ b'e' ∷ b'r' ∷ []) auth) [
  | none ↦ false
  | some rest ↦ space_then_more rest
]

-- What `principal_did` and `agent_did` are, where `principal_did` and `agent_did` of an envelope are the
-- texts that template literals make of them: texts, or also a truth value, a list or an object, which
-- the database does not take, or the first has no text. A number or null is left out.
pub data Dids : Type 0 where
  texts unbound unshown : Dids

abbrev pub is_bound : Dids → Bool
is_bound texts = true
is_bound _ = false

abbrev pub is_unshown : Dids → Bool
is_unshown unshown = true
is_unshown _ = false

-- What the handler reads of an envelope's values: `String(input?.value ?? '')` and
-- `String(input?.content || '')`, none if the call throws, as it does for an object whose entry
-- toString is no function.
pub record Input (N : Type 0) : Type 0 where
  pub json : Json N
  pub value : Option String
  pub content : Option String
  pub dids : Dids

-- What `dispatch` returns, or the status and the code of the response to the error that it throws.
pub data Dispatched (N : Type 0) : Type 0 where
  returned : Json N → Dispatched N
  thrown : (status : ℕ) → (code : String) → Dispatched N

module _ {N : Type 0} (host : Host N) where
  abbrev cooling_off : Json N
  cooling_off = obj (
      field "wait_seconds" (num (host.of_nat 30))
        (field "reason" (str "L4 cooling-off invariant per RFC-0019 §6.") end))

  abbrev hash_output : String → Dispatched N
  hash_output v =
      returned
        (obj (field "algorithm" (str "sha256") (field "digest_hex" (str (host.sha256_hex v)) end)))

  -- `dispatch`, and the note store after it.
  unfoldable pub dispatch :
      Draw
      → String
      → Input N
      → (principal : String) → List (String × Note)
      → Dispatched N × List (String × Note)
  dispatch draw action_id input principal notes =
      if action_id =s= "echo"
      then (
        returned (
            obj (
              field "echo" (if host.is_falsy input.json then obj end else input.json)
                (field "server_time" (str draw.now) end))),
        notes,
      )
      else if action_id =s= "compute_hash"
      then (elim input.value [ none ↦ thrown 500 "internal" | some v ↦ hash_output v ], notes)
      else if action_id =s= "store_note"
      then elim input.content [
        | none ↦ (thrown 500 "internal", notes)
        | some text ↦ (
          returned (obj (field "note_id" (str ("note_" +s draw.ulid)) end)),
          store ("note_" +s draw.ulid) (record { principal = principal; content = text }) notes,
        )
      ]
      else if action_id =s= "request_cooling_off"
      then (returned cooling_off, notes)
      else (thrown 501 "not_implemented", notes)

  abbrev pub report_of :
      (type principal agent action : String) → (input output : Json N) → Option (Json N) → Report N
  report_of type principal agent action input output decision = record {
    type' = type;
    principal_did = principal;
    agent_did = some agent;
    action_id = some action;
    input = input;
    output = output;
    decision = decision;
  }

  abbrev no_rules : Draw → Json N
  no_rules draw = obj (
      field "id" (str ("pol_" +s draw.policy_ulid))
        (field "outcome" (str "allow") (field "rules" (arr nil) end)))

  -- The handler past its checks: `dispatch` and the receipt, whose row is not inserted if a DID cannot
  -- be bound.
  unfoldable pub perform :
      Draw → Action → (principal agent : String) → Input N → Tables N → Response N × Tables N
  perform draw action principal agent input t =
      let (result, notes) = dispatch draw action.id input principal t.notes in
      if not (is_bound input.dids) then (crashed, record t { notes = notes }) else elim result [
        | thrown status code ↦
            let (r, after) =
              persist_receipt host draw
                (report_of "invocation_error" principal agent action.id input.json null
                  (some (no_rules draw)))
                (record t { notes = notes }) in
            (failed status code r.receipt_id, after)
        | returned out ↦
            let (r, after) =
              persist_receipt host draw
                (report_of "invocation" principal agent action.id input.json out none)
                (record t { notes = notes }) in
            (succeeded out r.receipt_id r.self_hash, after)
      ]

  -- From the rate limit on.
  unfoldable pub limited :
      Draw → Call → Action → (principal agent : String) → Input N → Tables N → Response N × Tables N
  limited draw call action principal agent input t =
      let (answer, buckets) =
        check_rpm host.show action.rpm principal action.id call t.rate_buckets in
      elim answer [
        | retry_after_seconds s ↦ (refused 429 "rate_limited", record t { rate_buckets = buckets })
        | admitted ↦ perform draw action principal agent input (record t { rate_buckets = buckets })
      ]

  abbrev pub is_complete : Envelope N → Bool
  is_complete e =
      is_some e.oap_version
      && is_some e.request_id
      && is_some e.principal_did
      && is_some e.agent_did
      && is_some e.action
      && is_some e.input

  abbrev pub or_blank : Option String → String
  or_blank none = ""
  or_blank (some s) = s

  -- POST /oap/invoke; `input` reads `e`.
  unfoldable pub invoke :
      Draw
      → Call
      → (authorization : String) → Envelope N
      → Input N
      → Tables N
      → Response N × Tables N
  invoke draw call authorization e input t =
      if not (is_complete e)
      then (refused 400 "invalid_envelope", t)
      else if not (or_blank e.oap_version =s= "1.0")
      then (refused 400 "unsupported_version", t)
      else elim (find_action (or_blank e.action)) [
        | none ↦ (refused 404 "action_not_found", t)
        | some action ↦
            if action.writes && not (is_bearer authorization)
            then (refused 401 "auth_required", t)
            else if is_unshown input.dids
            then (crashed, t)
            else limited draw call action (or_blank e.principal_did) (or_blank e.agent_did) input t
      ]
