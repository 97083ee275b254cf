-- ===== src/Adapters/Gateway.antt =====
-- The adapters over the tool server (adapters/, reference/server/server.js): what a task of A2A and a call of a listed tool come to.
use oap_spec.Prelude.{String, Bool, true, Option, none, some, ◌≡◌, refl, is_some, ◌↔◌, ◌≢◌}
use oap_spec.Json.{Json, undefined, null, bool, num, str, arr, obj}
use oap_spec.Server.{Tables, Host, Draw}
use oap_spec.Server.RateLimit.{Call}
use oap_spec.Server.Invoke.{
  Envelope, Input, Response, refused, failed, succeeded, crashed, invoke, is_complete,
}
use oap_spec.Adapters.Mcp.{Identity, sent}
use oap_spec.Adapters.A2a.{
  Manifest, Task, OapResponse, TaskResult, post, result, action_of, a2a_task_to_oap_request,
  oap_response_to_a2a_task, a2a_gateway, extract_a2a_input,
}

-- The body of an answer of POST /oap/invoke, as far as the adapter reads it; `message` is that of an error.
unfoldable pub body_of : {N : Type 0} → (message : String) → Response N → OapResponse N
body_of message (refused status error) = record {
  status = "error";
  output = undefined;
  error = some message;
}
body_of message (failed status error id) = record {
  status = "error";
  output = undefined;
  error = some message;
}
body_of message crashed = record { status = "error"; output = undefined; error = some message }
body_of message (succeeded output id hash) = record {
  status = "success";
  output = output;
  error = none;
}

sent_iff : {N : Type 0} (v : Json N) → is_some (sent v) ≡ true ↔ v ≢ undefined
sent_iff undefined = (λ h. cc h, λ h. absurd (h refl))
sent_iff null = (λ h e. cc e, λ h. refl)
sent_iff (bool b) = (λ h e. cc e, λ h. refl)
sent_iff (num n) = (λ h e. cc e, λ h. refl)
sent_iff (str s) = (λ h e. cc e, λ h. refl)
sent_iff (arr xs) = (λ h e. cc e, λ h. refl)
sent_iff (obj fs) = (λ h e. cc e, λ h. refl)

-- No answer of the server has a status that the adapter takes for a result.
task-of_body :
    {N : Type 0} (is_falsy : Json N → Bool) (message id : String) (a : Response N)
    → ((oap_response_to_a2a_task is_falsy (body_of message a) id).state ≡ "failed")
      × ((oap_response_to_a2a_task is_falsy (body_of message a) id).artifact ≡ none)
unfolding oap_response_to_a2a_task body_of
task-of_body is_falsy message id (refused status error) = (refl, refl)
task-of_body is_falsy message id (failed status error receipt) = (refl, refl)
task-of_body is_falsy message id crashed = (refl, refl)
task-of_body is_falsy message id (succeeded output receipt hash) = (refl, refl)

module _ {N : Type 0} (host : Host N) (draw : Draw) (call : Call) (authorization message : String)
    (read : Envelope N → Input N) where
  -- POST /oap/invoke as the function that the gateway calls; `read` reads an envelope's input.
  unfoldable pub invoke_oap : Envelope N → Tables N → Option (OapResponse N) × Tables N
  invoke_oap e t =
      let (answer, after) = invoke host draw call authorization e (read e) t in
      (some (body_of message answer), after)

  -- A task that names an action is answered as failed, with no artifact, and the tables are those
  -- that the invocation leaves, which it may have carried out.
  pub a2a_gateway-invoke :
      (is_falsy : Json N → Bool) (m : Manifest N) (who : Identity) (request_id id : String)
      (task : Task N) (action_id : String) (t : Tables N)
      → action_of is_falsy m task ≡ some action_id
      → (r : TaskResult N) × ((a2a_gateway is_falsy invoke_oap m who request_id
            (post "tasks/send" id task)
            t).0
          ≡ result id r)
        × (r.state ≡ "failed")
        × (r.artifact ≡ none)
        × ((a2a_gateway is_falsy invoke_oap m who request_id (post "tasks/send" id task) t).1
            ≡ (invoke host draw call authorization
                (a2a_task_to_oap_request is_falsy request_id task who action_id)
                (read (a2a_task_to_oap_request is_falsy request_id task who action_id))
                t).1)
  unfolding a2a_gateway invoke_oap
  a2a_gateway-invoke is_falsy m who request_id id task action_id t named =
      let failed_task = task-of_body is_falsy message _ _ in
      rw (named, a2a_gateway) (_, refl, failed_task.0, failed_task.1, refl)

module _ {N : Type 0} (host : Host N) where
  -- A request that the adapter makes of a task has every field that the server requires exactly if
  -- the task has an input that is not undefined, and it has the server's version.
  pub a2a_task_to_oap_request-complete_iff :
      (is_falsy : Json N → Bool) (request_id : String) (task : Task N) (who : Identity)
      (action_id : String)
      → is_complete host (a2a_task_to_oap_request is_falsy request_id task who action_id) ≡ true
        ↔ extract_a2a_input is_falsy task ≢ undefined
  unfolding a2a_task_to_oap_request
  a2a_task_to_oap_request-complete_iff is_falsy request_id task who action_id =
      sent_iff (extract_a2a_input is_falsy task)
