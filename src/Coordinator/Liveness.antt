-- ===== src/Coordinator/Liveness.antt =====
-- `publishHeartbeat` and `assumeFromFailover` (reference/coordinator/coordinator.js).
use oap_spec.Prelude.{
  store, ℕ, ◌+◌, String, Bool, false, not, ◌&&◌, Option, none, some, List, [], ◌∷◌, ◌=s=◌,
  if◌then◌else◌, ltb, ◌+s◌, length,
}
use oap_spec.Json.{Json, str, obj, end, field, canonicalize}
use oap_spec.Coordinator.{
  is_terminal, short_wait, not_declared, Receipt, Workflow, Heartbeat, Coordinator, Host,
}
use oap_spec.Coordinator.Segments.{receipt_json, heartbeat_json}
use oap_spec.Coordinator.Machine.{Result, ok, err}

-- The message that `assumeFromFailover` returns.
pub record Assume : Type 0 where
  pub workflow_id : String
  pub observed_missed_heartbeat_at : String
  pub assumed_at : String
  pub failover_coordinator_did : String
  pub signature : String

abbrev assume_json : {N : Type 0} → String → String → String → String → Json N
assume_json workflow_id observed assumed_at failover_did = obj (
    field "type" (str "FailoverAssume") (
      field "workflow_id" (str workflow_id) (
        field "observed_missed_heartbeat_at" (str observed) (
          field "assumed_at" (str assumed_at)
            (field "failover_coordinator_did" (str failover_did) end)))))

-- `lastReceipt.failover_coordinator_did === failoverDid`; the receipt has no empty DID
abbrev pub names_failover : Option String → String → Bool
names_failover none did = false
names_failover (some d) did = not (d =s= "") && d =s= did

module _ {N : Type 0} (host : Host N) where
  abbrev latest_hash : Option (Receipt N) → Option String
  latest_hash none = none
  latest_hash (some r) =
      some ("sha256:" +s host.sha256_hex (canonicalize host.stringify (receipt_json host r)))

  unfoldable pub make_heartbeat : ℕ → ℕ → Workflow N → Heartbeat
  make_heartbeat counter n w =
      let h : Heartbeat = record {
        coordinator_did = host.coordinator_did;
        workflow_id = w.workflow_id;
        counter = counter;
        latest_receipt_hash = latest_hash w.last_receipt;
        issued_at = host.now n;
        signature = "";
      } in
      record h { signature = host.sign (canonicalize host.stringify (heartbeat_json host h)) }

  -- The loop of `publishHeartbeat`: the heartbeats of the workflows that are not terminal.
  unfoldable pub heartbeats : ℕ → ℕ → List (String × Workflow N) → List Heartbeat
  heartbeats counter n [] = []
  heartbeats counter n ((_, w) ∷ rest) =
      let m = if is_terminal w.state then n else n + 1 in
      let later = heartbeats counter m rest in
      if is_terminal w.state then later else make_heartbeat counter n w ∷ later

  unfoldable pub store_all : List Heartbeat → List (String × Heartbeat) → List (String × Heartbeat)
  store_all [] stored = stored
  store_all (h ∷ rest) stored = store_all rest (store h.workflow_id h stored)

  unfoldable pub publish_heartbeat : Coordinator N → List Heartbeat × Coordinator N
  publish_heartbeat c =
      let counter = c.heartbeat_counter + 1 in
      let hs = heartbeats counter c.readings c.workflows in
      (
        hs,
        record c {
          heartbeat_counter = counter;
          heartbeat_store = store_all hs c.heartbeat_store;
          readings = c.readings + length hs;
        },
      )

  unfoldable pub make_assume : (workflow_id observed failover_did assumed_at : String) → Assume
  make_assume workflow_id observed failover_did assumed_at = record {
    workflow_id = workflow_id;
    observed_missed_heartbeat_at = observed;
    assumed_at = assumed_at;
    failover_coordinator_did = failover_did;
    signature =
        host.sign
          (canonicalize host.stringify (assume_json workflow_id observed assumed_at failover_did));
  }

  -- `assumeFromFailover`; `waited` is in seconds.
  unfoldable pub assume_from_failover :
      (workflow_id : String)
      → Receipt N
      → (observed : String) → (waited : ℕ) → (failover_did assumed_at : String) → Result Assume
  assume_from_failover workflow_id r observed waited failover_did assumed_at =
      if ltb waited 120
      then err short_wait
      else if not (names_failover r.failover_did failover_did)
      then err not_declared
      else ok (make_assume workflow_id observed failover_did assumed_at)
