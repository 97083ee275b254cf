-- ===== src/Coordinator/Heartbeats.antt =====
-- The heartbeats of a coordinator, and who may take over from it.
use oap_spec.Prelude.{
  ℕ, ◌+◌, ◌≤◌, ◌<◌, String, true, List, [], ◌∷◌, ◌≡◌, ◌↔◌, refl, ap, arith, All, All-map, map,
  if◌then◌else◌, Bool-cases, inl, inr,
}
use oap_spec.Coordinator.{Workflow, Coordinator, Receipt, Host, is_terminal}
use oap_spec.Coordinator.Machine.{ok}
use oap_spec.Coordinator.Liveness.{
  make_heartbeat, heartbeats, publish_heartbeat, assume_from_failover, make_assume, names_failover,
}

module _ {N : Type 0} (host : Host N) where
  -- The ids of the workflows that are not terminal, in order.
  abbrev pub live_ids : List (String × Workflow N) → List String
  live_ids [] = []
  live_ids ((_, w) ∷ rest) =
      if is_terminal w.state then live_ids rest else w.workflow_id ∷ live_ids rest

  heartbeats-ids :
      (k n : ℕ) (ws : List (String × Workflow N))
      → map (λ h. h.workflow_id) (heartbeats host k n ws) ≡ live_ids ws
  unfolding heartbeats make_heartbeat
  heartbeats-ids k n [] = refl
  heartbeats-ids k n ((id, w) ∷ rest) = elim (Bool-cases (is_terminal w.state)) [
    | inl done ↦ rw (done, heartbeats) (heartbeats-ids k n rest)
    | inr live ↦
        rw (live, heartbeats) (ap (λ ids. w.workflow_id ∷ ids) (heartbeats-ids k (n + 1) rest))
  ]

  heartbeats-counter :
      (k n : ℕ) (ws : List (String × Workflow N))
      → All (λ h. h.counter ≡ k) (heartbeats host k n ws)
  unfolding heartbeats make_heartbeat
  heartbeats-counter k n [] = tt
  heartbeats-counter k n ((id, w) ∷ rest) = elim (Bool-cases (is_terminal w.state)) [
    | inl done ↦ rw (done, heartbeats) (heartbeats-counter k n rest)
    | inr live ↦ rw (live, heartbeats) (refl, heartbeats-counter k (n + 1) rest)
  ]

  -- One publication sends a heartbeat for each workflow that is not terminal, in order, and for no
  -- other; all carry one counter, which is larger than that of every earlier publication.
  pub publish_heartbeat_lem :
      (c : Coordinator N)
      → (map (λ h. h.workflow_id) (publish_heartbeat host c).0 ≡ live_ids c.workflows)
        × All (λ h. c.heartbeat_counter < h.counter) (publish_heartbeat host c).0
        × All
            (λ h. h.counter ≡ (publish_heartbeat host c).1.heartbeat_counter)
            (publish_heartbeat host c).0
  unfolding publish_heartbeat
  publish_heartbeat_lem c = (
    heartbeats-ids (c.heartbeat_counter + 1) c.readings c.workflows,
    All-map (λ h e. omega arith) _
        (heartbeats-counter (c.heartbeat_counter + 1) c.readings c.workflows),
    heartbeats-counter (c.heartbeat_counter + 1) c.readings c.workflows,
  )

  -- A failover returns its signed message exactly if it waited two minutes and the last receipt
  -- names it.
  pub assume_from_failover-eq-ok_iff :
      (id : String) (r : Receipt N) (observed : String) (waited : ℕ) (did at : String)
      → (assume_from_failover host id r observed waited did at
          ≡ ok (make_assume host id observed did at))
        ↔ ((120 ≤ waited) × (names_failover r.failover_did did ≡ true))
  unfolding assume_from_failover
  assume_from_failover-eq-ok_iff id r observed waited did at =
      ((λ e. (ground arith, ground arith)), (λ h. ground arith))
