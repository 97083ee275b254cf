-- ===== src/Agent/Receipts.antt =====
-- The chain of an agent's local receipts, its check and its head (reference/agent/agent.js).
use mathlib.Core.Bool.{false≢true}
use text.Mathlib.TextLemmas
use oap_spec.Prelude.{
  String, false, Option, none, List, [], ◌∷◌, ◌++◌, ◌≡◌, ◌≢◌, ◌⊎◌, inl, inr, refl, sym, ◌∙◌, arith,
  ◌=s=◌, ◌+s◌, length, map, eq_iff, Bool-cases, Option-cases,
}
use oap_spec.Json.{Json}
use oap_spec.Agent.{
  Host, Manifest, Decision, Receipt, Agent, Draw, valid, receipt_json, hash_json,
  create_local_receipt, evaluate_policy, is_block, find_action, invoke, kill_switch, check_from,
  verify_receipt_chain,
}

prefix-injective : (a b : String) → ("sha256:" +s a) ≡ ("sha256:" +s b) → a ≡ b
prefix-injective a b e = TextLemmas.append_cancel_left "sha256:" a b e

module _ {N : Type 0} (host : Host N) where
  -- The hash that the next receipt has to carry.
  abbrev pub head_from : String → List (Receipt N) → String
  head_from prev [] = prev
  head_from prev (r ∷ rest) = head_from (hash_json host (receipt_json r)) rest

  -- The receipts are chained, and the agent holds the hash of the last one.
  abbrev pub IsIntact : Agent N → Type 0
  IsIntact agent =
      (check_from host "genesis" agent.receipts ≡ none)
      × (head_from "genesis" agent.receipts ≡ agent.previous_receipt_hash)

  check_from-cons :
      (prev : String) (s : Receipt N) (rs : List (Receipt N))
      → check_from host prev (s ∷ rs) ≡ none
      → (s.previous_receipt_hash ≡ prev)
        × (check_from host (hash_json host (receipt_json s)) rs ≡ none)
  unfolding check_from
  check_from-cons prev s rs h = elim (Bool-cases (s.previous_receipt_hash =s= prev)) [
    | inl e ↦ ((eq_iff s.previous_receipt_hash prev).0 e, (ground (arith, e)))
    | inr e ↦ absurd (ground (arith, e))
  ]

  check_from-concat :
      (prev : String) (rs : List (Receipt N)) (r : Receipt N)
      → check_from host prev rs ≡ none
      → r.previous_receipt_hash ≡ head_from prev rs
      → check_from host prev (rs ++ r ∷ []) ≡ none
  unfolding check_from
  check_from-concat prev [] r h e = ground (arith, (eq_iff r.previous_receipt_hash prev).1 e)
  check_from-concat prev (s ∷ rs) r h e = ground (
    arith,
    check_from-concat (hash_json host (receipt_json s)) rs r (check_from-cons prev s rs h).1 e,
    (eq_iff s.previous_receipt_hash prev).1 (check_from-cons prev s rs h).0,
  )

  head_from-concat :
      (prev : String) (rs : List (Receipt N)) (r : Receipt N)
      → head_from prev (rs ++ r ∷ []) ≡ hash_json host (receipt_json r)
  head_from-concat prev [] r = refl
  head_from-concat prev (s ∷ rs) r = head_from-concat (hash_json host (receipt_json s)) rs r

  create-IsIntact :
      (draw : Draw) (type' tool : String) (action input output : Json N) (d : Option Decision)
      (agent : Agent N)
      → IsIntact agent
      → IsIntact (create_local_receipt host draw type' tool action input output d agent)
  unfolding create_local_receipt
  create-IsIntact draw type' tool action input output d agent (checked, head) = (
    check_from-concat "genesis" agent.receipts _ checked (sym head),
    head_from-concat "genesis" agent.receipts _,
  )

  invoke-IsIntact :
      (draw : Draw) (m : Manifest) (action : String) (input output : Json N) (agent : Agent N)
      → IsIntact agent
      → IsIntact (invoke host draw m action input output agent).1
  unfolding invoke
  invoke-IsIntact draw m action input output agent h =
      elim (Option-cases (find_action action m.actions)) [
        | inl missing ↦ rw (missing, invoke) h
        | inr (a, found) ↦
            elim (Bool-cases (is_block (evaluate_policy host agent m a draw.decision_id).outcome)) [
              | inl blocked ↦ rw (found, blocked, invoke) h
              | inr passed ↦ rw (found, passed, invoke) (create-IsIntact draw _ _ _ _ _ _ agent h)
            ]
      ]

  -- The calls that an agent may have gone through.
  pub data Run (start : Agent N) : Agent N → Type 0 where
    here : Run start start
    invoked :
        {a : Agent N} (draw : Draw) (m : Manifest) (action : String) (input output : Json N)
        → Run start a
        → Run start (invoke host draw m action input output a).1
    killed : {a : Agent N} (draw : Draw) → Run start a → Run start (kill_switch host draw a)

  Run-IsIntact : {start a : Agent N} → IsIntact start → Run start a → IsIntact a
  unfolding kill_switch
  Run-IsIntact h here = h
  Run-IsIntact h (invoked {a} draw m action input output r) =
      invoke-IsIntact draw m action input output a (Run-IsIntact h r)
  Run-IsIntact h (killed {a} draw r) =
      create-IsIntact draw _ _ _ _ _ _ (record a { subscriptions = [] }) (Run-IsIntact h r)

  -- After any calls of `invoke` and `killSwitch` by an agent that started with no receipt, blocked
  -- ones among them, `verifyReceiptChain` finds the chain valid and tells its length.
  pub verify_receipt_chain-Run :
      {start a : Agent N}
      → start.receipts ≡ []
      → start.previous_receipt_hash ≡ "genesis"
      → Run start a
      → verify_receipt_chain host a ≡ valid (length a.receipts)
  unfolding verify_receipt_chain check_from
  verify_receipt_chain-Run {start} none_yet genesis r =
      rw ((Run-IsIntact (rw none_yet refl, rw (none_yet) (sym genesis)) r).0, verify_receipt_chain)
        refl

  -- Two different texts that SHA-256 gives one digest.
  abbrev pub Collision : Type 0
  Collision = (x : String) × (y : String) × (x ≢ y) × (host.sha256_hex x ≡ host.sha256_hex y)

  -- The text that a receipt's hash is taken over.
  abbrev pub receipt_text : Receipt N → String
  receipt_text r = host.stringify (receipt_json r)

  hash-receipt_json :
      (r s : Receipt N)
      → host.is_falsy (receipt_json r) ≡ false
      → host.is_falsy (receipt_json s) ≡ false
      → hash_json host (receipt_json r) ≡ hash_json host (receipt_json s)
      → (receipt_text r ≡ receipt_text s) ⊎ Collision
  unfolding hash_json
  hash-receipt_json r s f g e = elim (Bool-cases (receipt_text r =s= receipt_text s)) [
    | inl same ↦ inl ((eq_iff (receipt_text r) (receipt_text s)).0 same)
    | inr other ↦ inr (
      receipt_text r,
      receipt_text s,
      (λ p. false≢true (sym other ∙ (eq_iff (receipt_text r) (receipt_text s)).1 p)),
      prefix-injective _ _ (rw (f, g) at e),
    )
  ]

  previous-eq :
      (reads : (r s : Receipt N)
        → receipt_text r ≡ receipt_text s
        → r.previous_receipt_hash ≡ s.previous_receipt_hash)
      (rs ss : List (Receipt N)) (prev prev' : String)
      → map receipt_text rs ≡ map receipt_text ss
      → check_from host prev rs ≡ none
      → check_from host prev' ss ≡ none
      → head_from prev rs ≡ head_from prev' ss
      → prev ≡ prev'
  previous-eq reads [] [] prev prev' m h k e = e
  previous-eq reads [] (s ∷ ss) prev prev' m h k e = cc m
  previous-eq reads (r ∷ rs) [] prev prev' m h k e = cc m
  previous-eq reads (r ∷ rs) (s ∷ ss) prev prev' m h k e =
      cc (reads r s (cc m), (check_from-cons prev r rs h).0, (check_from-cons prev' s ss k).0)

  -- Where a receipt's text tells its link: two chains of one length that verify and end in
  -- one hash hold the same receipts, as texts, place by place, or there are two texts with one digest: no receipt can be changed without the head.
  pub texts_of_head :
      (truthy : (r : Receipt N) → host.is_falsy (receipt_json r) ≡ false)
      (reads : (r s : Receipt N)
        → receipt_text r ≡ receipt_text s
        → r.previous_receipt_hash ≡ s.previous_receipt_hash)
      (rs ss : List (Receipt N)) (prev prev' : String)
      → length rs ≡ length ss
      → check_from host prev rs ≡ none
      → check_from host prev' ss ≡ none
      → head_from prev rs ≡ head_from prev' ss
      → (map receipt_text rs ≡ map receipt_text ss) ⊎ Collision
  texts_of_head truthy reads [] [] prev prev' l h k e = inl refl
  texts_of_head truthy reads [] (s ∷ ss) prev prev' l h k e = absurd (omega arith)
  texts_of_head truthy reads (r ∷ rs) [] prev prev' l h k e = absurd (omega arith)
  texts_of_head truthy reads (r ∷ rs) (s ∷ ss) prev prev' l h k e =
      let h' = (check_from-cons prev r rs h).1 in
      let k' = (check_from-cons prev' s ss k).1 in
      elim (texts_of_head truthy reads rs ss _ _ (omega (arith, l)) h' k' e) [
        | inr collision ↦ inr collision
        | inl rest ↦
            elim (hash-receipt_json r s (truthy r) (truthy s)
              (previous-eq reads rs ss _ _ rest h' k' e)) [
                | inr collision ↦ inr collision
                | inl first ↦ inl (cc (first, rest))
              ]
      ]
