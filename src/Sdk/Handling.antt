-- ===== src/Sdk/Handling.antt =====
-- What a call of `handleInvoke` leaves in a store (sdks/typescript/src/server.ts).
use oap_spec.Prelude.{
  String, none, some, Option, [], ◌∷◌, ◌++◌, ◌≡◌, refl, ◌∙◌, arith, ◌⊎◌, inl, inr, Option-cases, ap,
  lookup,
}
use oap_spec.Json.{Json, str}
use oap_spec.Server.{Host, Draw}
use oap_spec.Server.Ledger.{previous_of}
use oap_spec.Server.RateLimit.{Call}
use oap_spec.Server.Receipts.{Report}
use oap_spec.Server.Invoke.{Envelope, or_blank, Response, refused, failed, succeeded, crashed}
use oap_spec.Sdk.{Receipt, ReceiptStore, IsStore}
use oap_spec.Sdk.Ledger.{Keeps, begin_invoke-Keeps}
use oap_spec.Sdk.Service.{
  Actions, Pending, Decision, allows, denies, throws, Result, returns, raises, core_fields,
  make_receipt, persist_receipt, begin_invoke, after_policy, after_handler, handle_invoke,
}

-- The receipt that an answer names.
abbrev pub receipt_of : {N : Type 0} → Response N → Option String
receipt_of (refused status error) = none
receipt_of (failed status error id) = some id
receipt_of crashed = none
receipt_of (succeeded output id hash) = some id

Sum-cases : {A B : Type 0} (x : A ⊎ B) → ((a : A) × (x ≡ inl a)) ⊎ ((b : B) × (x ≡ inr b))
Sum-cases (inl a) = inl (a, refl)
Sum-cases (inr b) = inr (b, refl)

module _ {N S : Type 0} (host : Host N) (store : ReceiptStore N S) (law : IsStore store) where
  -- One more receipt, which links to the tip and becomes it.
  pub record Adds (s t : S) (r : Receipt N) : Type 0 where
    pub held : law.held t ≡ law.held s ++ r ∷ []
    pub tip : store.get_chain_tip t ≡ r.self_hash
    pub link : previous_of r.body ≡ some (str (store.get_chain_tip s))

  -- An answer that names no receipt leaves none, and any other names the one that it leaves.
  abbrev pub Leaves : S → Response N × S → Type 0
  Leaves s a =
      ((receipt_of a.0 ≡ none) × Keeps host store law s a.1)
      ⊎ ((r : Receipt N) × (receipt_of a.0 ≡ some r.receipt_id) × Adds s a.1 r)

  persist_receipt-Adds :
      (draw : Draw) (report : Report N) (s : S)
      → Adds s
          (persist_receipt host store draw report s).1
          (persist_receipt host store draw report s).0
  unfolding persist_receipt make_receipt core_fields
  persist_receipt-Adds draw report s =
      let r = make_receipt host store draw report (store.get_chain_tip s) in
      record {
        held = law.held-set r.self_hash (store.insert_receipt r s) ∙ law.held-insert r s;
        tip = law.tip-set r.self_hash (store.insert_receipt r s);
        link = refl;
      }

  after_handler-Leaves :
      (draw : Draw) (p : Pending N) (r : Result N) (s : S)
      → Leaves s (after_handler host store draw p r s)
  unfolding after_handler
  after_handler-Leaves draw p (returns output) s = inr (_, refl, persist_receipt-Adds draw _ s)
  after_handler-Leaves draw p (raises status code) s = inr (_, refl, persist_receipt-Adds draw _ s)

  Leaves-after : (s t : S) (a : Response N × S) → Keeps host store law s t → Leaves t a → Leaves s a
  Leaves-after s t a k (inl (e, l)) = inl (e, (l.0 ∙ k.0, l.1 ∙ k.1))
  Leaves-after s t a k (inr (r, e, l)) = inr (
    r,
    e,
    record {
      held = l.held ∙ ap (λ rs. rs ++ r ∷ []) k.0;
      tip = l.tip;
      link = l.link ∙ ap (λ h. some (str h)) k.1;
    },
  )

  begin_invoke-refuses :
      (actions : Actions) (call : Call) (auth : String) (e : Envelope N) (input : Json N) (s : S)
      (answer : Response N)
      → (begin_invoke host store actions call auth e input s).0 ≡ inl answer
      → receipt_of answer ≡ none
  unfolding begin_invoke
  begin_invoke-refuses actions call auth e input s answer h =
      elim (Option-cases (lookup (or_blank host e.action) actions)) [
        | inl missing ↦ ground (arith, missing)
        | inr (a, found) ↦ ground (arith, found)
      ]

  after_policy-Leaves :
      (draw : Draw) (p : Pending N) (d : Decision) (r : Result N) (s : S)
      → Leaves s (elim (after_policy host store draw p d s).0 [
        | some answer ↦ (answer, (after_policy host store draw p d s).1)
        | none ↦ after_handler host store draw p r (after_policy host store draw p d s).1
      ])
  unfolding after_policy
  after_policy-Leaves draw p allows r s = after_handler-Leaves draw p r s
  after_policy-Leaves draw p throws r s = inl (refl, (refl, refl))
  after_policy-Leaves draw p (denies rules reason) r s =
      inr (_, refl, persist_receipt-Adds draw _ s)

  -- A call that no other request interrupts leaves one receipt, which links to the tip, becomes it and
  -- is named in the answer, or it leaves the receipts and the tip as they are and names none.
  pub handle_invoke-Leaves :
      (actions : Actions) (policy : Pending N → Decision) (handler : Pending N → Result N)
      (draw : Draw) (call : Call) (auth : String) (e : Envelope N) (input : Json N) (s : S)
      → Leaves s (handle_invoke host store actions policy handler draw call auth e input s)
  unfolding handle_invoke
  handle_invoke-Leaves actions policy handler draw call auth e input s =
      let k = begin_invoke-Keeps host store law actions call auth e input s in
      let t = (begin_invoke host store actions call auth e input s).1 in
      elim (Sum-cases (begin_invoke host store actions call auth e input s).0) [
        | inl (answer, refused_by) ↦
            rw (refused_by, handle_invoke)
              (inl (begin_invoke-refuses actions call auth e input s answer refused_by, k))
        | inr (p, passed) ↦
            rw (passed, handle_invoke)
              (Leaves-after s t _ k (after_policy-Leaves draw p (policy p) (handler p) t))
      ]
