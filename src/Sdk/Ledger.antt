-- ===== src/Sdk/Ledger.antt =====
-- The receipts of an SDK server as a hash chain, over any store that keeps to `IsStore` and whatever
-- order the parts of concurrent requests run in (sdks/typescript/src/server.ts).
use mathlib.Core.Path.{subst}
use oap_spec.Prelude.{
  String, Option, none, some, List, [], ◌∷◌, ◌++◌, ◌≡◌, refl, sym, ap, ◌∙◌, arith, ◌=s=◌,
  Bool-cases, inl, inr, lookup, Option-cases,
}
use oap_spec.Json.{Json, str}
use oap_spec.Server.{Host, Draw}
use oap_spec.Server.Ledger.{previous_of}
use oap_spec.Server.RateLimit.{Call, key_of}
use oap_spec.Server.Receipts.{Report, hash_of}
use oap_spec.Server.Invoke.{Envelope, or_blank}
use oap_spec.Sdk.{Receipt, ReceiptStore, IsStore, Tick}
use oap_spec.Sdk.Service.{
  Actions, Pending, Decision, allows, denies, throws, Result, returns, raises, core_fields,
  make_receipt, persist_receipt, begin_invoke, after_policy, after_handler, handle_subscribe,
  handle_unsubscribe, handle_incident_create,
}

module _ {N : Type 0} (host : Host N) where
  -- Each receipt has the hash of its body, whose link is the hash of the receipt before.
  abbrev pub LinkedFrom : String → List (Receipt N) → Type 0
  LinkedFrom previous [] = Unit
  LinkedFrom previous (r ∷ rs) =
      (previous_of r.body ≡ some (str previous))
      × (r.self_hash ≡ hash_of host r.body)
      × LinkedFrom r.self_hash rs

  abbrev pub tip_from : String → List (Receipt N) → String
  tip_from previous [] = previous
  tip_from previous (r ∷ rs) = tip_from r.self_hash rs

  -- Receipts are chained from "genesis", and the tip is the hash of the last.
  pub record IsChain (tip : String) (rs : List (Receipt N)) : Type 0 where
    pub linked : LinkedFrom "genesis" rs
    pub last : tip ≡ tip_from "genesis" rs

module _ {N S : Type 0} (host : Host N) (store : ReceiptStore N S) (law : IsStore store) where
  LinkedFrom-concat :
      (p : String) (rs : List (Receipt N)) (draw : Draw) (report : Report N)
      → LinkedFrom host p rs
      → LinkedFrom host p (rs ++ make_receipt host store draw report (tip_from host p rs) ∷ [])
  unfolding make_receipt core_fields
  LinkedFrom-concat p [] draw report h = (refl, refl, tt)
  LinkedFrom-concat p (r ∷ rs) draw report h =
      (h.0, h.1, LinkedFrom-concat r.self_hash rs draw report h.2)

  tip_from-concat :
      (p : String) (rs : List (Receipt N)) (r : Receipt N)
      → tip_from host p (rs ++ r ∷ []) ≡ r.self_hash
  tip_from-concat p [] r = refl
  tip_from-concat p (q ∷ rs) r = tip_from-concat q.self_hash rs r

  -- The store's receipts are a chain up to its tip.
  abbrev pub IsLedger : S → Type 0
  IsLedger s = IsChain host (store.get_chain_tip s) (law.held s)

  IsLedger-same :
      (s t : S)
      → law.held t ≡ law.held s
      → store.get_chain_tip t ≡ store.get_chain_tip s
      → IsLedger s
      → IsLedger t
  IsLedger-same s t r c h = record {
    linked = subst (LinkedFrom host "genesis") (sym r) h.linked;
    last = c ∙ h.last ∙ ap (tip_from host "genesis") (sym r);
  }

  persist_receipt-IsLedger :
      (draw : Draw) (report : Report N) (s : S)
      → IsLedger s
      → IsLedger (persist_receipt host store draw report s).1
  unfolding persist_receipt
  persist_receipt-IsLedger draw report s h =
      let r = make_receipt host store draw report (store.get_chain_tip s) in
      let grown : law.held (persist_receipt host store draw report s).1 ≡ law.held s ++ r ∷ [] =
        law.held-set r.self_hash (store.insert_receipt r s) ∙ law.held-insert r s in
      record {
        linked = subst (LinkedFrom host "genesis") (sym grown) (
            subst
              (λ p.
                LinkedFrom host "genesis"
                  (law.held s ++ make_receipt host store draw report p ∷ []))
              (sym h.last) (LinkedFrom-concat "genesis" (law.held s) draw report h.linked));
        last =
            law.tip-set r.self_hash (store.insert_receipt r s)
            ∙ sym (tip_from-concat "genesis" (law.held s) r)
            ∙ ap (tip_from host "genesis") (sym grown);
      }

  -- The states of a store that started empty, after any sequence of the synchronous parts of
  -- requests but the deletion of data: the three parts of a call may belong to calls that run at once.
  pub data Reach : S → Type 0 where
    start : (s : S) → law.held s ≡ [] → store.get_chain_tip s ≡ "genesis" → Reach s
    began :
        (s : S)
        → Reach s
        → (actions : Actions) (call : Call) (auth : String) (e : Envelope N) (input : Json N)
        → Reach (begin_invoke host store actions call auth e input s).1
    decided :
        (s : S)
        → Reach s
        → (draw : Draw) (p : Pending N) (d : Decision)
        → Reach (after_policy host store draw p d s).1
    handled :
        (s : S)
        → Reach s
        → (draw : Draw) (p : Pending N) (r : Result N)
        → Reach (after_handler host store draw p r s).1
    subscribed :
        (s : S)
        → Reach s
        → (draw : Draw) (principal : String) (agent : Option String) (tier : String)
          (request reply : Json N)
        → Reach (handle_subscribe host store draw principal agent tier request reply s).1
    cancelled :
        (s : S) → Reach s → (id now : String) → Reach (handle_unsubscribe host store id now s).1
    reported :
        (s : S)
        → Reach s
        → (token given : Option String) (body : Json N)
        → Reach (handle_incident_create host store token given body s).1

  -- The receipts and the tip are as before.
  abbrev pub Keeps : S → S → Type 0
  Keeps s t = (law.held t ≡ law.held s) × (store.get_chain_tip t ≡ store.get_chain_tip s)

  pub begin_invoke-Keeps :
      (actions : Actions) (call : Call) (auth : String) (e : Envelope N) (input : Json N) (s : S)
      → Keeps s (begin_invoke host store actions call auth e input s).1
  unfolding begin_invoke
  begin_invoke-Keeps actions call auth e input s =
      elim (Option-cases (lookup (or_blank host e.action) actions)) [
        | inl missing ↦ rw (missing, begin_invoke) (ground arith)
        | inr (a, found) ↦
            let key = key_of host.show (or_blank host e.principal_did) a.id call.bucket_at in
            let tick : Tick = record { now = call.now; cleans = call.collects } in
            rw (found, begin_invoke)
              (ground
                (arith, law.held-increment key 60000 tick s, law.tip-increment key 60000 tick s))
      ]

  after_policy-IsLedger :
      (draw : Draw) (p : Pending N) (d : Decision) (s : S)
      → IsLedger s
      → IsLedger (after_policy host store draw p d s).1
  unfolding after_policy
  after_policy-IsLedger draw p allows s h = h
  after_policy-IsLedger draw p throws s h = h
  after_policy-IsLedger draw p (denies rules reason) s h = persist_receipt-IsLedger draw _ s h

  after_handler-IsLedger :
      (draw : Draw) (p : Pending N) (r : Result N) (s : S)
      → IsLedger s
      → IsLedger (after_handler host store draw p r s).1
  unfolding after_handler
  after_handler-IsLedger draw p (returns output) s h = persist_receipt-IsLedger draw _ s h
  after_handler-IsLedger draw p (raises status code) s h = persist_receipt-IsLedger draw _ s h

  handle_subscribe-IsLedger :
      (draw : Draw) (principal : String) (agent : Option String) (tier : String)
      (request reply : Json N) (s : S)
      → IsLedger s
      → IsLedger (handle_subscribe host store draw principal agent tier request reply s).1
  unfolding handle_subscribe
  handle_subscribe-IsLedger draw principal agent tier request reply s h =
      elim (Bool-cases (principal =s= "")) [
        | inl e ↦ rw (e, handle_subscribe) h
        | inr e ↦
            rw (e, handle_subscribe)
              (persist_receipt-IsLedger draw _ _
                (IsLedger-same s _ (law.held-subscription _ s) (law.tip-subscription _ s) h))
      ]

  handle_incident_create-Keeps :
      (token given : Option String) (body : Json N) (s : S)
      → Keeps s (handle_incident_create host store token given body s).1
  unfolding handle_incident_create
  handle_incident_create-Keeps none given body s =
      (law.held-incident body s, law.tip-incident body s)
  handle_incident_create-Keeps (some t) given body s =
      ground (arith, law.held-incident body s, law.tip-incident body s)

  -- Where no data of a principal are deleted, and whatever order the synchronous parts of calls,
  -- subscriptions, cancellations and incident reports run in, from no receipt and the tip "genesis", the receipts of a store are a hash chain from
  -- "genesis", each with the hash of its body, and the tip is the last hash.
  pub Reach-IsChain : (s : S) → Reach s → IsChain host (store.get_chain_tip s) (law.held s)
  unfolding handle_unsubscribe
  Reach-IsChain _ (start s r c) = record { linked = rw r tt; last = rw r c }
  Reach-IsChain _ (began s w actions call auth e input) =
      let k = begin_invoke-Keeps actions call auth e input s in
      IsLedger-same s _ k.0 k.1 (Reach-IsChain s w)
  Reach-IsChain _ (decided s w draw p d) = after_policy-IsLedger draw p d s (Reach-IsChain s w)
  Reach-IsChain _ (handled s w draw p r) = after_handler-IsLedger draw p r s (Reach-IsChain s w)
  Reach-IsChain _ (subscribed s w draw principal agent tier request reply) =
      handle_subscribe-IsLedger draw principal agent tier request reply s (Reach-IsChain s w)
  Reach-IsChain _ (cancelled s w id now) =
      IsLedger-same s _ (law.held-cancel id now s) (law.tip-cancel id now s) (Reach-IsChain s w)
  Reach-IsChain _ (reported s w token given body) =
      let k = handle_incident_create-Keeps token given body s in
      IsLedger-same s _ k.0 k.1 (Reach-IsChain s w)
