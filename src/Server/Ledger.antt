-- ===== src/Server/Ledger.antt =====
-- The receipts table as a hash chain, over the handlers that add to it (reference/server/server.js).
use mathlib.Core.Path.{subst}
use oap_spec.Prelude.{
  String, Bool, true, false, Option, none, some, List, [], ◌∷◌, ◌++◌, ◌≡◌, refl, sym, ap, ◌∙◌,
  arith, ◌=s=◌, lookup, Bool-cases, inl, inr,
}
use oap_spec.Json.{Json, str, obj, entries}
use oap_spec.Server.{Receipt, Note, Tables, Host, Draw}
use oap_spec.Server.Handling.{Persists, invoke-Effect}
use oap_spec.Server.RateLimit.{Call}
use oap_spec.Server.Receipts.{Report, hash_of, core_fields, make_receipt, persist_receipt}
use oap_spec.Server.Invoke.{Envelope, Input, Response, invoke}
use oap_spec.Server.Records.{subscribe, cancel, post_incident}
use oap_spec.Server.Teamwork.{Announcement, late_join}

-- The link of a receipt.
abbrev pub previous_of : {N : Type 0} → Json N → Option (Json N)
previous_of (obj fs) = lookup "previous_receipt_hash" (entries fs)
previous_of v = none

module _ {N : Type 0} (host : Host N) where
  -- Each row holds the hash of its receipt, whose link is the hash of the row before.
  abbrev pub LinkedFrom : String → List (Receipt N) → Type 0
  LinkedFrom previous [] = Unit
  LinkedFrom previous (r ∷ rows) =
      (previous_of r.body ≡ some (str previous))
      × (r.self_hash ≡ hash_of host r.body)
      × LinkedFrom r.self_hash rows

  abbrev pub tip_from : String → List (Receipt N) → String
  tip_from previous [] = previous
  tip_from previous (r ∷ rows) = tip_from r.self_hash rows

  -- The receipts are chained from "genesis", and the tip is the hash of the last.
  pub record IsLedger (t : Tables N) : Type 0 where
    pub linked : LinkedFrom "genesis" t.receipts
    pub tip : t.chain_tip ≡ tip_from "genesis" t.receipts

  LinkedFrom-concat :
      (p : String) (rows : List (Receipt N)) (draw : Draw) (report : Report N)
      → LinkedFrom p rows
      → LinkedFrom p (rows ++ make_receipt host draw report (tip_from p rows) ∷ [])
  unfolding make_receipt core_fields
  LinkedFrom-concat p [] draw report h = (refl, refl, tt)
  LinkedFrom-concat p (r ∷ rows) draw report h =
      (h.0, h.1, LinkedFrom-concat r.self_hash rows draw report h.2)

  tip_from-concat :
      (p : String) (rows : List (Receipt N)) (r : Receipt N)
      → tip_from p (rows ++ r ∷ []) ≡ r.self_hash
  tip_from-concat p [] r = refl
  tip_from-concat p (s ∷ rows) r = tip_from-concat s.self_hash rows r

  IsLedger-same :
      (t u : Tables N)
      → u.receipts ≡ t.receipts
      → u.chain_tip ≡ t.chain_tip
      → IsLedger t
      → IsLedger u
  IsLedger-same t u r c h = record {
    linked = subst (LinkedFrom "genesis") (sym r) h.linked;
    tip = c ∙ h.tip ∙ ap (tip_from "genesis") (sym r);
  }

  persist_receipt-IsLedger :
      (draw : Draw) (report : Report N) (t : Tables N)
      → IsLedger t
      → IsLedger (persist_receipt host draw report t).1
  unfolding persist_receipt
  persist_receipt-IsLedger draw report t h = record {
    linked =
        subst (λ p. LinkedFrom "genesis" (t.receipts ++ make_receipt host draw report p ∷ []))
          (sym h.tip) (LinkedFrom-concat "genesis" t.receipts draw report h.linked);
    tip = sym (tip_from-concat "genesis" t.receipts (make_receipt host draw report t.chain_tip));
  }

  -- The tables of a server that started with none filled, after any calls of its handlers but
  -- the deletion of data.
  pub data Reach : Tables N → Type 0 where
    start : (t : Tables N) → t.receipts ≡ [] → t.chain_tip ≡ "genesis" → Reach t
    invoked :
        (t : Tables N)
        → Reach t
        → (draw : Draw) (call : Call) (auth : String) (e : Envelope N) (input : Input N)
        → Reach (invoke host draw call auth e input t).1
    subscribed :
        (t : Tables N)
        → Reach t
        → (draw : Draw) (principal : String) (agent : Option String) (tier : String)
          (request reply : Json N)
        → Reach (subscribe host draw principal agent tier request reply t).1
    cancelled : (t : Tables N) → Reach t → (id now : String) → Reach (cancel id now t).1
    reported :
        (t : Tables N)
        → Reach t
        → (token given : Option String) (body : Json N) → Reach (post_incident token given body t).1
    joined :
        (t : Tables N)
        → Reach t
        → (draw : Draw) (a : Option (Announcement N)) (has_context : Bool)
        → Reach (late_join host draw a has_context t).1

  Persists-IsLedger :
      (draw : Draw) (kind : String) (reply : String → String → Response N)
      (ns : List (String × Note)) (t : Tables N) (r : Response N × Tables N)
      → IsLedger t
      → Persists host draw kind reply ns t r
      → IsLedger r.1
  unfolding persist_receipt
  Persists-IsLedger draw kind reply ns t r h p =
      IsLedger-same (persist_receipt host draw p.report t).1 r.1 p.receipts p.chain_tip
        (persist_receipt-IsLedger draw p.report t h)

  post_incident-IsLedger :
      (token given : Option String) (body : Json N) (t : Tables N)
      → IsLedger t
      → IsLedger (post_incident token given body t).1
  unfolding post_incident
  post_incident-IsLedger none given body t h = IsLedger-same t _ refl refl h
  post_incident-IsLedger (some s) given body t h = IsLedger-same t _ (ground arith) (ground arith) h

  subscribe-IsLedger :
      (draw : Draw) (principal : String) (agent : Option String) (tier : String)
      (request reply : Json N) (t : Tables N)
      → IsLedger t
      → IsLedger (subscribe host draw principal agent tier request reply t).1
  unfolding subscribe
  subscribe-IsLedger draw principal agent tier request reply t h =
      elim (Bool-cases (principal =s= "")) [
        | inl e ↦ rw (e, subscribe) h
        | inr e ↦
            rw (e, subscribe) (persist_receipt-IsLedger draw _ _ (IsLedger-same t _ refl refl h))
      ]

  late_join-IsLedger :
      (draw : Draw) (a : Option (Announcement N)) (has_context : Bool) (t : Tables N)
      → IsLedger t
      → IsLedger (late_join host draw a has_context t).1
  unfolding late_join
  late_join-IsLedger draw none c t h = h
  late_join-IsLedger draw (some a) false t h = h
  late_join-IsLedger draw (some a) true t h = IsLedger-same t _ (ground arith) (ground arith) h

  -- After any calls of the handlers that invoke, subscribe, cancel, report an incident or admit a late
  -- joiner, from an empty table and the tip "genesis", each receipt is stored with its hash and
  -- carries the hash of the one before it, the first one "genesis", and the tip is the last hash.
  pub Reach-IsLedger : (t : Tables N) → Reach t → IsLedger t
  unfolding cancel
  Reach-IsLedger _ (start t r c) = record { linked = rw r tt; tip = rw r c }
  Reach-IsLedger _ (invoked t w draw call auth e input) =
      elim (invoke-Effect host draw call auth e input t) [
        | inl k ↦ IsLedger-same t _ k.1.receipts k.1.chain_tip (Reach-IsLedger t w)
        | inr (inl (out, ns, p, _, _)) ↦ Persists-IsLedger draw _ _ ns t _ (Reach-IsLedger t w) p
        | inr (inr (inl (p, _, _))) ↦ Persists-IsLedger draw _ _ _ t _ (Reach-IsLedger t w) p
        | inr (inr (inr (_, receipts, tip, _, _))) ↦
            IsLedger-same t _ receipts tip (Reach-IsLedger t w)
      ]
  Reach-IsLedger _ (subscribed t w draw principal agent tier request reply) =
      subscribe-IsLedger draw principal agent tier request reply t (Reach-IsLedger t w)
  Reach-IsLedger _ (cancelled t w id now) = IsLedger-same t _ refl refl (Reach-IsLedger t w)
  Reach-IsLedger _ (reported t w token given body) =
      post_incident-IsLedger token given body t (Reach-IsLedger t w)
  Reach-IsLedger _ (joined t w draw a c) = late_join-IsLedger draw a c t (Reach-IsLedger t w)
