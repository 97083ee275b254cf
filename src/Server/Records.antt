-- ===== src/Server/Records.antt =====
-- The handlers of audit, data deletion, incidents and subscriptions (reference/server/server.js).
use oap_spec.Prelude.{
  ℕ, ◌-◌, String, Bool, true, false, ◌&&◌, ◌||◌, Option, none, some, List, [], ◌∷◌, ◌++◌, map,
  ◌=s=◌, ◌==◌, ltb, if◌then◌else◌, sort_by, length,
}
use oap_spec.Json.{Json}
use oap_spec.Server.{Receipt, Subscription, Tables, Host, Draw}
use oap_spec.Server.Receipts.{Report, persist_receipt}

-- SELECT … WHERE principal_did = ?
unfoldable pub select_by_principal : {N : Type 0} → String → List (Receipt N) → List (Receipt N)
select_by_principal did [] = []
select_by_principal did (r ∷ rs) =
    let rest = select_by_principal did rs in if r.principal_did =s= did then r ∷ rest else rest

-- DELETE … WHERE principal_did = ?
unfoldable pub delete_by_principal : {N : Type 0} → String → List (Receipt N) → List (Receipt N)
delete_by_principal did [] = []
delete_by_principal did (r ∷ rs) =
    let rest = delete_by_principal did rs in if r.principal_did =s= did then rest else r ∷ rest

unfoldable pub first_rows {ℓ} : {A : Type ℓ} → ℕ → List A → List A
first_rows n [] = []
first_rows n (x ∷ xs) = let rest = first_rows (n - 1) xs in if n == 0 then [] else x ∷ rest

-- GET /oap/audit: ORDER BY timestamp DESC LIMIT; `earlier` compares the texts of times. A limit that
-- is given is a number that is not negative.
unfoldable pub audit :
    {N : Type 0}
    → (earlier : String → String → Bool) → (principal : String) → (limit : Option ℕ) → Tables N
    → List (Json N)
audit earlier principal limit t =
    let bound = elim limit as (λ _. ℕ) [ none ↦ 100 | some n ↦ if ltb 500 n then 500 else n ] in
    let rows = if principal =s= "" then t.receipts else select_by_principal principal t.receipts in
    map (λ r. r.body) (first_rows bound (sort_by (λ a b. earlier a.timestamp b.timestamp) rows))

-- POST /oap/data/delete: the number of deleted rows, if the request names a principal. The signed
-- deletion receipt goes to the client and into no table.
unfoldable pub data_delete : {N : Type 0} → (principal : String) → Tables N → Option ℕ × Tables N
data_delete principal t = if principal =s= "" then (none, t) else (
  some (length t.receipts - length (delete_by_principal principal t.receipts)),
  record t { receipts = delete_by_principal principal t.receipts },
)

-- POST /oap/incident; `admin_token` is OAP_ADMIN_TOKEN, and `body` the incident with its id and time.
unfoldable pub post_incident :
    {N : Type 0}
    → (admin_token : Option String) → (given : Option String) → (body : Json N) → Tables N
    → Bool × Tables N
post_incident none given body t = (true, record t { incidents = t.incidents ++ body ∷ [] })
post_incident (some token) given body t =
    let accepted = elim given as (λ _. Bool) [ none ↦ false | some g ↦ g =s= token ] in
    if (token =s= "") || accepted
    then (true, record t { incidents = t.incidents ++ body ∷ [] })
    else (false, t)

module _ {N : Type 0} (host : Host N) where
  -- POST /oap/subscribe: an active subscription, and a receipt of it.
  unfoldable pub subscribe :
      Draw
      → (principal : String) → (agent : Option String) → (tier : String) → (request reply : Json N)
      → Tables N
      → Bool × Tables N
  subscribe draw principal agent tier request reply t =
      if principal =s= ""
      then (false, t)
      else let sub : Subscription = record {
        subscription_id = draw.ulid;
        principal_did = principal;
        tier = if tier =s= "" then "free" else tier;
        status = "active";
        canceled_at = none;
      } in
        let report : Report N = record {
          type' = "subscription";
          principal_did = principal;
          agent_did = agent;
          action_id = none;
          input = request;
          output = reply;
          decision = none;
        } in
        let (_, after) =
          persist_receipt host draw report
            (record t { subscriptions = t.subscriptions ++ sub ∷ [] }) in
        (true, after)

-- UPDATE subscriptions SET status, canceled_at WHERE subscription_id = ?
unfoldable pub cancel_all : (id now : String) → List Subscription → List Subscription
cancel_all id now [] = []
cancel_all id now (s ∷ ss) =
    let rest = cancel_all id now ss in
    if s.subscription_id =s= id
    then record s { status = "canceled"; canceled_at = some now } ∷ rest
    else s ∷ rest

unfoldable pub has_subscription : String → List Subscription → Bool
has_subscription id [] = false
has_subscription id (s ∷ ss) =
    let rest = has_subscription id ss in if s.subscription_id =s= id then true else rest

-- DELETE /oap/subscribe/:id: whether there was such a subscription.
unfoldable pub cancel : {N : Type 0} → (id now : String) → Tables N → Bool × Tables N
cancel id now t = (
  has_subscription id t.subscriptions,
  record t { subscriptions = cancel_all id now t.subscriptions },
)

-- GET /oap/billing: the first active subscription of the principal.
unfoldable pub find_active : String → List Subscription → Option Subscription
find_active did [] = none
find_active did (s ∷ ss) =
    let rest = find_active did ss in
    if (s.principal_did =s= did) && (s.status =s= "active") then some s else rest

unfoldable pub billing : {N : Type 0} → String → Tables N → Option Subscription
billing principal t = if principal =s= "" then none else find_active principal t.subscriptions
