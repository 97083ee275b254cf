-- ===== src/Server/Handling.antt =====
-- What POST /oap/invoke does to the tables (reference/server/server.js).
use oap_spec.Prelude.{
  ℕ, String, true, false, not, ◌&&◌, ◌≢◌, ◌+s◌, none, some, List, [], ◌∷◌, ◌++◌, ◌≡◌, refl, arith,
  ◌=s=◌, Bool-cases, Option-cases, ◌⊎◌, inl, inr, All,
}
use mathlib.Core.Path.{subst}
use oap_spec.Json.{Json, str, obj, end, field}
use oap_spec.Server.{Note, Tables, Host, Draw}
use oap_spec.Server.RateLimit.{Bucket, Call, Answer, admitted, retry_after_seconds, check_rpm}
use oap_spec.Server.Receipts.{Report, make_receipt, persist_receipt}
use oap_spec.Server.Invoke.{
  Action, Envelope, Input, Dids, texts, unbound, unshown, is_bound, is_unshown, returned, thrown,
  Response, refused, failed, succeeded, crashed, actions, find_in, find_action, is_bearer, or_blank,
  is_complete, dispatch, perform, limited, invoke,
}

Answer-cases : (a : Answer) → (a ≡ admitted) ⊎ ((s : ℕ) × (a ≡ retry_after_seconds s))
Answer-cases admitted = inl refl
Answer-cases (retry_after_seconds s) = inr (s, refl)

module _ (P : Action → Type 0) where
  -- What holds of every listed action holds of one that is found.
  find_action-All : All P actions → (id : String) (a : Action) → find_action id ≡ some a → P a
  unfolding find_action find_in actions
  find_action-All h id a e = go actions h e
    where
      go : (as' : List Action) → All P as' → find_in id as' ≡ some a → P a
      go [] h e = cc
      go (b ∷ bs) h e = elim (Bool-cases (b.id =s= id)) [
        | inl t ↦ subst P (ground (arith, t, e)) h.0
        | inr f ↦ go bs h.1 (ground (arith, f, e))
      ]

module _ {N : Type 0} (host : Host N) (draw : Draw) where
  -- `String` throws on a value that the handler reads of the input.
  abbrev pub IsUnreadable : Input N → Type 0
  IsUnreadable input = (input.value ≡ none) ⊎ (input.content ≡ none)

  -- The action has a handler, which throws only at an unreadable input and then leaves the notes alone;
  -- so does one that is no write.
  abbrev IsHandled : Input N → String → List (String × Note) → Action → Type 0
  IsHandled input principal notes a =
      (((out : Json N) × ((dispatch host draw a.id input principal notes).0 ≡ returned out))
        ⊎ (((dispatch host draw a.id input principal notes).0 ≡ thrown 500 "internal")
            × ((dispatch host draw a.id input principal notes).1 ≡ notes)
            × IsUnreadable input))
      × (a.writes ≡ false → (dispatch host draw a.id input principal notes).1 ≡ notes)

  actions-IsHandled :
      (input : Input N) (principal : String) (notes : List (String × Note))
      → All (IsHandled input principal notes) actions
  unfolding actions dispatch
  actions-IsHandled input principal notes = (
    (inl (_, refl), λ _. refl),
    (
      (
        elim (Option-cases input.value) [
          | inl e ↦ inr (ground (arith, e), refl, inl e)
          | inr (v, e) ↦ inl (
            obj (
                field "algorithm" (str "sha256")
                  (field "digest_hex" (str (host.sha256_hex v)) end)),
            ground (arith, e),
          )
        ],
        λ _. refl,
      ),
      (
        (
          elim (Option-cases input.content) [
            | inl e ↦ inr (ground (arith, e), ground (arith, e), inr e)
            | inr (v, e) ↦
                inl (obj (field "note_id" (str ("note_" +s draw.ulid)) end), ground (arith, e))
          ],
          λ f. cc,
        ),
        ((inl (_, refl), λ _. refl), tt),
      ),
    ),
  )

  -- Nothing but the buckets of the rate limiter is changed.
  pub record IsKept (t u : Tables N) : Type 0 where
    pub receipts : u.receipts ≡ t.receipts
    pub chain_tip : u.chain_tip ≡ t.chain_tip
    pub notes : u.notes ≡ t.notes
    pub subscriptions : u.subscriptions ≡ t.subscriptions
    pub incidents : u.incidents ≡ t.incidents
    pub admissions : u.admissions ≡ t.admissions

  pub IsKept-refl : (t : Tables N) → IsKept t t
  IsKept-refl t = record {
    receipts = refl;
    chain_tip = refl;
    notes = refl;
    subscriptions = refl;
    incidents = refl;
    admissions = refl;
  }

  -- The answer tells of a receipt of a type, which is the only one added; the notes become `ns`.
  pub record Persists (kind : String) (reply : String → String → Response N)
      (ns : List (String × Note)) (t : Tables N) (r : Response N × Tables N) : Type 0 where
    pub report : Report N
    pub kind_of : report.type' ≡ kind
    pub response :
        r.0
        ≡ reply
            (make_receipt host draw report t.chain_tip).receipt_id
            (make_receipt host draw report t.chain_tip).self_hash
    pub receipts : r.1.receipts ≡ t.receipts ++ make_receipt host draw report t.chain_tip ∷ []
    pub chain_tip : r.1.chain_tip ≡ (make_receipt host draw report t.chain_tip).self_hash
    pub notes : r.1.notes ≡ ns
    pub subscriptions : r.1.subscriptions ≡ t.subscriptions

  abbrev pub IsRefusal : Response N → Type 0
  IsRefusal (refused s e) = Unit
  IsRefusal (failed s e r) = ⊥
  IsRefusal (succeeded o r h) = ⊥
  IsRefusal crashed = ⊥

  abbrev pub fails : String → String → Response N
  fails id hash = failed 500 "internal" id

  -- A call is refused and changes nothing that is kept; or it persists its receipt, and the notes are as
  -- before, or there was a bearer token; or it fails at an unreadable input, persists the receipt of
  -- the failure and leaves the notes; or it crashes at a DID that is no text, leaves receipts and tip,
  -- and the notes are as before, or there was a bearer token.
  abbrev pub Effect : String → Input N → Tables N → Response N × Tables N → Type 0
  Effect auth input t r =
      (IsRefusal r.0 × IsKept t r.1)
      ⊎ (((out : Json N) × (ns : List (String × Note)) × Persists "invocation" (succeeded out) ns t
              r
            × (input.dids ≡ texts)
            × ((is_bearer auth ≡ true) ⊎ (ns ≡ t.notes)))
          ⊎ ((Persists "invocation_error" fails t.notes t r
                × (input.dids ≡ texts)
                × IsUnreadable input)
              ⊎ ((r.0 ≡ crashed)
                  × (r.1.receipts ≡ t.receipts)
                  × (r.1.chain_tip ≡ t.chain_tip)
                  × (input.dids ≢ texts)
                  × ((is_bearer auth ≡ true) ⊎ (r.1.notes ≡ t.notes)))))

  Dids-cases :
      (d : Dids) → ((is_bound d ≡ true) × (d ≡ texts)) ⊎ ((is_bound d ≡ false) × (d ≢ texts))
  Dids-cases texts = inl (refl, refl)
  Dids-cases unbound = inr (refl, λ e. cc e)
  Dids-cases unshown = inr (refl, λ e. cc e)

  unshown-ne-texts : (d : Dids) → is_unshown d ≡ true → d ≢ texts
  unshown-ne-texts texts h = cc h
  unshown-ne-texts unbound h = cc h
  unshown-ne-texts unshown h = λ e. cc e

  perform-Effect :
      (auth : String) (a : Action) (principal agent : String) (input : Input N) (t : Tables N)
      → IsHandled input principal t.notes a
      → ((is_bearer auth ≡ true) ⊎ (a.writes ≡ false))
      → Effect auth input t (perform host draw a principal agent input t)
  unfolding perform persist_receipt
  perform-Effect auth a principal agent input t h w =
      let kept : (is_bearer auth ≡ true)
          ⊎ ((dispatch host draw a.id input principal t.notes).1 ≡ t.notes) =
        elim w [ inl y ↦ inl y | inr n ↦ inr (h.1 n) ] in
      elim (Dids-cases input.dids) [
        | inr (unbound_did, no_texts) ↦
            rw (unbound_did, perform) (inr (inr (inr (refl, refl, refl, no_texts, kept))))
        | inl (bound, as_texts) ↦ elim (h.0) [
          | inl (out, e) ↦
              rw (bound, e, perform)
                (inr (
                  inl (
                    out,
                    _,
                    record {
                      report = _;
                      kind_of = refl;
                      response = refl;
                      receipts = refl;
                      chain_tip = refl;
                      notes = refl;
                      subscriptions = refl;
                    },
                    as_texts,
                    kept,
                  )))
          | inr (e, same, unreadable) ↦
              rw (bound, e, perform)
                (inr (
                  inr (
                    inl (
                      record {
                        report = _;
                        kind_of = refl;
                        response = refl;
                        receipts = refl;
                        chain_tip = refl;
                        notes = same;
                        subscriptions = refl;
                      },
                      as_texts,
                      unreadable,
                    ))))
        ]
      ]

  Persists-limited :
      (b : List Bucket) (kind : String) (reply : String → String → Response N)
      (ns : List (String × Note)) (t : Tables N) (r : Response N × Tables N)
      → Persists kind reply ns (record t { rate_buckets = b }) r
      → Persists kind reply ns t r
  Persists-limited b kind reply ns t r h = record {
    report = h.report;
    kind_of = h.kind_of;
    response = h.response;
    receipts = h.receipts;
    chain_tip = h.chain_tip;
    notes = h.notes;
    subscriptions = h.subscriptions;
  }

  Effect-limited :
      (b : List Bucket) (auth : String) (input : Input N) (t : Tables N) (r : Response N × Tables N)
      → Effect auth input (record t { rate_buckets = b }) r
      → Effect auth input t r
  Effect-limited b auth input t r (inl (refusal, k)) = inl (
    refusal,
    record {
      receipts = k.receipts;
      chain_tip = k.chain_tip;
      notes = k.notes;
      subscriptions = k.subscriptions;
      incidents = k.incidents;
      admissions = k.admissions;
    },
  )
  Effect-limited b auth input t r (inr (inl (out, ns, p, bound, kept))) =
      inr (inl (out, ns, Persists-limited b _ _ ns t r p, bound, kept))
  Effect-limited b auth input t r (inr (inr (inl (p, bound, unreadable)))) =
      inr (inr (inl (Persists-limited b _ _ _ t r p, bound, unreadable)))
  Effect-limited b auth input t r (inr (inr (inr rest))) = inr (inr (inr rest))

  limited-Effect :
      (call : Call) (auth : String) (a : Action) (principal agent : String) (input : Input N)
      (t : Tables N)
      → IsHandled input principal t.notes a
      → (a.writes && not (is_bearer auth)) ≡ false
      → Effect auth input t (limited host draw call a principal agent input t)
  unfolding limited
  limited-Effect call auth a principal agent input t h w =
      let buckets = (check_rpm host.show a.rpm principal a.id call t.rate_buckets).1 in
      let allowed : (is_bearer auth ≡ true) ⊎ (a.writes ≡ false) = elim (Bool-cases a.writes) [
        | inl y ↦ inl (ground (arith, y, w))
        | inr n ↦ inr n
      ] in
      elim (Answer-cases (check_rpm host.show a.rpm principal a.id call t.rate_buckets).0) [
        | inl e ↦
            rw (e, limited)
              (Effect-limited buckets auth input t _
                (perform-Effect auth a principal agent input _ h allowed))
        | inr (s, e) ↦
            rw (e, limited)
              (inl (
                tt,
                record {
                  receipts = refl;
                  chain_tip = refl;
                  notes = refl;
                  subscriptions = refl;
                  incidents = refl;
                  admissions = refl;
                },
              ))
      ]

  pub invoke-Effect :
      (call : Call) (auth : String) (e : Envelope N) (input : Input N) (t : Tables N)
      → Effect auth input t (invoke host draw call auth e input t)
  unfolding invoke
  invoke-Effect call auth e input t = elim (Bool-cases (is_complete host e)) [
    | inr n ↦ rw (n, invoke) (inl (tt, IsKept-refl t))
    | inl c ↦ elim (Bool-cases (or_blank host e.oap_version =s= "1.0")) [
      | inr n ↦ rw (c, n, invoke) (inl (tt, IsKept-refl t))
      | inl v ↦ elim (Option-cases (find_action (or_blank host e.action))) [
        | inl n ↦ rw (c, v, n, invoke) (inl (tt, IsKept-refl t))
        | inr (a, f) ↦ elim (Bool-cases (a.writes && not (is_bearer auth))) [
          | inl n ↦ rw (c, v, f, n, invoke) (inl (tt, IsKept-refl t))
          | inr w ↦ elim (Bool-cases (is_unshown input.dids)) [
            | inl u ↦
                rw (c, v, f, w, u, invoke)
                  (inr (inr (inr (refl, refl, refl, unshown-ne-texts input.dids u, inr refl))))
            | inr u ↦
                rw (c, v, f, w, u, invoke)
                  (limited-Effect call auth a (or_blank host e.principal_did)
                    (or_blank host e.agent_did) input t
                    (find_action-All (IsHandled input (or_blank host e.principal_did) t.notes)
                      (actions-IsHandled input (or_blank host e.principal_did) t.notes)
                      (or_blank host e.action) a f)
                    w)
          ]
        ]
      ]
    ]
  ]
