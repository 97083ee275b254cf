-- ===== src/Suite/Witnessing.antt =====
-- Witnesses that test-suite/attest.js adds to a receipt, before the verifier of
-- reference/agent/conformance-verifier.js.
use mathlib.Core.Path.{fun_ext}
use mathlib.Core.List.{append-nil, append_assoc}
use oap_spec.Prelude.{
  ℕ, ◌≤◌, String, true, false, Option, none, some, List, [], ◌∷◌, ◌++◌, map, ◌≡◌, ◌⊎◌, inl, inr,
  refl, ap, sym, ◌∙◌, ◌=s=◌, eq_refl, Bool-cases, length, length-map, All, lookup,
}
use oap_spec.Json.{
  Json, str, arr, obj, Items, nil, cons, Fields, end, field, entries, items, undefined, null, bool,
  num, canonicalize, without,
}
use oap_spec.Suite.Attest.{set_field}
use oap_spec.Conformance.{
  Web, Receipt, Witness, is_placeholder, resolve_key, verify_signature, has_passed, is_l4_plus,
  witness_payload, verify_peer_witnesses,
}
use oap_spec.Conformance.Witnesses.{Independent, IsValid, verify_peer_witnesses_iff}

-- Who runs --peer-witness: its key signs texts.
pub record Signer : Type 0 where
  pub did : String
  pub witness_receipt_uri : String
  pub now : String
  pub sign : String → String

abbrev append_item : {N : Type 0} → Items N → Json N → Items N
append_item nil v = cons v nil
append_item (cons w ws) v = cons w (append_item ws v)

-- `[...(candidate.peer_witnesses || []), witness]`, on a list or nothing.
unfoldable pub with_witness : {N : Type 0} → Option (Json N) → Json N → Json N
with_witness none w = arr (cons w nil)
with_witness (some (arr ws)) w = arr (append_item ws w)
with_witness (some _) w = arr (cons w nil)

module _ {N : Type 0} (stringify : Json N → String) where
  -- The signature of --peer-witness mode, over the receipt without its witnesses.
  unfoldable pub seal : Signer → Fields N → String
  seal g candidate = g.sign (canonicalize stringify (obj (without "peer_witnesses" candidate)))

  abbrev witness_json : Signer → String → Json N
  witness_json g signature = obj (
      field "witness_did" (str g.did) (
        field "witness_receipt_uri" (str g.witness_receipt_uri) (
          field "alg" (str "EdDSA")
            (field "signature" (str signature) (field "witnessed_at" (str g.now) end)))))

  -- The candidate that --peer-witness mode writes.
  unfoldable pub peer_witness : Signer → Fields N → Fields N
  peer_witness g candidate =
      set_field "peer_witnesses"
        (with_witness (lookup "peer_witnesses" (entries candidate))
          (witness_json g (seal g candidate)))
        candidate

  -- One after the other.
  unfoldable pub witnessed : List Signer → Fields N → Fields N
  witnessed [] candidate = candidate
  witnessed (g ∷ gs) candidate = witnessed gs (peer_witness g candidate)

  -- What the verifier reads of a witness that a signer has added to the candidate.
  abbrev pub read_witness : Fields N → Signer → Witness
  read_witness candidate g = record {
    witness_did = g.did;
    controller_org = "";
    signature = some (seal g candidate);
    witness_receipt_uri = g.witness_receipt_uri;
  }

  without-set_field :
      (k : String) (v : Json N) (fs : Fields N) → without k (set_field k v fs) ≡ without k fs
  unfolding without set_field
  without-set_field k v end = rw (eq_refl k) refl
  without-set_field k v (field j w fs) = elim (Bool-cases (j =s= k)) [
    | inl e ↦ rw e (rw e refl)
    | inr e ↦ rw e (rw e (ap (λ r. field j w r) (without-set_field k v fs)))
  ]

  -- Every witness signs the same text.
  without-witnessed :
      (gs : List Signer) (candidate : Fields N)
      → without "peer_witnesses" (witnessed gs candidate) ≡ without "peer_witnesses" candidate
  unfolding witnessed peer_witness
  without-witnessed [] candidate = refl
  without-witnessed (g ∷ gs) candidate =
      without-witnessed gs (peer_witness g candidate)
      ∙ without-set_field "peer_witnesses" _ candidate

-- A text of an entry, or "".
abbrev text_at : {N : Type 0} → String → Fields N → String
text_at k fs = elim (lookup k (entries fs)) as (λ _. String) [ some (str s) ↦ s | _ ↦ "" ]

abbrev given_text : {N : Type 0} → Option (Json N) → Option String
given_text (some (str s)) = some s
given_text _ = none

-- An entry of `peer_witnesses`, as the verifier reads it.
abbrev pub read_item : {N : Type 0} → Json N → Witness
read_item (obj fs) = record {
  witness_did = text_at "witness_did" fs;
  controller_org = text_at "controller_org" fs;
  signature = given_text (lookup "signature" (entries fs));
  witness_receipt_uri = text_at "witness_receipt_uri" fs;
}
read_item _ = record {
  witness_did = "";
  controller_org = "";
  signature = none;
  witness_receipt_uri = "";
}

abbrev read_list : {N : Type 0} → Option (Json N) → List Witness
read_list (some (arr ws)) = map read_item (items ws)
read_list _ = []

-- The witnesses of a receipt.
abbrev pub read_witnesses : {N : Type 0} → Fields N → List Witness
read_witnesses fs = read_list (lookup "peer_witnesses" (entries fs))

-- There is no entry, or it is a list.
abbrev pub IsList : {N : Type 0} → Option (Json N) → Type 0
IsList o = (o ≡ none) ⊎ ((ws : Items _) × (o ≡ some (arr ws)))

module _ {N : Type 0} where
  items-append :
      (ws : Items N) (v : Json N)
      → map read_item (items (append_item ws v)) ≡ map read_item (items ws) ++ read_item v ∷ []
  items-append nil v = refl
  items-append (cons w ws) v = ap (λ l. read_item w ∷ l) (items-append ws v)

  read_list-with_witness :
      (o : Option (Json N)) (w : Json N)
      → IsList o
      → read_list (some (with_witness o w)) ≡ read_list o ++ read_item w ∷ []
  unfolding with_witness
  read_list-with_witness o w (inl e) = rw e refl
  read_list-with_witness o w (inr (ws, e)) = rw e (items-append ws w)

  with_witness-IsList : (o : Option (Json N)) (w : Json N) → IsList (some (with_witness o w))
  unfolding with_witness
  with_witness-IsList none w = inr (cons w nil, refl)
  with_witness-IsList (some (arr ws)) w = inr (append_item ws w, refl)
  with_witness-IsList (some undefined) w = inr (cons w nil, refl)
  with_witness-IsList (some null) w = inr (cons w nil, refl)
  with_witness-IsList (some (bool b)) w = inr (cons w nil, refl)
  with_witness-IsList (some (num n)) w = inr (cons w nil, refl)
  with_witness-IsList (some (str t)) w = inr (cons w nil, refl)
  with_witness-IsList (some (obj fs)) w = inr (cons w nil, refl)

  lookup-set_field :
      (k : String) (v : Json N) (fs : Fields N) → lookup k (entries (set_field k v fs)) ≡ some v
  unfolding set_field
  lookup-set_field k v end = rw (eq_refl k) refl
  lookup-set_field k v (field j w fs) = elim (Bool-cases (j =s= k)) [
    | inl e ↦ rw e (rw e refl)
    | inr e ↦ rw e (rw e (lookup-set_field k v fs))
  ]

module _ {N : Type 0} (stringify : Json N → String) where
  read_witnesses-peer_witness :
      (g : Signer) (candidate : Fields N)
      → IsList (lookup "peer_witnesses" (entries candidate))
      → read_witnesses (peer_witness stringify g candidate)
        ≡ read_witnesses candidate ++ read_witness stringify candidate g ∷ []
  unfolding peer_witness
  read_witnesses-peer_witness g candidate h =
      rw (lookup-set_field "peer_witnesses" _ candidate) (read_list-with_witness _ _ h)

  peer_witness-IsList :
      (g : Signer) (candidate : Fields N)
      → IsList (lookup "peer_witnesses" (entries (peer_witness stringify g candidate)))
  unfolding peer_witness
  peer_witness-IsList g candidate =
      rw (lookup-set_field "peer_witnesses" _ candidate) (with_witness-IsList _ _)

  -- The signatures do not depend on the witnesses before.
  seal-peer_witness :
      (g h : Signer) (candidate : Fields N)
      → seal stringify h (peer_witness stringify g candidate) ≡ seal stringify h candidate
  unfolding seal peer_witness
  seal-peer_witness g h candidate =
      ap (λ fs. h.sign (canonicalize stringify (obj fs)))
        (without-set_field stringify "peer_witnesses" _ candidate)

  read_witness-peer_witness :
      (g h : Signer) (candidate : Fields N)
      → read_witness stringify (peer_witness stringify g candidate) h
        ≡ read_witness stringify candidate h
  read_witness-peer_witness g h candidate =
      ap
        (λ s. record {
          witness_did = h.did;
          controller_org = "";
          signature = some s;
          witness_receipt_uri = h.witness_receipt_uri;
        })
        (seal-peer_witness g h candidate)

  read_witnesses-witnessed :
      (gs : List Signer) (candidate : Fields N)
      → IsList (lookup "peer_witnesses" (entries candidate))
      → read_witnesses (witnessed stringify gs candidate)
        ≡ read_witnesses candidate ++ map (read_witness stringify candidate) gs
  unfolding witnessed
  read_witnesses-witnessed [] candidate h = sym (append-nil _)
  read_witnesses-witnessed (g ∷ gs) candidate h =
      read_witnesses-witnessed gs (peer_witness stringify g candidate)
        (peer_witness-IsList g candidate)
      ∙ rw
          (
            read_witnesses-peer_witness g candidate h,
            fun_ext (λ k. read_witness-peer_witness g k candidate),
          )
          (append_assoc (read_witnesses candidate) (read_witness stringify candidate g ∷ []) _)

module _ {N K : Type 0} (web : Web N K) where
  -- The signer's key is that of its DID document, its signatures verify and are no placeholder, and
  -- its own receipt is current and claims L4 or L5.
  pub record IsSigner (g : Signer) : Type 0 where
    pub key : K
    pub resolved : resolve_key web g.did ≡ some key
    pub verifies : (payload : String) → verify_signature web payload (g.sign payload) key ≡ true
    pub real : (payload : String) → is_placeholder (some (g.sign payload)) ≡ false
    pub receipt : Receipt N
    pub fetched : web.fetch_receipt g.witness_receipt_uri ≡ some receipt
    pub dated : (receipt.not_after =s= "") ≡ false
    pub current : has_passed web receipt.not_after ≡ false
    pub level : is_l4_plus receipt.claimed_levels ≡ true

  read_witness-IsValid :
      (candidate : Fields N) (g : Signer)
      → IsSigner g
      → IsValid web
          (canonicalize web.stringify (obj (without "peer_witnesses" candidate)))
          (read_witness web.stringify candidate g)
  unfolding seal
  read_witness-IsValid candidate g s = record {
    value = seal web.stringify g candidate;
    signature = refl;
    real = s.real _;
    key = s.key;
    resolved = s.resolved;
    verified = s.verifies _;
    own = inr (record {
      receipt = s.receipt;
      fetched = s.fetched;
      dated = s.dated;
      current = s.current;
      level = s.level;
    });
  }

  read_witnesses-IsValid :
      (candidate : Fields N) (payload : String) (gs : List Signer)
      → payload ≡ canonicalize web.stringify (obj (without "peer_witnesses" candidate))
      → All IsSigner gs
      → All (IsValid web payload) (map (read_witness web.stringify candidate) gs)
  read_witnesses-IsValid candidate payload [] e h = tt
  read_witnesses-IsValid candidate payload (g ∷ gs) e h = (
    rw e (read_witness-IsValid candidate g h.0),
    read_witnesses-IsValid candidate payload gs e h.1,
  )

  -- A receipt that had no witness and to which signers have added theirs, one after the other, as many as
  -- required, passes the verifier's check of witnesses, if no two of them have one organisation, or DID
  -- where none is given, and each has a key that its DID document gives and a current receipt of L4 or L5.
  pub verify_peer_witnesses-witnessed :
      (r : Receipt N) (required : ℕ) (gs : List Signer) (candidate : Fields N)
      → lookup "peer_witnesses" (entries candidate) ≡ none
      → r.fields ≡ witnessed web.stringify gs candidate
      → r.peer_witnesses ≡ read_witnesses r.fields
      → required ≤ length gs
      → Independent [] (map (read_witness web.stringify candidate) gs)
      → All IsSigner gs
      → verify_peer_witnesses web r required ≡ none
  unfolding witness_payload
  verify_peer_witnesses-witnessed r required gs candidate fresh made read enough independent
        signers =
      let listed : r.peer_witnesses ≡ map (read_witness web.stringify candidate) gs =
        read
        ∙ ap read_witnesses made
        ∙ read_witnesses-witnessed web.stringify gs candidate (inl fresh)
        ∙ rw fresh refl in
      let payload : witness_payload web r
          ≡ canonicalize web.stringify (obj (without "peer_witnesses" candidate)) =
        ap (λ fs. canonicalize web.stringify (obj (without "peer_witnesses" fs))) made
        ∙ ap (λ fs. canonicalize web.stringify (obj fs))
            (without-witnessed web.stringify gs candidate) in
      (verify_peer_witnesses_iff web r required).1 (record {
        enough = rw (listed, length-map) enough;
        independent = rw listed independent;
        valid = rw listed (read_witnesses-IsValid candidate _ gs payload signers);
      })
