-- ===== src/Conformance.antt =====
-- The conformance verifier of reference/agent/conformance-verifier.js: what it reads, and its checks
-- of keys, witnesses and the registry. A check gives the fault it finds, or none. `K` is the type of
-- public keys, and `Web` what is fetched, parsed and computed by others.
pub mod Verdict
pub mod Witnesses
pub mod Acceptance
use oap_spec.Prelude.{
  ℕ, String, Bool, true, false, not, ◌&&◌, ◌||◌, Option, none, some, List, [], ◌∷◌, ◌==◌, ◌=s=◌,
  ◌+s◌, ltb, length, any, strip_prefix, starts_with, join, split_on, if◌then◌else◌,
}
use oap_spec.Json.{Json, obj, Fields, canonicalize, without}

-- An entry of `verificationMethod`. `key` is what `createPublicKey` makes of its JWK; none if it throws.
pub record Method (K : Type 0) : Type 0 where
  pub type' : String
  pub has_multibase : Bool
  pub crv : Option String  -- none if there is no publicKeyJwk
  pub key : Option K

-- An entry of `peer_witnesses`; a text that is missing or empty is "", a signature that is no text none.
pub record Witness : Type 0 where
  pub witness_did : String
  pub controller_org : String
  pub signature : Option String
  pub witness_receipt_uri : String

pub record Anchor : Type 0 where
  pub repo_url : String
  pub commit_sha : String
  pub file_path : String

pub record Signature : Type 0 where
  pub alg : String
  pub value : Option String

-- A conformance receipt: its entries, and what the verifier reads of them.
pub record Receipt (N : Type 0) : Type 0 where
  pub fields : Fields N
  pub suite_version : Option String
  pub not_after : String
  pub signatures : List Signature
  pub implementation_did : String
  pub claimed_levels : List String
  pub peer_witnesses : List Witness
  pub registry_anchor : Option Anchor

pub record Web (N K : Type 0) : Type 0 where
  pub fetch_did_document : String → Option (List (Method K))  -- none if the request fails
  pub fetch_receipt : String → Option (Receipt N)
  pub fetch_manifest : String → Option String  -- its receipt_uri
  pub fetch_text : String → Option String
  pub parse_listing : String → Option (Option String)
  pub check : String → String → K → Option Bool  -- crypto.verify; none if it throws
  pub date : String → Option ℕ
  pub now : ℕ
  pub stringify : Json N → String
  pub sha256_hex : String → String

pub data Fault : Type 0 where
  too_few_witnesses : Fault
  not_independent : String → Fault
  placeholder_signature : String → Fault
  unresolved_witness : String → Fault
  invalid_witness_signature : String → Fault
  expired_witness : String → Fault
  witness_below_l4 : String → Fault
  unfetched_witness_receipt : String → Fault
  no_anchor : Fault
  not_canonical_registry : String → Fault
  unfetched_registry_file : Fault
  invalid_listing : Fault
  listing_mismatch : Fault

-- `isPlaceholder`
unfoldable pub is_placeholder : Option String → Bool
is_placeholder none = true
is_placeholder (some s) =
    starts_with "PLACEHOLDER_NOT_FOR_PRODUCTION" s
    || starts_with "unsigned-reference" s
    || starts_with "placeholder:" s

-- `.replace(/:/g, '/')`
abbrev slashes : String → String
slashes s = join "/" (split_on b':' s)

-- The first usable key of a DID document.
unfoldable pub first_key : {K : Type 0} → List (Method K) → Option K
first_key [] = none
first_key (m ∷ ms) =
    let later = first_key ms in
    if (m.type' =s= "Ed25519VerificationKey2020") && m.has_multibase
    then later
    else if (m.type' =s= "JsonWebKey2020")
        && elim m.crv as (λ _. Bool) [ none ↦ false | some c ↦ c =s= "Ed25519" ]
    then elim m.key [ none ↦ later | some k ↦ some k ]
    else later

abbrev pub canonical_registry_url : String
canonical_registry_url = "https://github.com/openagentprotocol-OAP/oap-registry"

-- The levels L4 and L5 of a claim.
abbrev pub is_l4_plus : List String → Bool
is_l4_plus levels = any (λ l. starts_with "L4" l || starts_with "L5" l) levels

abbrev pub claims : String → List String → Bool
claims level levels = any (λ l. starts_with level l) levels

-- `w.controller_org || w.witness_did`
abbrev pub org_of : Witness → String
org_of w = if w.controller_org =s= "" then w.witness_did else w.controller_org

-- The loop with the set `orgs`.
unfoldable pub check_independent : (orgs : List String) → List Witness → Option Fault
check_independent orgs [] = none
check_independent orgs (w ∷ ws) =
    let later = check_independent (org_of w ∷ orgs) ws in
    if any (λ o. o =s= org_of w) orgs then some (not_independent (org_of w)) else later

module _ {N K : Type 0} (web : Web N K) where
  -- `resolveEd25519Key`
  unfoldable pub resolve_key : String → Option K
  resolve_key did = elim (strip_prefix "did:web:" did) [
    | none ↦ none
    | some host ↦
        elim (web.fetch_did_document ("https://" +s slashes host +s "/.well-known/did.json")) [
          | none ↦ none
          | some methods ↦ first_key methods
        ]
  ]

  -- `verifyEd25519Signature`, with a key
  unfoldable pub verify_signature : (payload value : String) → K → Bool
  verify_signature payload value key = elim (web.check payload value key) [
    | none ↦ false
    | some b ↦ b
  ]

  -- A text that is no date is before no time.
  abbrev pub has_passed : String → Bool
  has_passed s = elim (web.date s) as (λ _. Bool) [ none ↦ false | some d ↦ ltb d web.now ]

  unfoldable pub check_own_receipt : Witness → Option Fault
  check_own_receipt w =
      if w.witness_receipt_uri =s= ""
      then none
      else elim (web.fetch_receipt w.witness_receipt_uri) [
        | none ↦ some (unfetched_witness_receipt w.witness_did)
        | some r ↦
            if (r.not_after =s= "") || has_passed r.not_after
            then some (expired_witness w.witness_did)
            else if is_l4_plus r.claimed_levels
            then none
            else some (witness_below_l4 w.witness_did)
      ]

  unfoldable pub check_witness : (payload : String) → Witness → Option Fault
  check_witness payload w = elim w.signature [
    | none ↦ some (placeholder_signature w.witness_did)
    | some value ↦
        if is_placeholder (some value)
        then some (placeholder_signature w.witness_did)
        else elim (resolve_key w.witness_did) [
          | none ↦ some (unresolved_witness w.witness_did)
          | some key ↦
              if verify_signature payload value key
              then check_own_receipt w
              else some (invalid_witness_signature w.witness_did)
        ]
  ]

  unfoldable pub check_witnesses : (payload : String) → List Witness → Option Fault
  check_witnesses payload [] = none
  check_witnesses payload (w ∷ ws) = elim (check_witness payload w) [
    | some fault ↦ some fault
    | none ↦ check_witnesses payload ws
  ]

  -- What a witness signs: the receipt without `peer_witnesses`.
  unfoldable pub witness_payload : Receipt N → String
  witness_payload r = canonicalize web.stringify (obj (without "peer_witnesses" r.fields))

  unfoldable pub verify_peer_witnesses : Receipt N → ℕ → Option Fault
  verify_peer_witnesses r required =
      if ltb (length r.peer_witnesses) required
      then some too_few_witnesses
      else elim (check_independent [] r.peer_witnesses) [
        | some fault ↦ some fault
        | none ↦ check_witnesses (witness_payload r) r.peer_witnesses
      ]

  -- `verifyRegistryAnchor`; a listing is an object, and a hash that is missing or empty is none.
  unfoldable pub verify_registry_anchor : Receipt N → Option Fault
  verify_registry_anchor r = elim r.registry_anchor [
    | none ↦ some no_anchor
    | some anchor ↦
        if not (anchor.repo_url =s= canonical_registry_url)
        then some (not_canonical_registry anchor.repo_url)
        else elim (web.fetch_text (
            "https://raw.githubusercontent.com/openagentprotocol-OAP/oap-registry/"
            +s anchor.commit_sha +s "/" +s anchor.file_path)) [
              | none ↦ some unfetched_registry_file
              | some body ↦ elim (web.parse_listing body) [
                | none ↦ some invalid_listing
                | some none ↦ none
                | some (some hash) ↦
                    if hash =s= web.sha256_hex (web.stringify (obj r.fields))
                    then none
                    else some listing_mismatch
              ]
            ]
  ]
