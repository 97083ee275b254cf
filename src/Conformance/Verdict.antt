-- ===== src/Conformance/Verdict.antt =====
-- `verifyConformance` (reference/agent/conformance-verifier.js). The steps of a report are told by
-- their names and outcomes.
use oap_spec.Prelude.{
  ℕ, ◌+◌, String, Bool, true, false, not, ◌&&◌, ◌||◌, Option, none, some, List, [], ◌∷◌, ◌++◌,
  ◌=s=◌, ◌+s◌, ◌==◌, ltb, any, last_is, drop_last, if◌then◌else◌,
}
use oap_spec.Json.{obj, canonicalize, without}
use oap_spec.Conformance.{
  Web, Receipt, Signature, Fault, is_placeholder, resolve_key, verify_signature, has_passed, claims,
  verify_peer_witnesses, verify_registry_anchor,
}

pub data Step : Type 0 where
  manifest receipt_discovery receipt_fetch schema suite_trust validity signature peer_witnesses
        registry_anchor reverify :
      Bool → Step
  reverify_failed : Step  -- 'reverify-' and the file, whose run threw

pub data Reason : Type 0 where
  manifest_unreachable no_receipt_uri receipt_not_retrievable schema_failed suite_not_trusted
        receipt_expired :
      Reason
  no_signatures placeholder_signature key_not_resolved signature_not_verified live_failures : Reason
  witness_fault anchor_fault : Fault → Reason

pub record Report : Type 0 where
  pub steps : List Step
  pub accepted : Bool
  pub accepted_levels : List String
  pub reasons : List Reason

-- `ajv_validate` is none if no validator is given. `runs` are the outcomes of the sample tests: how
-- many passed, of how many; none if the run threw.
pub record Options (N : Type 0) : Type 0 where
  pub trusted_suite_versions : List String
  pub reverify : Bool
  pub ajv_validate : Option (Receipt N → Bool)
  pub runs : List (Option (ℕ × ℕ))

abbrev pub reject : List Step → Reason → Report
reject steps reason = record {
  steps = steps;
  accepted = false;
  accepted_levels = [];
  reasons = reason ∷ [];
}

-- The loop over the sample tests: its sums, and the steps of the runs that threw.
unfoldable pub observed_passes : List (Option (ℕ × ℕ)) → ℕ
observed_passes [] = 0
observed_passes (none ∷ runs) = observed_passes runs
observed_passes (some (passes, total) ∷ runs) = passes + observed_passes runs

unfoldable pub observed_total : List (Option (ℕ × ℕ)) → ℕ
observed_total [] = 0
observed_total (none ∷ runs) = observed_total runs
observed_total (some (passes, total) ∷ runs) = total + observed_total runs

unfoldable pub failed_runs : List (Option (ℕ × ℕ)) → List Step
failed_runs [] = []
failed_runs (none ∷ runs) = reverify_failed ∷ failed_runs runs
failed_runs (some _ ∷ runs) = failed_runs runs

-- Some signature is a placeholder.
abbrev pub has_placeholder : List Signature → Bool
has_placeholder signatures = any (λ s. is_placeholder s.value) signatures

abbrev pub trusts : Option String → List String → Bool
trusts none versions = false
trusts (some v) versions = any (λ t. t =s= v) versions

module _ {N K : Type 0} (web : Web N K) (options : Options N) where
  -- The sample tests found failures.
  abbrev pub has_failures : Bool
  has_failures =
      ltb 0 (observed_total options.runs)
      && ltb (observed_passes options.runs) (observed_total options.runs)

  abbrev accept : List Step → Receipt N → Report
  accept steps r = record {
    steps = steps;
    accepted = true;
    accepted_levels = r.claimed_levels;
    reasons = [];
  }

  -- The steps of the sample tests.
  abbrev live_steps : List Step
  live_steps =
      failed_runs options.runs
      ++ reverify (
          (observed_total options.runs == 0)
          || (observed_passes options.runs == observed_total options.runs))
        ∷ []

  -- The end of a verification: the sample tests, and acceptance.
  unfoldable pub verify_live : List Step → Receipt N → Report
  verify_live steps r =
      if not options.reverify
      then accept steps r
      else if has_failures
      then reject (steps ++ live_steps) live_failures
      else accept (steps ++ live_steps) r

  -- The checks of a claim of L4 or L5.
  unfoldable pub verify_claims : List Step → Receipt N → Report
  verify_claims steps r =
      if claims "L5" r.claimed_levels || claims "L4" r.claimed_levels
      then elim (verify_peer_witnesses web r (if claims "L5" r.claimed_levels then 3 else 1)) [
        | some fault ↦ reject (steps ++ peer_witnesses false ∷ []) (witness_fault fault)
        | none ↦ elim (verify_registry_anchor web r) [
          | some fault ↦
              reject (steps ++ peer_witnesses true ∷ registry_anchor false ∷ [])
                (anchor_fault fault)
          | none ↦ verify_live (steps ++ peer_witnesses true ∷ registry_anchor true ∷ []) r
        ]
      ]
      else verify_live steps r

  -- What the implementation signs: the receipt without signatures and witnesses.
  unfoldable pub signed_payload : Receipt N → String
  signed_payload r =
      canonicalize web.stringify (obj (without "peer_witnesses" (without "signatures" r.fields)))

  abbrev pub signs : (payload : String) → K → Signature → Bool
  signs payload key s =
      (s.alg =s= "EdDSA")
      && elim s.value as (λ _. Bool) [ none ↦ false | some v ↦ verify_signature web payload v key ]

  unfoldable pub verify_signatures : List Step → Receipt N → Report
  verify_signatures steps r = elim r.signatures [
    | [] ↦ reject steps no_signatures
    | s ∷ ss ↦
        if has_placeholder (s ∷ ss)
        then reject (steps ++ signature false ∷ []) placeholder_signature
        else elim (resolve_key web r.implementation_did) [
          | none ↦ reject (steps ++ signature false ∷ []) key_not_resolved
          | some key ↦
              if any (signs (signed_payload r) key) (s ∷ ss)
              then verify_claims (steps ++ signature true ∷ []) r
              else reject (steps ++ signature false ∷ []) signature_not_verified
        ]
  ]

  abbrev pub fits_schema : Receipt N → Bool
  fits_schema r = elim options.ajv_validate as (λ _. Bool) [
    | none ↦ true
    | some validate ↦ validate r
  ]

  unfoldable pub verify_receipt : List Step → Receipt N → Report
  verify_receipt steps r =
      if not (fits_schema r)
      then reject (steps ++ schema false ∷ []) schema_failed
      else if not (trusts r.suite_version options.trusted_suite_versions)
      then reject (steps ++ suite_trust false ∷ []) suite_not_trusted
      else if not (r.not_after =s= "") && has_passed web r.not_after
      then reject (steps ++ suite_trust true ∷ validity false ∷ []) receipt_expired
      else verify_signatures (steps ++ suite_trust true ∷ validity true ∷ []) r

  -- `targetUrl.replace(/\/$/, '')`
  abbrev pub manifest_url : String → String
  manifest_url url =
      (if last_is b'/' url then drop_last url else url) +s "/.well-known/oap-tool.json"

  unfoldable pub verify_conformance : (target_url : String) → Report
  verify_conformance target_url = elim (web.fetch_manifest (manifest_url target_url)) [
    | none ↦ reject (manifest false ∷ []) manifest_unreachable
    | some receipt_uri ↦
        if receipt_uri =s= ""
        then reject (manifest true ∷ receipt_discovery false ∷ []) no_receipt_uri
        else elim (web.fetch_receipt receipt_uri) [
          | none ↦ reject (manifest true ∷ receipt_fetch false ∷ []) receipt_not_retrievable
          | some r ↦ verify_receipt (manifest true ∷ receipt_fetch true ∷ []) r
        ]
  ]
