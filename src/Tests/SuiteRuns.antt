-- ===== src/Tests/SuiteRuns.antt =====
-- The theorems on the test suite: a run that reaches L0, the name of a fixture, and a receipt with two
-- witnesses.
use oap_spec.Prelude.{
  ℕ, String, true, none, some, List, [], ◌∷◌, ◌≡◌, ◌≢◌, ◌↔◌, refl, All, arith, strip_prefix,
  split_on, join,
}
use oap_spec.Json.{Fields, str, end, field}
use oap_spec.Suite.{
  Result, summarize, count_passed, basename, last_of, infer_schema_id_from_fixture,
}
use oap_spec.Suite.Fixtures.{infer_schema_id_from_fixture-unreached}
use oap_spec.Suite.Attest.{
  levels_from_results, claimed_from, in_profile, ends_with, matches, supports, evidence,
}
use oap_spec.Suite.Claims.{Some, Reached, levels_from_results_iff}
use oap_spec.Suite.Witnessing.{
  Signer, IsSigner, witnessed, read_witnesses, verify_peer_witnesses-witnessed,
}
use oap_spec.Conformance.{Receipt, verify_peer_witnesses}
use oap_spec.Conformance.{is_placeholder, resolve_key, first_key, verify_signature}
use oap_spec.Tests.ConformanceRuns.{toy, receipt}

abbrev results : List Result
results =
    record {
      name = "schema/valid/manifest-minimal.json";
      category = "schema-valid";
      file = "";
      passed = true;
    }
    ∷ record {
      name = "manifest-served";
      category = "behavior";
      file = "lifecycle.test.js";
      passed = true;
    }
    ∷ []

abbrev levels : List (String × List String)
levels =
    ("L0", "schema/valid/manifest-minimal.json" ∷ "behavior/lifecycle.test.js" ∷ [])
    ∷ ("L2", "behavior/wallet.test.js" ∷ [])
    ∷ []

levels_from_results_iff_example :
    ((claimed : List String) × (levels_from_results "standard" levels results ≡ some claimed)
      × Some (λ l. l ≡ "L0") claimed)
    ↔ All (λ r. r.passed ≡ true) results × Reached "standard" results "L0" levels
levels_from_results_iff_example = levels_from_results_iff "standard" levels results "L0"

-- Only the level whose files have all passed is claimed.
results_levels : levels_from_results "standard" levels results ≡ some ("L0" ∷ [])
unfolding levels_from_results summarize count_passed claimed_from in_profile ends_with matches
    supports evidence basename last_of split_on
results_levels = refl

infer_schema_id_from_fixture-unreached_example :
    (infer_schema_id_from_fixture "schema/valid/conformance-receipt-l4.json"
      ≢ some "oap-composition-manifest.schema.json")
    × (infer_schema_id_from_fixture "schema/valid/conformance-receipt-l4.json"
        ≢ some "oap-customization-receipt.schema.json")
    × (infer_schema_id_from_fixture "schema/valid/conformance-receipt-l4.json"
        ≢ some "oap-deletion-receipt.schema.json")
    × (infer_schema_id_from_fixture "schema/valid/conformance-receipt-l4.json"
        ≢ some "oap-conformance-receipt.schema.json")
infer_schema_id_from_fixture-unreached_example =
    infer_schema_id_from_fixture-unreached "schema/valid/conformance-receipt-l4.json"

abbrev signer : String → Signer
signer did = record {
  did = did;
  witness_receipt_uri = "https://auditor/receipt";
  now = "noon";
  sign = λ s. "seal";
}

abbrev signers : List Signer
signers = signer "did:web:one" ∷ signer "did:web:two" ∷ []

abbrev candidate : Fields ℕ
candidate = field "receipt_id" (str "r2") end

abbrev witnessed_receipt : Receipt ℕ
witnessed_receipt = record receipt {
  fields = witnessed toy.stringify signers candidate;
  peer_witnesses = read_witnesses (witnessed toy.stringify signers candidate);
}

signer-one : IsSigner toy (signer "did:web:one")
unfolding is_placeholder resolve_key first_key verify_signature strip_prefix split_on join
signer-one = record {
  key = 7;
  resolved = refl;
  verifies = λ p. refl;
  real = λ p. refl;
  receipt = receipt;
  fetched = refl;
  dated = refl;
  current = refl;
  level = refl;
}

signer-two : IsSigner toy (signer "did:web:two")
unfolding is_placeholder resolve_key first_key verify_signature strip_prefix split_on join
signer-two = record {
  key = 7;
  resolved = refl;
  verifies = λ p. refl;
  real = λ p. refl;
  receipt = receipt;
  fetched = refl;
  dated = refl;
  current = refl;
  level = refl;
}

verify_peer_witnesses-witnessed_example : verify_peer_witnesses toy witnessed_receipt 2 ≡ none
verify_peer_witnesses-witnessed_example =
    verify_peer_witnesses-witnessed toy witnessed_receipt 2 signers candidate refl refl refl
      (omega arith) (refl, (refl, tt)) (signer-one, (signer-two, tt))
