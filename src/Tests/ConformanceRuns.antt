-- ===== src/Tests/ConformanceRuns.antt =====
-- The theorems on the conformance verifier, for a receipt of level L4 with one witness.
use oap_spec.Prelude.{ℕ, true, false, none, some, [], ◌∷◌, ◌≡◌, ◌↔◌, ◌=s=◌, if◌then◌else◌}
use oap_spec.Json.{end, field, str}
use oap_spec.Conformance.{Witness, Receipt, Web, verify_peer_witnesses, canonical_registry_url}
use oap_spec.Conformance.Verdict.{Options, verify_conformance}
use oap_spec.Conformance.Witnesses.{IsWitnessed, verify_peer_witnesses_iff}
use oap_spec.Conformance.Acceptance.{IsConformant, verify_conformance_iff}

abbrev witness : Witness
witness = record {
  witness_did = "did:web:auditor";
  controller_org = "Auditor";
  signature = some "seal";
  witness_receipt_uri = "";
}

abbrev pub receipt : Receipt ℕ
receipt = record {
  fields = field "receipt_id" (str "r1") end;
  suite_version = some "1.1.0";
  not_after = "later";
  signatures = record { alg = "EdDSA"; value = some "seal" } ∷ [];
  implementation_did = "did:web:tool";
  claimed_levels = "L4" ∷ [];
  peer_witnesses = witness ∷ [];
  registry_anchor =
      some
        (record { repo_url = canonical_registry_url; commit_sha = "c0"; file_path = "tool.json" });
}

abbrev pub toy : Web ℕ ℕ
toy = record {
  fetch_did_document = λ url. some (
      record { type' = "JsonWebKey2020"; has_multibase = false; crv = some "Ed25519"; key = some 7 }
      ∷ []);
  fetch_receipt = λ uri. some receipt;
  fetch_manifest = λ url. some "https://tool/receipt";
  fetch_text = λ url. some "{}";
  parse_listing = λ body. some none;
  check = λ payload value key. some (value =s= "seal");
  date = λ s. if s =s= "later" then some 9 else none;
  now = 5;
  stringify = λ v. "text";
  sha256_hex = λ s. s;
}

abbrev options : Options ℕ
options = record {
  trusted_suite_versions = "1.0.0" ∷ "1.1.0" ∷ [];
  reverify = true;
  ajv_validate = some (λ r. r.not_after =s= "later");
  runs = some (2, 2) ∷ none ∷ [];
}

verify_peer_witnesses_iff_example :
    verify_peer_witnesses toy receipt 1 ≡ none ↔ IsWitnessed toy receipt 1
verify_peer_witnesses_iff_example = verify_peer_witnesses_iff toy receipt 1

verify_conformance_iff_example :
    (verify_conformance toy options "https://tool/").accepted ≡ true
    ↔ IsConformant toy options "https://tool/"
verify_conformance_iff_example = verify_conformance_iff toy options "https://tool/"
