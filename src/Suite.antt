-- ===== src/Suite.antt =====
-- The runner of the test suite (test-suite/runner.js): the schema that a fixture is held against, and
-- the report. Ajv, the tests and the file system are parameters.
pub mod Fixtures
pub mod Attest
pub mod Claims
pub mod Witnessing
use Prim.Native.String
use oap_spec.Prelude.{
  ℕ, ◌+◌, ◌-◌, String, Bool, true, false, not, ◌||◌, Option, none, some, List, [], ◌∷◌, ◌++◌, map,
  ◌=s=◌, ◌==◌, if◌then◌else◌, length, starts_with, split_on,
}

-- A result; `file` is "" where it is missing.
pub record Result : Type 0 where
  pub name : String
  pub category : String
  pub file : String
  pub passed : Bool

-- String.prototype.includes
unfoldable pub includes : String → String → Bool
includes key String.[] = starts_with key ""
includes key (String.◌∷◌ c s) = starts_with key (String.◌∷◌ c s) || includes key s

-- The last segment of a path.
unfoldable pub last_of : String → List String → String
last_of s [] = s
last_of s (t ∷ ts) = last_of t ts

-- `path.basename` of a path that does not end in a slash.
unfoldable pub basename : String → String
basename path = last_of "" (split_on b'/' path)

-- The entries of `map`, in their order.
unfoldable pub schema_map : List (String × String)
schema_map =
    ("broker-category-profile", "oap-broker-category-profile.schema.json")
    ∷ ("workflow-manifest", "oap-workflow-manifest.schema.json")
    ∷ ("cross-match-receipt", "oap-cross-match-receipt.schema.json")
    ∷ ("workflow-revocation-event", "oap-workflow-revocation-event.schema.json")
    ∷ ("provisioning-manifest", "oap-provisioning-manifest.schema.json")
    ∷ ("context-switch", "oap-context-switch.schema.json")
    ∷ ("byoa-attestation", "oap-byoa-attestation.schema.json")
    ∷ ("offboarding-receipt", "oap-offboarding-receipt.schema.json")
    ∷ ("manifest", "oap-manifest.schema.json")
    ∷ ("receipt", "oap-receipt.schema.json")
    ∷ ("envelope-request", "oap-request-envelope.schema.json")
    ∷ ("envelope-response", "oap-response-envelope.schema.json")
    ∷ ("decision-record", "oap-decision-record.schema.json")
    ∷ ("ccc", "oap-ccc.schema.json")
    ∷ ("commerce-primitive", "oap-commerce-primitive.schema.json")
    ∷ ("composition-manifest", "oap-composition-manifest.schema.json")
    ∷ ("customization-receipt", "oap-customization-receipt.schema.json")
    ∷ ("attestation", "oap-attestation.schema.json")
    ∷ ("incident", "oap-incident.schema.json")
    ∷ ("deletion-receipt", "oap-deletion-receipt.schema.json")
    ∷ ("offer", "oap-offer.schema.json")
    ∷ ("procurement-intent", "oap-procurement-intent.schema.json")
    ∷ ("subscription", "oap-subscription.schema.json")
    ∷ ("wallet-statement", "oap-wallet-statement.schema.json")
    ∷ ("conformance-receipt", "oap-conformance-receipt.schema.json")
    ∷ ("aql-decision", "oap-aql-decision.schema.json")
    ∷ ("intent-response", "oap-intent-response.schema.json")
    ∷ ("intent", "oap-intent.schema.json")
    ∷ []

-- The loop over the map's entries.
unfoldable pub first_included : (base : String) → List (String × String) → Option String
first_included base [] = none
first_included base ((key, schema) ∷ rest) =
    let later = first_included base rest in if includes key base then some schema else later

unfoldable pub infer_schema_id_from_fixture : (fixture_path : String) → Option String
infer_schema_id_from_fixture fixture_path = first_included (basename fixture_path) schema_map

-- A fixture; `validate` is Ajv's verdict on its content under a schema.
pub record Fixture : Type 0 where
  pub relative : String
  pub validate : String → Bool

unfoldable pub run_fixture : (category : String) → (expected : Bool) → Fixture → Result
run_fixture category expected f = record {
  name = f.relative;
  category = category;
  file = "";
  passed = elim (infer_schema_id_from_fixture f.relative) as (λ _. Bool) [
    | none ↦ false
    | some schema ↦ if expected then f.validate schema else not (f.validate schema)
  ];
}

-- `runSchemaSuite`
unfoldable pub run_schema_suite : (valid invalid : List Fixture) → List Result
run_schema_suite valid invalid =
    map (run_fixture "schema-valid" true) valid ++ map (run_fixture "schema-invalid" false) invalid

-- A test of behavior/ or charter/: its file, and the results of its `run`, none if it throws.
pub record Probe : Type 0 where
  pub rel : String
  pub run : Option (List Result)

unfoldable pub run_probe : (category : String) → Probe → List Result
run_probe category p = elim p.run [
  | none ↦ record { name = p.rel; category = category; file = ""; passed = false } ∷ []
  | some partial ↦ map (λ (r : Result). record r { file = p.rel }) partial
]

-- The loops of `runBehaviorSuite` and `runCharterSuite`.
unfoldable pub run_probes : (category : String) → List Probe → List Result
run_probes category [] = []
run_probes category (p ∷ ps) = run_probe category p ++ run_probes category ps

pub record Summary : Type 0 where
  pub total : ℕ
  pub passed : ℕ
  pub failed : ℕ

unfoldable pub count_passed : List Result → ℕ
count_passed [] = 0
count_passed (r ∷ rs) = if r.passed then count_passed rs + 1 else count_passed rs

unfoldable pub summarize : List Result → Summary
summarize rs = record {
  total = length rs;
  passed = count_passed rs;
  failed = length rs - count_passed rs;
}

-- What `main` selects by `--only`, "" if it is not given.
abbrev selected : (only name : String) → List Result → List Result
selected only name rs = if (only =s= "") || (only =s= name) then rs else []

-- `main`: the results, and the exit code.
unfoldable pub main :
    (only : String)
    → (valid invalid : List Fixture) → (behavior charter : List Probe) → List Result × ℕ
main only valid invalid behavior charter =
    let all =
      selected only "schema" (run_schema_suite valid invalid)
      ++ selected only "behavior" (run_probes "behavior" behavior)
      ++ selected only "charter" (run_probes "charter" charter) in
    (all, (if (summarize all).failed == 0 then 0 else 1))
