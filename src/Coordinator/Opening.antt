-- ===== src/Coordinator/Opening.antt =====
-- `openWorkflow` (reference/coordinator/coordinator.js).
use Prim.Native.Char.{code}
use oap_spec.Prelude.{
  lookup, store, ◌+◌, String, not, Option, none, some, List, [], ◌∷◌, ◌==◌, ◌=s=◌, if◌then◌else◌,
  ◌+s◌,
}
use oap_spec.Json.{canonicalize}
use oap_spec.Coordinator.{
  opening, Error, not_staffed, no_profile, wrong_category, below_conformance, Role, Manifest,
  Profile, workflow_open, Workflow, Coordinator, Host,
}
use oap_spec.Coordinator.Segments.{earlier}
use oap_spec.Coordinator.Machine.{Result, ok, err, or_text, audit}

-- text.replace('M', ''): the first occurrence
unfoldable pub remove_m : String → String
remove_m String.[] = ""
remove_m (String.◌∷◌ c s) = let rest = remove_m s in if code c == b'M' then s else String.◌∷◌ c rest

module _ {N : Type 0} (host : Host N) where
  -- The checks of `openWorkflow` on one role.
  unfoldable pub check_profile : Role → Option Profile → Option Error
  check_profile role none = some no_profile
  check_profile role (some profile) =
      if not (profile.broker_category =s= role.broker_category)
      then some wrong_category
      else if earlier (host.parse_int (remove_m (or_text profile.declared_conformance "M0")))
          (host.parse_int (remove_m role.min_conformance))
      then some below_conformance
      else none

  unfoldable pub check_role :
      (String → Option Profile) → List (String × String) → Role → Option Error
  check_role fetch selected role = elim (lookup role.role_id selected) [
    | none ↦ some not_staffed
    | some did ↦ if did =s= "" then some not_staffed else check_profile role (fetch did)
  ]

  unfoldable pub check_roles :
      (String → Option Profile) → List (String × String) → List Role → Option Error
  check_roles fetch selected [] = none
  check_roles fetch selected (role ∷ roles) = elim (check_role fetch selected role) [
    | none ↦ check_roles fetch selected roles
    | some e ↦ some e
  ]

  -- `id` is what `ulid('wf')` draws.
  unfoldable pub open_workflow :
      (String → Option Profile)
      → (id : String) → Manifest N
      → (initiator : String) → List (String × String)
      → Coordinator N
      → Result String × Coordinator N
  open_workflow fetch id manifest initiator selected c =
      elim (check_roles fetch selected manifest.roles) [
        | some e ↦ (err e, c)
        | none ↦
            let w : Workflow N = record {
              workflow_id = id;
              manifest = manifest;
              manifest_hash =
                  "sha256:" +s host.sha256_hex (canonicalize host.stringify manifest.json);
              initiator_did = initiator;
              selected_brokers = selected;
              opened_at = host.now c.readings;
              state = opening;
              segments = [];
              last_receipt = none;
              audit_log = [];
            } in
            (
              ok id,
              record c {
                workflows = store id (audit host (c.readings + 1) workflow_open w) c.workflows;
                readings = c.readings + 2;
              },
            )
      ]
