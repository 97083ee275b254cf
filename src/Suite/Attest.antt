-- ===== src/Suite/Attest.antt =====
-- test-suite/attest.js: the levels that results reach, the conformance receipt, its witnesses and the
-- stub for the registry.
use oap_spec.Prelude.{
  String, Bool, true, false, not, ◌&&◌, ◌||◌, Option, none, some, List, [], ◌∷◌, ◌=s=◌, ◌+s◌, ◌==◌,
  if◌then◌else◌, any, all,
}
use oap_spec.Json.{Json, str, arr, obj, Items, nil, cons, Fields, end, field, canonicalize}
use oap_spec.Server.{Host}
use oap_spec.Suite.{Result, basename, summarize}

-- String.prototype.endsWith
unfoldable pub ends_with : String → String → Bool
ends_with suffix String.[] = suffix =s= ""
ends_with suffix (String.◌∷◌ c s) = (suffix =s= String.◌∷◌ c s) || ends_with suffix s

-- The file that a result stands for in `passedFiles`, or "" if it is skipped.
unfoldable pub evidence : Result → String
evidence r =
    if not r.passed
    then ""
    else if ends_with "-not-applicable" r.name
    then ""
    else if r.file =s= ""
    then r.name
    else r.file

-- `matches`: the path itself or its last segment has passed.
unfoldable pub supports : (required : String) → Result → Bool
supports required r =
    if evidence r =s= ""
    then false
    else (evidence r =s= required) || (basename (evidence r) =s= basename required)

unfoldable pub matches : List Result → (required : String) → Bool
matches results required = any (supports required) results

-- The profile's levels; the other profile is "non-commercial".
unfoldable pub in_profile : (profile level : String) → Bool
in_profile profile level =
    if profile =s= "non-commercial"
    then ends_with "-NC" level || (level =s= "L0")
    else not (ends_with "-NC" level)

abbrev pub is_empty {ℓ} : {A : Type ℓ} → List A → Bool
is_empty [] = true
is_empty (_ ∷ _) = false

-- The loop over `levelsConfig.levels`.
unfoldable pub claimed_from :
    (profile : String) → List Result → (levels : List (String × List String)) → List String
claimed_from profile results [] = []
claimed_from profile results ((level, required) ∷ rest) =
    let later = claimed_from profile results rest in
    if not (is_empty required) && in_profile profile level && all (matches results) required
    then level ∷ later
    else later

-- `runSuite` and `levelsFromResults`: none if the runner exits with 1 or no level is reached.
unfoldable pub levels_from_results :
    (profile : String) → (levels : List (String × List String)) → List Result → Option (List String)
levels_from_results profile levels results =
    if (summarize results).failed == 0
    then (let claimed = claimed_from profile results levels in
        if is_empty claimed then none else some claimed)
    else none

-- The options of the command line, and what it draws.
pub record Attestation (N : Type 0) : Type 0 where
  pub did : String
  pub name : String
  pub version : String
  pub target : String
  pub profile : String
  pub revenue_source : String
  pub revenue_note : String
  pub receipt_id : String
  pub now : String
  pub not_after : String
  pub results : Json N  -- the runner's report
  pub summary : Json N
  pub fixtures_hash : Json N

abbrev strings : {N : Type 0} → List String → Items N
strings [] = nil
strings (s ∷ ss) = cons (str s) (strings ss)

-- `o.k = v`
unfoldable pub set_field : {N : Type 0} → String → Json N → Fields N → Fields N
set_field k v end = field k v end
set_field k v (field j w fs) =
    let rest = set_field k v fs in if j =s= k then field j v fs else field j w rest

module _ {N : Type 0} (host : Host N) where
  abbrev revenue : Attestation N → Fields N
  revenue a =
      if a.profile =s= "non-commercial"
      then field "revenue"
          (obj (
            field "source" (str a.revenue_source)
              (if a.revenue_note =s= "" then end else field "note" (str a.revenue_note) end)))
          end
      else end

  unfoldable pub receipt_core : Attestation N → (levels : List String) → Fields N
  receipt_core a levels = field "receipt_id" (str ("urn:oap:conformance:" +s a.receipt_id)) (
      field "type" (str "conformance") (
        field "timestamp" (str a.now) (
          field "implementation"
            (obj (
              field "did" (str a.did)
                (field "name" (str a.name) (field "version" (str a.version) end))))
            (field "suite"
              (obj (
                field "name" (str "oap-conformance-test-suite")
                  (field "version" (str "1.1.0") (field "spec_version" (str "1.0") end))))
              (field "target" (obj (field "uri" (str a.target) end)) (
                field "claimed_levels" (arr (strings levels)) (
                  field "profile" (str a.profile) (
                    field "results_summary" a.summary (
                      field "fixtures_hash" a.fixtures_hash (
                        field "results_hash"
                          (str
                            ("sha256:" +s host.sha256_hex (canonicalize host.stringify a.results)))
                          (field "validity"
                            (obj (
                              field "not_before" (str a.now)
                                (field "not_after" (str a.not_after) end)))
                            (field "previous_receipt_hash" (str "genesis") (revenue a)))))))))))))

  abbrev signed_by : (did value : String) → Json N
  signed_by did value = arr (
      cons
        (obj (
          field "by" (str (did +s "#key-1"))
            (field "alg" (str "EdDSA") (field "value" (str value) end))))
        nil)

  -- The receipt that attestation mode writes.
  unfoldable pub attest :
      (levels : List (String × List String)) → List Result → Attestation N → Option (Fields N)
  attest levels results a = elim (levels_from_results a.profile levels results) [
    | none ↦ none
    | some claimed ↦
        let core = receipt_core a claimed in
        some (
          set_field "signatures"
            (signed_by a.did (host.sign (canonicalize host.stringify (obj core)))) core)
  ]
