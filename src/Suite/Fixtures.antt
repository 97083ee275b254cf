-- ===== src/Suite/Fixtures.antt =====
-- Which schemas the runner holds fixtures against (test-suite/runner.js, `inferSchemaIdFromFixture`).
use oap_spec.Prelude.{
  String, Bool, true, false, ◌&&◌, some, List, [], ◌∷◌, ◌≡◌, ◌≢◌, refl, arith, ◌=s=◌, eq_iff,
  if◌then◌else◌, any, All, starts_with, strip_prefix, Bool-cases, inl, inr, and-true,
}
use oap_spec.Suite.{includes, first_included, schema_map, infer_schema_id_from_fixture, basename}

starts_with_trans :
    (p q s : String) → starts_with p q ≡ true → starts_with q s ≡ true → starts_with p s ≡ true
unfolding strip_prefix
starts_with_trans String.[] q s h k = refl
starts_with_trans (String.◌∷◌ c p) String.[] s h k = cc h
starts_with_trans (String.◌∷◌ c p) (String.◌∷◌ d q) String.[] h k = cc k
starts_with_trans (String.◌∷◌ c p) (String.◌∷◌ d q) (String.◌∷◌ e s) h k =
    ground (arith, h, k, starts_with_trans p q s)

includes-of_start : (key s : String) → starts_with key s ≡ true → includes key s ≡ true
unfolding includes
includes-of_start key String.[] h = h
includes-of_start key (String.◌∷◌ c s) h = rw h refl

includes-starts_with :
    (key q s : String) → includes key q ≡ true → starts_with q s ≡ true → includes key s ≡ true
unfolding includes strip_prefix
includes-starts_with key String.[] s h k =
    includes-of_start key s (starts_with_trans key "" s h refl)
includes-starts_with key (String.◌∷◌ d q) String.[] h k = cc k
includes-starts_with key (String.◌∷◌ d q) (String.◌∷◌ e s) h k =
    elim (Bool-cases (starts_with key (String.◌∷◌ d q))) [
      | inl at ↦
          includes-of_start key (String.◌∷◌ e s)
            (starts_with_trans key (String.◌∷◌ d q) (String.◌∷◌ e s) at k)
      | inr later ↦
          let rest = includes-starts_with key q s (rw later at h) (ground (arith, k)) in
          ground (arith, rest)
    ]

includes_trans :
    (j key base : String)
    → includes j key ≡ true
    → includes key base ≡ true
    → includes j base ≡ true
unfolding includes
includes_trans j key String.[] h k = includes-starts_with j key "" h k
includes_trans j key (String.◌∷◌ c base) h k =
    elim (Bool-cases (starts_with key (String.◌∷◌ c base))) [
      | inl at ↦ includes-starts_with j key (String.◌∷◌ c base) h at
      | inr later ↦ let rest = includes_trans j key base h (rw later at k) in ground (arith, rest)
    ]

-- Each entry of the schema comes after one whose key its own key contains.
abbrev shadowed : (schema : String) → (seen : List String) → List (String × String) → Bool
shadowed schema seen [] = true
shadowed schema seen ((key, s) ∷ rest) =
    (if s =s= schema then any (λ j. includes j key) seen else true)
    && shadowed schema (key ∷ seen) rest

not_any :
    (key base : String) (seen : List String)
    → All (λ j. includes j base ≡ false) seen
    → includes key base ≡ true
    → any (λ j. includes j key) seen ≡ false
not_any key base [] h k = refl
not_any key base (j ∷ seen) h k = elim (Bool-cases (includes j key)) [
  | inl e ↦ cc (h.0, includes_trans j key base e k)
  | inr e ↦ rw e (not_any key base seen h.1 k)
]

first_included-shadowed :
    (schema base : String) (seen : List String) (entries : List (String × String))
    → shadowed schema seen entries ≡ true
    → All (λ j. includes j base ≡ false) seen
    → first_included base entries ≢ some schema
unfolding first_included
first_included-shadowed schema base seen [] h k e = cc e
first_included-shadowed schema base seen ((key, s) ∷ rest) h k e =
    elim (Bool-cases (includes key base)) [
      | inl found ↦
          let same : s ≡ schema = cc (rw found at e) in
          let none_before = not_any key base seen k found in
          cc (rw ((eq_iff s schema).1 same, none_before) at h)
      | inr no_key ↦
          first_included-shadowed schema base (key ∷ seen) rest (and-true _ _ h).1 (no_key, k)
            (rw no_key at e)
    ]

module _ (path : String) where
  unreached :
      (schema : String)
      → shadowed schema [] schema_map ≡ true
      → infer_schema_id_from_fixture path ≢ some schema
  unfolding infer_schema_id_from_fixture
  unreached schema h = first_included-shadowed schema (basename path) [] schema_map h tt

  -- No fixture, whatever its path, is held against the schemas of composition manifests and of
  -- customization, deletion and conformance receipts.
  pub infer_schema_id_from_fixture-unreached :
      (infer_schema_id_from_fixture path ≢ some "oap-composition-manifest.schema.json")
      × (infer_schema_id_from_fixture path ≢ some "oap-customization-receipt.schema.json")
      × (infer_schema_id_from_fixture path ≢ some "oap-deletion-receipt.schema.json")
      × (infer_schema_id_from_fixture path ≢ some "oap-conformance-receipt.schema.json")
  unfolding schema_map includes strip_prefix
  infer_schema_id_from_fixture-unreached =
      (unreached _ refl, unreached _ refl, unreached _ refl, unreached _ refl)
