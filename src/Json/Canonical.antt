-- ===== src/Json/Canonical.antt =====
-- The canonical text of an object and the order in which its keys were written.
use mathlib.Core.List.{Permᴰ}
use mathlib.Core.List.Permᴰ
use oap_spec.Prelude.{◌≡◌, refl, String, List, [], ◌∷◌, map}
use oap_spec.Json.{Json, obj, Fields, end, field, entries, canonicalize, canonicalize_fields}
use oap_spec.Json.Sorted.{IsFresh, Distinct, sort_keys-perm}

module _ {N : Type 0} (stringify : Json N → String) where
  abbrev entry_text : String × Json N → String × String
  entry_text (k, v) = (k, canonicalize stringify v)

  canonicalize_fields-eq-map :
      (fs : Fields N) → canonicalize_fields stringify fs ≡ map entry_text (entries fs)
  unfolding canonicalize
  canonicalize_fields-eq-map end = refl
  canonicalize_fields-eq-map (field k v fs) = rw (canonicalize_fields-eq-map fs)

  IsFresh-map :
      (k : String) (l : List (String × Json N)) → IsFresh k l → IsFresh k (map entry_text l)
  IsFresh-map k [] f = tt
  IsFresh-map k (e ∷ l) f = (f.0, IsFresh-map k l f.1)

  Distinct-map : (l : List (String × Json N)) → Distinct l → Distinct (map entry_text l)
  Distinct-map [] d = tt
  Distinct-map (e ∷ l) d = (IsFresh-map e.0 l d.0, Distinct-map l d.1)

  -- Two objects with the same entries in any two orders, no key standing twice, have the same
  -- canonical text.
  pub canonicalize-perm :
      (fs gs : Fields N)
      → Distinct (entries fs)
      → Permᴰ (entries fs) (entries gs)
      → canonicalize stringify (obj fs) ≡ canonicalize stringify (obj gs)
  unfolding canonicalize
  canonicalize-perm fs gs d p = rw (
    canonicalize_fields-eq-map fs,
    canonicalize_fields-eq-map gs,
    sort_keys-perm (Permᴰ.map entry_text p) (Distinct-map (entries fs) d),
  )
