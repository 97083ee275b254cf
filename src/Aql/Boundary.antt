-- ===== src/Aql/Boundary.antt =====
-- What `project` lets cross the boundary (reference/aql/src/projection.js).
use oap_spec.Prelude.{
  ℕ, String, true, false, Option, List, [], ◌∷◌, ◌++◌, ◌≡◌, ◌⊎◌, inl, inr, refl, ◌=s=◌, eq_iff, All,
  All-map, Bool-cases, join,
}
use oap_spec.Json.{Json, undefined, null, bool, num, str, arr, obj, Fields, end, field, entries}
use oap_spec.Aql.Path.{segments_of}
use oap_spec.Aql.Projection.{Matches, excluded}
use oap_spec.Aql.Collect.{
  Found, path_text, is_root, keep, root_entries, root_fragments, expand, collect, assignments,
}
use oap_spec.Aql.Found.{All-append, HasEntry, At, here, item, entry}
use oap_spec.Aql.Walking.{walk-All}

text_of_root : (path_text [] =s= "/") ≡ true
unfolding join
text_of_root = refl

abbrev pub Among : String → List String → Type 0
Among s [] = ⊥
Among s (t ∷ ts) = (t ≡ s) ⊎ Among s ts

module _ {N : Type 0} (show : ℕ → String) (to_index : String → Option ℕ) where
  At-entry :
      (r : Json N) (p : List String) (fs : Fields N) (k : String) (w v : Json N)
      → At show to_index r p v
      → v ≡ obj fs
      → HasEntry k w fs
      → At show to_index r (p ++ k ∷ []) w
  At-entry r p fs k w _ (here v) e h = rw e (entry fs k w [] w h (here w))
  At-entry r p fs k w _ (item xs i q u t v at name below) e h =
      item xs i q u (t ++ k ∷ []) w at name (At-entry u t fs k w v below e h)
  At-entry r p fs k w _ (entry gs q u t v at below) e h =
      entry gs q u (t ++ k ∷ []) w at (At-entry u t fs k w v below e h)

  module _ (record' : Json N) (pointer : String) where
    -- A pointer finds a value of the record at a path that matches it, or at the root.
    abbrev Collected : Found N → Type 0
    Collected g =
        At show to_index record' g.0 g.1
        × (((is_root pointer ≡ true) × (g.0 ≡ [])) ⊎ Matches (segments_of pointer) g.0)

    -- The value of an assignment is the record's at its path, which matches the pointer; or the path is an
    -- entry of what is written as the root, which the pointer gives or matches.
    pub data Given : Found N → Type 0 where
      matched :
          (p : List String) (v : Json N)
          → Matches (segments_of pointer) p
          → At show to_index record' p v
          → Given (p, v)
      spread :
          (root : List String) (k : String) (v : Json N)
          → path_text root ≡ "/"
          → ((is_root pointer ≡ true) × (root ≡ [])) ⊎ Matches (segments_of pointer) root
          → At show to_index record' (root ++ k ∷ []) v
          → Given (k ∷ [], v)

    collect-All : All Collected (collect show to_index record' pointer)
    unfolding collect
    collect-All = elim (Bool-cases (is_root pointer)) [
      | inl e ↦ rw (e, collect) ((here record', inl (e, refl)), tt)
      | inr e ↦
          rw (e, collect)
            (All-map (λ g found. (rw found.1 found.3, inr (rw found.1 found.2))) _
              (walk-All show to_index (segments_of pointer) record' []))
    ]

    root_entries-All :
        (root : List String) (fs : Fields N)
        → path_text root ≡ "/"
        → ((is_root pointer ≡ true) × (root ≡ [])) ⊎ Matches (segments_of pointer) root
        → ((k : String) (w : Json N)
            → HasEntry k w fs
            → At show to_index record' (root ++ k ∷ []) w)
        → All Given (root_entries (entries fs))
    root_entries-All root end written by at = tt
    root_entries-All root (field k v fs) written by at = (
      spread root k v written by (at k v (inl (refl, refl))),
      root_entries-All root fs written by (λ j w h. at j w (inr h)),
    )

    root_fragments-All :
        (root : List String) (v : Json N)
        → path_text root ≡ "/"
        → Collected (root, v)
        → All Given (root_fragments v)
    unfolding root_fragments
    root_fragments-All root (obj fs) written c =
        root_entries-All root fs written c.1
          (λ k w h. At-entry record' root fs k w (obj fs) c.0 refl h)
    root_fragments-All root undefined written c = tt
    root_fragments-All root null written c = tt
    root_fragments-All root (bool b) written c = tt
    root_fragments-All root (num n) written c = tt
    root_fragments-All root (str s) written c = tt
    root_fragments-All root (arr xs) written c = tt

    expand-All : (gs : List (Found N)) → All Collected gs → All Given (expand gs)
    unfolding expand
    expand-All [] h = tt
    expand-All ((p, v) ∷ gs) h = elim (Bool-cases (path_text p =s= "/")) [
      | inl e ↦ rw e (
          All-append _ (root_fragments v) _
            (root_fragments-All p v ((eq_iff (path_text p) "/").0 e) h.0) (expand-All gs h.1))
      | inr e ↦ rw e (
        elim h.0.1 [ inr m ↦ matched p v m h.0.0 | inl k ↦ cc (text_of_root, rw k.1 at e) ],
        expand-All gs h.1,
      )
    ]

  keep-All :
      (P : Found N → Type 0) (exclude : List String) (gs : List (Found N))
      → All P gs
      → All (λ g. P g × (excluded (path_text g.0) exclude ≡ false)) (keep exclude gs)
  unfolding keep
  keep-All P exclude [] h = tt
  keep-All P exclude ((p, v) ∷ gs) h = elim (Bool-cases (excluded (path_text p) exclude)) [
    | inl e ↦ rw e (keep-All P exclude gs h.1)
    | inr e ↦ rw e ((h.0, e), keep-All P exclude gs h.1)
  ]

  -- One of the included pointers gives the assignment, and no excluded one matches its path.
  pub record IsAuthorized (record' : Json N) (include exclude : List String) (g : Found N)
      : Type 0 where
    pub pointer : String
    pub listed : Among pointer include
    pub given : Given record' pointer g
    pub kept : excluded (path_text g.0) exclude ≡ false

  -- Every value that `project` assigns is the record's value at its path, which matches an included
  -- pointer, or an entry of what is written as the root; and no excluded pattern matches the path.
  pub assignments-IsAuthorized :
      (record' : Json N) (include exclude : List String)
      → All
          (IsAuthorized record' include exclude)
          (assignments show to_index record' include exclude)
  unfolding assignments
  assignments-IsAuthorized record' [] exclude = tt
  assignments-IsAuthorized record' (pointer ∷ include) exclude =
      All-append _ (keep exclude (expand (collect show to_index record' pointer))) _
        (All-map (λ g h. record { pointer = pointer; listed = inl refl; given = h.0; kept = h.1 }) _
          (keep-All (Given record' pointer) exclude _
            (expand-All record' pointer _ (collect-All record' pointer))))
        (All-map
          (λ g h. record {
            pointer = h.pointer;
            listed = inr h.listed;
            given = h.given;
            kept = h.kept;
          })
          _ (assignments-IsAuthorized record' include exclude))
