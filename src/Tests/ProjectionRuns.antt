-- ===== src/Tests/ProjectionRuns.antt =====
-- The theorem on projections: a record of a profile and a secret, by two pointers.
use oap_spec.Prelude.{
  ℕ, String, Option, none, some, List, [], ◌∷◌, ◌≡◌, refl, All, split_on, join, ◌=s=◌,
  if◌then◌else◌,
}
use oap_spec.Json.{Json, str, obj, field, end}
use oap_spec.Aql.Path.{segments_of}
use oap_spec.Aql.Projection.{excluded, matches_pointer, match_seg, any_suffix}
use oap_spec.Aql.Collect.{
  walk, each, each_field, child, keep, expand, root_fragments, is_root, collect, assignments,
}
use oap_spec.Aql.Boundary.{IsAuthorized, assignments-IsAuthorized}

abbrev show : ℕ → String
show n = "0"

abbrev to_index : String → Option ℕ
to_index s = if s =s= "0" then some 0 else none

abbrev person : Json ℕ
person = obj (
    field "profile" (obj (field "name" (str "Ada") (field "secret" (str "s") end)))
      (field "id" (str "7") end))

abbrev include : List String
include = "/profile/*" ∷ "/id" ∷ []

abbrev exclude : List String
exclude = "/profile/secret" ∷ []

assignments-IsAuthorized_example :
    All
      (IsAuthorized show to_index person include exclude)
      (assignments show to_index person include exclude)
assignments-IsAuthorized_example = assignments-IsAuthorized show to_index person include exclude

-- The secret is left out.
secret_left_out :
    assignments show to_index person include exclude
    ≡ ("profile" ∷ "name" ∷ [], str "Ada") ∷ ("id" ∷ [], str "7") ∷ []
unfolding assignments keep expand collect walk each each_field child is_root root_fragments excluded
    matches_pointer match_seg any_suffix segments_of split_on join
secret_left_out = refl

-- An excluded path below an included value is not looked at: the secret crosses with the profile.
whole_profile :
    assignments show to_index person ("/profile" ∷ []) exclude
    ≡ ("profile" ∷ [], obj (field "name" (str "Ada") (field "secret" (str "s") end))) ∷ []
unfolding assignments keep expand collect walk each each_field child is_root root_fragments excluded
    matches_pointer match_seg any_suffix segments_of split_on join
whole_profile = refl
