-- ===== src/Tests/AqlRuns.antt =====
-- The theorems on constraint trees, at a small tree and a small record.
use oap_spec.Prelude.{ℕ, true, false, none, [], ◌∷◌, ◌≡◌, ◌↔◌, ltb, leb, ◌==◌}
use oap_spec.Json.{Json, num, str, obj, Items, nil, cons, end, field}
use oap_spec.Aql.{Host, Node, any_of, leaf, Nodes, none_left, also}
use oap_spec.Aql.Evaluate.{evaluate}
use oap_spec.Aql.Meaning.{meaning, trace, evaluate-eq-meaning}
use oap_spec.Aql.Projection.{match_seg, Matches, match_seg_iff}
use oap_spec.Tests.{number_of}

abbrev pub toy : Host ℕ
toy = record {
  num_eq = λ a b. a == b;
  num_lt = ltb;
  num_le = leb;
  to_number = number_of;
  is_finite = λ n. true;
  parse_date = number_of;
  reg_exp = λ v. none;
  includes = λ s t. false;
  array_index = λ s. none;
  zero = 0;
  ratio = λ a b. a;
  is_falsy = λ n. n == 0;
}

abbrev pub cheap : Node ℕ
cheap = leaf "/price" "lte" (num 20)

abbrev pub in_euro : Node ℕ
in_euro = leaf "/currency" "eq" (str "EUR")

abbrev both : Nodes ℕ
both = also cheap (also in_euro none_left)

abbrev offer : Json ℕ
offer = obj (field "price" (num 12) (field "currency" (str "EUR") end))

evaluate-eq-meaning_example :
    evaluate toy (any_of both) offer
    ≡ (meaning toy offer (any_of both), trace toy offer (any_of both))
evaluate-eq-meaning_example = evaluate-eq-meaning toy offer (any_of both)

abbrev currencies : Items ℕ
currencies = cons (str "EUR") (cons (str "USD") nil)

match_seg_iff_example :
    (match_seg ("**" ∷ "email" ∷ []) ("owner" ∷ "contact" ∷ "email" ∷ []) ≡ true)
    ↔ Matches ("**" ∷ "email" ∷ []) ("owner" ∷ "contact" ∷ "email" ∷ [])
match_seg_iff_example = match_seg_iff ("**" ∷ "email" ∷ []) ("owner" ∷ "contact" ∷ "email" ∷ [])
