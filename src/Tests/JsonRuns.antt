-- ===== src/Tests/JsonRuns.antt =====
-- The theorems on canonical texts and on the predicate vocabulary, at small inputs.
use oap_spec.Prelude.{ℕ, String}
use oap_spec.Json.{Json, num, str, obj, Fields, end, field}

abbrev shown : Json ℕ → String
shown (str s) = s
shown _ = "0"

abbrev price_first : Fields ℕ
price_first = field "price" (num 12) (field "currency" (str "EUR") end)

abbrev currency_first : Fields ℕ
currency_first = field "currency" (str "EUR") (field "price" (num 12) end)

abbrev travel : Json ℕ
travel = obj (field "segments" (obj (field "flight" (obj price_first) end)) end)
