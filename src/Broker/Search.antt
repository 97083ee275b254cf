-- ===== src/Broker/Search.antt =====
-- `tokenize`, `computeTermFreqs`, `bm25Score` and `buildIdf` (reference/match-broker/broker.js).
use Prim.Native.String
use oap_spec.Prelude.{
  ℕ, ◌+◌, String, Bool, Option, none, some, List, [], ◌∷◌, if◌then◌else◌, ltb, lookup, store,
}
use oap_spec.Predicate.Text.{is_word}

-- A run of word characters that ends, if it is longer than one.
abbrev pub push_token : String → List String → List String
push_token run tokens = if ltb 1 (String.count run) then run ∷ tokens else tokens

-- The run at the start of the text, and the tokens after it. Both steps of the source, putting a space
-- for what is no word character and splitting at white space, cut a text at such characters.
unfoldable pub runs_of : String → String × List String
runs_of String.[] = ("", [])
runs_of (String.◌∷◌ c s) =
    let (run, tokens) = runs_of s in
    if is_word c then (String.◌∷◌ c run, tokens) else ("", push_token run tokens)

unfoldable pub tokenize : (String → String) → String → List String
tokenize to_lower text' = let (run, tokens) = runs_of (to_lower text') in push_token run tokens

-- `tf[t] = (tf[t] || 0) + 1`, for terms that are no property of every object
abbrev pub or_zero : Option ℕ → ℕ
or_zero none = 0
or_zero (some n) = n

unfoldable pub count_terms : List String → List (String × ℕ) → List (String × ℕ)
count_terms [] tf = tf
count_terms (t ∷ ts) tf = count_terms ts (store t (or_zero (lookup t tf) + 1) tf)

-- `computeTermFreqs`
unfoldable pub term_freqs_of : List String → List (String × ℕ)
term_freqs_of tokens = count_terms tokens []

-- The operations on numbers that the scores use.
pub record Floats (N : Type 0) : Type 0 where
  pub of_nat : ℕ → N
  pub add : N → N → N
  pub sub : N → N → N
  pub mul : N → N → N
  pub div : N → N → N
  pub log : N → N
  pub least : N → N → N  -- Math.min
  pub greatest : N → N → N  -- Math.max
  pub num_lt : N → N → Bool
  pub same : N → N → Bool  -- ===
  pub is_falsy : N → Bool
  pub half : N
  pub k1 : N  -- 1.5
  pub b : N  -- 0.75

module _ {N : Type 0} (f : Floats N) where
  -- `idfMap[term] || 0`
  abbrev idf_of : Option N → N
  idf_of none = f.of_nat 0
  idf_of (some n) = if f.is_falsy n then f.of_nat 0 else n

  unfoldable pub term_score :
      List (String × N) → List (String × ℕ) → (doc_length avg_doc_length : N) → String → N
  term_score idf_map tf doc_length avg_doc_length term =
      let idf = idf_of (lookup term idf_map) in
      let freq = f.of_nat (or_zero (lookup term tf)) in
      let numerator = f.mul freq (f.add f.k1 (f.of_nat 1)) in
      let denominator = f.add freq (
        f.mul f.k1
          (f.add (f.sub (f.of_nat 1) f.b) (f.div (f.mul f.b doc_length) avg_doc_length))) in
      f.mul idf (f.div numerator denominator)

  -- `bm25Score`, from a score on
  unfoldable pub bm25_score :
      N → List String → List (String × ℕ) → (doc_length avg_doc_length : N) → List (String × N) → N
  bm25_score score [] tf doc_length avg_doc_length idf_map = score
  bm25_score score (term ∷ rest) tf doc_length avg_doc_length idf_map =
      bm25_score (f.add score (term_score idf_map tf doc_length avg_doc_length term)) rest tf
        doc_length avg_doc_length idf_map

  -- `buildIdf`; `matching` counts the documents that the SQL pattern for a term selects.
  unfoldable pub build_idf :
      (total : ℕ) → (matching : String → ℕ) → List String → List (String × N) → List (String × N)
  build_idf total matching [] idf_map = idf_map
  build_idf total matching (term ∷ rest) idf_map =
      let df = f.of_nat (matching term) in
      let ratio = f.div (f.add (f.sub (f.of_nat total) df) f.half) (f.add df f.half) in
      build_idf total matching rest (store term (f.log (f.add ratio (f.of_nat 1))) idf_map)
