-- ===== src/Tests.antt =====
-- A small runtime over the natural numbers, in which the theorems are applied to concrete inputs.
pub mod MerkleRuns
pub mod JsonRuns
pub mod CoordinatorRuns
pub mod ClosingRuns
pub mod AqlRuns
pub mod ResolveRuns
pub mod ThresholdRuns
pub mod AgentRuns
pub mod ServerRuns
pub mod SdkRuns
pub mod ValidatorRuns
pub mod ProjectionRuns
pub mod SuiteRuns
pub mod AdapterRuns
pub mod BrokerRuns
pub mod ConformanceRuns
pub mod ParserRuns
pub mod HandshakeRuns
pub mod ReceiptChainRuns
use Prim.Native.String
use Prim.Native.String.{count}
use text.Mathlib.TextLemmas
use oap_spec.Prelude.{
  ℕ, zero, suc, String, Bool, true, false, Option, none, some, List, ◌≡◌, ap, inl, inr, eq_iff,
  Bool-cases, arith, ◌=s=◌, ltb, leb, ◌==◌, if◌then◌else◌,
}
use oap_spec.Json.{Json, undefined, null, num, str}
use oap_spec.Predicate.{Runtime}

-- A text cut or filled up to a length.
unfoldable pub pad : ℕ → String → String
pad zero s = ""
pad (suc n) String.[] = String.◌∷◌ "0" (pad n "")
pad (suc n) (String.◌∷◌ c s) = String.◌∷◌ c (pad n s)

pub count-pad : (n : ℕ) (s : String) → count (pad n s) ≡ n
unfolding pad
count-pad zero s = TextLemmas.length-nil
count-pad (suc n) String.[] = omega (arith, TextLemmas.length-cons "0" (pad n ""), count-pad n "")
count-pad (suc n) (String.◌∷◌ c s) =
    omega (arith, TextLemmas.length-cons c (pad n s), count-pad n s)

-- A toy digest of 64 characters.
abbrev pub digest : String → String
digest s = pad 64 s

pub digest-filled : (s : String) → (digest s =s= "") ≡ false
digest-filled s = elim (Bool-cases (digest s =s= "")) [
  | inl e ↦
      absurd (
        omega (arith, ap count ((eq_iff (digest s) "").0 e), count-pad 64 s, TextLemmas.length-nil))
  | inr e ↦ e
]

abbrev pub text_of : Json ℕ → Option String
text_of undefined = none
text_of (str s) = some s
text_of null = some "null"
text_of _ = some "value"

-- 999 stands for NaN.
abbrev pub number_of : Json ℕ → ℕ
number_of (num n) = n
number_of (str s) = if s =s= "10" then 10 else 999
number_of _ = 0

abbrev pub runtime : Runtime ℕ
runtime = record {
  json_text = text_of;
  to_number = number_of;
  is_nan = λ n. n == 999;
  num_lt = ltb;
  num_le = leb;
  same_value = λ a b. number_of a == number_of b;
  get_prop = λ v k. undefined;
  has_prop = λ v k. some false;
  is_falsy = λ n. n == 0;
  trim = λ s. s;
}
