-- ===== src/Handshake.antt =====
-- The three-tier handshake of reference/aht/three-tier.js. A convention is known by its canonical text,
-- and a set of conventions is the list of its members in the order of insertion. A type is a text that
-- is no numeral, and a distribution the list of its types with their probabilities.
pub mod Selection
pub mod Trimming
pub mod Endings
pub mod Choice
pub mod Progress
use oap_spec.Prelude.{
  ℕ, zero, suc, ◌+◌, ◌*◌, ◌-◌, String, Bool, true, false, not, Option, none, some, List, [], ◌∷◌,
  ◌++◌, map, ◌=s=◌, any, length, ltb, lookup, store, sort_by, if◌then◌else◌,
}
use oap_spec.Server.Teamwork.{includes, least_text, intersection}

pub data Class : Type 0 where
  publishing observed adversarial other : Class  -- 'P', 'O', 'A', and anything else

pub record Peer : Type 0 where
  pub did : String
  pub classification : Class
  pub convention_space : List String
  pub observed_actions : List String

abbrev pub Distribution : Type 0 → Type 0
Distribution N = List (String × N)

-- The arguments of `runHandshake`, with the operations on its numbers.
pub record Setting (N : Type 0) : Type 0 where
  pub type_space : List String
  pub action_likelihood : String → String → N
  pub regret : String → String → N
  pub convention_space_for_type : String → List String
  pub regret_tolerance : N
  pub nought : N  -- 0
  pub one : N
  pub tiny : N  -- 1e-12
  pub of_nat : ℕ → N
  pub add : N → N → N
  pub mul : N → N → N
  pub div : N → N → N
  pub num_lt : N → N → Bool
  pub num_le : N → N → Bool
  pub is_finite : N → Bool  -- less than Infinity
  pub log : N → N
  pub is_falsy : N → Bool
  pub is_falsy_value : String → Bool  -- of the value with that canonical text

pub data TierUsed : Type 0 where
  tier1_3 tier2_3 : TierUsed

-- What `runHandshake` returns, but for the posterior. The receipt of the first tier is its convention.
pub data Outcome (N : Type 0) : Type 0 where
  aborted : Outcome N
  first_tier : (convention : String) → Outcome N
  fallback_only : (receipt : Option String) → Outcome N
  committed :
      (convention : String)
      → TierUsed
      → (worst_case_regret : N) → (receipt : Option String) → Outcome N

abbrev pub is_class : Class → Peer → Bool
is_class publishing p = elim p.classification as (λ _. Bool) [ publishing ↦ true | _ ↦ false ]
is_class observed p = elim p.classification as (λ _. Bool) [ observed ↦ true | _ ↦ false ]
is_class adversarial p = elim p.classification as (λ _. Bool) [ adversarial ↦ true | _ ↦ false ]
is_class other p = elim p.classification as (λ _. Bool) [ other ↦ true | _ ↦ false ]

-- `peers.filter((p) => p.classification === …)`
unfoldable pub of_class : Class → List Peer → List Peer
of_class c [] = []
of_class c (p ∷ ps) = let rest = of_class c ps in if is_class c p then p ∷ rest else rest

-- A convention whose value is null is taken for none.
abbrev pub unless_null : String → Option String
unless_null c = if c =s= "null" then none else some c

-- Set.prototype.add
abbrev pub add_key : String → List String → List String
add_key k keys = if includes keys k then keys else keys ++ k ∷ []

unfoldable pub add_keys : List String → List String → List String
add_keys [] keys = keys
add_keys (c ∷ cs) keys = add_keys cs (add_key c keys)

module _ {N : Type 0} (s : Setting N) where
  abbrev pub or_zero : Option N → N
  or_zero none = s.nought
  or_zero (some n) = n

  -- `bayesianPosteriorOverTypes`: the uniform start, one observation, and all of them.
  unfoldable pub uniform : List String → Distribution N → Distribution N
  uniform [] post = post
  uniform (th ∷ ths) post =
      uniform ths (store th (s.div s.one (s.of_nat (length s.type_space))) post)

  abbrev at_least_tiny : N → N
  at_least_tiny n = if s.num_lt n s.tiny then s.tiny else n

  unfoldable pub weigh : String → List String → N → Distribution N → N × Distribution N
  weigh a [] z post = (z, post)
  weigh a (th ∷ ths) z post =
      let p = s.mul (or_zero (lookup th post)) (at_least_tiny (s.action_likelihood a th)) in
      weigh a ths (s.add z p) (store th p post)

  unfoldable pub normalize : N → List String → Distribution N → Distribution N
  normalize z [] post = post
  normalize z (th ∷ ths) post = normalize z ths (store th (s.div (or_zero (lookup th post)) z) post)

  unfoldable pub observe : List String → Distribution N → Distribution N
  observe [] post = post
  observe (a ∷ rest) post =
      let (z, weighed) = weigh a s.type_space s.nought post in
      observe rest (if s.num_lt s.nought z then normalize z s.type_space weighed else weighed)

  unfoldable pub bayesian_posterior : List String → Distribution N
  bayesian_posterior observations = observe observations (uniform s.type_space [])

  -- The posteriors of the observed peers, by DID.
  unfoldable pub posteriors :
      List Peer → List (String × Distribution N) → List (String × Distribution N)
  posteriors [] acc = acc
  posteriors (j ∷ js) acc = posteriors js (store j.did (bayesian_posterior j.observed_actions) acc)

  abbrev pub posterior_of : String → List (String × Distribution N) → Distribution N
  posterior_of did ps = elim (lookup did ps) [ none ↦ [] | some p ↦ p ]

  -- `expectedRegretUnderPosterior`, from a sum on
  unfoldable pub expected_regret : String → N → Distribution N → N
  expected_regret c sum [] = sum
  expected_regret c sum ((th, p) ∷ rest) =
      expected_regret c (s.add sum (s.mul p (s.regret c th))) rest

  -- `maxExpectedRegret`, from a maximum on
  unfoldable pub max_expected_regret : String → List (String × Distribution N) → N → List Peer → N
  max_expected_regret c ps m [] = m
  max_expected_regret c ps m (j ∷ js) =
      let r = expected_regret c s.nought (posterior_of j.did ps) in
      max_expected_regret c ps (if s.num_lt m r then r else m) js

  -- `detectDrift`, from a sum on
  unfoldable pub divergence : Distribution N → N → Distribution N → N
  divergence posterior kl [] = kl
  divergence posterior kl ((th, p) ∷ rest) =
      let q = or_zero (lookup th posterior) in
      let grown = s.add kl (s.mul p (s.log (s.div p (if s.is_falsy q then s.tiny else q)))) in
      divergence posterior (if s.num_lt s.nought p then grown else kl) rest

  unfoldable pub detect_drift : Distribution N → Distribution N → N → Bool
  detect_drift posterior recent_empirical threshold_kl =
      s.num_lt threshold_kl (divergence posterior s.nought recent_empirical)

  -- The conventions of the types that a distribution does not exclude.
  unfoldable pub supported : Distribution N → List String → List String
  supported [] keys = keys
  supported ((th, p) ∷ rest) keys =
      supported rest
        (if s.num_lt s.nought p then add_keys (s.convention_space_for_type th) keys else keys)

  unfoldable pub inferred : List (String × Distribution N) → List Peer → List String → List String
  inferred ps [] keys = keys
  inferred ps (j ∷ js) keys = inferred ps js (supported (posterior_of j.did ps) keys)

  -- The regret of one peer.
  unfoldable pub peer_regret : List (String × Distribution N) → String → Peer → N
  peer_regret ps c j = elim j.classification [
    | publishing ↦ if includes j.convention_space c then s.nought else s.one
    | observed ↦ expected_regret c s.nought (posterior_of j.did ps)
    | adversarial ↦ s.one
    | other ↦ s.nought
  ]

  -- `perPeerRegret.slice(t)[0]`, or 0
  unfoldable pub after_trim : ℕ → List N → N
  after_trim t [] = s.nought
  after_trim zero (r ∷ rs) = r
  after_trim (suc t) (r ∷ rs) = after_trim t rs

  -- Sorted from the largest down.
  unfoldable pub worst_case : List (String × Distribution N) → List Peer → ℕ → String → N
  worst_case ps peers t c = after_trim t (sort_by s.num_lt (map (peer_regret ps c) peers))

  -- The loop over F: the convention committed so far, and its regret. A convention of null is chosen
  -- like any other, and stands for none afterwards.
  unfoldable pub select : (String → N) → List String → Option (String × N) → Option (String × N)
  select worst [] best = best
  select worst (c ∷ cs) none =
      select worst cs (if s.is_finite (worst c) then some (c, worst c) else none)
  select worst (c ∷ cs) (some (b, w)) =
      select worst cs (if s.num_lt (worst c) w then some (c, worst c) else some (b, w))
