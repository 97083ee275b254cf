-- ===== src/Tests/HandshakeRuns.antt =====
-- The theorems on the handshake, among an agent, two publishing peers, an observed and an adversarial one.
use oap_spec.Prelude.{
  ℕ, ◌+◌, ◌*◌, ◌/◌, String, true, false, some, List, [], ◌∷◌, ◌≡◌, refl, arith, ltb, leb, ◌==◌,
  length, sort_by, insert_by, store,
}
use oap_spec.Json.{before}
use oap_spec.Server.Teamwork.{intersection, common_to, least_text}
use oap_spec.Server.Convention.{IsFirstCommon}
use oap_spec.Handshake.{
  Peer, publishing, observed, adversarial, Setting, tier1_3, Distribution, inferred, supported,
  add_keys, of_class, worst_case, posteriors, peer_regret, expected_regret, bayesian_posterior,
  uniform, observe, weigh, normalize, max_expected_regret, select, after_trim,
}
use oap_spec.Handshake.Selection.{
  spaces, enlarged, run_handshake, tier1_receipt, third_tier, committed_to,
}
use oap_spec.Handshake.Trimming.{worst_case-le}
use oap_spec.Handshake.Progress.{Commits, run_handshake-Commits}
use oap_spec.Handshake.Endings.{worst_of, IsFeasible}
use oap_spec.Handshake.Choice.{IsBest, committed-IsBest, first_tier-IsFirstCommon}

abbrev toy : Setting ℕ
toy = record {
  type_space = "keen" ∷ "shy" ∷ [];
  action_likelihood = λ a th. 1;
  regret = λ c th. 1;
  convention_space_for_type = λ th. "b" ∷ [];
  regret_tolerance = 9;
  nought = 0;
  one = 1;
  tiny = 1;
  of_nat = λ n. n;
  add = λ m n. m + n;
  mul = λ m n. m * n;
  div = λ m n. m / n;
  num_lt = ltb;
  num_le = leb;
  is_finite = λ n. true;
  log = λ n. n;
  is_falsy = λ n. n == 0;
  is_falsy_value = λ c. false;
}

abbrev self : Peer
self = record {
  did = "did:web:me";
  classification = publishing;
  convention_space = "b" ∷ "a" ∷ [];
  observed_actions = [];
}

abbrev friend : Peer
friend = record {
  did = "did:web:friend";
  classification = publishing;
  convention_space = "a" ∷ "c" ∷ [];
  observed_actions = [];
}

abbrev silent : Peer
silent = record {
  did = "did:web:silent";
  classification = observed;
  convention_space = [];
  observed_actions = "wave" ∷ [];
}

abbrev hostile : Peer
hostile = record {
  did = "did:web:hostile";
  classification = adversarial;
  convention_space = [];
  observed_actions = [];
}

abbrev peers : List Peer
peers = friend ∷ silent ∷ hostile ∷ []

ltb_asym : (a b : ℕ) → ltb a b ≡ true → ltb b a ≡ false
ltb_asym a b h = ground (arith, h)

ltb_trans : (a b c : ℕ) → ltb a b ≡ false → ltb b c ≡ false → ltb a c ≡ false
ltb_trans a b c h k = ground (arith, h, k)

first_tier-IsFirstCommon_example : IsFirstCommon "a" (spaces toy self (friend ∷ []))
unfolding run_handshake tier1_receipt of_class intersection common_to least_text before
    max_expected_regret posteriors
first_tier-IsFirstCommon_example = first_tier-IsFirstCommon toy self (friend ∷ []) "a" refl

committed-IsBest_example :
    (feasible : List String) × IsFeasible toy self peers feasible
    × IsBest toy (worst_of toy self peers) feasible "a" 0
unfolding run_handshake tier1_receipt of_class intersection common_to least_text before
    max_expected_regret posteriors bayesian_posterior uniform observe weigh normalize
    expected_regret third_tier committed_to select worst_case after_trim sort_by insert_by
    peer_regret store
committed-IsBest_example =
    committed-IsBest toy ltb_asym ltb_trans self peers "a" tier1_3 0 (some "a") refl

abbrev beliefs : List (String × Distribution ℕ)
beliefs = posteriors toy (silent ∷ []) []

worst_case-le_example :
    toy.num_lt 1 (worst_case toy beliefs peers (length (of_class adversarial peers)) "a") ≡ false
unfolding peer_regret expected_regret posteriors bayesian_posterior uniform observe weigh normalize
    store
worst_case-le_example =
    worst_case-le toy 1 ltb_trans refl ltb_asym beliefs "a" peers
      ((λ e. refl), ((λ e. refl), ((λ e. cc), tt)))

run_handshake-Commits_example : Commits toy self peers (run_handshake toy self peers)
unfolding enlarged inferred supported add_keys posteriors of_class bayesian_posterior uniform
    observe weigh normalize store
run_handshake-Commits_example =
    run_handshake-Commits toy self peers (λ c. refl) refl (λ e. cc e) refl
