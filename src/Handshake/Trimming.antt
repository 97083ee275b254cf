-- ===== src/Handshake/Trimming.antt =====
-- What adversarial peers can do to the third tier (reference/aht/three-tier.js).
use oap_spec.Prelude.{
  ℕ, zero, suc, ◌≤◌, String, true, false, List, [], ◌∷◌, map, ◌≡◌, refl, arith, length, All,
  All-map, if◌then◌else◌, Bool-cases, inl, inr, sort_by, insert_by, IsOrdered, sort_by-IsOrdered,
}
use oap_spec.Handshake.{
  Peer, adversarial, Distribution, Setting, is_class, of_class, peer_regret, after_trim, worst_case,
}

module _ {N : Type 0} (s : Setting N) (m : N) where
  -- How many regrets exceed `m`.
  abbrev count_above : List N → ℕ
  count_above [] = 0
  count_above (r ∷ rs) = if s.num_lt m r then suc (count_above rs) else count_above rs

  count_above-insert_by :
      (r : N) (rs : List N) → count_above (insert_by s.num_lt r rs) ≡ count_above (r ∷ rs)
  unfolding insert_by
  count_above-insert_by r [] = refl
  count_above-insert_by r (q ∷ rs) = ground (arith, count_above-insert_by r rs)

  count_above-sort_by : (rs : List N) → count_above (sort_by s.num_lt rs) ≡ count_above rs
  unfolding sort_by
  count_above-sort_by [] = refl
  count_above-sort_by (r ∷ rs) =
      ground (arith, count_above-insert_by r (sort_by s.num_lt rs), count_above-sort_by rs)

  count_above-zero : (rs : List N) → All (λ r. s.num_lt m r ≡ false) rs → count_above rs ≡ 0
  count_above-zero [] h = refl
  count_above-zero (r ∷ rs) h = ground (arith, h.0, count_above-zero rs h.1)

  module _
      (trans : (a b c : N) → s.num_lt a b ≡ false → s.num_lt b c ≡ false → s.num_lt a c ≡ false)
      (zero_le : s.num_lt m s.nought ≡ false) where
    after_trim-le :
        (t : ℕ) (rs : List N)
        → IsOrdered s.num_lt rs
        → count_above rs ≤ t
        → s.num_lt m (after_trim s t rs) ≡ false
    unfolding after_trim
    after_trim-le t [] o h = zero_le
    after_trim-le zero (r ∷ rs) o h = ground (arith, h)
    after_trim-le (suc t) (r ∷ rs) o h = elim (Bool-cases (s.num_lt m r)) [
      | inl e ↦ after_trim-le t rs o.1 (ground (arith, e, h))
      | inr e ↦
          after_trim-le t rs o.1
            (ground (arith, count_above-zero rs (All-map (λ q n. trans m r q e n) rs o.0)))
    ]

    count_above-peers :
        (ps : List (String × Distribution N)) (c : String) (peers : List Peer)
        → All
            (λ j. is_class adversarial j ≡ false → s.num_lt m (peer_regret s ps c j) ≡ false)
            peers
        → count_above (map (peer_regret s ps c) peers) ≤ length (of_class adversarial peers)
    unfolding of_class
    count_above-peers ps c [] h = omega arith
    count_above-peers ps c (j ∷ peers) h = elim (Bool-cases (is_class adversarial j)) [
      | inl e ↦ ground (arith, e, count_above-peers ps c peers h.1)
      | inr e ↦ ground (arith, e, h.0 e, count_above-peers ps c peers h.1)
    ]

    -- With as many regrets trimmed as there are adversarial peers, the worst case of a convention does
    -- not exceed a bound that is not below 0 and that no other peer's regret exceeds; where the
    -- comparison of regrets is asymmetric and its failure transitive.
    pub worst_case-le :
        (asym : (a b : N) → s.num_lt a b ≡ true → s.num_lt b a ≡ false)
        → (ps : List (String × Distribution N)) (c : String) (peers : List Peer)
        → All
            (λ j. is_class adversarial j ≡ false → s.num_lt m (peer_regret s ps c j) ≡ false)
            peers
        → s.num_lt m (worst_case s ps peers (length (of_class adversarial peers)) c) ≡ false
    unfolding worst_case
    worst_case-le asym ps c peers h =
        after_trim-le (length (of_class adversarial peers))
          (sort_by s.num_lt (map (peer_regret s ps c) peers))
          (sort_by-IsOrdered s.num_lt asym trans (map (peer_regret s ps c) peers))
          (omega (
            arith,
            count_above-sort_by (map (peer_regret s ps c) peers),
            count_above-peers ps c peers h,
          ))
