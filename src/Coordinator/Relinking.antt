-- ===== src/Coordinator/Relinking.antt =====
-- What the links between segments do not protect (`segmentHash` and `verifyCrossMatchReceipt` of
-- reference/coordinator/coordinator.js).
use oap_spec.Prelude.{ℕ, ◌+◌, some, List, [], ◌∷◌, ◌≡◌, refl, ◌∙◌, arith, eq_refl}
use oap_spec.Coordinator.{Segment, Host}
use oap_spec.Coordinator.Segments.{segment_hash, same_link, chain_breaks}

module _ {N : Type 0} (host : Host N) where
  -- The segment with its link set to another one.
  abbrev pub relinked : Segment N → Segment N → Segment N
  relinked t s = record t { prev_segment_hash = some (segment_hash host s) }

  chain_breaks-relinked :
      (i : ℕ) (s t : Segment N) (rest : List (Segment N))
      → chain_breaks host i (relinked t s ∷ rest) ≡ chain_breaks host i (t ∷ rest)
  unfolding chain_breaks segment_hash
  chain_breaks-relinked i s t [] = refl
  chain_breaks-relinked i s t (u ∷ rest) = refl

  later_links :
      (i : ℕ) (s t : Segment N) (rest : List (Segment N))
      → chain_breaks host i (s ∷ t ∷ rest) ≡ []
      → chain_breaks host (i + 1) (t ∷ rest) ≡ []
  unfolding chain_breaks
  later_links i s t rest h = ground (arith)

  linked_first :
      (s t : Segment N) (rest : List (Segment N))
      → chain_breaks host 2 (relinked t s ∷ rest) ≡ []
      → chain_breaks host 1 (s ∷ relinked t s ∷ rest) ≡ []
  unfolding chain_breaks same_link
  linked_first s t rest h = rw (eq_refl (segment_hash host s)) h

  -- The links are not covered by the hashes: in segments that verify as chained the first may be
  -- replaced by any other, and the second given its link, and they still verify, although no later
  -- segment was changed.
  pub chain_breaks-replaced_first :
      (s s' t : Segment N) (rest : List (Segment N))
      → chain_breaks host 1 (s ∷ t ∷ rest) ≡ []
      → chain_breaks host 1 (s' ∷ relinked t s' ∷ rest) ≡ []
  chain_breaks-replaced_first s s' t rest h =
      let kept = chain_breaks-relinked 2 s' t rest ∙ later_links 1 s t rest h in
      linked_first s' t rest kept
