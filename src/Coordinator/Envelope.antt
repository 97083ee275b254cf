-- ===== src/Coordinator/Envelope.antt =====
-- The effective expiry of a receipt (CMR.2) and the expiries of its segments.
use oap_spec.Prelude.{
  ℕ, ◌≤◌, String, false, Option, none, some, List, [], ◌∷◌, ◌≡◌, refl, ◌∙◌, arith, ltb, ◌=s=◌, All,
  if◌then◌else◌, Bool-cases, inl, inr,
}
use oap_spec.Coordinator.{Segment, Receipt, Workflow, Host}
use oap_spec.Coordinator.Closing.{is_overdue}
use oap_spec.Coordinator.Segments.{effective_from, sooner, date_of}

module _ {N : Type 0} (host : Host N) where
  -- The segment has an expiry, and it is a date.
  pub record IsDated (s : Segment N) : Type 0 where
    pub text : String
    pub at : ℕ
    pub given : s.expires_at ≡ some text
    pub filled : (text =s= "") ≡ false
    pub parsed : host.date text ≡ some at

  -- `e` is a date, no later than the bound and the expiry of any of the segments.
  pub record IsEarliest (e : Option String) (bound : Option ℕ) (segments : List (Segment N))
      : Type 0 where
    pub text : String
    pub at : ℕ
    pub given : e ≡ some text
    pub parsed : host.date text ≡ some at
    pub below : (d : ℕ) → bound ≡ some d → at ≤ d
    pub below_all : All (λ s. (d : ℕ) → date_of host s.expires_at ≡ some d → at ≤ d) segments

  IsEarliest-cons :
      {e : Option String} (b at : ℕ) (s : Segment N) (rest : List (Segment N)) (dated : IsDated s)
      → b ≤ at
      → b ≤ dated.at
      → IsEarliest e (some b) rest
      → IsEarliest e (some at) (s ∷ rest)
  IsEarliest-cons b at s rest dated le le' h = record {
    text = h.text;
    at = h.at;
    given = h.given;
    parsed = h.parsed;
    below = λ d e. ground (arith, h.below b refl);
    below_all = ((λ d e. ground (arith, h.below b refl, dated.given, dated.parsed)), h.below_all);
  }

  sooner-dated :
      (text : String) (at : ℕ) (s : Segment N) (dated : IsDated s)
      → (text =s= "") ≡ false
      → host.date text ≡ some at
      → sooner host (some text) s ≡ (if ltb dated.at at then some dated.text else some text)
  unfolding sooner
  sooner-dated text at s dated f p = ground (arith, dated.given, dated.parsed)

  effective_from-IsEarliest :
      (text : String) (at : ℕ) (segments : List (Segment N))
      → (text =s= "") ≡ false
      → host.date text ≡ some at
      → All IsDated segments
      → IsEarliest (effective_from host (some text) segments) (some at) segments
  unfolding effective_from
  effective_from-IsEarliest text at [] f p h = record {
    text = text;
    at = at;
    given = refl;
    parsed = p;
    below = λ d e. ground arith;
    below_all = tt;
  }
  effective_from-IsEarliest text at (s ∷ rest) f p h =
      rw (sooner-dated text at s h.0 f p) (elim (Bool-cases (ltb h.0.at at)) [
        | inl before ↦ rw before (
            IsEarliest-cons h.0.at at s rest h.0 (ground arith) (omega arith)
              (effective_from-IsEarliest h.0.text h.0.at rest h.0.filled h.0.parsed h.1))
        | inr not_before ↦ rw not_before (
            IsEarliest-cons at at s rest h.0 (omega arith) (ground arith)
              (effective_from-IsEarliest text at rest f p h.1))
      ])

  -- If every segment has an expiry that is a date, the effective expiry of one or more segments is a
  -- date, and no segment expires before it.
  pub effective-IsEarliest :
      (s : Segment N) (rest : List (Segment N))
      → All IsDated (s ∷ rest)
      → IsEarliest (effective_from host none (s ∷ rest)) none (s ∷ rest)
  unfolding effective_from sooner
  effective-IsEarliest s rest h =
      let ih = effective_from-IsEarliest h.0.text h.0.at rest h.0.filled h.0.parsed h.1 in
      rw h.0.given (record {
        text = ih.text;
        at = ih.at;
        given = ih.given;
        parsed = ih.parsed;
        below = λ d e. cc;
        below_all =
            ((λ d e. ground (arith, ih.below h.0.at refl, h.0.given, h.0.parsed)), ih.below_all);
      })

  effective_from-undated :
      (text : String) (segments : List (Segment N))
      → (text =s= "") ≡ false
      → host.date text ≡ none
      → effective_from host (some text) segments ≡ some text
  unfolding effective_from sooner
  effective_from-undated text [] f p = refl
  effective_from-undated text (s ∷ rest) f p =
      let kept : sooner host (some text) s ≡ some text = ground arith in
      rw kept (effective_from-undated text rest f p)

  -- If the first segment's expiry is a text that is no date, it is the effective expiry whatever the
  -- other segments say, and a workflow with a receipt for such segments is never overdue.
  pub undated_never_overdue :
      (s : Segment N) (rest : List (Segment N)) (text now : String) (w : Workflow N) (r : Receipt N)
      → s.expires_at ≡ some text
      → (text =s= "") ≡ false
      → host.date text ≡ none
      → w.last_receipt ≡ some r
      → r.effective_expires_at ≡ effective_from host none (s ∷ rest)
      → (r.effective_expires_at ≡ some text) × (is_overdue host now w ≡ false)
  unfolding effective_from sooner
  undated_never_overdue s rest text now w r given f p last same =
      let kept : sooner host none s ≡ some text = ground arith in
      let effective : r.effective_expires_at ≡ some text =
        same ∙ (rw kept (effective_from-undated text rest f p)) in
      (effective, ground arith)
