-- ===== src/Anonymizer/Fakes.antt =====
-- The method "fake_replacement" of privaite/pii/anonymizer.py: eleven variants, then it fails closed.
use priv_ai_te.Prelude.{
  ℕ, zero, suc, ◌+◌, ◌≤◌, ◌≡◌, ◌≢◌, ◌↔◌, refl, inl, inr, true, none, arith, Text, text_eq_iff,
  if◌then◌else◌, Bool-cases, ltb,
}
use priv_ai_te.Mapping.{PiiMapping, get_original}
use priv_ai_te.Anonymizer.{ok, exhausted, collides, retry, fake_replacement}

module _ (generate : Text → Text → ℕ → Text) (m : PiiMapping) (t o : Text) where
  -- The candidate that the loop starts a round with, after `k` retries.
  abbrev candidate : ℕ → Text
  candidate = generate t o

  -- The loop ends with a candidate that does not collide, or has seen `left` more that do.
  retry_stops :
      (left k : ℕ)
      → collides generate m o (retry generate m t o left k (candidate k)) ≡ true
      → (j : ℕ) → k ≤ j
      → j ≤ k + left
      → collides generate m o (candidate j) ≡ true
  unfolding retry
  retry_stops zero k h j le ge = let e : k ≡ j = omega arith in rw (← e) h
  retry_stops (suc left) k h j le ge = elim (Bool-cases (collides generate m o (candidate k))) [
    | inr e ↦ cc
    | inl e ↦ later j le ge e (retry_stops left (suc k) (rw e at h))
  ]
    where
      later :
          (j : ℕ)
          → k ≤ j
          → j ≤ k + suc left
          → collides generate m o (candidate k) ≡ true
          → ((i : ℕ) → suc k ≤ i → i ≤ suc k + left → collides generate m o (candidate i) ≡ true)
          → collides generate m o (candidate j) ≡ true
      later j le ge e rec = elim (Bool-cases (ltb k j)) [
        | inl l ↦ rec j (ground arith) (omega arith)
        | inr l ↦ let q : j ≡ k = ground arith in rw q e
      ]

  retry-collides :
      (left k : ℕ)
      → ((j : ℕ) → k ≤ j → j ≤ k + left → collides generate m o (candidate j) ≡ true)
      → collides generate m o (retry generate m t o left k (candidate k)) ≡ true
  unfolding retry
  retry-collides zero k h = h k (omega arith) (omega arith)
  retry-collides (suc left) k h =
      rw (h k (omega arith) (omega arith))
        (retry-collides left (suc k) (λ j le ge. h j (omega arith) (omega arith)))

  -- The request is blocked exactly if the first candidate and its ten variants all equal the
  -- original or already stand for a value.
  pub fake_replacement-exhausted :
      (fake_replacement generate t o m ≡ exhausted t)
      ↔ ((j : ℕ) → j ≤ 10 → collides generate m o (candidate j) ≡ true)
  unfolding fake_replacement
  fake_replacement-exhausted = (
    λ h j le. retry_stops 10 0 (blocked h) j (omega arith) (omega arith),
    λ h. rw (retry-collides 10 0 (λ j le ge. h j (omega arith))) refl,
  )
    where
      blocked :
          (if collides generate m o (retry generate m t o 10 0 (candidate 0))
              then exhausted t
              else ok (retry generate m t o 10 0 (candidate 0)))
            ≡ exhausted t
          → collides generate m o (retry generate m t o 10 0 (candidate 0)) ≡ true
      blocked h = ground arith

  -- A fake value that is used is not the original, and no issued fake.
  pub fake_replacement-ok :
      (f : Text) → fake_replacement generate t o m ≡ ok f → (f ≢ o) × (get_original m f ≡ none)
  unfolding fake_replacement
  fake_replacement-ok f h = ground (arith, text_eq_iff (retry generate m t o 10 0 (candidate 0)) o)
