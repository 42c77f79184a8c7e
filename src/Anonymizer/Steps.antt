-- ===== src/Anonymizer/Steps.antt =====
-- One step at a time of privaite/pii/anonymizer.py: what a replacement can do to the mapping.
use priv_ai_te.Prelude.{
  ℕ, ◌≡◌, ◌⊎◌, refl, false, List, ◌∷◌, ◌++◌, arith, Text, slice, take, drop, Bool-cases, inl, inr,
}
use priv_ai_te.Mapping.{PiiMapping, add, note}
use priv_ai_te.Anonymizer.{
  AnonymizationConfig, Outcome, ok, exhausted, ◌>>=◌, Span, Replacement, detected, shielded,
  is_irreversible_method, method_for, make_placeholder, replace_entity, replace_spans,
}

pub Outcome-cases :
    {A : Type 0} (r : Outcome A) → ((a : A) × (r ≡ ok a)) ⊎ ((x : Text) × (r ≡ exhausted x))
Outcome-cases (ok a) = inl (a, refl)
Outcome-cases (exhausted x) = inr (x, refl)

pub Replacement-cases :
    (r : Replacement) → ((f : Text) × (r ≡ shielded f)) ⊎ ((t : Text) × (r ≡ detected t))
Replacement-cases (detected t) = inr (t, refl)
Replacement-cases (shielded f) = inl (f, refl)

-- The text with the span replaced.
abbrev pub spliced : Span → Text → Text → Text
spliced s text f = take s.start text ++ (f ++ drop s.end text)

-- One round of the loop over the spans: a shielded literal, or an entity.
pub replace_spans_step :
    (generate : Text → Text → ℕ → Text) (config : AnonymizationConfig) (s : Span)
    (spans : List Span) (text : Text) (m : PiiMapping)
    → ((f : Text) × (replace_spans generate config (s ∷ spans) text m
          ≡ replace_spans generate config spans (spliced s text f) m))
      ⊎ ((t : Text) × (replace_spans generate config (s ∷ spans) text m ≡ (
            replace_entity generate config t (slice text s.start s.end) m >>= λ r.
            replace_spans generate config spans (spliced s text r.0) r.1)))
unfolding replace_spans
replace_spans_step generate config s spans text m = elim (Replacement-cases s.replacement) [
  | inl (f, e) ↦ inl (f, ground arith)
  | inr (t, e) ↦ inr (t, ground arith)
]

module _ (generate : Text → Text → ℕ → Text) (config : AnonymizationConfig) where
  -- What a replacement does to the mapping: nothing, a note, or a new pair.
  pub replace_entity_cases :
      (t o f : Text) (m m' : PiiMapping)
      → replace_entity generate config t o m ≡ ok (f, m')
      → (m' ≡ m)
        ⊎ (m' ≡ note o t m)
        ⊎ ((m' ≡ add o f t m)
            × (is_irreversible_method (method_for config t) ≡ false)
            × (make_placeholder generate config t o m ≡ ok f))
  unfolding replace_entity
  replace_entity_cases t o f m m' h =
      elim (Bool-cases (is_irreversible_method (method_for config t))) [
        | inl lossy ↦ elim (Outcome-cases (make_placeholder generate config t o m)) [
          | inl (fake, e) ↦ inr (inl (ground arith))
          | inr (x, e) ↦ absurd (ground arith)
        ]
        | inr kept ↦ elim (Outcome-cases (make_placeholder generate config t o m)) [
          | inl (fake, e) ↦ ground arith
          | inr (x, e) ↦ ground arith
        ]
      ]
