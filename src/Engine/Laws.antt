-- ===== src/Engine/Laws.antt =====
-- The request path of privaite/pii/engine.py for one text: the detectors, the gate, the anonymizer.
use priv_ai_te.Prelude.{
  ◌≡◌, ◌↔◌, ◌⊎◌, refl, Bool, true, false, Option, none, some, List, [], ◌∷◌, ◌++◌, if◌then◌else◌,
  arith, Text, any, null, inl, inr,
}
use priv_ai_te.Entity.{PiiEntity}
use priv_ai_te.Mapping.{PiiMapping}
use priv_ai_te.Anonymizer.{ok, anonymize}
use priv_ai_te.Anonymizer.Steps.{Outcome-cases}
use priv_ai_te.Engine.{
  Result, passed, blocked, unsupported, failed, ◌>>=◌, PiiEngine, gather, redacted, is_blocked,
  detect_all, blocked_types, gate_and_anonymize, known_entities, anonymize_text,
}

module _ {A B : Type 0} where
  -- A chain that passed, passed at its first step.
  pub bind_passed :
      (r : Result A) (f : A → Result B) (b : B)
      → (r >>= f) ≡ passed b
      → (a : A) × (r ≡ passed a) × (f a ≡ passed b)
  bind_passed (passed a) f b h = (a, refl, h)
  bind_passed (blocked ts) f b h = absurd (ground arith)
  bind_passed unsupported f b h = absurd (ground arith)
  bind_passed failed f b h = absurd (ground arith)

module _ {S : Type 0} where
  abbrev fails_on : Text → (Text → Option (List (PiiEntity S))) → Bool
  fails_on text detect = elim (detect text) [ none ↦ true | some es ↦ false ]

  abbrev found_by : Option (List (PiiEntity S)) → List (PiiEntity S)
  found_by none = []
  found_by (some es) = es

  -- What the detectors find, one after the other.
  abbrev pub found : List (Text → Option (List (PiiEntity S))) → Text → List (PiiEntity S)
  found [] text = []
  found (detect ∷ detectors) text = found_by (detect text) ++ found detectors text

  gather_cases :
      (detectors : List (Text → Option (List (PiiEntity S)))) (text : Text)
      → ((any (fails_on text) detectors ≡ true) × (gather detectors text ≡ none))
        ⊎ ((any (fails_on text) detectors ≡ false)
            × (gather detectors text ≡ some (found detectors text)))
  unfolding gather
  gather_cases [] text = inr (refl, refl)
  gather_cases (d ∷ ds) text = ground (arith, gather_cases ds text)

  module _ (g : PiiEngine S) where
    blocked_types-null :
        (es : List (PiiEntity S))
        → (blocked_types g es ≡ []) ↔ (any (λ e. is_blocked g e.entity_type) es ≡ false)
    unfolding blocked_types
    blocked_types-null [] = ground arith
    blocked_types-null (e ∷ es) = ground (arith, blocked_types-null es)

    -- Text passes the gate exactly if none of its detections is of a blocked type and the anonymizer
    -- has a replacement for each.
    passed_gate :
        (text : Text) (entities : List (PiiEntity S)) (m : PiiMapping) (r : Text × PiiMapping)
        → any (λ e. is_blocked g e.entity_type) entities ≡ false
        → anonymize g.generate g.anonymization g.decimals text entities m ≡ ok r
        → gate_and_anonymize g text (entities, m) ≡ passed r
    unfolding gate_and_anonymize
    passed_gate text entities m r a b = ground (arith, blocked_types-null entities)

    gate_passed :
        (text : Text) (entities : List (PiiEntity S)) (m : PiiMapping) (r : Text × PiiMapping)
        → gate_and_anonymize g text (entities, m) ≡ passed r
        → (any (λ e. is_blocked g e.entity_type) entities ≡ false)
          × (anonymize g.generate g.anonymization g.decimals text entities m ≡ ok r)
    unfolding gate_and_anonymize
    gate_passed text entities m r h =
        elim (Outcome-cases (anonymize g.generate g.anonymization g.decimals text entities m)) [
          | inl (r', e) ↦ ground (arith, blocked_types-null entities)
          | inr (t, e) ↦ absurd (ground arith)
        ]

    -- Some detector fails on the text.
    abbrev pub some_fails : Text → Bool
    some_fails text = any (fails_on text) g.detectors

    -- What the detectors find together, merged and less what is allowed, if none of them fails.
    abbrev pub detections : Text → List (PiiEntity S)
    detections text = if null g.detectors then [] else redacted g text (found g.detectors text)

    -- A detection of the text is of a blocked type, copies of what the mapping knows included.
    abbrev pub some_blocked : Text → PiiMapping → Bool
    some_blocked text m =
        any (λ e. is_blocked g e.entity_type) (known_entities g text (detections text) m).0

    detect_all_cases :
        (text : Text)
        → ((some_fails text ≡ true) × (detect_all g text ≡ failed))
          ⊎ ((some_fails text ≡ false) × (detect_all g text ≡ passed (detections text)))
    unfolding detect_all
    detect_all_cases text = ground (arith, gather_cases g.detectors text)

    pub anonymize_text-passed :
        (text out : Text) (m m' : PiiMapping)
        → null text ≡ false
        → (anonymize_text g text m ≡ passed (out, m')) ↔ (
            (some_fails text ≡ false)
            × (some_blocked text m ≡ false)
            × (anonymize g.generate g.anonymization g.decimals text
                  (known_entities g text (detections text) m).0
                  (known_entities g text (detections text) m).1
                ≡ ok (out, m')))
    unfolding anonymize_text
    anonymize_text-passed text out m m' some_text =
        let known = known_entities g text (detections text) m in
        elim (detect_all_cases text) [
          | inl (a, b) ↦
              rw (some_text, a, b) (λ h. absurd (ground arith), λ h. absurd (ground arith))
          | inr (a, b) ↦
              rw (some_text, a, b)
                (
                  λ h.
                      let (quiet, q) = gate_passed text known.0 known.1 (out, m') h in
                      (refl, quiet, q),
                  λ (_, quiet, q). passed_gate text known.0 known.1 (out, m') quiet q,
                )
        ]
