-- ===== src/Anonymizer/Lossy.antt =====
-- The lossy methods of privaite/pii/anonymizer.py: "mask" and "redact".
use priv_ai_te.Prelude.{
  ℕ, ◌≡◌, refl, sym, ◌∙◌, Bool, true, false, ◌&&◌, List, [], ◌∷◌, ◌++◌, map, null, leb,
  if◌then◌else◌, arith, Text, slice, All, Bool-cases, inl, inr,
}
use priv_ai_te.Entity.{PiiEntity, sorted, insert_sorted}
use priv_ai_te.Literal.{DecimalClass, find_literals}
use priv_ai_te.Mapping.{PiiMapping, note}
use priv_ai_te.Anonymizer.{
  AnonymizationConfig, ok, ◌>>=◌, Span, detected, entity_span, is_irreversible, make_placeholder,
  replace_entity, reserve_untaken, swap_issued, shield_literals, replace_spans, anonymize,
}
use priv_ai_te.Anonymizer.Steps.{Outcome-cases, spliced}

-- The two tables from which a reply is restored.
abbrev pub SameTables : PiiMapping → PiiMapping → Type 0
SameTables m m' =
    (m'.original_to_fake ≡ m.original_to_fake) × (m'.fake_to_original ≡ m.fake_to_original)

module _ (generate : Text → Text → ℕ → Text) (config : AnonymizationConfig) where
  replace_entity-SameTables :
      (t o f : Text) (m m' : PiiMapping)
      → is_irreversible config t ≡ true
      → replace_entity generate config t o m ≡ ok (f, m')
      → SameTables m m'
  unfolding replace_entity is_irreversible note
  replace_entity-SameTables t o f m m' lossy h =
      elim (Outcome-cases (make_placeholder generate config t o m)) [
        | inl (fake, e) ↦ ground arith
        | inr (x, e) ↦ absurd (ground arith)
      ]

  -- Spans of lossy types only.
  abbrev IsLossy : Span → Type 0
  IsLossy s = (t : Text) × (s.replacement ≡ detected t) × (is_irreversible config t ≡ true)

  round :
      (s : Span) (spans : List Span) (text : Text) (m : PiiMapping) (t : Text)
      → s.replacement ≡ detected t
      → replace_spans generate config (s ∷ spans) text m ≡ (
          replace_entity generate config t (slice text s.start s.end) m >>= λ r.
          replace_spans generate config spans (spliced s text r.0) r.1)
  unfolding replace_spans
  round s spans text m t e = ground arith

  replace_spans-SameTables :
      (spans : List Span) (text out : Text) (m m' : PiiMapping)
      → All IsLossy spans
      → replace_spans generate config spans text m ≡ ok (out, m')
      → SameTables m m'
  replace_spans-SameTables [] text out m m' l h =
      let e : m' ≡ m = unfold replace_spans in cc in (rw e refl, rw e refl)
  replace_spans-SameTables (s ∷ spans) text out m m' ((t, e, lossy), l) h =
      elim (Outcome-cases (replace_entity generate config t (slice text s.start s.end) m)) [
        | inr (x, failed) ↦ cc (rw failed at (round s spans text m t e))
        | inl ((f, m1), r) ↦
            let (a, b) = replace_entity-SameTables t (slice text s.start s.end) f m m1 lossy r in
            let (a', b') =
              replace_spans-SameTables spans (spliced s text f) out m1 m' l
                (sym (rw r at (round s spans text m t e)) ∙ h) in
            (a' ∙ a, b' ∙ b)
      ]

  map-IsLossy :
      {S : Type 0} (entities : List (PiiEntity S))
      → All (λ (e : PiiEntity S). is_irreversible config e.entity_type ≡ true) entities
      → All IsLossy (map entity_span entities ++ [])
  map-IsLossy [] l = tt
  map-IsLossy (e ∷ entities) (h, l) = ((e.entity_type, refl, h), map-IsLossy entities l)

  insert_sorted-All :
      (le : Span → Span → Bool) (s : Span) (spans : List Span)
      → IsLossy s
      → All IsLossy spans
      → All IsLossy (insert_sorted le s spans)
  insert_sorted-All le s [] h l = (h, tt)
  insert_sorted-All le s (x ∷ spans) h (hx, l) = elim (Bool-cases (le s x)) [
    | inl e ↦ rw e (h, (hx, l))
    | inr e ↦ rw e (hx, insert_sorted-All le s spans h l)
  ]

  sorted-All :
      (le : Span → Span → Bool) (spans : List Span)
      → All IsLossy spans
      → All IsLossy (sorted le spans)
  sorted-All le [] l = tt
  sorted-All le (s ∷ spans) (h, l) =
      insert_sorted-All le s (sorted le spans) h (sorted-All le spans l)

  finish-SameTables :
      (quiet : Bool) (spans : List Span) (text out : Text) (m m' : PiiMapping)
      → All IsLossy spans
      → (if quiet then ok (text, m) else replace_spans generate config spans text m) ≡ ok (out, m')
      → SameTables m m'
  finish-SameTables true spans text out m m' l h = let e : m' ≡ m = cc in (rw e refl, rw e refl)
  finish-SameTables false spans text out m m' l h = replace_spans-SameTables spans text out m m' l h

  -- If every detected type is masked or redacted and the text holds no literal in the shape of a
  -- placeholder, the tables that a reply is restored from stay as they were.
  pub anonymize-SameTables :
      {S : Type 0} (u : DecimalClass) (text out : Text) (entities : List (PiiEntity S))
      (m m' : PiiMapping)
      → All (λ (e : PiiEntity S). is_irreversible config e.entity_type ≡ true) entities
      → find_literals u text ≡ []
      → anonymize generate config u text entities m ≡ ok (out, m')
      → SameTables m m'
  unfolding anonymize shield_literals reserve_untaken swap_issued
  anonymize-SameTables u text out entities m m' l none_found h =
      finish-SameTables (null entities && true)
        (sorted (λ a b. leb b.start a.start) (map entity_span entities ++ [])) text out m m'
        (sorted-All (λ a b. leb b.start a.start) (map entity_span entities ++ [])
          (map-IsLossy entities l))
        (rw none_found at h)
