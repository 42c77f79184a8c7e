-- ===== src/Anonymizer.antt =====
-- privaite/pii/anonymizer.py: detected spans are replaced, from right to left. The generator of fake
-- values (the library Faker) is a parameter: `generate t o k` is variant `k`, and `generate` in the
-- source is variant 0.
pub mod Fresh
pub mod Fakes
pub mod Lossy
pub mod Steps
pub mod Invariants
pub mod Coherent
pub mod Extends
pub mod Shielded
mod Tests
use priv_ai_te.Prelude.{
  ℕ, zero, suc, ◌+◌, Bool, true, false, not, ◌&&◌, ◌||◌, Option, none, some, List, [], ◌∷◌, ◌++◌,
  map, null, ltb, leb, if◌then◌else◌, Text, codes, text_eq, slice, take, drop, any, length,
}
use priv_ai_te.Prelude.Decimals.{decimal}
use priv_ai_te.Prelude.Dicts.{Dict, lookup, has_key}
use priv_ai_te.Entity.{PiiEntity, sorted}
use priv_ai_te.Literal.{DecimalClass, LiteralMatch, find_literals}
use priv_ai_te.Mapping.{
  PiiMapping, add, note, add_literal, is_taken, next_index, get_fake, get_original, reserve_text,
}

pub record EntityOverride : Type 0 where
  pub method : Text
  pub masking_char : Text

pub record AnonymizationConfig : Type 0 where
  pub method : Text
  pub entity_overrides : Dict EntityOverride

-- FakeReplacementExhaustedError names the entity type.
pub data Outcome {ℓ} (A : Type ℓ) : Type ℓ where
  ok : A → Outcome A
  exhausted : Text → Outcome A

infixl 5 ◌>>=◌
abbrev pub ◌>>=◌ {ℓ κ} : {A : Type ℓ} {B : Type κ} → Outcome A → (A → Outcome B) → Outcome B
ok a >>= f = f a
exhausted t >>= f = exhausted t

-- f"<{entity_type}_{idx}>".
abbrev pub placeholder : Text → ℕ → Text
placeholder entity_type idx = b'<' ∷ (entity_type ++ (b'_' ∷ (decimal idx ++ b'>' ∷ [])))

-- The loop of `_numbered_placeholder`. As many rounds as there are taken texts are enough, and one.
unfoldable pub free_index : (ℕ → Bool) → ℕ → ℕ → ℕ
free_index taken zero idx = idx
free_index taken (suc fuel) idx =
    let later = free_index taken fuel (suc idx) in if taken idx then later else idx

abbrev pub taken_count : PiiMapping → ℕ
taken_count m = length m.reserved + length m.fake_to_original

unfoldable pub numbered_placeholder : Text → PiiMapping → Text
unfolding free_index
numbered_placeholder entity_type m = placeholder entity_type (
    free_index (λ idx. is_taken m (placeholder entity_type idx)) (suc (taken_count m))
      (next_index m entity_type))

unfoldable pub method_for : AnonymizationConfig → Text → Text
method_for config entity_type = elim (lookup entity_type config.entity_overrides) [
  | none ↦ config.method
  | some o ↦ o.method
]

unfoldable pub masking_char_for : AnonymizationConfig → Text → Text
masking_char_for config entity_type = elim (lookup entity_type config.entity_overrides) [
  | none ↦ codes "*"
  | some o ↦ o.masking_char
]

-- `_IRREVERSIBLE`.
abbrev pub is_irreversible_method : Text → Bool
is_irreversible_method method = text_eq method (codes "mask") || text_eq method (codes "redact")

unfoldable pub is_irreversible : AnonymizationConfig → Text → Bool
unfolding method_for
is_irreversible config entity_type = is_irreversible_method (method_for config entity_type)

-- `s * n`.
abbrev pub repeated : ℕ → Text → Text
repeated zero s = []
repeated (suc n) s = s ++ repeated n s

abbrev pub is_some {ℓ} : {A : Type ℓ} → Option A → Bool
is_some none = false
is_some (some a) = true

-- What a span of the text is replaced for: an entity of a type, or a shielded literal, with the
-- placeholder that it is sent as.
pub data Replacement : Type 0 where
  detected : Text → Replacement
  shielded : Text → Replacement

pub record Span : Type 0 where
  pub start : ℕ
  pub end : ℕ
  pub replacement : Replacement

abbrev pub entity_span : {S : Type 0} → PiiEntity S → Span
entity_span e = record { start = e.start; end = e.end; replacement = detected e.entity_type }

module _ (u : DecimalClass) where
  -- The first loop of `_shield_literals`: a literal that nothing has taken yet is reserved.
  unfoldable pub reserve_untaken : List LiteralMatch → PiiMapping → PiiMapping
  reserve_untaken [] m = m
  reserve_untaken (x ∷ matches) m =
      let next = if is_some (get_original m x.literal) then m else reserve_text u x.literal m in
      reserve_untaken matches next

-- The fake of an issued literal: the one that it has, or a fresh placeholder.
unfoldable pub literal_fake : LiteralMatch → PiiMapping → Text × PiiMapping
unfolding numbered_placeholder
literal_fake x m = elim (get_fake m x.literal) [
  | some fake ↦ (fake, m)
  | none ↦ let fake = numbered_placeholder x.group m in (fake, add_literal x.literal fake m)
]

module _ {S : Type 0} (entities : List (PiiEntity S)) where
  -- The second loop: an issued literal that overlaps no entity is swapped.
  unfoldable pub swap_issued : List LiteralMatch → PiiMapping → List Span × PiiMapping
  unfolding literal_fake
  swap_issued [] m = ([], m)
  swap_issued (x ∷ matches) m =
      let untouched =
        not (is_some (get_original m x.literal))
        || any (λ (e : PiiEntity S). ltb e.start x.end && ltb x.start e.end) entities in
      let (fake, m') = literal_fake x m in
      let (swaps, m'') = swap_issued matches (if untouched then m else m') in
      if untouched
      then (swaps, m'')
      else (record { start = x.start; end = x.end; replacement = shielded fake } ∷ swaps, m'')

  unfoldable pub shield_literals : DecimalClass → Text → PiiMapping → List Span × PiiMapping
  unfolding reserve_untaken swap_issued
  shield_literals u text m =
      let matches = find_literals u text in swap_issued matches (reserve_untaken u matches m)

module _ (generate : Text → Text → ℕ → Text) where
  -- A candidate that would forward the original, or restore another one.
  abbrev pub collides : PiiMapping → Text → Text → Bool
  collides m original fake = text_eq fake original || is_some (get_original m fake)

  -- The loop over the variants, with the retries left.
  unfoldable pub retry : PiiMapping → Text → Text → ℕ → ℕ → Text → Text
  retry m entity_type original zero retries fake = fake
  retry m entity_type original (suc left) retries fake =
      let next =
        retry m entity_type original left (suc retries)
          (generate entity_type original (suc retries)) in
      if collides m original fake then next else fake

  unfoldable pub fake_replacement : Text → Text → PiiMapping → Outcome Text
  unfolding retry
  fake_replacement entity_type original m =
      let fake = retry m entity_type original 10 0 (generate entity_type original 0) in
      if collides m original fake then exhausted entity_type else ok fake

  module _ (config : AnonymizationConfig) where
    unfoldable pub make_placeholder : Text → Text → PiiMapping → Outcome Text
    unfolding method_for masking_char_for fake_replacement numbered_placeholder
    make_placeholder entity_type original m =
        let method = method_for config entity_type in
        if text_eq method (codes "mask")
        then ok (repeated (length original) (masking_char_for config entity_type))
        else if text_eq method (codes "redact")
        then ok (b'[' ∷ (entity_type ++ b']' ∷ []))
        else if text_eq method (codes "fake_replacement")
        then fake_replacement entity_type original m
        else ok (numbered_placeholder entity_type m)

    -- What one detected span becomes, and the mapping after it.
    unfoldable pub replace_entity : Text → Text → PiiMapping → Outcome (Text × PiiMapping)
    unfolding make_placeholder method_for
    replace_entity entity_type original m =
        let fresh =
          (make_placeholder entity_type original m >>= λ fake.
          ok (fake, add original fake entity_type m)) in
        if is_irreversible_method (method_for config entity_type)
        then (make_placeholder entity_type original m >>= λ fake.
            ok (fake, note original entity_type m))
        else elim (get_fake m original) [
          | none ↦ fresh
          | some [] ↦ fresh
          | some (c ∷ fake) ↦ ok (c ∷ fake, m)
        ]

    -- The loop of `anonymize`, over the spans from right to left.
    unfoldable pub replace_spans : List Span → Text → PiiMapping → Outcome (Text × PiiMapping)
    unfolding replace_entity
    replace_spans [] text m = ok (text, m)
    replace_spans (s ∷ spans) text m = elim s.replacement [
      | shielded fake ↦ replace_spans spans (take s.start text ++ (fake ++ drop s.end text)) m
      | detected entity_type ↦
          (replace_entity entity_type (slice text s.start s.end) m >>= λ r.
          replace_spans spans (take s.start text ++ (r.0 ++ drop s.end text)) r.1)
    ]

    unfoldable pub anonymize :
        {S : Type 0}
        → DecimalClass
        → Text
        → List (PiiEntity S)
        → PiiMapping
        → Outcome (Text × PiiMapping)
    unfolding shield_literals replace_spans
    anonymize u text entities m =
        let (swaps, m') = shield_literals entities u text m in
        let spans = map entity_span entities ++ swaps in
        if null entities && null swaps
        then ok (text, m')
        else replace_spans (sorted (λ a b. leb b.start a.start) spans) text m'
