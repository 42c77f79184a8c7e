-- ===== src/Engine.antt =====
-- privaite/pii/engine.py: the one way by which text gets anonymized, and the walk over JSON documents.
-- The detectors are functions of the text that may fail; the cache of detections is left out here.
pub mod Laws
pub mod Documents
pub mod Traced
pub mod Quiet
pub mod Fixture
mod Tests
use priv_ai_te.Prelude.{
  ℕ, zero, suc, ◌+◌, Bool, true, false, not, ◌&&◌, ◌||◌, Option, none, some, List, [], ◌∷◌, ◌++◌,
  map, ltb, if◌then◌else◌, Text, codes, text_eq, any, null,
}
use priv_ai_te.Json.{Json, Items, Fields, boolean, number, str, arr, obj, nil, item, end, field}
use priv_ai_te.Entity.{PiiEntity, merge_entities}
use priv_ai_te.Literal.{DecimalClass}
use priv_ai_te.Mapping.{PiiMapping}
use priv_ai_te.Anonymizer.{AnonymizationConfig, Outcome, ok, exhausted, is_irreversible, anonymize}
use priv_ai_te.AllowList.{AllowRule, apply_allow_list}
use priv_ai_te.Known.{Alphabet, SecretMatch, type_priorities, with_known_values}
use priv_ai_te.Restore.{deanonymize_exact}

-- PIIBlockedError carries the types; UnsupportedContentError is of strict mode; every other error
-- becomes PIIProcessingError.
pub data Result {ℓ} (A : Type ℓ) : Type ℓ where
  passed : A → Result A
  blocked : List Text → Result A
  unsupported : Result A
  failed : Result A

infixl 5 ◌>>=◌
abbrev pub ◌>>=◌ {ℓ κ} : {A : Type ℓ} {B : Type κ} → Result A → (A → Result B) → Result B
passed a >>= f = f a
blocked ts >>= f = blocked ts
unsupported >>= f = unsupported
failed >>= f = failed

pub record PiiEngine (S : Type 0) : Type 0 where
  pub score_ge : S → S → Bool
  pub certain : S
  pub alphabet : Alphabet
  pub decimals : DecimalClass
  pub generate : Text → Text → ℕ → Text
  pub detectors : List (Text → Option (List (PiiEntity S)))
  pub secret_rules : Option (Text → List SecretMatch)
  pub block_entities : List Text
  pub allow_rules : List AllowRule
  pub merge_strategy : Text
  pub overlap_resolution : Text
  pub anonymization : AnonymizationConfig

module _ {S : Type 0} where
  -- The results of all detectors, or none if one of them failed.
  unfoldable pub gather :
      List (Text → Option (List (PiiEntity S))) → Text → Option (List (PiiEntity S))
  gather [] text = some []
  gather (detect ∷ detectors) text = elim (detect text) [
    | none ↦ none
    | some found ↦ elim (gather detectors text) [ none ↦ none | some rest ↦ some (found ++ rest) ]
  ]

  module _ (g : PiiEngine S) where
    abbrev pub is_blocked : Text → Bool
    is_blocked t = any (λ b. text_eq b t) g.block_entities

    -- The merge of what was found, less what the allow list lets through.
    unfoldable pub redacted : Text → List (PiiEntity S) → List (PiiEntity S)
    unfolding is_irreversible type_priorities merge_entities apply_allow_list
    redacted text all_entities =
        let priorities =
          type_priorities g.alphabet g.certain is_blocked (is_irreversible g.anonymization)
            all_entities [] in
        let merged =
          merge_entities g.score_ge all_entities g.merge_strategy g.overlap_resolution (some text)
            (some priorities) in
        let verdict =
          apply_allow_list text merged all_entities g.allow_rules
            (codes "SECRET" ∷ g.block_entities) in
        verdict.redacted

    unfoldable pub detect_all : Text → Result (List (PiiEntity S))
    unfolding gather redacted
    detect_all text = elim (null g.detectors) [
      | true ↦ passed []
      | false ↦ elim (gather g.detectors text) [
        | none ↦ failed
        | some all_entities ↦ passed (redacted text all_entities)
      ]
    ]

    unfoldable pub blocked_types : List (PiiEntity S) → List Text
    blocked_types [] = []
    blocked_types (e ∷ entities) =
        if is_blocked e.entity_type
        then e.entity_type ∷ blocked_types entities
        else blocked_types entities

    -- The gate, then the anonymizer.
    unfoldable pub gate_and_anonymize :
        Text → List (PiiEntity S) × PiiMapping → Result (Text × PiiMapping)
    unfolding blocked_types anonymize
    gate_and_anonymize text (entities, m) = elim (blocked_types entities) [
      | t ∷ ts ↦ blocked (t ∷ ts)
      | [] ↦ elim (anonymize g.generate g.anonymization g.decimals text entities m) [
        | exhausted t ↦ failed
        | ok r ↦ passed r
      ]
    ]

    unfoldable pub known_entities :
        Text → List (PiiEntity S) → PiiMapping → List (PiiEntity S) × PiiMapping
    unfolding with_known_values is_irreversible
    known_entities =
        with_known_values g.alphabet g.certain g.score_ge is_blocked
          (is_irreversible g.anonymization) g.overlap_resolution g.secret_rules

    unfoldable pub anonymize_text : Text → PiiMapping → Result (Text × PiiMapping)
    unfolding detect_all known_entities gate_and_anonymize
    anonymize_text text m =
        if null text
        then passed (text, m)
        else (detect_all text >>= λ entities.
            gate_and_anonymize text (known_entities text entities m))

    abbrev pub digit_count : Text → ℕ
    digit_count [] = 0
    digit_count (c ∷ t) = if g.alphabet.is_digit c then suc (digit_count t) else digit_count t

    -- A number of at least seven digits becomes a string if something in it is replaced.
    unfoldable pub anonymize_number : Text → PiiMapping → Result (Json × PiiMapping)
    unfolding anonymize_text
    anonymize_number as_text m =
        if ltb (digit_count as_text) 7
        then passed (number as_text, m)
        else (anonymize_text as_text m >>= λ r.
            passed ((if text_eq r.0 as_text then number as_text else str r.0), r.1))

    -- `_walk_anonymize`.
    unfoldable mutual
      unfolding anonymize_text anonymize_number

      pub walk_anonymize : Json → PiiMapping → Result (Json × PiiMapping)
      walk_anonymize (str value) m = anonymize_text value m >>= λ r. passed (str r.0, r.1)
      walk_anonymize (number n) m = anonymize_number n m
      walk_anonymize (obj fields) m = walk_fields fields m >>= λ r. passed (obj r.0, r.1)
      walk_anonymize (arr items) m = walk_items items m >>= λ r. passed (arr r.0, r.1)
      walk_anonymize (boolean b) m = passed (boolean b, m)
      walk_anonymize Json.null m = passed (Json.null, m)

      pub walk_items : Items → PiiMapping → Result (Items × PiiMapping)
      walk_items nil m = passed (nil, m)
      walk_items (item j items) m =
          walk_anonymize j m >>= λ r. (walk_items items r.1 >>= λ rs. passed (item r.0 rs.0, rs.1))

      pub walk_fields : Fields → PiiMapping → Result (Fields × PiiMapping)
      walk_fields end m = passed (end, m)
      walk_fields (field k j fields) m = walk_anonymize j m >>= λ r.
          (walk_fields fields r.1 >>= λ rs. passed (field k r.0 rs.0, rs.1))

-- `_walk_deanonymize`, without fuzzy matching: keys and other leaves stay.
unfoldable mutual
  unfolding deanonymize_exact

  pub walk_deanonymize : PiiMapping → Json → Json
  walk_deanonymize m (str value) =
      str (if null m.original_to_fake then value else deanonymize_exact m.fake_to_original value)
  walk_deanonymize m (obj fields) = obj (restore_fields m fields)
  walk_deanonymize m (arr items) = arr (restore_items m items)
  walk_deanonymize m (number n) = number n
  walk_deanonymize m (boolean b) = boolean b
  walk_deanonymize m Json.null = Json.null

  pub restore_items : PiiMapping → Items → Items
  restore_items m nil = nil
  restore_items m (item j items) = item (walk_deanonymize m j) (restore_items m items)

  pub restore_fields : PiiMapping → Fields → Fields
  restore_fields m end = end
  restore_fields m (field k j fields) = field k (walk_deanonymize m j) (restore_fields m fields)
