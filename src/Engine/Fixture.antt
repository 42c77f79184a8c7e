-- ===== src/Engine/Fixture.antt =====
-- An engine with one detector, on which the tests of privaite/pii/engine.py and of
-- privaite/gateway/scrub.py run the code; `program` unfolds what it runs.
use priv_ai_te.Prelude.{
  ℕ, refl, ◌&&◌, Option, none, some, List, [], ◌∷◌, ltb, leb, if◌then◌else◌, Text, codes, arith,
}
use priv_ai_te.Prelude.Decimals.{decimal}
use priv_ai_te.Prelude.Dicts.{insert}
use priv_ai_te.Prelude.Prefixes.{is_prefix}
use priv_ai_te.Entity.{
  PiiEntity, merge_entities, merge_union, union_loop, merge_pair, merged_text, winner_of,
}
use priv_ai_te.Literal.{
  DecimalClass, find_literals, find_from, match_literal, lazy_group, number_suffix, digits_close,
}
use priv_ai_te.Mapping.{add, reserve_text}
use priv_ai_te.Anonymizer.{
  numbered_placeholder, free_index, anonymize, replace_spans, replace_entity, make_placeholder,
  method_for, masking_char_for, is_irreversible, shield_literals, swap_issued, reserve_untaken,
  literal_fake,
}
use priv_ai_te.AllowList.{apply_allow_list}
use priv_ai_te.Known.{type_priorities, with_known_values}
use priv_ai_te.Engine.{
  PiiEngine, gather, redacted, detect_all, blocked_types, gate_and_anonymize, known_entities,
  anonymize_text, anonymize_number, walk_anonymize, walk_items, walk_fields,
}

unfoldable pub program : Unit {0}
unfolding numbered_placeholder free_index anonymize replace_spans replace_entity make_placeholder
    method_for masking_char_for is_irreversible shield_literals swap_issued reserve_untaken
    literal_fake find_literals find_from match_literal lazy_group number_suffix digits_close add
    reserve_text decimal insert merge_entities merge_union union_loop merge_pair merged_text
    winner_of apply_allow_list type_priorities with_known_values gather redacted detect_all
    blocked_types gate_and_anonymize known_entities anonymize_text anonymize_number walk_anonymize
    walk_items walk_fields
program = tt

abbrev pub ascii : DecimalClass
ascii = record {
  decimal = λ c. ltb 47 c && ltb c 58;
  decimal_digit = λ n h. ground arith;
  decimal_underscore = refl;
  decimal_close = refl;
}

-- It finds one name, at the start of a text.
abbrev pub detect : Text → Option (List (PiiEntity ℕ))
detect text =
    if is_prefix (codes "Ann") text
    then some (
        record {
          entity_type = codes "PERSON";
          text = codes "Ann";
          start = 0;
          end = 3;
          score = 90;
          source = codes "presidio";
        }
        ∷ [])
    else some []

abbrev pub engine : PiiEngine ℕ
engine = record {
  score_ge = λ a b. leb b a;
  certain = 100;
  alphabet = record { is_alnum = λ c. ltb 47 c; is_digit = λ c. ltb 47 c && ltb c 58 };
  decimals = ascii;
  generate = λ t o k. o;
  detectors = detect ∷ [];
  secret_rules = none;
  block_entities = codes "SECRET" ∷ [];
  allow_rules = [];
  merge_strategy = codes "union";
  overlap_resolution = codes "longest_span";
  anonymization = record { method = codes "placeholder"; entity_overrides = [] };
}
