-- ===== src/Anonymizer/Tests.antt =====
-- Runs of privaite/pii/anonymizer.py, and its theorems at concrete inputs.
use priv_ai_te.Prelude.{
  ℕ, zero, suc, ◌≡◌, ◌≢◌, ◌↔◌, ◌≤◌, refl, true, false, ◌&&◌, none, List, [], ◌∷◌, ltb, Text, codes,
  arith,
}
use priv_ai_te.Prelude.Decimals.{decimal}
use priv_ai_te.Prelude.Dicts.{insert}
use priv_ai_te.Entity.{PiiEntity}
use priv_ai_te.Literal.{
  DecimalClass, find_literals, find_from, match_literal, lazy_group, number_suffix, digits_close,
}
use priv_ai_te.Mapping.{
  PiiMapping, empty, add, is_taken, get_original, reserve_text, note, add_literal, remember,
}
use priv_ai_te.Anonymizer.{
  AnonymizationConfig, ok, exhausted, numbered_placeholder, free_index, fake_replacement, retry,
  collides, anonymize, replace_spans, replace_entity, make_placeholder, method_for,
  masking_char_for, is_irreversible, shield_literals, swap_issued, reserve_untaken, literal_fake,
}
use priv_ai_te.Anonymizer.Fresh
use priv_ai_te.Anonymizer.Fakes
use priv_ai_te.Anonymizer.Coherent.{IsCoherent}
use priv_ai_te.Anonymizer.Coherent
use priv_ai_te.Anonymizer.Lossy.{SameTables}
use priv_ai_te.Anonymizer.Lossy

program : Unit {0}
unfolding numbered_placeholder free_index fake_replacement retry anonymize replace_spans
    replace_entity make_placeholder method_for masking_char_for is_irreversible shield_literals
    swap_issued reserve_untaken literal_fake find_literals find_from match_literal lazy_group
    number_suffix digits_close add reserve_text note add_literal remember decimal insert
program = tt

-- The digits of ASCII.
abbrev ascii : DecimalClass
ascii = record {
  decimal = λ c. ltb 47 c && ltb c 58;
  decimal_digit = λ n h. ground arith;
  decimal_underscore = refl;
  decimal_close = refl;
}

-- A generator that has two names.
abbrev generate : Text → Text → ℕ → Text
generate t o zero = codes "Ann"
generate t o (suc k) = codes "Bob"

abbrev config_of : Text → AnonymizationConfig
config_of method = record { method = method; entity_overrides = [] }

abbrev source_text : Text
source_text = codes "Ann <PERSON_1>"

abbrev found : List (PiiEntity ℕ)
found =
    record {
      entity_type = codes "PERSON";
      text = codes "Ann";
      start = 0;
      end = 3;
      score = 90;
      source = codes "presidio";
    }
    ∷ []

abbrev fresh_mapping : PiiMapping
fresh_mapping = empty

abbrev issued : PiiMapping
issued = add (codes "Eve") (codes "<PERSON_1>") (codes "PERSON") fresh_mapping

-- The literal of the text is reserved, and the placeholder goes around it.
probed :
    (anonymize generate (config_of (codes "placeholder")) ascii source_text found fresh_mapping
      ≡ ok (
        codes "<PERSON_2> <PERSON_1>",
        add
            (codes "Ann")
            (codes "<PERSON_2>")
            (codes "PERSON")
            (reserve_text ascii (codes "<PERSON_1>") fresh_mapping),
      ))
unfolding program
probed = refl

empty-IsCoherent : IsCoherent fresh_mapping
empty-IsCoherent = record { restores = λ o f h. ground arith; distinct = tt }

numbered_placeholder-is_taken_example :
    is_taken issued (numbered_placeholder (codes "PERSON") issued) ≡ false
numbered_placeholder-is_taken_example = Fresh.numbered_placeholder-is_taken (codes "PERSON") issued

-- The generator repeats the original: nothing is left to use.
abbrev echo : Text → Text → ℕ → Text
echo t o k = o

fake_replacement-exhausted_example :
    (fake_replacement echo (codes "PERSON") (codes "Ann") issued ≡ exhausted (codes "PERSON")) ↔ (
      (j : ℕ)
      → j ≤ 10
      → collides echo issued (codes "Ann") (echo (codes "PERSON") (codes "Ann") j) ≡ true)
fake_replacement-exhausted_example =
    Fakes.fake_replacement-exhausted echo issued (codes "PERSON") (codes "Ann")

second_name : fake_replacement generate (codes "PERSON") (codes "Ann") issued ≡ ok (codes "Bob")
unfolding program
second_name = refl

fake_replacement-ok_example :
    (codes "Bob" ≢ codes "Ann") × (get_original issued (codes "Bob") ≡ none)
fake_replacement-ok_example =
    Fakes.fake_replacement-ok generate issued (codes "PERSON") (codes "Ann") (codes "Bob")
      second_name

anonymize-IsCoherent_example : IsCoherent (
    add
      (codes "Ann")
      (codes "<PERSON_2>")
      (codes "PERSON")
      (reserve_text ascii (codes "<PERSON_1>") fresh_mapping))
anonymize-IsCoherent_example =
    Coherent.anonymize-IsCoherent generate (config_of (codes "placeholder")) ascii source_text
      (codes "<PERSON_2> <PERSON_1>") found fresh_mapping
      (add (codes "Ann") (codes "<PERSON_2>") (codes "PERSON")
        (reserve_text ascii (codes "<PERSON_1>") fresh_mapping))
      probed empty-IsCoherent

masked :
    anonymize generate (config_of (codes "mask")) ascii (codes "Ann is in") found fresh_mapping
    ≡ ok (codes "*** is in", note (codes "Ann") (codes "PERSON") fresh_mapping)
unfolding program
masked = refl

no_literals : find_literals ascii (codes "Ann is in") ≡ []
unfolding program
no_literals = refl

person_is_lossy : is_irreversible (config_of (codes "mask")) (codes "PERSON") ≡ true
unfolding program
person_is_lossy = refl

anonymize-SameTables_example :
    SameTables fresh_mapping (note (codes "Ann") (codes "PERSON") fresh_mapping)
anonymize-SameTables_example =
    Lossy.anonymize-SameTables generate (config_of (codes "mask")) ascii (codes "Ann is in")
      (codes "*** is in") found fresh_mapping (note (codes "Ann") (codes "PERSON") fresh_mapping)
      (person_is_lossy, tt) no_literals masked
