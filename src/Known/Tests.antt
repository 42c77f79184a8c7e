-- ===== src/Known/Tests.antt =====
-- The theorems on `_with_known_values` of privaite/pii/engine.py at concrete inputs.
use priv_ai_te.Prelude.{
  ℕ, ◌≡◌, refl, Bool, true, false, ◌&&◌, ◌||◌, some, List, [], ◌∷◌, ltb, leb, Text, codes, arith,
}
use priv_ai_te.Prelude.Dicts.{insert, lookup}
use priv_ai_te.Entity.{PiiEntity}
use priv_ai_te.Entity.Coverage.{covered}
use priv_ai_te.Mapping.{empty, remember}
use priv_ai_te.Known.{
  Alphabet, SecretMatch, token_shaped, stands_alone, occurrences, remember_matches,
  with_known_values,
}
use priv_ai_te.Known.Laws.{is_found}
use priv_ai_te.Known.Laws

program : Unit {0}
unfolding token_shaped stands_alone occurrences remember_matches remember insert
program = tt

abbrev ascii : Alphabet
ascii = record {
  is_alnum = λ c. (ltb 47 c && ltb c 58) || (ltb 96 c && ltb c 123);
  is_digit = λ c. ltb 47 c && ltb c 58;
}

abbrev source_text : Text
source_text = codes "pw=abcdefg1 abcdefg1"

abbrev found : List (PiiEntity ℕ)
found =
    record {
      entity_type = codes "SECRET";
      text = codes "abcdefg1";
      start = 3;
      end = 11;
      score = 90;
      source = codes "presidio";
    }
    ∷ []

abbrev rules : Text → List SecretMatch
rules text = record { start = 3; end = 11; entity_type = codes "SECRET" } ∷ []

abbrev nothing_blocked : Text → Bool
nothing_blocked t = false

remembered :
    lookup
      (codes "abcdefg1")
      (remember_matches ascii 100 source_text found (rules source_text) empty).known
    ≡ some (codes "SECRET")
unfolding program
remembered = refl

second_copy : is_found 12 (occurrences (codes "abcdefg1") 0 0 source_text) ≡ true
unfolding program
second_copy = refl

second_copy_alone : stands_alone ascii source_text 12 20 ≡ true
unfolding program
second_copy_alone = refl

with_known_values-stands_alone_example :
    covered 15
      (with_known_values ascii 100
        (λ a b. leb b a)
        nothing_blocked
        nothing_blocked
        (codes "longest_span")
        (some rules)
        source_text
        found
        empty).0
    ≡ true
with_known_values-stands_alone_example =
    Laws.with_known_values-stands_alone ascii 100 (λ a b. leb b a) nothing_blocked nothing_blocked
      (codes "longest_span") rules source_text (codes "abcdefg1") (codes "SECRET") found empty 15 12
      remembered (omega arith) (omega arith) second_copy second_copy_alone
