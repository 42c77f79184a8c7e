-- ===== src/Engine/Tests.antt =====
-- Runs of privaite/pii/engine.py, and its theorems at concrete inputs.
use priv_ai_te.Prelude.{ℕ, ◌≡◌, refl, Option, none, List, Text, codes, arith}
use priv_ai_te.Json.{Json, number, str, arr, nil, item}
use priv_ai_te.Entity.{PiiEntity}
use priv_ai_te.Mapping.{PiiMapping, empty, add}
use priv_ai_te.Anonymizer.Coherent.{IsCoherent}
use priv_ai_te.Anonymizer.Extends.{Extends}
use priv_ai_te.Engine.{passed, anonymize_text, walk_anonymize}
use priv_ai_te.Engine.Laws
use priv_ai_te.Engine.Traced
use priv_ai_te.Engine.Fixture.{engine, program}

abbrev document : Json
document =
    arr (
      item (str (codes "Ann is")) (item (number (codes "12345678")) (item (str (codes "Ann")) nil)))

abbrev scrubbed : Json
scrubbed = arr (
    item (str (codes "<PERSON_1> is"))
      (item (number (codes "12345678")) (item (str (codes "<PERSON_1>")) nil)))

abbrev issued : PiiMapping
issued = add (codes "Ann") (codes "<PERSON_1>") (codes "PERSON") empty

-- The same name gets the same placeholder in the whole document.
walked : walk_anonymize engine document empty ≡ passed (scrubbed, issued)
unfolding program
walked = refl

empty-IsCoherent : IsCoherent empty
empty-IsCoherent = record { restores = λ o f h. ground arith; distinct = tt }

walk_anonymize-IsTraced_example :
    IsCoherent issued × Extends empty issued × Traced.IsTraced engine issued document scrubbed
walk_anonymize-IsTraced_example =
    Traced.walk_anonymize-IsTraced engine document scrubbed empty issued walked empty-IsCoherent

scrubbed_text :
    anonymize_text engine (codes "Ann is") empty ≡ passed (codes "<PERSON_1> is", issued)
unfolding program
scrubbed_text = refl

abbrev broken : Text → Option (List (PiiEntity ℕ))
broken text = none
