-- ===== src/AllowList/Tests.antt =====
-- Runs of privaite/pii/allow_list.py, and its theorem at a concrete input.
use priv_ai_te.Prelude.{
  ℕ, ◌≡◌, refl, true, false, not, none, List, [], ◌∷◌, Text, codes, text_eq, slice, arith,
}
use priv_ai_te.Entity.{PiiEntity}
use priv_ai_te.AllowList.{
  AllowRule, allows, sorted_and_disjoint, touched, is_allowed, mark, refused_over, apply_allow_list,
}
use priv_ai_te.AllowList.Laws.{filter, is_exempt}
use priv_ai_te.AllowList.Laws
use priv_ai_te.AllowList.Touched

program : Unit {0}
unfolding allows sorted_and_disjoint touched is_allowed mark refused_over apply_allow_list
program = tt

abbrev source_text : Text
source_text = codes "host.example Ann"

abbrev entity : Text → ℕ → ℕ → PiiEntity ℕ
entity t start end = record {
  entity_type = t;
  text = slice source_text start end;
  start = start;
  end = end;
  score = 90;
  source = codes "presidio";
}

abbrev rules : List AllowRule
rules = record { matches = text_eq (codes "host.example"); entity_types = none } ∷ []

abbrev protected : List Text
protected = codes "SECRET" ∷ []

abbrev found : List (PiiEntity ℕ)
found = entity (codes "URL") 0 12 ∷ entity (codes "PERSON") 13 16 ∷ []

-- The listed host is let through; under a secret of the same text it is not.
let_through :
    (apply_allow_list source_text found found rules protected).allowed
    ≡ entity (codes "URL") 0 12 ∷ []
unfolding program
let_through = refl

kept_as_secret :
    (apply_allow_list source_text found
      (entity (codes "SECRET") 0 12 ∷ found)
      rules
      protected).allowed
    ≡ []
unfolding program
kept_as_secret = refl

found_sorted : sorted_and_disjoint found ≡ true
unfolding program
found_sorted = refl

apply_allow_list_example :
    ((apply_allow_list source_text found found rules protected).redacted
      ≡ filter (λ e. not (is_exempt source_text rules protected found e)) found)
    × ((apply_allow_list source_text found found rules protected).allowed
        ≡ filter (is_exempt source_text rules protected found) found)
apply_allow_list_example =
    Laws.apply_allow_list_lem source_text rules protected found found refl
      (omega arith, (omega arith, tt))

touched_lem_example :
    touched true found (entity (codes "URL") 5 14) ≡ touched false found (entity (codes "URL") 5 14)
touched_lem_example =
    Touched.touched_lem found (entity (codes "URL") 5 14) found_sorted
      (omega arith, (omega arith, tt))
