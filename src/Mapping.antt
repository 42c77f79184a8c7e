-- ===== src/Mapping.antt =====
-- privaite/pii/mapping.py: the per-request table of originals and what replaces them.
pub mod Reserved
use priv_ai_te.Prelude.{
  ℕ, ◌+◌, Bool, ◌||◌, not, Option, List, [], ◌++◌, map, null, if◌then◌else◌, Text, text_eq, any,
}
use priv_ai_te.Prelude.Dicts.{Dict, lookup, lookup_or, has_key, insert}
use priv_ai_te.Json.{Json, Items, Fields, boolean, number, str, arr, obj, nil, item, end, field}
use priv_ai_te.Literal.{DecimalClass, find_literals}

pub record PiiMapping : Type 0 where
  pub original_to_fake : Dict Text
  pub fake_to_original : Dict Text
  pub entity_types : Dict Text
  pub type_counters : Dict ℕ
  -- A set: only membership is read.
  pub reserved : List Text
  pub known : Dict Text

abbrev pub empty : PiiMapping
empty = record {
  original_to_fake = [];
  fake_to_original = [];
  entity_types = [];
  type_counters = [];
  reserved = [];
  known = [];
}

abbrev pub count_one : Text → Dict ℕ → Dict ℕ
count_one t counters = insert t (lookup_or 0 t counters + 1) counters

unfoldable pub add : Text → Text → Text → PiiMapping → PiiMapping
add original fake entity_type m = record m {
  original_to_fake = insert original fake m.original_to_fake;
  fake_to_original = insert fake original m.fake_to_original;
  entity_types = insert original entity_type m.entity_types;
  type_counters = count_one entity_type m.type_counters;
}

unfoldable pub note : Text → Text → PiiMapping → PiiMapping
note original entity_type m =
    let counters =
      if has_key original m.entity_types
      then m.type_counters
      else count_one entity_type m.type_counters in
    record m { entity_types = insert original entity_type m.entity_types; type_counters = counters }

unfoldable pub add_literal : Text → Text → PiiMapping → PiiMapping
add_literal literal fake m = record m {
  original_to_fake = insert literal fake m.original_to_fake;
  fake_to_original = insert fake literal m.fake_to_original;
}

abbrev pub is_taken : PiiMapping → Text → Bool
is_taken m fake = any (λ r. text_eq r fake) m.reserved || has_key fake m.fake_to_original

abbrev pub next_index : PiiMapping → Text → ℕ
next_index m entity_type = lookup_or 0 entity_type m.type_counters + 1

abbrev pub get_fake : PiiMapping → Text → Option Text
get_fake m original = lookup original m.original_to_fake

abbrev pub get_original : PiiMapping → Text → Option Text
get_original m fake = lookup fake m.fake_to_original

abbrev pub has_original : PiiMapping → Text → Bool
has_original m original = has_key original m.original_to_fake

abbrev pub get_entity_type : PiiMapping → Text → Option Text
get_entity_type m original = lookup original m.entity_types

-- `setdefault`.
unfoldable pub remember : Text → Text → PiiMapping → PiiMapping
remember value entity_type m =
    if has_key value m.known then m else record m { known = insert value entity_type m.known }

abbrev pub has_detections : PiiMapping → Bool
has_detections m = not (null m.entity_types)

abbrev pub is_empty : PiiMapping → Bool
is_empty m = null m.original_to_fake

module _ (u : DecimalClass) where
  -- `reserve` of a string.
  unfoldable pub reserve_text : Text → PiiMapping → PiiMapping
  reserve_text value m = record m {
    reserved = map (λ x. x.literal) (find_literals u value) ++ m.reserved;
  }

  -- `reserve` of a JSON document, whose containers are each reached once. (The guard by `id` is
  -- for an in-process host's containers that are shared or cyclic.)
  unfoldable mutual
    unfolding reserve_text

    pub reserve : Json → PiiMapping → PiiMapping
    reserve (str value) m = reserve_text value m
    reserve (obj fields) m = reserve_fields fields m
    reserve (arr items) m = reserve_items items m
    reserve (number n) m = m
    reserve (boolean b) m = m
    reserve Json.null m = m

    pub reserve_items : Items → PiiMapping → PiiMapping
    reserve_items nil m = m
    reserve_items (item j items) m = reserve_items items (reserve j m)

    pub reserve_fields : Fields → PiiMapping → PiiMapping
    reserve_fields end m = m
    reserve_fields (field k j fields) m = reserve_fields fields (reserve j (reserve_text k m))
