-- ===== src/Cache/Tests.antt =====
-- Runs of privaite/pii/cache.py, and its theorems at concrete inputs.
use priv_ai_te.Prelude.{ℕ, ◌≡◌, refl, false, some, List, [], ◌∷◌, Text, codes, arith}
use priv_ai_te.Prelude.Dicts.{insert, delete}
use priv_ai_te.Ordered.{Each, move_to_end, evict, store}
use priv_ai_te.Entity.{PiiEntity}
use priv_ai_te.Cache.{
  DetectionCache, is_expired, get, put, purge_expired, expired_keys, delete_keys,
  spans_from_entities, entities_from_spans,
}
use priv_ai_te.Cache.Laws

program : Unit {0}
unfolding get put purge_expired expired_keys delete_keys move_to_end evict store insert delete
program = tt

abbrev two_entries : DetectionCache Text
two_entries = record {
  max_entries = 2;
  ttl = 10;
  entries = (codes "a", (0, codes "x")) ∷ (codes "b", (5, codes "y")) ∷ [];
  hits = 0;
  misses = 0;
}

-- A read keeps the older entry; the other one makes room.
touched :
    (put 8 (codes "c") (codes "z") (get 7 (codes "a") two_entries).1).entries
    ≡ (codes "a", (0, codes "x")) ∷ (codes "c", (8, codes "z")) ∷ []
unfolding program
touched = refl

put-Each_example :
    Each (λ e. is_expired 10 12 e ≡ false) ((put 12 (codes "c") (codes "z") two_entries).entries)
put-Each_example = Laws.put-Each 12 (codes "c") (codes "z") two_entries

get-put_example :
    (get 22 (codes "c") (put 12 (codes "c") (codes "z") two_entries)).0 ≡ some (codes "z")
get-put_example = Laws.get-put 12 22 (codes "c") (codes "z") two_entries (omega arith) (omega arith)

abbrev found : List (PiiEntity ℕ)
found =
    record {
      entity_type = codes "PERSON";
      text = codes "Ann";
      start = 3;
      end = 6;
      score = 90;
      source = codes "presidio";
    }
    ∷ []

entities_from_spans-spans_from_entities_example :
    entities_from_spans (spans_from_entities found) (codes "hi Ann") ≡ found
entities_from_spans-spans_from_entities_example =
    Laws.entities_from_spans-spans_from_entities (codes "hi Ann") found (refl, tt)
