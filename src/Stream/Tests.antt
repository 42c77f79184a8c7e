-- ===== src/Stream/Tests.antt =====
-- Runs of the streaming restorer (privaite/streaming/buffer.py), and its theorems at concrete inputs.
use priv_ai_te.Prelude.{◌≡◌, refl, List, [], ◌∷◌, ◌++◌, Text, codes, concat}
use priv_ai_te.Prelude.Dicts.{Dict, Distinct}
use priv_ai_te.Restore.{non_empty, alternatives, match_at, substitute, deanonymize_exact}
use priv_ai_te.Restore.Markers.{AllMarkers, AllMarkers-PrefixFree}
use priv_ai_te.Stream.{
  get_child, update_child, insert_trie, lookup_loop, trie_lookup, has_prefix, insert_all, init,
  feed_loop, feed, flush,
}
use priv_ai_te.Stream.Whole
use priv_ai_te.Stream.Whole.{feed_all, restore_stream}
use priv_ai_te.Stream.Eager

program : Unit {0}
unfolding get_child update_child insert_trie lookup_loop trie_lookup has_prefix insert_all init
    feed_loop feed flush feed_all restore_stream non_empty alternatives match_at substitute
    deanonymize_exact
program = tt

abbrev issued : Dict Text
issued = (codes "<PERSON_1>", codes "Bob") ∷ (codes "<PERSON_12>", codes "Eve") ∷ []

abbrev fragments : List Text
fragments = codes "Hi <PER" ∷ codes "SON_1" ∷ codes "2> and <PERSON_1>!<" ∷ codes "PE" ∷ []

streamed : restore_stream issued fragments ≡ codes "Hi Eve and Bob!<PE"
unfolding program
streamed = refl

at_once : deanonymize_exact issued (concat fragments) ≡ codes "Hi Eve and Bob!<PE"
unfolding program
at_once = refl

-- Fakes that begin with one another: what is restored depends on how the reply is cut.
abbrev names : Dict Text
names = (codes "Ann", codes "Joan") ∷ (codes "Anna", codes "Mary") ∷ []

cut_between :
    (restore_stream names (codes "Ann" ∷ codes "a" ∷ []) ≡ codes "Joana")
    × (restore_stream names (codes "Anna" ∷ []) ≡ codes "Mary")
    × (deanonymize_exact names (codes "Anna") ≡ codes "Mary")
unfolding program
cut_between = (refl, refl, refl)

issued-Distinct : Distinct issued
issued-Distinct = (refl, (refl, tt))

issued-AllMarkers : AllMarkers issued
issued-AllMarkers = (refl, (refl, tt))

restore_stream-deanonymize_exact_example :
    restore_stream issued fragments ≡ deanonymize_exact issued (concat fragments)
restore_stream-deanonymize_exact_example =
    Whole.restore_stream-deanonymize_exact issued issued-Distinct issued-AllMarkers fragments

feed_all-deanonymize_exact_example :
    deanonymize_exact issued (concat fragments)
    ≡ (feed_all (init issued) fragments).1
      ++ deanonymize_exact issued (feed_all (init issued) fragments).0.buffer
feed_all-deanonymize_exact_example =
    Whole.feed_all-deanonymize_exact issued issued-Distinct
      (AllMarkers-PrefixFree issued issued-AllMarkers) fragments

feed-fake_example :
    ((feed (init names) (codes "Ann")).1 ≡ codes "Joan")
    × ((feed (init names) (codes "Ann")).0.buffer ≡ [])
feed-fake_example =
    Eager.feed-fake names (refl, (refl, tt)) (codes "Ann") (codes "Joan") (λ e. cc) refl
