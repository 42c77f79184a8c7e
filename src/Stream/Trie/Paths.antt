-- ===== src/Stream/Trie/Paths.antt =====
-- `_has_prefix` of privaite/streaming/buffer.py: the paths of the trie are the prefixes of its keys.
use priv_ai_te.Prelude.{
  ℕ, max, ◌≡◌, refl, sym, ◌∙◌, true, false, Option, none, some, [], ◌∷◌, arith, Text, length, any,
  ◌||◌,
}
use priv_ai_te.Prelude.Dicts.{Dict}
use priv_ai_te.Prelude.Prefixes.{is_prefix}
use priv_ai_te.Stream.{
  TrieNode, node, Children, empty_node, get_child, update_child, insert_trie, has_prefix,
  insert_all,
}
use priv_ai_te.Stream.Trie.{or_empty, insert_trie-nil, insert_trie-cons, get_child-update_child}

pub has_prefix-nil : (t : TrieNode) → has_prefix t [] ≡ true
unfolding has_prefix
has_prefix-nil t = refl

pub has_prefix-empty : (c : ℕ) (s : Text) → has_prefix empty_node (c ∷ s) ≡ false
unfolding has_prefix
has_prefix-empty c s = refl

has_prefix-or_empty :
    (c d : ℕ) (s : Text) (ch : Children) (v : Option Text)
    → has_prefix (node ch v) (c ∷ d ∷ s) ≡ has_prefix (or_empty (get_child c ch)) (d ∷ s)
unfolding has_prefix
has_prefix-or_empty c d s ch v = ground (arith, has_prefix-empty d s)

has_prefix-one :
    (c : ℕ) (ch : Children) (v : Option Text)
    → has_prefix (node ch v) (c ∷ []) ≡ elim (get_child c ch) [ none ↦ false | some u ↦ true ]
unfolding has_prefix
has_prefix-one c ch v = ground arith

-- After an insertion, the paths of the trie are those that it had and the prefixes of the key.
has_prefix-insert_trie :
    (s j v : Text) (t : TrieNode)
    → has_prefix (insert_trie j v t) s ≡ (is_prefix s j || has_prefix t s)
has_prefix-insert_trie [] j v t = has_prefix-nil (insert_trie j v t)
has_prefix-insert_trie (c ∷ s) [] v (node ch o) = rw insert_trie-nil (paths_only c s ch o)
  where
    paths_only :
        (c : ℕ) (s : Text) (ch : Children) (o : Option Text)
        → has_prefix (node ch (some v)) (c ∷ s) ≡ has_prefix (node ch o) (c ∷ s)
    paths_only c [] ch o = has_prefix-one c ch (some v) ∙ sym (has_prefix-one c ch o)
    paths_only c (d ∷ s) ch o =
        has_prefix-or_empty c d s ch (some v) ∙ sym (has_prefix-or_empty c d s ch o)
has_prefix-insert_trie (c ∷ []) (d ∷ j) v (node ch o) = ground (
  arith,
  insert_trie-cons d j v ch o,
  has_prefix-one c (update_child d (insert_trie j v) ch) o,
  has_prefix-one c ch o,
  get_child-update_child c d (insert_trie j v) ch,
)
has_prefix-insert_trie (c ∷ e ∷ s) (d ∷ j) v (node ch o) = ground (
  arith,
  insert_trie-cons d j v ch o,
  has_prefix-or_empty c e s (update_child d (insert_trie j v) ch) o,
  has_prefix-or_empty c e s ch o,
  get_child-update_child c d (insert_trie j v) ch,
  has_prefix-insert_trie (e ∷ s) j v (or_empty (get_child d ch)),
)

pub has_prefix-insert_all :
    (s : Text) (d : Dict Text) (t : TrieNode) (n : ℕ)
    → has_prefix (insert_all d t n).0 s ≡ (any (λ e. is_prefix s e.0) d || has_prefix t s)
unfolding insert_all
has_prefix-insert_all s [] t n = refl
has_prefix-insert_all s ((f, o) ∷ d) t n = ground (
  arith,
  has_prefix-insert_all s d (insert_trie f o t) (max n (length f)),
  has_prefix-insert_trie s f o t,
)
