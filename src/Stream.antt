-- ===== src/Stream.antt =====
-- privaite/streaming/buffer.py: the restorer of streamed text. A trie of the issued placeholders
-- holds a fragment back while it may still become one.
pub mod Trie
pub mod Batch
pub mod Whole
pub mod Held
pub mod Eager
mod Tests
use priv_ai_te.Prelude.{
  ℕ, zero, suc, ◌+◌, max, Bool, true, false, ◌&&◌, Option, none, some, List, [], ◌∷◌, ◌++◌, leb,
  ◌==◌, if◌then◌else◌, Text, length, drop,
}
use priv_ai_te.Prelude.Dicts.{Dict}

mutual
  pub data TrieNode : Type 0 where
    node : Children → Option Text → TrieNode

  pub data Children : Type 0 where
    nil : Children
    child : ℕ → TrieNode → Children → Children

abbrev pub empty_node : TrieNode
empty_node = node nil none

abbrev pub value_of : TrieNode → Option Text
value_of (node children value) = value

abbrev pub children_of : TrieNode → Children
children_of (node children value) = children

-- `node.children.get(char)`.
unfoldable pub get_child : ℕ → Children → Option TrieNode
get_child c nil = none
get_child c (child d t rest) = if d == c then some t else get_child c rest

-- The child of `char`, made when it is missing, after `f`.
unfoldable pub update_child : ℕ → (TrieNode → TrieNode) → Children → Children
update_child c f nil = child c (f empty_node) nil
update_child c f (child d t rest) =
    if d == c then child d (f t) rest else child d t (update_child c f rest)

unfoldable pub insert_trie : Text → Text → TrieNode → TrieNode
unfolding update_child
insert_trie [] value (node children old) = node children (some value)
insert_trie (c ∷ key) value (node children old) =
    node (update_child c (insert_trie key value) children) old

-- The loop of `_trie_lookup`: the last match and its length, if there was one.
unfoldable pub lookup_loop : TrieNode → Text → ℕ → Option (Text × ℕ) → Option (Text × ℕ)
unfolding get_child
lookup_loop t [] i best = best
lookup_loop t (c ∷ text) i best = elim (get_child c (children_of t)) [
  | none ↦ best
  | some u ↦
      lookup_loop u text (suc i) (elim (value_of u) [ none ↦ best | some v ↦ some (v, suc i) ])
]

unfoldable pub trie_lookup : TrieNode → Text → Option (Text × ℕ)
unfolding lookup_loop
trie_lookup root text = lookup_loop root text 0 none

unfoldable pub has_prefix : TrieNode → Text → Bool
unfolding get_child
has_prefix t [] = true
has_prefix t (c ∷ text) = elim (get_child c (children_of t)) [
  | none ↦ false
  | some u ↦ has_prefix u text
]

pub record StreamingDeAnonymizer : Type 0 where
  pub buffer : Text
  pub root : TrieNode
  pub max_fake_length : ℕ

-- The loop of `__init__` over `mapping.get_all_fakes()`.
unfoldable pub insert_all : Dict Text → TrieNode → ℕ → TrieNode × ℕ
unfolding insert_trie
insert_all [] root longest = (root, longest)
insert_all ((fake, original) ∷ d) root longest =
    insert_all d (insert_trie fake original root) (max longest (length fake))

unfoldable pub init : Dict Text → StreamingDeAnonymizer
unfolding insert_all
init fakes =
    let (root, longest) = insert_all fakes empty_node 0 in
    record { buffer = []; root = root; max_fake_length = longest }

-- The loop of `feed`: what it has output, and the buffer that it leaves. Each round takes one
-- character or more off the buffer, so the buffer's length is enough fuel.
unfoldable pub feed_loop : TrieNode → ℕ → ℕ → Text → Text → Text × Text
unfolding trie_lookup has_prefix
feed_loop root longest zero buffer output = (output, buffer)
feed_loop root longest (suc fuel) [] output = (output, [])
feed_loop root longest (suc fuel) (c ∷ buffer) output = elim (trie_lookup root (c ∷ buffer)) [
  | some (value, len) ↦ feed_loop root longest fuel (drop len (c ∷ buffer)) (output ++ value)
  | none ↦ elim (leb (length (c ∷ buffer)) longest && has_prefix root (c ∷ buffer)) [
    | true ↦ (output, c ∷ buffer)
    | false ↦ feed_loop root longest fuel buffer (output ++ c ∷ [])
  ]
]

unfoldable pub feed : StreamingDeAnonymizer → Text → StreamingDeAnonymizer × Text
unfolding feed_loop
feed s token =
    let buffer = s.buffer ++ token in
    let (output, held) = feed_loop s.root s.max_fake_length (length buffer) buffer [] in
    (record s { buffer = held }, output)

unfoldable pub flush : StreamingDeAnonymizer → StreamingDeAnonymizer × Text
flush s = (record s { buffer = [] }, s.buffer)
