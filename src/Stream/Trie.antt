-- ===== src/Stream/Trie.antt =====
-- The trie of privaite/streaming/buffer.py is a map from texts.
pub mod Longest
pub mod Paths
use mathlib.Core.Option.{some-injective}
use priv_ai_te.Prelude.{
  ℕ, zero, suc, ◌+◌, ◌≤◌, ◌<◌, max, ◌≡◌, ◌≢◌, refl, sym, ◌∙◌, ap, ◌⊎◌, inl, inr, Bool, true, false,
  Option, none, some, List, [], ◌∷◌, leb, ◌==◌, if◌then◌else◌, arith, Text, text_eq, text_eq_iff,
  length, take, any, ◌||◌, Option-cases,
}
use priv_ai_te.Prelude.Dicts.{Dict, Distinct, lookup}
use priv_ai_te.Prelude.Prefixes.{is_prefix}
use priv_ai_te.Stream.{
  TrieNode, node, Children, nil, child, empty_node, value_of, children_of, get_child, update_child,
  insert_trie, lookup_loop, trie_lookup, has_prefix, insert_all,
}

-- The value at the end of a path.
unfoldable pub trie_get : Text → TrieNode → Option Text
unfolding get_child
trie_get [] t = value_of t
trie_get (c ∷ key) t = elim (get_child c (children_of t)) [ none ↦ none | some u ↦ trie_get key u ]

abbrev pub or_empty : Option TrieNode → TrieNode
or_empty none = empty_node
or_empty (some t) = t

pub get_child-update_child :
    (c d : ℕ) (f : TrieNode → TrieNode) (ch : Children)
    → get_child c (update_child d f ch)
      ≡ (if d == c then some (f (or_empty (get_child d ch))) else get_child c ch)
unfolding get_child update_child
get_child-update_child c d f nil = ground arith
get_child-update_child c d f (child e t rest) = ground (arith, get_child-update_child c d f rest)

pub trie_get-empty : (k : Text) → trie_get k empty_node ≡ none
unfolding trie_get
trie_get-empty [] = refl
trie_get-empty (c ∷ k) = refl

trie_get-or_empty :
    (k : Text) (o : Option TrieNode)
    → trie_get k (or_empty o) ≡ elim o [ none ↦ none | some u ↦ trie_get k u ]
trie_get-or_empty k none = trie_get-empty k
trie_get-or_empty k (some t) = refl

pub trie_get-cons :
    (c : ℕ) (k : Text) (ch : Children) (v : Option Text)
    → trie_get (c ∷ k) (node ch v) ≡ trie_get k (or_empty (get_child c ch))
unfolding trie_get
trie_get-cons c k ch v = ground (arith, trie_get-empty k)

pub insert_trie-nil :
    (v : Text) (ch : Children) (o : Option Text) → insert_trie [] v (node ch o) ≡ node ch (some v)
unfolding insert_trie
insert_trie-nil v ch o = refl

pub insert_trie-cons :
    (d : ℕ) (j v : Text) (ch : Children) (o : Option Text)
    → insert_trie (d ∷ j) v (node ch o) ≡ node (update_child d (insert_trie j v) ch) o
unfolding insert_trie
insert_trie-cons d j v ch o = refl

pub trie_get-nil : (ch : Children) (o : Option Text) → trie_get [] (node ch o) ≡ o
unfolding trie_get
trie_get-nil ch o = refl

-- An insertion changes the value at its key and nowhere else.
pub trie_get-insert_trie :
    (k j v : Text) (t : TrieNode)
    → trie_get k (insert_trie j v t) ≡ (if text_eq j k then some v else trie_get k t)
trie_get-insert_trie [] [] v (node ch o) = rw insert_trie-nil (trie_get-nil ch (some v))
trie_get-insert_trie (c ∷ k) [] v (node ch o) =
    rw insert_trie-nil (trie_get-cons c k ch (some v) ∙ sym (trie_get-cons c k ch o))
trie_get-insert_trie [] (d ∷ j) v (node ch o) =
    rw insert_trie-cons (trie_get-nil _ o ∙ sym (trie_get-nil ch o))
trie_get-insert_trie (c ∷ k) (d ∷ j) v (node ch o) = ground (
  arith,
  insert_trie-cons d j v ch o,
  trie_get-cons c k (update_child d (insert_trie j v) ch) o,
  trie_get-cons c k ch o,
  get_child-update_child c d (insert_trie j v) ch,
  trie_get-insert_trie k j v (or_empty (get_child d ch)),
)

pub trie_get-insert_all :
    (k : Text) (d : Dict Text) (t : TrieNode) (n : ℕ)
    → Distinct d
    → trie_get k (insert_all d t n).0 ≡ elim (lookup k d) [ none ↦ trie_get k t | some v ↦ some v ]
unfolding insert_all
trie_get-insert_all k [] t n h = refl
trie_get-insert_all k ((f, o) ∷ d) t n (h, hd) = ground (
  arith,
  trie_get-insert_all k d (insert_trie f o t) (max n (length f)) hd,
  trie_get-insert_trie k f o t,
  text_eq_iff f k,
)

pub insert_all-longest :
    (k v : Text) (d : Dict Text) (t : TrieNode) (n : ℕ)
    → (n ≤ (insert_all d t n).1) × (lookup k d ≡ some v → length k ≤ (insert_all d t n).1)
unfolding insert_all
insert_all-longest k v [] t n = (omega arith, λ h. cc)
insert_all-longest k v ((f, o) ∷ d) t n =
    let (a, b) = insert_all-longest k v d (insert_trie f o t) (max n (length f)) in
    (omega arith, λ h. ground (arith, a, b, text_eq_iff f k))
