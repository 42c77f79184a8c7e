-- ===== src/Stream/Eager.antt =====
-- How long privaite/streaming/buffer.py waits for a placeholder.
use priv_ai_te.Prelude.{
  ℕ, zero, suc, ◌≡◌, ◌≢◌, refl, ◌∙◌, ap, some, [], ◌∷◌, arith, Text, length, take, drop,
}
use priv_ai_te.Prelude.Dicts.{Dict, Distinct, lookup}
use priv_ai_te.Prelude.Prefixes.{is_prefix_refl}
use priv_ai_te.Stream.{TrieNode, feed_loop, init, feed}
use priv_ai_te.Stream.Trie.Longest.{trie_lookup_longest}
use priv_ai_te.Stream.Batch.{root, trie_get-root, trie_lookup-entry, feed_loop-take}
use priv_ai_te.Stream.Whole.{init-at}

take-length : (s : Text) → take (length s) s ≡ s
take-length [] = refl
take-length (c ∷ s) = ap (◌∷◌ c) (take-length s)

drop-length : (s : Text) → drop (length s) s ≡ []
drop-length [] = refl
drop-length (c ∷ s) = drop-length s

whole_value :
    (d : Dict Text) (f o v : Text) (n : ℕ)
    → n ≡ length f
    → lookup (take n f) d ≡ some v
    → lookup f d ≡ some o
    → v ≡ o
whole_value d f o v n e h k =
    cc (ap (λ (x : Text). lookup x d) (ap (λ m. take m f) e ∙ take-length f))

drop_whole : (f : Text) (n : ℕ) → n ≡ length f → drop n f ≡ []
drop_whole f n e = rw e (drop-length f)

feed_loop-empty : (t : TrieNode) (n fuel : ℕ) (out : Text) → feed_loop t n fuel [] out ≡ (out, [])
unfolding feed_loop
feed_loop-empty t n zero out = refl
feed_loop-empty t n (suc fuel) out = refl

module _ (d : Dict Text) (u : Distinct d) where
  -- An issued placeholder that arrives whole, with nothing held back before it, is restored at
  -- once, and nothing is held back after it: the restorer does not wait for a longer one.
  pub feed-fake :
      (f o : Text)
      → f ≢ []
      → lookup f d ≡ some o
      → ((feed (init d) f).1 ≡ o) × ((feed (init d) f).0.buffer ≡ [])
  unfolding feed
  feed-fake [] o ne h = absurd (ne refl)
  feed-fake (c ∷ f) o ne h =
      let (v, n, found, le) =
        trie_lookup_longest (root d u) (c ∷ f) (c ∷ f) o (is_prefix_refl (c ∷ f)) ne
          (trie_get-root d u (c ∷ f) ∙ h) in
      let (pos, fits, entry) = trie_lookup-entry d u (c ∷ f) v n found in
      let whole : n ≡ length (c ∷ f) = omega arith in
      let same = whole_value d (c ∷ f) o v n whole entry h in
      let step = feed_loop-take d u (length f) c f [] v n found in
      let rest : drop n (c ∷ f) ≡ [] = drop_whole (c ∷ f) n whole in
      rw (init-at d u, step, rest, feed_loop-empty) (same, refl)
