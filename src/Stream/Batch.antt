-- ===== src/Stream/Batch.antt =====
-- Restoring a reply piece by piece (privaite/streaming/buffer.py) against restoring it at once
-- (`_deanonymize_exact` of privaite/pii/deanonymizer.py).
use priv_ai_te.Prelude.{
  ℕ, zero, suc, ◌≤◌, ◌<◌, ◌≡◌, ◌≢◌, refl, sym, ◌∙◌, ap, inl, inr, true, false, ◌&&◌, none, some,
  List, [], ◌∷◌, ◌++◌, append_assoc, leb, arith, Text, length, length-append, take, drop,
  Option-cases, Bool-cases,
}
use priv_ai_te.Prelude.Dicts.{Dict, Distinct, lookup}
use priv_ai_te.Prelude.Prefixes.{
  is_prefix, is_prefix-split, is_prefix-extend, take-is_prefix, is_prefix-length, drop-append,
  length-drop,
}
use priv_ai_te.Restore.{non_empty, alternatives, match_at, substitute}
use priv_ai_te.Restore.Laws.{PrefixFree, any_of_lookup, match_at-entry, match_at-fake}
use priv_ai_te.Restore.Steps.{substitute-none, substitute-some}
use priv_ai_te.Stream.{TrieNode, empty_node, trie_lookup, has_prefix, insert_all, feed_loop}
use priv_ai_te.Stream.Trie.{trie_get, trie_get-empty, trie_get-insert_all, insert_all-longest}
use priv_ai_te.Stream.Trie.Longest.{trie_lookup_sound, trie_lookup_longest}
use priv_ai_te.Stream.Trie.Paths.{has_prefix-insert_all}

length-take : {A : Type 0} (n : ℕ) (s : List A) → n ≤ length s → length (take n s) ≡ n
length-take zero s h = refl
length-take (suc n) [] h = absurd (omega arith)
length-take (suc n) (c ∷ s) h = ap suc (length-take n s (omega arith))

ne_of_length : (s : Text) → 0 < length s → s ≢ []
ne_of_length [] h = absurd (omega arith)
ne_of_length (c ∷ s) h = λ e. cc

module _ (d : Dict Text) (u : Distinct d) where
  abbrev pub root : TrieNode
  root = (insert_all d empty_node 0).0

  abbrev pub longest : ℕ
  longest = (insert_all d empty_node 0).1

  abbrev pub restored : Text → Text
  restored = substitute (alternatives (non_empty d)) 0

  pub trie_get-root : (k : Text) → trie_get k root ≡ lookup k d
  trie_get-root k = ground (arith, trie_get-insert_all k d empty_node 0 u, trie_get-empty k)

  -- What the lookup finds in the buffer is an issued placeholder that stands at its front.
  pub trie_lookup-entry :
      (s v : Text) (m : ℕ)
      → trie_lookup root s ≡ some (v, m)
      → (0 < m) × (m ≤ length s) × (lookup (take m s) d ≡ some v)
  trie_lookup-entry s v m h =
      let (pos, fits, got) = trie_lookup_sound root s v m h in
      (pos, fits, sym (trie_get-root (take m s)) ∙ got)

  -- A placeholder that begins with the whole buffer holds the buffer back.
  has_prefix-entry :
      (s f o : Text)
      → lookup f d ≡ some o
      → is_prefix s f ≡ true
      → (leb (length s) longest && has_prefix root s) ≡ true
  has_prefix-entry s f o h p = ground (
    arith,
    (insert_all-longest f o d empty_node 0).1 h,
    is_prefix-length s f p,
    has_prefix-insert_all s d empty_node 0,
    any_of_lookup (λ e. is_prefix s e.0) f o d h p,
  )

  -- The rounds of the loop.
  pub feed_loop-take :
      (fuel c : ℕ) (b out v : Text) (m : ℕ)
      → trie_lookup root (c ∷ b) ≡ some (v, m)
      → feed_loop root longest (suc fuel) (c ∷ b) out
        ≡ feed_loop root longest fuel (drop m (c ∷ b)) (out ++ v)
  unfolding feed_loop
  feed_loop-take fuel c b out v m h = ground arith

  pub feed_loop-hold :
      (fuel c : ℕ) (b out : Text)
      → trie_lookup root (c ∷ b) ≡ none
      → (leb (length (c ∷ b)) longest && has_prefix root (c ∷ b)) ≡ true
      → feed_loop root longest (suc fuel) (c ∷ b) out ≡ (out, c ∷ b)
  unfolding feed_loop
  feed_loop-hold fuel c b out h k = ground arith

  pub feed_loop-pass :
      (fuel c : ℕ) (b out : Text)
      → trie_lookup root (c ∷ b) ≡ none
      → (leb (length (c ∷ b)) longest && has_prefix root (c ∷ b)) ≡ false
      → feed_loop root longest (suc fuel) (c ∷ b) out
        ≡ feed_loop root longest fuel b (out ++ c ∷ [])
  unfolding feed_loop
  feed_loop-pass fuel c b out h k = ground arith

  module _ (free : PrefixFree d) where
    -- No placeholder stands at the front of a buffer whose first character is let go.
    let_go :
        (c : ℕ) (b rest : Text)
        → trie_lookup root (c ∷ b) ≡ none
        → (leb (length (c ∷ b)) longest && has_prefix root (c ∷ b)) ≡ false
        → match_at (alternatives (non_empty d)) ((c ∷ b) ++ rest) ≡ none
    let_go c b rest h k =
        elim (Option-cases (match_at (alternatives (non_empty d)) ((c ∷ b) ++ rest))) [
          | inl e ↦ e
          | inr ((f, o), e) ↦
              let (stands, ne, entry) = match_at-entry d u ((c ∷ b) ++ rest) f o e in
              elim (is_prefix-split f (c ∷ b) rest stands) [
                | inl p ↦
                    let (v, m, r, le) =
                      trie_lookup_longest root (c ∷ b) f o p ne (trie_get-root f ∙ entry) in
                    cc
                | inr p ↦ cc (has_prefix-entry (c ∷ b) f o entry p)
              ]
        ]

    take_on :
        (s rest v : Text) (m : ℕ)
        → trie_lookup root s ≡ some (v, m)
        → restored (s ++ rest) ≡ v ++ restored (drop m s ++ rest)
    take_on s rest v m h =
        let (pos, fits, entry) = trie_lookup-entry s v m h in
        let len = length-take m s fits in
        let f = take m s in
        let found =
          match_at-fake d u free (s ++ rest) f v entry (ne_of_length f (omega arith))
            (is_prefix-extend f s rest (take-is_prefix m s)) in
        substitute-some (alternatives (non_empty d)) (s ++ rest) f v (ne_of_length f (omega arith))
          (ne_of_length (s ++ rest) (omega (arith, length-append s rest))) found
        ∙ ap (λ (x : ℕ). v ++ restored (drop x (s ++ rest))) len
        ∙ ap (λ (x : Text). v ++ restored x) (drop-append m s rest fits)

    -- Restoring what the loop has output and still holds gives what restoring at once gives.
    abbrev pub Same : Text → Text → Text × Text → Type 0
    Same whole rest r = whole ≡ r.0 ++ restored (r.1 ++ rest)

    pub feed_loop-restored :
        (fuel : ℕ) (b out rest : Text)
        → length b ≤ fuel
        → Same (out ++ restored (b ++ rest)) rest (feed_loop root longest fuel b out)
    feed_loop-restored zero [] out rest h = unfold feed_loop in refl
    feed_loop-restored zero (c ∷ b) out rest h = absurd (omega arith)
    feed_loop-restored (suc fuel) [] out rest h = unfold feed_loop in refl
    feed_loop-restored (suc fuel) (c ∷ b) out rest h =
        elim (Option-cases (trie_lookup root (c ∷ b))) [
          | inr ((v, m), e) ↦
              let (pos, fits, _) = trie_lookup-entry (c ∷ b) v m e in
              rw (feed_loop-take fuel c b out v m e) (
                ap (λ (x : Text). out ++ x) (take_on (c ∷ b) rest v m e)
                ∙ sym (append_assoc out v (restored (drop m (c ∷ b) ++ rest)))
                ∙ feed_loop-restored fuel (drop m (c ∷ b)) (out ++ v) rest
                    (omega (arith, length-drop m (c ∷ b) fits)))
          | inl e ↦ elim (Bool-cases (leb (length (c ∷ b)) longest && has_prefix root (c ∷ b))) [
            | inl hold ↦ rw (feed_loop-hold fuel c b out e hold) refl
            | inr pass ↦ rw (feed_loop-pass fuel c b out e pass) (
                ap (λ (x : Text). out ++ x)
                  (substitute-none (alternatives (non_empty d)) c (b ++ rest)
                    (let_go c b rest e pass))
                ∙ sym (append_assoc out (c ∷ []) (restored (b ++ rest)))
                ∙ feed_loop-restored fuel b (out ++ c ∷ []) rest (omega arith))
          ]
        ]
