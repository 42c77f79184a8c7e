-- ===== src/Stream/Whole.antt =====
-- A whole streamed reply: the fragments are fed one by one, then the buffer is flushed
-- (privaite/streaming/buffer.py, as driven for each text channel of a reply).
use priv_ai_te.Prelude.{
  ℕ, zero, suc, ◌≤◌, ◌≡◌, refl, sym, ◌∙◌, ap, ◌⊎◌, inl, inr, true, false, ◌&&◌, none, List, [], ◌∷◌,
  ◌++◌, append_assoc, append-nil, leb, arith, Text, length, drop, any, concat, Option-cases,
  Bool-cases,
}
use priv_ai_te.Prelude.Dicts.{Dict, Distinct}
use priv_ai_te.Prelude.Prefixes.{is_prefix, length-drop}
use priv_ai_te.Restore.{non_empty, alternatives, match_at, deanonymize_exact}
use priv_ai_te.Restore.Laws.{PrefixFree, match_at-entry}
use priv_ai_te.Restore.Steps.{deanonymize_exact-substitute, substitute-none}
use priv_ai_te.Restore.Markers.{
  AllMarkers, has_open, AllMarkers-PrefixFree, has_open-prefix, substitute-no_open,
}
use priv_ai_te.Stream.{
  empty_node, trie_lookup, has_prefix, feed_loop, StreamingDeAnonymizer, init, feed, flush,
}
use priv_ai_te.Stream.Trie.Longest.{trie_lookup_longest}
use priv_ai_te.Stream.Trie.Paths.{has_prefix-insert_all, has_prefix-empty}
use priv_ai_te.Stream.Batch.{
  root, longest, restored, trie_get-root, trie_lookup-entry, feed_loop-take, feed_loop-hold,
  feed_loop-pass, feed_loop-restored,
}

-- The outputs of the fragments, joined, and the state after the last one.
unfoldable pub feed_all : StreamingDeAnonymizer → List Text → StreamingDeAnonymizer × Text
feed_all s [] = (s, [])
feed_all s (token ∷ tokens) =
    let (s', output) = feed s token in let (s'', rest) = feed_all s' tokens in (s'', output ++ rest)

unfoldable pub restore_stream : Dict Text → List Text → Text
unfolding feed_all
restore_stream d tokens = let (s, output) = feed_all (init d) tokens in output ++ (flush s).1

regroup : (a b c d : Text) → a ++ ((b ++ c) ++ d) ≡ (a ++ b) ++ (c ++ d)
regroup a b c d = simp append_assoc

-- What a placeholder begins with has an opening bracket at its front only.
marker_tail :
    (c : ℕ) (s : Text) (d : Dict Text)
    → AllMarkers d
    → any (λ e. is_prefix (c ∷ s) e.0) d ≡ true
    → has_open s ≡ false
marker_tail c s [] m h = cc
marker_tail c s (([], o) ∷ d) m h = cc
marker_tail c s ((x ∷ f, o) ∷ d) m h = elim (Bool-cases (is_prefix (c ∷ s) (x ∷ f))) [
  | inl e ↦ has_open-prefix s f (ground arith) (ground arith)
  | inr e ↦ marker_tail c s d m.1 (ground arith)
]

module _ (d : Dict Text) (u : Distinct d) where
  -- The state with the buffer `b`.
  abbrev pub at : Text → StreamingDeAnonymizer
  at b = record { buffer = b; root = root d u; max_fake_length = longest d u }

  pub init-at : init d ≡ at []
  unfolding init
  init-at = refl

  abbrev pub round : Text → Text → Text × Text
  round b token = feed_loop (root d u) (longest d u) (length (b ++ token)) (b ++ token) []

  pub feed-at : (b token : Text) → feed (at b) token ≡ (at (round b token).1, (round b token).0)
  unfolding feed
  feed-at b token = refl

  -- What may stay in the buffer: nothing, or a text that an issued placeholder may complete.
  abbrev pub IsHeld : Text → Type 0
  IsHeld b = (b ≡ []) ⊎ ((trie_lookup (root d u) b ≡ none) × (has_prefix (root d u) b ≡ true))

  module _ (free : PrefixFree d) where
    pub feed_loop-IsHeld :
        (fuel : ℕ) (b out : Text)
        → length b ≤ fuel
        → IsHeld (feed_loop (root d u) (longest d u) fuel b out).1
    feed_loop-IsHeld zero [] out h = unfold feed_loop in inl refl
    feed_loop-IsHeld zero (c ∷ b) out h = absurd (omega arith)
    feed_loop-IsHeld (suc fuel) [] out h = unfold feed_loop in inl refl
    feed_loop-IsHeld (suc fuel) (c ∷ b) out h =
        elim (Option-cases (trie_lookup (root d u) (c ∷ b))) [
          | inr ((v, m), e) ↦
              let (pos, fits, _) = trie_lookup-entry d u (c ∷ b) v m e in
              rw (feed_loop-take d u fuel c b out v m e) (
                feed_loop-IsHeld fuel (drop m (c ∷ b)) (out ++ v)
                  (omega (arith, length-drop m (c ∷ b) fits)))
          | inl e ↦
              elim (Bool-cases
                (leb (length (c ∷ b)) (longest d u) && has_prefix (root d u) (c ∷ b))) [
                  | inl hold ↦ rw (feed_loop-hold d u fuel c b out e hold) (inr (e, ground arith))
                  | inr pass ↦
                      rw (feed_loop-pass d u fuel c b out e pass)
                        (feed_loop-IsHeld fuel b (out ++ c ∷ []) (omega arith))
                ]
        ]

    feed_all-restored :
        (b : Text) (tokens : List Text) (rest : Text)
        → restored d u (b ++ (concat tokens ++ rest))
          ≡ (feed_all (at b) tokens).1 ++ restored d u ((feed_all (at b) tokens).0.buffer ++ rest)
    unfolding feed_all feed
    feed_all-restored b [] rest = refl
    feed_all-restored b (t ∷ ts) rest =
        let more = concat ts ++ rest in
        let (out, held) = round b t in
        ap (restored d u) (regroup b t (concat ts) rest)
        ∙ feed_loop-restored d u free (length (b ++ t)) (b ++ t) [] more (omega arith)
        ∙ ap (λ (x : Text). out ++ x) (feed_all-restored held ts rest)
        ∙ sym (append_assoc out (feed_all (at held) ts).1 _)

    feed_all-IsHeld :
        (b : Text) (tokens : List Text) → IsHeld b → IsHeld (feed_all (at b) tokens).0.buffer
    unfolding feed_all feed
    feed_all-IsHeld b [] h = h
    feed_all-IsHeld b (t ∷ ts) h =
        feed_all-IsHeld (round b t).1 ts
          (feed_loop-IsHeld (length (b ++ t)) (b ++ t) [] (omega arith))

    -- If no issued placeholder begins with another one, then what the fragments' outputs and the
    -- restored buffer spell is what restoring the whole reply at once gives, however it is cut.
    pub feed_all-deanonymize_exact :
        (tokens : List Text)
        → deanonymize_exact d (concat tokens)
          ≡ (feed_all (init d) tokens).1 ++ deanonymize_exact d (feed_all (init d) tokens).0.buffer
    feed_all-deanonymize_exact tokens =
        deanonymize_exact-substitute d (concat tokens)
        ∙ ap (restored d u) (sym (append-nil (concat tokens)))
        ∙ feed_all-restored [] tokens []
        ∙ rw (append-nil, init-at, deanonymize_exact-substitute) refl

  no_fake :
      (s : Text) → trie_lookup (root d u) s ≡ none → match_at (alternatives (non_empty d)) s ≡ none
  no_fake s h = elim (Option-cases (match_at (alternatives (non_empty d)) s)) [
    | inl e ↦ e
    | inr ((f, o), e) ↦
        let (stands, ne, entry) = match_at-entry d u s f o e in
        let (v, n, found, _) =
          trie_lookup_longest (root d u) s f o stands ne (trie_get-root d u f ∙ entry) in
        cc
  ]

  module _ (m : AllMarkers d) where
    -- A text that is held back holds no placeholder.
    pub held_unchanged : (b : Text) → IsHeld b → deanonymize_exact d b ≡ b
    held_unchanged [] h = deanonymize_exact-substitute d [] ∙ substitute-no_open d u m [] refl
    held_unchanged (c ∷ s) (inl e) = cc
    held_unchanged (c ∷ s) (inr (no_match, path)) =
        let entry : any (λ e. is_prefix (c ∷ s) e.0) d ≡ true =
          ground (arith, has_prefix-insert_all (c ∷ s) d empty_node 0, has_prefix-empty c s) in
        deanonymize_exact-substitute d (c ∷ s)
        ∙ substitute-none (alternatives (non_empty d)) c s (no_fake (c ∷ s) no_match)
        ∙ ap (◌∷◌ c) (substitute-no_open d u m s (marker_tail c s d m entry))

    -- If the issued placeholders are in angle brackets, a reply that is restored fragment by
    -- fragment, with the buffer flushed at the end, is the reply restored at once.
    pub restore_stream-deanonymize_exact :
        (tokens : List Text) → restore_stream d tokens ≡ deanonymize_exact d (concat tokens)
    unfolding restore_stream flush
    restore_stream-deanonymize_exact tokens =
        let free = AllMarkers-PrefixFree d m in
        sym (
          feed_all-deanonymize_exact free tokens
          ∙ ap (λ (x : Text). (feed_all (init d) tokens).1 ++ x)
              (held_unchanged (feed_all (init d) tokens).0.buffer
                (rw init-at (feed_all-IsHeld free [] tokens (inl refl)))))
