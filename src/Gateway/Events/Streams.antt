-- ===== src/Gateway/Events/Streams.antt =====
-- A streamed reply as the sequence of the calls that privaite/gateway/restore.py makes of `_feed` and
-- `flush`, against the restore of each text stream by itself.
use priv_ai_te.Prelude.{
  ◌≡◌, refl, sym, ◌∙◌, ap, ◌⊎◌, inl, inr, Bool, true, false, Option, none, some, List, [], ◌∷◌,
  ◌++◌, append_assoc, if◌then◌else◌, arith, Text, length, Bool-cases,
}
use priv_ai_te.Prelude.Dicts.{Dict, Distinct}
use priv_ai_te.Mapping.{PiiMapping}
use priv_ai_te.Restore.{deanonymize_exact}
use priv_ai_te.Restore.Markers.{AllMarkers, AllMarkers-PrefixFree}
use priv_ai_te.Stream.{StreamingDeAnonymizer, insert_all}
use priv_ai_te.Stream.Whole.{at, init-at, round, IsHeld, feed_loop-IsHeld}
use priv_ai_te.Stream.Held.{Agrees, Agrees-feed, Agrees-deanonymize_exact}
use priv_ai_te.Gateway.Protocols.{Channel}
use priv_ai_te.Gateway.Events.{
  Host, Buffers, same, get_buffer, set_buffer, fakes_for, buffer_for, feed_channel, flush_channels,
}
use priv_ai_te.Gateway.Events.Escaped.{fakes_for-Distinct, fakes_for-AllMarkers}
use priv_ai_te.Gateway.Events.Channels.{
  get_buffer-same, get_buffer-set_buffer, on_channel, on_channel-append, emptied, held_by, is_named,
  flush_channels-IsFlushed,
}

pub data Call : Type 0 where
  feeds : Channel → Text → Bool → Call
  flushes : List Channel → Bool → Call

module _ (host : Host) (m : PiiMapping) where
  -- What the calls emit, and the flush of every channel at the end of the stream.
  unfoldable pub run_calls : List Call → Buffers → List (Channel × Text)
  run_calls [] buffers = (flush_channels host [] true buffers).1
  run_calls (feeds c fragment json_fragment ∷ calls) buffers =
      let (after, output) = feed_channel host m c fragment json_fragment buffers in
      (c, output) ∷ run_calls calls after
  run_calls (flushes channels flush_all ∷ calls) buffers =
      let (after, outputs) = flush_channels host channels flush_all buffers in
      outputs ++ run_calls calls after

  module _ (c : Channel) where
    -- The text of one channel, cut where that channel is flushed and each piece restored at once;
    -- `pending` is what has come since the last cut.
    unfoldable pub pieces : Dict Text → Text → List Call → Text
    pieces d pending [] = deanonymize_exact d pending
    pieces d pending (feeds k fragment json_fragment ∷ calls) =
        let here = pieces d (pending ++ fragment) calls in
        let elsewhere = pieces d pending calls in if same host k c then here else elsewhere
    pieces d pending (flushes channels flush_all ∷ calls) =
        let cut = deanonymize_exact d pending ++ pieces d [] calls in
        let whole = pieces d pending calls in
        if is_named host c channels flush_all then cut else whole

    -- Every fragment of the channel is JSON source, or none is.
    abbrev pub IsSteady : Bool → List Call → Type 0
    IsSteady j [] = Unit
    IsSteady j (feeds k fragment json_fragment ∷ calls) =
        (same host k c ≡ true → json_fragment ≡ j) × IsSteady j calls
    IsSteady j (flushes channels flush_all ∷ calls) = IsSteady j calls

    module _ (j : Bool) (u : Distinct (fakes_for host m j))
        (marked : AllMarkers (fakes_for host m j)) where
      abbrev fakes : Dict Text
      fakes = fakes_for host m j

      -- The buffer of the channel, made or not yet made, holds `b`.
      abbrev Holds : Text → Option StreamingDeAnonymizer → Type 0
      Holds b o = (o ≡ some (at fakes u b)) ⊎ ((o ≡ none) × (b ≡ []))

      Holds-buffer_for :
          (k : Channel) (b : Text) (buffers : Buffers)
          → same host k c ≡ true
          → Holds b (get_buffer host c buffers)
          → buffer_for host m k j buffers ≡ at fakes u b
      unfolding buffer_for insert_all
      Holds-buffer_for k b buffers e (inl h) =
          rw (buffer_for, get_buffer-same host k c buffers e, h) refl
      Holds-buffer_for k b buffers e (inr (h, z)) =
          rw (buffer_for, get_buffer-same host k c buffers e, h, z) (init-at fakes u)

      Holds-held_by : (b : Text) (o : Option StreamingDeAnonymizer) → Holds b o → held_by host o ≡ b
      Holds-held_by b o (inl h) = rw h refl
      Holds-held_by b o (inr (h, z)) = rw (h, z) refl

      Holds-emptied :
          (b : Text) (o : Option StreamingDeAnonymizer) → Holds b o → Holds [] (emptied host o)
      Holds-emptied b o (inl h) = inl (rw h refl)
      Holds-emptied b o (inr (h, z)) = inr (rw h refl, refl)

      feed_channel-here :
          (k : Channel) (t b : Text) (buffers : Buffers)
          → same host k c ≡ true
          → Holds b (get_buffer host c buffers)
          → feed_channel host m k t j buffers
            ≡ (set_buffer host k (at fakes u (round fakes u b t).1) buffers, (round fakes u b t).0)
      unfolding feed_channel
      feed_channel-here k t b buffers e h = rw (Holds-buffer_for k b buffers e h) refl

      feed_channel-elsewhere :
          (k : Channel) (t : Text) (f : Bool) (buffers : Buffers)
          → same host k c ≡ false
          → get_buffer host c (feed_channel host m k t f buffers).0 ≡ get_buffer host c buffers
      unfolding feed_channel
      feed_channel-elsewhere k t f buffers e = get_buffer-set_buffer host c k _ buffers ∙ rw e refl

      pieces-calls :
          (calls : List Call) (buffers : Buffers) (pending out b : Text)
          → Holds b (get_buffer host c buffers)
          → IsHeld fakes u b
          → Agrees fakes u pending out b
          → IsSteady j calls
          → pieces fakes pending calls ≡ out ++ on_channel host c (run_calls calls buffers)
      unfolding pieces run_calls
      pieces-calls [] buffers pending out b h held agrees steady =
          let (_, emitted) = flush_channels-IsFlushed host c [] true buffers in
          Agrees-deanonymize_exact fakes u marked pending out b held agrees
          ∙ ap (λ (y : Text). out ++ y) (sym (emitted ∙ Holds-held_by b _ h))
      pieces-calls (feeds k t f ∷ calls) buffers pending out b h held agrees steady =
          elim (Bool-cases (same host k c)) [
            | inl e ↦
                let q : f ≡ j = steady.0 e in
                let (o, b') = round fakes u b t in
                let after = set_buffer host k (at fakes u b') buffers in
                let step : feed_channel host m k t f buffers ≡ (after, o) =
                  rw q (feed_channel-here k t b buffers e h) in
                let stored : get_buffer host c after ≡ some (at fakes u b') =
                  get_buffer-set_buffer host c k (at fakes u b') buffers ∙ rw e refl in
                rw (e, step)
                  (pieces-calls calls after (pending ++ t) (out ++ o) b' (inl stored)
                      (feed_loop-IsHeld fakes u (AllMarkers-PrefixFree fakes marked)
                        (length (b ++ t)) (b ++ t) [] (omega arith))
                      (Agrees-feed fakes u marked pending out b t agrees) steady.1
                    ∙ append_assoc out o (on_channel host c (run_calls calls after)))
            | inr e ↦ rw e (
                pieces-calls calls (feed_channel host m k t f buffers).0 pending out b
                  (rw (feed_channel-elsewhere k t f buffers e) h) held agrees steady.1)
          ]
      pieces-calls (flushes channels flush_all ∷ calls) buffers pending out b h held agrees steady =
          let r = flush_channels host channels flush_all buffers in
          let (after, emitted) = flush_channels-IsFlushed host c channels flush_all buffers in
          elim (Bool-cases (is_named host c channels flush_all)) [
            | inl e ↦
                let rest =
                  pieces-calls calls r.0 [] [] []
                    (rw (after, e) (Holds-emptied b (get_buffer host c buffers) h)) (inl refl)
                    (λ x. refl) steady in
                rw (e, on_channel-append, emitted, e, Holds-held_by b (get_buffer host c buffers) h)
                  (ap (λ (y : Text). y ++ pieces fakes [] calls)
                      (Agrees-deanonymize_exact fakes u marked pending out b held agrees)
                    ∙ append_assoc out b (pieces fakes [] calls)
                    ∙ ap (λ (y : Text). out ++ (b ++ y)) rest)
            | inr e ↦
                rw (e, on_channel-append, emitted, e)
                  (pieces-calls calls r.0 pending out b (rw (after, e) h) held agrees steady)
          ]

    -- If the issued placeholders are in angle brackets, each under one key, and the fragments of a
    -- channel are all JSON source or none is, then what the client gets on that channel, in whatever
    -- order the calls for all channels come, is the channel's own text, cut where the channel is
    -- flushed, with every piece restored at once.
    pub run_calls-pieces :
        (j : Bool) (calls : List Call)
        → Distinct m.fake_to_original
        → AllMarkers m.fake_to_original
        → IsSteady j calls
        → on_channel host c (run_calls calls []) ≡ pieces (fakes_for host m j) [] calls
    run_calls-pieces j calls u marked steady = sym (
        pieces-calls j (fakes_for-Distinct host m j u) (fakes_for-AllMarkers host m j marked) calls
          [] [] [] [] (inr (unfold get_buffer in refl, refl)) (inl refl) (λ x. refl) steady)
