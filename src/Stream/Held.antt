-- ===== src/Stream/Held.antt =====
-- What a stream has put out and what its buffer holds back (privaite/streaming/buffer.py), against the
-- text that came in since the buffer was last empty.
use priv_ai_te.Prelude.{◌≡◌, sym, ◌∙◌, ap, [], ◌++◌, append_assoc, append-nil, arith, Text, length}
use priv_ai_te.Prelude.Dicts.{Dict, Distinct}
use priv_ai_te.Restore.{deanonymize_exact}
use priv_ai_te.Restore.Steps.{deanonymize_exact-substitute}
use priv_ai_te.Restore.Markers.{AllMarkers, AllMarkers-PrefixFree}
use priv_ai_te.Stream.Batch.{restored, feed_loop-restored}
use priv_ai_te.Stream.Whole.{round, IsHeld, held_unchanged}

module _ (d : Dict Text) (u : Distinct d) where
  -- What is pending, restored, is what was emitted and then what is held, restored.
  abbrev pub Agrees : Text → Text → Text → Type 0
  Agrees pending out b = (x : Text) → restored d u (pending ++ x) ≡ out ++ restored d u (b ++ x)

  module _ (marked : AllMarkers d) where
    pub Agrees-feed :
        (pending out b t : Text)
        → Agrees pending out b
        → Agrees (pending ++ t) (out ++ (round d u b t).0) (round d u b t).1
    Agrees-feed pending out b t h x =
        let (o, held) = round d u b t in
        ap (restored d u) (append_assoc pending t x)
        ∙ h (t ++ x)
        ∙ ap (λ (y : Text). out ++ restored d u y) (sym (append_assoc b t x))
        ∙ ap (λ (y : Text). out ++ y)
            (feed_loop-restored d u (AllMarkers-PrefixFree d marked) (length (b ++ t)) (b ++ t) [] x
              (omega arith))
        ∙ sym (append_assoc out o (restored d u (held ++ x)))

    pub Agrees-deanonymize_exact :
        (pending out b : Text)
        → IsHeld d u b
        → Agrees pending out b
        → deanonymize_exact d pending ≡ out ++ b
    Agrees-deanonymize_exact pending out b held h =
        deanonymize_exact-substitute d pending
        ∙ ap (restored d u) (sym (append-nil pending))
        ∙ h []
        ∙ ap (λ (y : Text). out ++ restored d u y) (append-nil b)
        ∙ ap (λ (y : Text). out ++ y)
            (sym (deanonymize_exact-substitute d b) ∙ held_unchanged d u marked b held)
