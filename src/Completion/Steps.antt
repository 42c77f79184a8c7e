-- ===== src/Completion/Steps.antt =====
-- privaite/streaming/handler.py, `stream_text_response`, one choice of a chunk at a time.
use priv_ai_te.Prelude.{
  ℕ, ◌≡◌, refl, sym, ◌∙◌, ap, inl, inr, Bool, true, false, some, [], ◌∷◌, ◌++◌, ◌==◌, append_assoc,
  append-nil, arith, Text, null, length, Bool-cases,
}
use priv_ai_te.Prelude.Dicts.{Dict, Distinct}
use priv_ai_te.Mapping.{PiiMapping}
use priv_ai_te.Restore.{deanonymize_exact}
use priv_ai_te.Restore.Markers.{AllMarkers, AllMarkers-PrefixFree}
use priv_ai_te.Stream.{StreamingDeAnonymizer, feed, flush}
use priv_ai_te.Stream.Whole.{at, round, IsHeld, feed_loop-IsHeld}
use priv_ai_te.Stream.Held.{Agrees, Agrees-feed, Agrees-deanonymize_exact}
use priv_ai_te.Completion.{
  Choice, dict, index_of, text_or_empty, is_finished, ChoiceBuffers, buffer_of, put_buffer,
  TextStream, is_flushed, made, feed_text, finish_text, restore_entry,
}
use priv_ai_te.Completion.Buffers.{text_of_entry, held_by, buffer_of-put_buffer}

null-nil : (s : Text) → null s ≡ true → s ≡ []
null-nil [] h = refl
null-nil (c ∷ s) h = cc

module _ (i : ℕ) where
  abbrev pub is_mine : Choice → Bool
  is_mine choice = index_of choice == i

  module _ (m : PiiMapping) (u : Distinct m.fake_to_original)
      (marked : AllMarkers m.fake_to_original) where
    abbrev pub fakes : Dict Text
    fakes = m.fake_to_original

    feed_text-at :
        (b pending out : Text) (choice : Choice)
        → IsHeld fakes u b
        → Agrees fakes u pending out b
        → (b' : Text) × (o : Text) × ((feed_text (at fakes u b) choice).0 ≡ at fakes u b')
          × (text_or_empty (feed_text (at fakes u b) choice).1 ≡ o)
          × IsHeld fakes u b'
          × Agrees fakes u (pending ++ text_or_empty choice) (out ++ o) b'
    unfolding feed
    feed_text-at b pending out choice held h = elim (Bool-cases (null (text_or_empty choice))) [
      | inl e ↦
          let z = null-nil (text_or_empty choice) e in
          (b, [], rw e refl, rw e z, held, rw (z, append-nil, append-nil) h)
      | inr e ↦
          let t = text_or_empty choice in
          (
            (round fakes u b t).1,
            (round fakes u b t).0,
            rw e refl,
            rw e refl,
            feed_loop-IsHeld fakes u (AllMarkers-PrefixFree fakes marked) (length (b ++ t)) (b ++ t)
                [] (omega arith),
            Agrees-feed fakes u marked pending out b t h,
          )
    ]

    finish_text-at :
        (b o : Text) (choice : Choice)
        → text_or_empty choice ≡ o
        → ((finish_text (at fakes u b) choice).0 ≡ at fakes u [])
          × (text_or_empty (finish_text (at fakes u b) choice).1 ≡ o ++ b)
    unfolding flush
    finish_text-at [] o choice h = (refl, h ∙ sym (append-nil o))
    finish_text-at (c ∷ b) o choice h = (refl, ap (λ (x : Text). x ++ (c ∷ b)) h)

    feed_text-index :
        (s : StreamingDeAnonymizer) (choice : Choice)
        → index_of (feed_text s choice).1 ≡ index_of choice
    feed_text-index s choice = elim (Bool-cases (null (text_or_empty choice))) [
      | inl e ↦ rw e refl
      | inr e ↦ rw e refl
    ]

    finish_text-index :
        (s : StreamingDeAnonymizer) (choice : Choice)
        → index_of (finish_text s choice).1 ≡ index_of choice
    unfolding flush
    finish_text-index s choice = elim (Bool-cases (null s.buffer)) [
      | inl e ↦ rw e refl
      | inr e ↦ rw e refl
    ]

    -- Where the choice stands: its buffer, and what was said on it against what the client got.
    abbrev pub Stands : Bool → Text → Text → TextStream → Type 0
    Stands false pending out st =
        (b : Text) × (is_flushed i st ≡ false)
        × (made m (buffer_of i st.buffers) ≡ at fakes u b)
        × (held_by i (buffer_of i st.buffers) ≡ b)
        × IsHeld fakes u b
        × Agrees fakes u pending out b
    Stands true pending out st =
        (is_flushed i st ≡ true)
        × (made m (buffer_of i st.buffers) ≡ at fakes u [])
        × (deanonymize_exact fakes pending ≡ out)

    Stands-frame :
        (done : Bool) (pending out : Text) (st st' : TextStream)
        → is_flushed i st' ≡ is_flushed i st
        → buffer_of i st'.buffers ≡ buffer_of i st.buffers
        → Stands done pending out st
        → Stands done pending out st'
    Stands-frame false pending out st st' p q h = rw (p, q) h
    Stands-frame true pending out st st' p q h = rw (p, q) h

    put_here :
        (k : ℕ) (s : StreamingDeAnonymizer) (buffers : ChoiceBuffers)
        → (k == i) ≡ true
        → buffer_of i (put_buffer k s buffers) ≡ some s
    put_here k s buffers e = buffer_of-put_buffer i i k s buffers ∙ rw e refl

    buffer_of_mine :
        (k : ℕ) (buffers : ChoiceBuffers)
        → (k == i) ≡ true
        → buffer_of k buffers ≡ buffer_of i buffers
    buffer_of_mine k buffers e = let q : k ≡ i = ground (arith, e) in rw q refl

    text_of_mine :
        (choice c : Choice) (t : Text)
        → is_mine choice ≡ true
        → index_of c ≡ index_of choice
        → text_or_empty c ≡ t
        → text_of_entry i (dict c) ≡ t
    text_of_mine choice c t mine same e = rw (same, mine) e

    module _ (s : StreamingDeAnonymizer) (choice : Choice) (st : TextStream)
        (source : made m (buffer_of (index_of choice) st.buffers) ≡ s) where
      abbrev fed : StreamingDeAnonymizer × Choice
      fed = feed_text s choice

      restore_entry-unfinished :
          is_finished choice ≡ false
          → restore_entry m (dict choice) st
            ≡ (record st { buffers = put_buffer (index_of choice) fed.0 st.buffers }, dict fed.1)
      unfolding restore_entry
      restore_entry-unfinished e = rw (e, source) refl

      restore_entry-finished :
          is_finished choice ≡ true
          → restore_entry m (dict choice) st ≡ (
            record {
              buffers = put_buffer (index_of choice) (finish_text fed.0 fed.1).0 st.buffers;
              flushed = index_of choice ∷ st.flushed;
            },
            dict (finish_text fed.0 fed.1).1,
          )
      unfolding restore_entry
      restore_entry-finished e = rw (e, source) refl

    -- One choice that is the one in question.
    pub mine-unflushed :
        (pending out : Text) (choice : Choice) (st : TextStream)
        → is_mine choice ≡ true
        → Stands false pending out st
        → Stands
            (is_finished choice)
            (pending ++ text_or_empty choice)
            (out ++ text_of_entry i (restore_entry m (dict choice) st).1)
            (restore_entry m (dict choice) st).0
    mine-unflushed pending out choice st mine (b, unflushed, have, kept, held, agrees) =
        let (b', o, s1, t1, held', agrees') = feed_text-at b pending out choice held agrees in
        let source = ap (made m) (buffer_of_mine (index_of choice) st.buffers mine) ∙ have in
        let f = feed_text (at fakes u b) choice in
        elim (Bool-cases (is_finished choice)) [
          | inl e ↦
              let (s2, t2) = finish_text-at b' o f.1 t1 in
              let done = finish_text (at fakes u b') f.1 in
              let said =
                text_of_mine choice done.1 (o ++ b') mine
                  (finish_text-index (at fakes u b') f.1 ∙ feed_text-index (at fakes u b) choice)
                  t2 in
              rw (e, restore_entry-finished (at fakes u b) choice st source e, s1, said)
                (
                  rw mine refl,
                  rw (put_here (index_of choice) done.0 st.buffers mine) s2,
                  Agrees-deanonymize_exact fakes u marked (pending ++ text_or_empty choice)
                        (out ++ o) b' held' agrees'
                      ∙ append_assoc out o b',
                )
          | inr e ↦
              let said =
                text_of_mine choice f.1 o mine (feed_text-index (at fakes u b) choice) t1 in
              rw (e, restore_entry-unfinished (at fakes u b) choice st source e, said)
                (
                  b',
                  unflushed,
                  rw (put_here (index_of choice) f.0 st.buffers mine) s1,
                  rw (put_here (index_of choice) f.0 st.buffers mine)
                      (ap (λ (s : StreamingDeAnonymizer). s.buffer) s1),
                  held',
                  agrees',
                )
        ]

    pub mine-flushed :
        (pending out : Text) (choice : Choice) (st : TextStream)
        → is_mine choice ≡ true
        → null (text_or_empty choice) ≡ true
        → Stands true pending out st
        → Stands true
            (pending ++ text_or_empty choice)
            (out ++ text_of_entry i (restore_entry m (dict choice) st).1)
            (restore_entry m (dict choice) st).0
    unfolding flush
    mine-flushed pending out choice st mine silent (flushed, have, said) =
        let source = ap (made m) (buffer_of_mine (index_of choice) st.buffers mine) ∙ have in
        let s = at fakes u [] in
        let z = null-nil (text_or_empty choice) silent in
        let whole : deanonymize_exact fakes (pending ++ text_or_empty choice) ≡ out ++ [] =
          ap (deanonymize_exact fakes) (ap (λ (x : Text). pending ++ x) z ∙ append-nil pending)
          ∙ said
          ∙ sym (append-nil out) in
        elim (Bool-cases (is_finished choice)) [
          | inl e ↦
              rw (restore_entry-finished s choice st source e, silent, mine, z)
                (
                  ground (arith, mine),
                  rw (put_here (index_of choice) s st.buffers mine) refl,
                  rw z at whole,
                )
          | inr e ↦
              rw (restore_entry-unfinished s choice st source e, silent, mine, z)
                (flushed, rw (put_here (index_of choice) s st.buffers mine) refl, rw z at whole)
        ]

    pub elsewhere :
        (done : Bool) (pending out : Text) (choice : Choice) (st : TextStream)
        → is_mine choice ≡ false
        → Stands done pending out st
        → Stands done
            (pending ++ [])
            (out ++ text_of_entry i (restore_entry m (dict choice) st).1)
            (restore_entry m (dict choice) st).0
    elsewhere done pending out choice st e h =
        let s = made m (buffer_of (index_of choice) st.buffers) in
        let f = feed_text s choice in
        let (a, b) = finish_text f.0 f.1 in
        let kept = Stands-frame done pending out st in
        elim (Bool-cases (is_finished choice)) [
          | inl g ↦
              let silent = finish_text-index f.0 f.1 ∙ feed_text-index s choice in
              rw (restore_entry-finished s choice st refl g, silent, e, append-nil, append-nil)
                (kept _ (rw e refl)
                  (buffer_of-put_buffer i i (index_of choice) a st.buffers ∙ rw e refl) h)
          | inr g ↦
              rw
                (
                  restore_entry-unfinished s choice st refl g,
                  feed_text-index,
                  e,
                  append-nil,
                  append-nil,
                )
                (kept _ refl (buffer_of-put_buffer i i (index_of choice) f.0 st.buffers ∙ rw e refl)
                  h)
        ]
