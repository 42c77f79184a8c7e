-- ===== src/Completion/Whole.antt =====
-- privaite/streaming/handler.py, `stream_text_response`: what a client gets of each choice.
use priv_ai_te.Prelude.{
  ℕ, ◌≡◌, refl, sym, ◌∙◌, ap, Bool, true, false, ◌&&◌, ◌||◌, List, [], ◌∷◌, ◌++◌, append_assoc,
  append-nil, Text, null, Bool-cases, inl, inr,
}
use priv_ai_te.Prelude.Dicts.{Distinct}
use priv_ai_te.Json.{Json}
use priv_ai_te.Mapping.{PiiMapping}
use priv_ai_te.Restore.{deanonymize_exact}
use priv_ai_te.Restore.Markers.{AllMarkers}
use priv_ai_te.Stream.{insert_all}
use priv_ai_te.Stream.Whole.{init-at}
use priv_ai_te.Stream.Held.{Agrees-deanonymize_exact}
use priv_ai_te.Completion.{
  Choice, Entry, dict, other, Chunk, text_or_empty, is_finished, buffer_of, TextStream,
  restore_entry, restore_entries, restore_chunks, drain, stream_text_response,
}
use priv_ai_te.Completion.Buffers.{
  text_of_entry, text_of_entries, text_of_chunks, text_of_rest, Unique, put_buffer-Unique,
  text_of_rest-drain,
}
use priv_ai_te.Completion.Steps.{is_mine, Stands, mine-unflushed, mine-flushed, elsewhere}

abbrev pub all_entries : List Chunk → List Entry
all_entries [] = []
all_entries (chunk ∷ chunks) = chunk.choices ++ all_entries chunks

module _ (i : ℕ) where
  -- Once the choice has finished, no more text comes on it.
  abbrev pub IsClosed : Bool → List Entry → Type 0
  IsClosed done [] = Unit
  IsClosed done (other j ∷ entries) = IsClosed done entries
  IsClosed done (dict choice ∷ entries) =
      ((is_mine i choice && done) ≡ true → null (text_or_empty choice) ≡ true)
      × IsClosed (done || (is_mine i choice && is_finished choice)) entries

  -- Whether the choice has finished after the entries.
  abbrev is_done : Bool → List Entry → Bool
  is_done done [] = done
  is_done done (other j ∷ entries) = is_done done entries
  is_done done (dict choice ∷ entries) =
      is_done (done || (is_mine i choice && is_finished choice)) entries

  IsClosed-append :
      (done : Bool) (xs ys : List Entry)
      → IsClosed done (xs ++ ys)
      → IsClosed done xs × IsClosed (is_done done xs) ys
  IsClosed-append done [] ys h = (tt, h)
  IsClosed-append done (other j ∷ xs) ys h = IsClosed-append done xs ys h
  IsClosed-append done (dict choice ∷ xs) ys h =
      let (a, b) = IsClosed-append (done || (is_mine i choice && is_finished choice)) xs ys h.1 in
      ((h.0, a), b)

  module _ (m : PiiMapping) (u : Distinct m.fake_to_original)
      (marked : AllMarkers m.fake_to_original) where
    restore_entry-Unique :
        (e : Entry) (st : TextStream)
        → Unique i st.buffers
        → Unique i (restore_entry m e st).0.buffers
    unfolding restore_entry
    restore_entry-Unique (other j) st h = h
    restore_entry-Unique (dict choice) st h = elim (Bool-cases (is_finished choice)) [
      | inl e ↦ rw e (put_buffer-Unique i _ _ st.buffers h)
      | inr e ↦ rw e (put_buffer-Unique i _ _ st.buffers h)
    ]

    restore_entry-other :
        (j : Json) (st : TextStream) → restore_entry m (other j) st ≡ (st, other j)
    unfolding restore_entry
    restore_entry-other j st = refl

    entry-Stands :
        (done : Bool) (pending out : Text) (choice : Choice) (st : TextStream)
        → ((is_mine i choice && done) ≡ true → null (text_or_empty choice) ≡ true)
        → Stands i m u marked done pending out st
        → Stands i m u marked
            (done || (is_mine i choice && is_finished choice))
            (pending ++ text_of_entry i (dict choice))
            (out ++ text_of_entry i (restore_entry m (dict choice) st).1)
            (restore_entry m (dict choice) st).0
    entry-Stands false pending out choice st silent h = elim (Bool-cases (is_mine i choice)) [
      | inl e ↦ rw e (mine-unflushed i m u marked pending out choice st e h)
      | inr e ↦ rw e (elsewhere i m u marked false pending out choice st e h)
    ]
    entry-Stands true pending out choice st silent h = elim (Bool-cases (is_mine i choice)) [
      | inl e ↦ rw e (mine-flushed i m u marked pending out choice st e (silent (rw e refl)) h)
      | inr e ↦ rw e (elsewhere i m u marked true pending out choice st e h)
    ]

    -- Where the choice stands after some entries.
    abbrev StandsAfter : Bool → Text → Text → TextStream → Type 0
    StandsAfter done pending out st = Stands i m u marked done pending out st × Unique i st.buffers

    entries-Stands :
        (entries : List Entry) (done : Bool) (pending out : Text) (st : TextStream)
        → IsClosed done entries
        → StandsAfter done pending out st
        → StandsAfter
            (is_done done entries)
            (pending ++ text_of_entries i entries)
            (out ++ text_of_entries i (restore_entries m entries st).1)
            (restore_entries m entries st).0
    unfolding restore_entries
    entries-Stands [] done pending out st closed h = rw (append-nil, append-nil) h
    entries-Stands (other j ∷ entries) done pending out st closed h =
        rw (restore_entry-other j st) (entries-Stands entries done pending out st closed h)
    entries-Stands (dict choice ∷ entries) done pending out st closed h =
        let e : Entry = dict choice in
        let next = restore_entry m e st in
        let here = entry-Stands done pending out choice st closed.0 h.0 in
        let rest =
          entries-Stands entries _ (pending ++ text_of_entry i e) (out ++ text_of_entry i next.1)
            next.0 closed.1 (here, restore_entry-Unique e st h.1) in
        rw
          (
            ← append_assoc pending (text_of_entry i e) (text_of_entries i entries),
            ← append_assoc out (text_of_entry i next.1)
                (text_of_entries i (restore_entries m entries next.0).1),
          )
          rest

    chunks-Stands :
        (chunks : List Chunk) (done : Bool) (pending out : Text) (st : TextStream)
        → IsClosed done (all_entries chunks)
        → StandsAfter done pending out st
        → (final : Bool) × StandsAfter final
            (pending ++ text_of_chunks i chunks)
            (out ++ text_of_chunks i (restore_chunks m chunks st).1)
            (restore_chunks m chunks st).0
    unfolding restore_chunks
    chunks-Stands [] done pending out st closed h = (done, rw (append-nil, append-nil) h)
    chunks-Stands (chunk ∷ chunks) done pending out st closed h =
        let (a, b) = IsClosed-append done chunk.choices (all_entries chunks) closed in
        let next = restore_entries m chunk.choices st in
        let (final, rest) =
          chunks-Stands chunks (is_done done chunk.choices)
            (pending ++ text_of_entries i chunk.choices) (out ++ text_of_entries i next.1) next.0 b
            (entries-Stands chunk.choices done pending out st a h) in
        (
          final,
          rw
              (
                ← append_assoc pending (text_of_entries i chunk.choices) (text_of_chunks i chunks),
                ← append_assoc out (text_of_entries i next.1)
                    (text_of_chunks i (restore_chunks m chunks next.0).1),
              )
              rest,
        )

    after_drain :
        (final : Bool) (pending out : Text) (st : TextStream)
        → StandsAfter final pending out st
        → deanonymize_exact m.fake_to_original pending
          ≡ out ++ text_of_rest i (drain st.flushed st.buffers)
    after_drain true pending out st ((flushed, have, said), unique) =
        said
        ∙ sym (append-nil out)
        ∙ ap (λ (x : Text). out ++ x)
            (sym (text_of_rest-drain i st.flushed st.buffers unique ∙ rw flushed refl))
    after_drain false pending out st ((b, unflushed, have, kept, held, agrees), unique) =
        Agrees-deanonymize_exact m.fake_to_original u marked pending out b held agrees
        ∙ ap (λ (x : Text). out ++ x)
            (sym (text_of_rest-drain i st.flushed st.buffers unique ∙ rw unflushed kept))

    started : StandsAfter false [] [] (record { buffers = []; flushed = [] })
    unfolding buffer_of insert_all
    started = (([], refl, init-at m.fake_to_original u, refl, inl refl, λ x. refl), tt)

    -- If the restore is on and something was replaced, the issued placeholders are in angle brackets, each
    -- under one key, and no text comes on a choice that has finished, then what the client gets on that
    -- choice, in the chunks and after them, is its whole text restored at once.
    pub stream_text_response-deanonymize_exact :
        (chunks : List Chunk)
        → null m.original_to_fake ≡ false
        → IsClosed false (all_entries chunks)
        → text_of_chunks i (stream_text_response true m chunks).0
            ++ text_of_rest i (stream_text_response true m chunks).1
          ≡ deanonymize_exact m.fake_to_original (text_of_chunks i chunks)
    unfolding stream_text_response
    stream_text_response-deanonymize_exact chunks some_issued closed =
        let start : TextStream = record { buffers = []; flushed = [] } in
        let (final, h) = chunks-Stands chunks false [] [] start closed started in
        rw some_issued (sym (after_drain final _ _ _ h))
