-- ===== src/Windowed/Laws.antt =====
-- `windowed_ner_detect` of privaite/pii/detector_base.py reports each detection once.
use priv_ai_te.Prelude.{
  ℕ, ◌+◌, ◌≡◌, refl, Bool, true, false, ◌||◌, Option, none, some, List, [], ◌∷◌, ◌++◌, any,
  if◌then◌else◌, arith, Text, text_eq_iff, Option-cases, inl, inr,
}
use priv_ai_te.Prelude.Dicts.{Dict}
use priv_ai_te.Entity.{PiiEntity}
use priv_ai_te.Chunk.{chunk_text}
use priv_ai_te.Windowed.{
  NerResult, Key, same_key, Found, mapped_type, add_result, add_results, over_windows,
  windowed_ner_detect,
}

-- How many entities have a key.
abbrev pub count : {S : Type 0} → Key → List (PiiEntity S) → ℕ
count k [] = 0
count k (e ∷ es) =
    (if same_key (record { start = e.start; end = e.end; entity_type = e.entity_type }) k
      then 1
      else 0)
    + count k es

count-append :
    {S : Type 0} (k : Key) (xs ys : List (PiiEntity S))
    → count k (xs ++ ys) ≡ count k xs + count k ys
count-append k [] ys = omega arith
count-append k (x ∷ xs) ys = ground (arith, count-append k xs ys)

module _ {S : Type 0} (below : S → Bool) (label_mapping : Dict Text) (source : Text) (k : Key) where
  -- A result is kept under the key `k`.
  abbrev pub is_kept : ℕ → Option (NerResult S) → Bool
  is_kept offset none = false
  is_kept offset (some r) = elim (mapped_type below label_mapping source r) [
    | none ↦ false
    | some t ↦
        same_key (record { start = r.start + offset; end = r.end + offset; entity_type = t }) k
  ]

  -- The key is seen exactly if an entity has it, and then one has it; `b` says which.
  abbrev Counted : Bool → Found S → Type 0
  Counted b f = (any (λ s. same_key s k) f.seen ≡ b) × (count k f.entities ≡ (if b then 1 else 0))

  any-same_key :
      (key : Key) (seen : List Key)
      → same_key key k ≡ true
      → any (same_key key) seen ≡ any (λ s. same_key s k) seen
  any-same_key key [] h = refl
  any-same_key key (s ∷ seen) h = ground (
    arith,
    any-same_key key seen h,
    text_eq_iff key.entity_type s.entity_type,
    text_eq_iff s.entity_type k.entity_type,
    text_eq_iff key.entity_type k.entity_type,
  )

  add_result-Counted :
      (b : Bool) (offset : ℕ) (r : NerResult S) (f : Found S)
      → Counted b f
      → Counted (b || is_kept offset (some r)) (add_result below label_mapping source offset r f)
  unfolding add_result
  add_result-Counted b offset r f h =
      elim (Option-cases (mapped_type below label_mapping source r)) [
        | inl e ↦ ground arith
        | inr (t, e) ↦
            let key : Key = record {
              start = r.start + offset;
              end = r.end + offset;
              entity_type = t;
            } in
            let new : PiiEntity S = record {
              entity_type = t;
              text = r.span_text;
              start = r.start + offset;
              end = r.end + offset;
              score = r.score;
              source = source;
            } in
            ground (arith, any-same_key key f.seen, count-append k f.entities (new ∷ []))
      ]

  -- Some result of the windows is kept under the key.
  abbrev pub any_kept : {R : Type 0} → (R → Option (NerResult S)) → ℕ → List R → Bool
  any_kept extract offset = any (λ x. is_kept offset (extract x))

  abbrev pub any_window :
      {R : Type 0} → (Text → List R) → (R → Text → Option (NerResult S)) → List (ℕ × Text) → Bool
  any_window predict extract = any (λ w. any_kept (λ x. extract x w.1) w.0 (predict w.1))

  add_results-Counted :
      {R : Type 0} (extract : R → Option (NerResult S)) (b : Bool) (offset : ℕ) (results : List R)
      (f : Found S)
      → Counted b f
      → Counted
          (b || any_kept extract offset results)
          (add_results below label_mapping source extract offset results f)
  unfolding add_results
  add_results-Counted extract b offset [] f h = ground arith
  add_results-Counted extract b offset (x ∷ results) f h = elim (Option-cases (extract x)) [
    | inl e ↦
        let q : add_results below label_mapping source extract offset (x ∷ results) f
            ≡ add_results below label_mapping source extract offset results f =
          ground arith in
        rw (q, e) (add_results-Counted extract b offset results f h)
    | inr (r, e) ↦
        let step =
          add_results-Counted extract (b || is_kept offset (some r)) offset results
            (add_result below label_mapping source offset r f)
            (add_result-Counted b offset r f h) in
        let q : add_results below label_mapping source extract offset (x ∷ results) f
            ≡ add_results below label_mapping source extract offset results
                (add_result below label_mapping source offset r f) =
          ground arith in
        rw (q, e) (ground (arith, step))
  ]

  over_windows-Counted :
      {R : Type 0} (predict : Text → List R) (extract : R → Text → Option (NerResult S)) (b : Bool)
      (chunks : List (ℕ × Text)) (f : Found S)
      → Counted b f
      → Counted
          (b || any_window predict extract chunks)
          (over_windows below label_mapping source predict extract chunks f)
  unfolding over_windows
  over_windows-Counted predict extract b [] f h = ground arith
  over_windows-Counted predict extract b ((offset, chunk) ∷ chunks) f h =
      let here = any_kept (λ x. extract x chunk) offset (predict chunk) in
      let step =
        over_windows-Counted predict extract (b || here) chunks
          (add_results below label_mapping source (λ x. extract x chunk) offset (predict chunk) f)
          (add_results-Counted (λ x. extract x chunk) b offset (predict chunk) f h) in
      ground (arith, step)

  -- For each start, end and type, exactly one entity is reported if some window has a result that is
  -- kept under them, and none otherwise.
  pub windowed_ner_detect-count :
      {R : Type 0} (max_chars : ℕ) (predict : Text → List R)
      (extract : R → Text → Option (NerResult S)) (text : Text)
      → count k (windowed_ner_detect below label_mapping source max_chars predict extract text)
        ≡ (if any_window predict extract (chunk_text text max_chars 200) then 1 else 0)
  unfolding windowed_ner_detect
  windowed_ner_detect-count max_chars predict extract text =
      (over_windows-Counted predict extract false (chunk_text text max_chars 200)
        (record { entities = []; seen = [] }) (refl, refl)).1
