-- ===== src/Engine/Documents.antt =====
-- The walk of privaite/pii/engine.py over a JSON document keeps each invariant of the mapping that the
-- anonymizer keeps.
use priv_ai_te.Prelude.{
  ◌≡◌, refl, ◌&&◌, List, [], ◌∷◌, ltb, Text, slice, Bool-cases, Option-cases, inl, inr,
}
use priv_ai_te.Json.{Json, Items, Fields, boolean, number, str, arr, obj, nil, item, end, field}
use priv_ai_te.Entity.{PiiEntity}
use priv_ai_te.Mapping.{PiiMapping, remember}
use priv_ai_te.Anonymizer.Invariants.{IsInvariant, anonymize-keeps}
use priv_ai_te.Known.{SecretMatch, token_shaped, spans_over, remember_matches, with_known_values}
use priv_ai_te.Engine.{
  Result, passed, blocked, unsupported, failed, ◌>>=◌, PiiEngine, known_entities, anonymize_text,
  digit_count, anonymize_number, walk_anonymize, walk_items, walk_fields,
}
use priv_ai_te.Engine.Laws.{detections, anonymize_text-passed}
use priv_ai_te.Action.Keeps.{After, Keeps}

module _ (P : PiiMapping → Type 0) where
  pub After-passed :
      {A : Type 0} (r : Result (A × PiiMapping))
      → ((a : A) (m : PiiMapping) → r ≡ passed (a, m) → P m)
      → After P r
  After-passed (passed (a, m)) h = h a m refl
  After-passed (blocked ts) h = tt
  After-passed unsupported h = tt
  After-passed failed h = tt

  pub passed-After :
      {A : Type 0} (r : Result (A × PiiMapping)) (a : A) (m : PiiMapping)
      → After P r
      → r ≡ passed (a, m)
      → P m
  passed-After (passed (b, n)) a m h e = let q : n ≡ m = cc in rw q at h
  passed-After (blocked ts) a m h e = cc
  passed-After unsupported a m h e = cc
  passed-After failed a m h e = cc

  pub After-then :
      {A B : Type 0} (r : Result (A × PiiMapping)) (f : A × PiiMapping → Result (B × PiiMapping))
      → After P r
      → ((a : A) (m : PiiMapping) → P m → After P (f (a, m)))
      → After P (r >>= f)
  After-then (passed (a, m)) f h k = k a m h
  After-then (blocked ts) f h k = tt
  After-then unsupported f h k = tt
  After-then failed f h k = tt

module _ {S : Type 0} (g : PiiEngine S) (P : PiiMapping → Type 0)
    (i : IsInvariant g.generate g.anonymization P) where
  remember_matches-keeps :
      (text : Text) (entities : List (PiiEntity S)) (matches : List SecretMatch) (m : PiiMapping)
      → P m
      → P (remember_matches g.alphabet g.certain text entities matches m)
  unfolding remember_matches
  remember_matches-keeps text entities [] m p = p
  remember_matches-keeps text entities (x ∷ matches) m p =
      elim (Bool-cases (
        token_shaped g.alphabet (slice text x.start x.end)
        && spans_over g.alphabet g.certain x.start x.end entities)) [
          | inl e ↦ rw e (
              remember_matches-keeps text entities matches
                (remember (slice text x.start x.end) x.entity_type m)
                (i.remembered (slice text x.start x.end) x.entity_type m p))
          | inr e ↦ rw e (remember_matches-keeps text entities matches m p)
        ]

  known_entities-keeps :
      (text : Text) (entities : List (PiiEntity S)) (m : PiiMapping)
      → P m
      → P (known_entities g text entities m).1
  unfolding known_entities with_known_values
  known_entities-keeps text entities m p = elim (Option-cases g.secret_rules) [
    | inl e ↦ rw e p
    | inr (analyze, e) ↦ rw e (remember_matches-keeps text entities (analyze text) m p)
  ]

  pub anonymize_text-Keeps : (text : Text) → Keeps P (anonymize_text g text)
  anonymize_text-Keeps [] m p = unfold anonymize_text in p
  anonymize_text-Keeps (x ∷ text) m p = After-passed P (anonymize_text g (x ∷ text) m) (λ out m' h.
      let (_, _, q) = (anonymize_text-passed g (x ∷ text) out m m' refl).0 h in
      let entities = detections g (x ∷ text) in
      anonymize-keeps g.generate g.anonymization P i g.decimals (x ∷ text) out
        (known_entities g (x ∷ text) entities m).0 (known_entities g (x ∷ text) entities m).1 m' q
        (known_entities-keeps (x ∷ text) entities m p))

  anonymize_number-Keeps : (n : Text) → Keeps P (anonymize_number g n)
  unfolding anonymize_number
  anonymize_number-Keeps n m p = elim (Bool-cases (ltb (digit_count g n) 7)) [
    | inl e ↦ rw e p
    | inr e ↦
        rw e (After-then P (anonymize_text g n m) _ (anonymize_text-Keeps n m p) (λ t m1 q. q))
  ]

  mutual
    unfolding walk_anonymize

    document : (j : Json) → Keeps P (walk_anonymize g j)
    document (str value) m p =
        After-then P (anonymize_text g value m) _ (anonymize_text-Keeps value m p) (λ t m1 q. q)
    document (number n) m p = anonymize_number-Keeps n m p
    document (obj fields) m p =
        After-then P (walk_fields g fields m) _ (document_fields fields m p) (λ t m1 q. q)
    document (arr items) m p =
        After-then P (walk_items g items m) _ (document_items items m p) (λ t m1 q. q)
    document (boolean b) m p = p
    document Json.null m p = p

    document_items : (items : Items) → Keeps P (walk_items g items)
    document_items nil m p = p
    document_items (item j items) m p =
        After-then P (walk_anonymize g j m) _ (document j m p) (λ j' m1 q.
          After-then P (walk_items g items m1) _ (document_items items m1 q) (λ js m2 r. r))

    document_fields : (fields : Fields) → Keeps P (walk_fields g fields)
    document_fields end m p = p
    document_fields (field k j fields) m p =
        After-then P (walk_anonymize g j m) _ (document j m p) (λ j' m1 q.
          After-then P (walk_fields g fields m1) _ (document_fields fields m1 q) (λ js m2 r. r))

  -- An invariant of the mapping that each write of the anonymizer keeps is kept by the walk over a
  -- whole document.
  pub walk_anonymize-Keeps : (j : Json) → Keeps P (walk_anonymize g j)
  walk_anonymize-Keeps = document
