-- ===== src/Engine/Traced.antt =====
-- `_walk_anonymize` of privaite/pii/engine.py: each document that it makes, beside the one that it was given, and
-- the mapping at its end.
use priv_ai_te.Prelude.{
  ◌≡◌, refl, Bool, true, ltb, if◌then◌else◌, Text, text_eq, Bool-cases, inl, inr,
}
use priv_ai_te.Json.{Json, Items, Fields, boolean, number, str, arr, obj, nil, item, end, field}
use priv_ai_te.Mapping.{PiiMapping}
use priv_ai_te.Anonymizer.Coherent.{IsCoherent, IsCoherent-IsInvariant}
use priv_ai_te.Anonymizer.Extends.{
  Extends, Restores, Extends-IsInvariant, Restores-Extends, IsCoherent-Restores,
}
use priv_ai_te.Engine.{
  Result, passed, blocked, unsupported, failed, ◌>>=◌, PiiEngine, anonymize_text, digit_count,
  anonymize_number, walk_anonymize, walk_items, walk_fields,
}
use priv_ai_te.Engine.Documents.{anonymize_text-Keeps, passed-After}

module _ {A : Type 0} where
  -- A result that passed has the property.
  abbrev pub Post : (A → PiiMapping → Type 0) → Result (A × PiiMapping) → Type 0
  Post Q (passed r) = Q r.0 r.1
  Post Q (blocked ts) = Unit
  Post Q unsupported = Unit
  Post Q failed = Unit

  pub passed-Post :
      (Q : A → PiiMapping → Type 0) (r : Result (A × PiiMapping))
      → ((a : A) (m : PiiMapping) → r ≡ passed (a, m) → Q a m)
      → Post Q r
  passed-Post Q (passed (a, m)) h = h a m refl
  passed-Post Q (blocked ts) h = tt
  passed-Post Q unsupported h = tt
  passed-Post Q failed h = tt

  pub Post-passed :
      (Q : A → PiiMapping → Type 0) (r : Result (A × PiiMapping)) (a : A) (m : PiiMapping)
      → Post Q r
      → r ≡ passed (a, m)
      → Q a m
  Post-passed Q r a m h e = rw e at h

module _ {A B : Type 0} where
  pub Post-then :
      (Q : A → PiiMapping → Type 0) (R : B → PiiMapping → Type 0) (r : Result (A × PiiMapping))
      (f : A × PiiMapping → Result (B × PiiMapping))
      → Post Q r
      → ((a : A) (m : PiiMapping) → Q a m → Post R (f (a, m)))
      → Post R (r >>= f)
  Post-then Q R (passed (a, m)) f h k = k a m h
  Post-then Q R (blocked ts) f h k = tt
  Post-then Q R unsupported f h k = tt
  Post-then Q R failed f h k = tt

module _ {S : Type 0} (g : PiiEngine S) where
  -- The text is the scrub of the other, and the mapping `m'` restores each pair that the mapping of this scrub notes.
  abbrev pub IsScrubbed : PiiMapping → Text → Text → Type 0
  IsScrubbed m' s t =
      (m0 : PiiMapping) × (m1 : PiiMapping) × (anonymize_text g s m0 ≡ passed (t, m1))
      × Restores m1 m'

  mutual
    -- The second document is the first with each string scrubbed, and each number of at least seven digits.
    pub data IsTraced (m' : PiiMapping) : Json → Json → Type 0 where
      text : (s t : Text) → IsScrubbed m' s t → IsTraced m' (str s) (str t)
      few_digits : (n : Text) → ltb (digit_count g n) 7 ≡ true → IsTraced m' (number n) (number n)
      digits :
          (n t : Text)
          → IsScrubbed m' n t
          → IsTraced m' (number n) (if text_eq t n then number n else str t)
      list : (items new : Items) → ItemsAreTraced m' items new → IsTraced m' (arr items) (arr new)
      object :
          (fields new : Fields) → FieldsAreTraced m' fields new → IsTraced m' (obj fields) (obj new)
      truth : (b : Bool) → IsTraced m' (boolean b) (boolean b)
      nothing : IsTraced m' Json.null Json.null

    pub data ItemsAreTraced (m' : PiiMapping) : Items → Items → Type 0 where
      no_items : ItemsAreTraced m' nil nil
      one_item :
          (j out : Json) (items new : Items)
          → IsTraced m' j out
          → ItemsAreTraced m' items new
          → ItemsAreTraced m' (item j items) (item out new)

    -- With the same keys.
    pub data FieldsAreTraced (m' : PiiMapping) : Fields → Fields → Type 0 where
      no_fields : FieldsAreTraced m' end end
      one_field :
          (k : Text) (j out : Json) (fields new : Fields)
          → IsTraced m' j out
          → FieldsAreTraced m' fields new
          → FieldsAreTraced m' (field k j fields) (field k out new)

  mutual
    -- A mapping that extends another restores no less.
    pub traced_on :
        (a b : PiiMapping) → Extends a b → (j out : Json) → IsTraced a j out → IsTraced b j out
    traced_on a b e _ _ (text s t (m0, m1, h, r)) =
        text s t (m0, m1, h, Restores-Extends m1 a b r e)
    traced_on a b e _ _ (few_digits n h) = few_digits n h
    traced_on a b e _ _ (digits n t (m0, m1, h, r)) =
        digits n t (m0, m1, h, Restores-Extends m1 a b r e)
    traced_on a b e _ _ (list items new h) = list items new (items_traced_on a b e items new h)
    traced_on a b e _ _ (object fields new h) =
        object fields new (fields_traced_on a b e fields new h)
    traced_on a b e _ _ (truth x) = truth x
    traced_on a b e _ _ nothing = nothing

    items_traced_on :
        (a b : PiiMapping)
        → Extends a b
        → (items new : Items) → ItemsAreTraced a items new
        → ItemsAreTraced b items new
    items_traced_on a b e _ _ no_items = no_items
    items_traced_on a b e _ _ (one_item j out items new h hs) =
        one_item j out items new (traced_on a b e j out h) (items_traced_on a b e items new hs)

    fields_traced_on :
        (a b : PiiMapping)
        → Extends a b
        → (fields new : Fields) → FieldsAreTraced a fields new
        → FieldsAreTraced b fields new
    fields_traced_on a b e _ _ no_fields = no_fields
    fields_traced_on a b e _ _ (one_field k j out fields new h hs) =
        one_field k j out fields new (traced_on a b e j out h)
          (fields_traced_on a b e fields new hs)

  -- The mapping after a step that started from `m`, with what the step made of the document.
  abbrev pub Traces :
      {A : Type 0} → PiiMapping → (PiiMapping → A → Type 0) → A → PiiMapping → Type 0
  Traces m R a m1 = IsCoherent m1 × Extends m m1 × R m1 a

  pub anonymize_text-Traces :
      (s : Text) (m : PiiMapping)
      → IsCoherent m
      → Post (Traces m (λ m1 t. IsScrubbed m1 s t)) (anonymize_text g s m)
  anonymize_text-Traces s m c = passed-Post _ (anonymize_text g s m) (λ t m1 h.
      let c1 =
        passed-After IsCoherent _ t m1
          (anonymize_text-Keeps g IsCoherent (IsCoherent-IsInvariant g.generate g.anonymization) s m
            c)
          h in
      (
        c1,
        passed-After (Extends m) _ t m1
            (anonymize_text-Keeps g (Extends m) (Extends-IsInvariant g.generate g.anonymization m) s
              m (λ f o q. q))
            h,
        (m, m1, h, IsCoherent-Restores m1 c1),
      ))

  number-Traces :
      (n : Text) (m : PiiMapping)
      → IsCoherent m
      → Post (Traces m (λ m1 out. IsTraced m1 (number n) out)) (anonymize_number g n m)
  unfolding anonymize_number
  number-Traces n m c = elim (Bool-cases (ltb (digit_count g n) 7)) [
    | inl e ↦ rw e (c, λ f o q. q, few_digits n e)
    | inr e ↦ rw e (
        Post-then _ _ (anonymize_text g n m) _ (anonymize_text-Traces n m c)
          (λ t m1 (c1, x, h). (c1, x, digits n t h)))
  ]

  mutual
    unfolding walk_anonymize

    document-Traces :
        (j : Json) (m : PiiMapping)
        → IsCoherent m
        → Post (Traces m (λ m1 out. IsTraced m1 j out)) (walk_anonymize g j m)
    document-Traces (str s) m c =
        Post-then _ _ (anonymize_text g s m) _ (anonymize_text-Traces s m c)
          (λ t m1 (c1, x, h). (c1, x, text s t h))
    document-Traces (number n) m c = number-Traces n m c
    document-Traces (arr items) m c =
        Post-then _ _ (walk_items g items m) _ (items-Traces items m c)
          (λ new m1 (c1, x, h). (c1, x, list items new h))
    document-Traces (obj fields) m c =
        Post-then _ _ (walk_fields g fields m) _ (fields-Traces fields m c)
          (λ new m1 (c1, x, h). (c1, x, object fields new h))
    document-Traces (boolean b) m c = (c, λ f o q. q, truth b)
    document-Traces Json.null m c = (c, λ f o q. q, nothing)

    items-Traces :
        (items : Items) (m : PiiMapping)
        → IsCoherent m
        → Post (Traces m (λ m1 new. ItemsAreTraced m1 items new)) (walk_items g items m)
    items-Traces nil m c = (c, λ f o q. q, no_items)
    items-Traces (item j items) m c =
        Post-then _ _ (walk_anonymize g j m) _ (document-Traces j m c) (λ out m1 (c1, x, h).
          Post-then _ _ (walk_items g items m1) _ (items-Traces items m1 c1) (λ new m2 (c2, y, hs).
            (
              c2,
              λ f o q. y f o (x f o q),
              one_item j out items new (traced_on m1 m2 y j out h) hs,
            )))

    fields-Traces :
        (fields : Fields) (m : PiiMapping)
        → IsCoherent m
        → Post (Traces m (λ m1 new. FieldsAreTraced m1 fields new)) (walk_fields g fields m)
    fields-Traces end m c = (c, λ f o q. q, no_fields)
    fields-Traces (field k j fields) m c =
        Post-then _ _ (walk_anonymize g j m) _ (document-Traces j m c) (λ out m1 (c1, x, h).
          Post-then _ _ (walk_fields g fields m1) _ (fields-Traces fields m1 c1)
            (λ new m2 (c2, y, hs). (
              c2,
              λ f o q. y f o (x f o q),
              one_field k j out fields new (traced_on m1 m2 y j out h) hs,
            )))

  pub walk_anonymize-Traces :
      (j : Json) (m : PiiMapping)
      → IsCoherent m
      → Post (Traces m (λ m1 out. IsTraced m1 j out)) (walk_anonymize g j m)
  walk_anonymize-Traces = document-Traces

  -- If the walk over a document passes from a coherent mapping, its mapping is coherent and restores all that the
  -- start restored, and the new document has the shape and the keys of the old one: each string, and each number of
  -- at least seven digits, became a result of `anonymize_text`, from some mapping, such that every pair which the mapping of this result
  -- notes is restored by the mapping at the end. A number that
  -- `anonymize_text` leaves as it is stays a number; shorter numbers and other leaves are the same.
  pub walk_anonymize-IsTraced :
      (j out : Json) (m m' : PiiMapping)
      → walk_anonymize g j m ≡ passed (out, m')
      → IsCoherent m
      → IsCoherent m' × Extends m m' × IsTraced m' j out
  walk_anonymize-IsTraced j out m m' h c =
      Post-passed _ (walk_anonymize g j m) out m' (document-Traces j m c) h
