-- ===== src/Anonymizer/Shielded.antt =====
-- What the input held in the shape of a placeholder (privaite/pii/mapping.py, `reserve`) is never
-- issued by privaite/pii/anonymizer.py.
use priv_ai_te.Prelude.{
  ℕ, ◌≡◌, ◌∙◌, true, false, none, map, arith, Text, codes, text_eq, text_eq_iff, any, any-append,
  Bool-cases, inl, inr,
}
use priv_ai_te.Prelude.Dicts.{lookup-insert}
use priv_ai_te.Literal.{DecimalClass, find_literals}
use priv_ai_te.Mapping.{
  PiiMapping, add, note, add_literal, is_taken, get_original, reserve_text, remember,
}
use priv_ai_te.Anonymizer.{
  AnonymizationConfig, ok, is_irreversible_method, method_for, numbered_placeholder,
  make_placeholder,
}
use priv_ai_te.Anonymizer.Fresh.{numbered_placeholder-is_taken}
use priv_ai_te.Anonymizer.Invariants.{IsInvariant}

-- The literal is reserved, and stands for no original.
abbrev pub IsShielded : Text → PiiMapping → Type 0
IsShielded r m = (any (λ s. text_eq s r) m.reserved ≡ true) × (get_original m r ≡ none)

-- No type is replaced by values of the generator, which do not ask what is reserved.
abbrev pub NoFakes : AnonymizationConfig → Type 0
NoFakes config = (t : Text) → text_eq (method_for config t) (codes "fake_replacement") ≡ false

module _ (r : Text) where
  fresh_differs :
      (f : Text) (m : PiiMapping) → is_taken m f ≡ false → IsShielded r m → text_eq f r ≡ false
  fresh_differs f m h s = elim (Bool-cases (text_eq f r)) [
    | inr e ↦ e
    | inl e ↦ let q : f ≡ r = (text_eq_iff f r).0 e in absurd (clash m (rw q at h) s.0)
  ]
    where
      clash : (m : PiiMapping) → is_taken m r ≡ false → any (λ s. text_eq s r) m.reserved ≡ true → ⊥
      clash m a b = ground arith

  add-IsShielded :
      (o f t : Text) (m : PiiMapping)
      → is_taken m f ≡ false
      → IsShielded r m
      → IsShielded r (add o f t m)
  unfolding add
  add-IsShielded o f t m h s =
      (s.0, ground (arith, lookup-insert f r o m.fake_to_original, fresh_differs f m h s))

  add_literal-IsShielded :
      (o f : Text) (m : PiiMapping)
      → is_taken m f ≡ false
      → IsShielded r m
      → IsShielded r (add_literal o f m)
  unfolding add_literal
  add_literal-IsShielded o f m h s =
      (s.0, ground (arith, lookup-insert f r o m.fake_to_original, fresh_differs f m h s))

  reserve_text-IsShielded :
      (u : DecimalClass) (t : Text) (m : PiiMapping)
      → IsShielded r m
      → IsShielded r (reserve_text u t m)
  unfolding reserve_text
  reserve_text-IsShielded u t m s = (
    any-append (λ x. text_eq x r) (map (λ x. x.literal) (find_literals u t)) m.reserved
        ∙ ground (arith, s.0),
    s.1,
  )

  note-IsShielded : (o t : Text) (m : PiiMapping) → IsShielded r m → IsShielded r (note o t m)
  unfolding note
  note-IsShielded o t m s = s

  remember-IsShielded :
      (v t : Text) (m : PiiMapping) → IsShielded r m → IsShielded r (remember v t m)
  unfolding remember
  remember-IsShielded v t m s = ground (arith, s)

  module _ (generate : Text → Text → ℕ → Text) (config : AnonymizationConfig)
      (no_fakes : NoFakes config) where
    make_placeholder-is_taken :
        (t o f : Text) (m : PiiMapping)
        → is_irreversible_method (method_for config t) ≡ false
        → make_placeholder generate config t o m ≡ ok f
        → is_taken m f ≡ false
    unfolding make_placeholder
    make_placeholder-is_taken t o f m kept h =
        let q : numbered_placeholder t m ≡ f = ground (arith, no_fakes t) in
        rw (← q) (numbered_placeholder-is_taken t m)

    pub IsShielded-IsInvariant : IsInvariant generate config (IsShielded r)
    IsShielded-IsInvariant = record {
      noted = note-IsShielded;
      added = λ o f t m kept made s.
          add-IsShielded o f t m (make_placeholder-is_taken t o f m kept made) s;
      swapped = λ x m s.
          add_literal-IsShielded x.literal (numbered_placeholder x.group m) m
            (numbered_placeholder-is_taken x.group m) s;
      reserved = reserve_text-IsShielded;
      remembered = remember-IsShielded;
    }
