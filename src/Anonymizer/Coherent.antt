-- ===== src/Anonymizer/Coherent.antt =====
-- What privaite/pii/anonymizer.py puts into a text can be taken back: the mapping stays coherent.
use priv_ai_te.Prelude.{ℕ, ◌≡◌, refl, false, none, some, List, [], ◌∷◌, arith, Text, text_eq_iff}
use priv_ai_te.Prelude.Dicts.{Dict, Distinct, lookup, has_key, lookup-insert, insert-Distinct}
use priv_ai_te.Entity.{PiiEntity}
use priv_ai_te.Literal.{DecimalClass}
use priv_ai_te.Mapping.{
  PiiMapping, add, note, add_literal, is_taken, get_fake, get_original, reserve_text, remember,
}
use priv_ai_te.Anonymizer.{
  AnonymizationConfig, ok, is_irreversible_method, method_for, numbered_placeholder,
  make_placeholder, fake_replacement, anonymize,
}
use priv_ai_te.Anonymizer.Invariants.{IsInvariant, anonymize-keeps}
use priv_ai_te.Anonymizer.Fresh.{numbered_placeholder-is_taken}

-- What an original was replaced by is restored to that original.
pub record IsCoherent (m : PiiMapping) : Type 0 where
  pub restores : (o f : Text) → get_fake m o ≡ some f → get_original m f ≡ some o
  -- The keys of a `dict` differ.
  pub distinct : Distinct m.fake_to_original

pub is_taken-get_original :
    (m : PiiMapping) (f : Text) → is_taken m f ≡ false → get_original m f ≡ none
is_taken-get_original m f h = go m.fake_to_original (ground arith)
  where
    go : (d : Dict Text) → has_key f d ≡ false → lookup f d ≡ none
    go [] h = refl
    go ((k, v) ∷ d) h = ground (arith, go d)

-- A fresh fake keeps the mapping coherent.
add-IsCoherent :
    (o f t : Text) (m : PiiMapping)
    → get_original m f ≡ none
    → IsCoherent m
    → IsCoherent (add o f t m)
unfolding add
add-IsCoherent o f t m h c = record {
  restores = λ p g e. ground (
    arith,
    lookup-insert o p f m.original_to_fake,
    lookup-insert f g o m.fake_to_original,
    c.restores p g,
    text_eq_iff o p,
    text_eq_iff f g,
  );
  distinct = insert-Distinct f o m.fake_to_original c.distinct;
}

add_literal-IsCoherent :
    (o f : Text) (m : PiiMapping)
    → get_original m f ≡ none
    → IsCoherent m
    → IsCoherent (add_literal o f m)
unfolding add_literal
add_literal-IsCoherent o f m h c = record {
  restores = λ p g e. ground (
    arith,
    lookup-insert o p f m.original_to_fake,
    lookup-insert f g o m.fake_to_original,
    c.restores p g,
    text_eq_iff o p,
    text_eq_iff f g,
  );
  distinct = insert-Distinct f o m.fake_to_original c.distinct;
}

note-IsCoherent : (o t : Text) (m : PiiMapping) → IsCoherent m → IsCoherent (note o t m)
unfolding note
note-IsCoherent o t m c = record { restores = c.restores; distinct = c.distinct }

remember-IsCoherent : (s t : Text) (m : PiiMapping) → IsCoherent m → IsCoherent (remember s t m)
unfolding remember
remember-IsCoherent s t m c = record {
  restores = λ o f h. ground (arith, c.restores o f);
  distinct = ground (arith, c.distinct);
}

reserve_text-IsCoherent :
    (u : DecimalClass) (s : Text) (m : PiiMapping) → IsCoherent m → IsCoherent (reserve_text u s m)
unfolding reserve_text
reserve_text-IsCoherent u s m c = record { restores = c.restores; distinct = c.distinct }

module _ (generate : Text → Text → ℕ → Text) (config : AnonymizationConfig) where
  fake_replacement-fresh :
      (t o f : Text) (m : PiiMapping)
      → fake_replacement generate t o m ≡ ok f
      → get_original m f ≡ none
  unfolding fake_replacement
  fake_replacement-fresh t o f m h = ground arith

  -- A method that is not lossy makes a fake that restores nothing else.
  pub make_placeholder-fresh :
      (t o f : Text) (m : PiiMapping)
      → is_irreversible_method (method_for config t) ≡ false
      → make_placeholder generate config t o m ≡ ok f
      → get_original m f ≡ none
  unfolding make_placeholder
  make_placeholder-fresh t o f m i h = ground (
    arith,
    fake_replacement-fresh t o f m,
    numbered_placeholder-is_taken t m,
    is_taken-get_original m (numbered_placeholder t m),
  )

  pub IsCoherent-IsInvariant : IsInvariant generate config IsCoherent
  IsCoherent-IsInvariant = record {
    noted = note-IsCoherent;
    added =
        λ o f t m kept made c. add-IsCoherent o f t m (make_placeholder-fresh t o f m kept made) c;
    swapped = λ x m c.
        add_literal-IsCoherent x.literal (numbered_placeholder x.group m) m
          (is_taken-get_original m (numbered_placeholder x.group m)
            (numbered_placeholder-is_taken x.group m))
          c;
    reserved = reserve_text-IsCoherent;
    remembered = remember-IsCoherent;
  }

  -- From a coherent mapping, and if no fake value is exhausted, `anonymize` leaves a coherent mapping,
  -- whatever the methods and the spans: the fake of each original is restored to that original.
  pub anonymize-IsCoherent :
      {S : Type 0} (u : DecimalClass) (text out : Text) (entities : List (PiiEntity S))
      (m m' : PiiMapping)
      → anonymize generate config u text entities m ≡ ok (out, m')
      → IsCoherent m
      → IsCoherent m'
  anonymize-IsCoherent = anonymize-keeps generate config IsCoherent IsCoherent-IsInvariant
