-- ===== src/Anonymizer/Extends.antt =====
-- The reverse table of the mapping before and after the writes of privaite/pii/anonymizer.py.
use priv_ai_te.Prelude.{ℕ, ◌≡◌, none, some, arith, Text, text_eq_iff}
use priv_ai_te.Prelude.Dicts.{lookup-insert}
use priv_ai_te.Mapping.{
  PiiMapping, add, note, add_literal, get_fake, get_original, reserve_text, remember,
}
use priv_ai_te.Anonymizer.{AnonymizationConfig, numbered_placeholder}
use priv_ai_te.Anonymizer.Invariants.{IsInvariant}
use priv_ai_te.Anonymizer.Fresh.{numbered_placeholder-is_taken}
use priv_ai_te.Anonymizer.Coherent.{IsCoherent, is_taken-get_original, make_placeholder-fresh}

-- Each fake that `a` restores is restored to the same original by `b`.
abbrev pub Extends : PiiMapping → PiiMapping → Type 0
Extends a b = (f o : Text) → get_original a f ≡ some o → get_original b f ≡ some o

-- What `a` replaces an original by is restored to that original by `b`.
abbrev pub Restores : PiiMapping → PiiMapping → Type 0
Restores a b = (o f : Text) → get_fake a o ≡ some f → get_original b f ≡ some o

add-Extends :
    (a : PiiMapping) (o f t : Text) (m : PiiMapping)
    → get_original m f ≡ none
    → Extends a m
    → Extends a (add o f t m)
unfolding add
add-Extends a o f t m h e g p q =
    ground (arith, lookup-insert f g o m.fake_to_original, e g p q, text_eq_iff f g)

add_literal-Extends :
    (a : PiiMapping) (o f : Text) (m : PiiMapping)
    → get_original m f ≡ none
    → Extends a m
    → Extends a (add_literal o f m)
unfolding add_literal
add_literal-Extends a o f m h e g p q =
    ground (arith, lookup-insert f g o m.fake_to_original, e g p q, text_eq_iff f g)

-- The writes of the anonymizer keep every pair of a given mapping.
pub Extends-IsInvariant :
    (generate : Text → Text → ℕ → Text) (config : AnonymizationConfig) (a : PiiMapping)
    → IsInvariant generate config (Extends a)
unfolding note reserve_text remember
Extends-IsInvariant generate config a = record {
  noted = λ o t m e. e;
  added = λ o f t m kept made e.
      add-Extends a o f t m (make_placeholder-fresh generate config t o f m kept made) e;
  swapped = λ x m e.
      add_literal-Extends a x.literal (numbered_placeholder x.group m) m
        (is_taken-get_original m (numbered_placeholder x.group m)
          (numbered_placeholder-is_taken x.group m))
        e;
  reserved = λ u s m e. e;
  remembered = λ s t m e f o h. ground (arith, e f o h);
}

pub Restores-Extends : (a b c : PiiMapping) → Restores a b → Extends b c → Restores a c
Restores-Extends a b c r e o f h = e f o (r o f h)

pub IsCoherent-Restores : (m : PiiMapping) → IsCoherent m → Restores m m
IsCoherent-Restores m c = c.restores
