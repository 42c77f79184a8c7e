-- ===== src/Restore/Steps.antt =====
-- The rounds of the pass of privaite/pii/deanonymizer.py.
use priv_ai_te.Prelude.{
  ℕ, ◌-◌, ◌≡◌, ◌≢◌, refl, sym, ap, none, some, [], ◌∷◌, ◌++◌, null, arith, Text, length, drop,
  if◌then◌else◌,
}
use priv_ai_te.Prelude.Dicts.{Dict}
use priv_ai_te.Restore.{non_empty, alternatives, match_at, substitute, deanonymize_exact}
use priv_ai_te.Restore.Laws.{substitute-skip}

-- With no placeholder to replace, the pass copies the text.
substitute-nil : (s : Text) → substitute [] 0 s ≡ s
unfolding substitute match_at
substitute-nil [] = refl
substitute-nil (c ∷ s) = ap (◌∷◌ c) (substitute-nil s)

-- The case of no placeholder is no special case.
pub deanonymize_exact-substitute :
    (d : Dict Text) (s : Text) → deanonymize_exact d s ≡ substitute (alternatives (non_empty d)) 0 s
unfolding deanonymize_exact
deanonymize_exact-substitute d s = go (non_empty d)
  where
    go :
        (f : Dict Text)
        → (if null f then s else substitute (alternatives f) 0 s) ≡ substitute (alternatives f) 0 s
    go [] = sym (substitute-nil s)
    go (e ∷ f) = refl

module _ (alts : Dict Text) where
  pub substitute-none :
      (c : ℕ) (s : Text)
      → match_at alts (c ∷ s) ≡ none
      → substitute alts 0 (c ∷ s) ≡ c ∷ substitute alts 0 s
  unfolding substitute
  substitute-none c s h = ground arith

  pub substitute-some :
      (s f o : Text)
      → f ≢ []
      → s ≢ []
      → match_at alts s ≡ some (f, o)
      → substitute alts 0 s ≡ o ++ substitute alts 0 (drop (length f) s)
  unfolding substitute
  substitute-some s [] o ne _ h = absurd (ne refl)
  substitute-some [] (x ∷ f) o ne nt h = absurd (nt refl)
  substitute-some (c ∷ s) (x ∷ f) o ne nt h =
      let len : length (x ∷ f) - 1 ≡ length f = omega arith in
      ground (arith, len, substitute-skip alts (length f) s)
