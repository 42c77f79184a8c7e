-- ===== src/Prelude/Dicts.antt =====
-- Python's `dict` with text keys: an association list in insertion order. A write to a key that is
-- there keeps its place, and `pop` followed by a write moves it to the end.
use mathlib.Core.Path.{◌≡◌, refl}
use mathlib.Core.Bool.{Bool, false, ◌||◌}
use mathlib.Core.List.{List, [], ◌∷◌, ◌++◌}
use mathlib.Core.Option.{Option, none, some}
use native.Mathlib.Omega.{arith}
use priv_ai_te.Prelude.Tests.{if◌then◌else◌}
use priv_ai_te.Prelude.Texts.{Text, text_eq, text_eq_iff}

abbrev pub Dict {ℓ} : Type ℓ → Type ℓ
Dict V = List (Text × V)

module _ {ℓ} {V : Type ℓ} where
  -- `d.get(k)`.
  abbrev pub lookup : Text → Dict V → Option V
  lookup k [] = none
  lookup k ((j, v) ∷ d) = if text_eq j k then some v else lookup k d

  -- `d.get(k, v)`.
  abbrev pub lookup_or : V → Text → Dict V → V
  lookup_or v k d = elim (lookup k d) [ none ↦ v | some w ↦ w ]

  -- `k in d`.
  abbrev pub has_key : Text → Dict V → Bool
  has_key k [] = false
  has_key k ((j, v) ∷ d) = text_eq j k || has_key k d

  -- `d[k] = v`.
  unfoldable pub insert : Text → V → Dict V → Dict V
  insert k v [] = (k, v) ∷ []
  insert k v ((j, w) ∷ d) = if text_eq j k then (j, v) ∷ d else (j, w) ∷ insert k v d

  -- `del d[k]`, `d.pop(k, None)`.
  unfoldable pub delete : Text → Dict V → Dict V
  delete k [] = []
  delete k ((j, w) ∷ d) = let rest = delete k d in if text_eq j k then rest else (j, w) ∷ rest

  pub lookup-insert :
      (k j : Text) (v : V) (d : Dict V)
      → lookup j (insert k v d) ≡ (if text_eq k j then some v else lookup j d)
  unfolding insert
  lookup-insert k j v [] = refl
  lookup-insert k j v ((i, w) ∷ d) =
      ground (arith, text_eq_iff k j, text_eq_iff i k, text_eq_iff i j, lookup-insert k j v d)

  pub lookup-delete :
      (k j : Text) (d : Dict V) → lookup j (delete k d) ≡ (if text_eq k j then none else lookup j d)
  unfolding delete
  lookup-delete k j [] = ground arith
  lookup-delete k j ((i, w) ∷ d) =
      ground (arith, text_eq_iff k j, text_eq_iff i k, text_eq_iff i j, lookup-delete k j d)

  pub lookup-append :
      (k : Text) (d e : Dict V)
      → lookup k (d ++ e) ≡ elim (lookup k d) [ none ↦ lookup k e | some v ↦ some v ]
  lookup-append k [] e = refl
  lookup-append k ((j, v) ∷ d) e = ground (arith, lookup-append k d e)

  pub has_key-lookup : (k : Text) (d : Dict V) → lookup k d ≡ none → has_key k d ≡ false
  has_key-lookup k [] h = refl
  has_key-lookup k ((j, v) ∷ d) h = ground (arith, has_key-lookup k d)

-- The keys differ from one another, as in every `dict`.
abbrev pub Distinct {ℓ} : {V : Type ℓ} → Dict V → Type ℓ
Distinct [] = Unit
Distinct ((k, v) ∷ d) = (lookup k d ≡ none) × Distinct d

module _ {ℓ} {V : Type ℓ} where
  pub insert-Distinct : (k : Text) (v : V) (d : Dict V) → Distinct d → Distinct (insert k v d)
  unfolding insert
  insert-Distinct k v [] h = (refl, tt)
  insert-Distinct k v ((j, w) ∷ d) h =
      ground
        (arith, insert-Distinct k v d h.1, lookup-insert k j v d, text_eq_iff k j, text_eq_iff j k)

  pub delete-Distinct : (k : Text) (d : Dict V) → Distinct d → Distinct (delete k d)
  unfolding delete
  delete-Distinct k [] h = tt
  delete-Distinct k ((j, w) ∷ d) h = ground (arith, delete-Distinct k d h.1, lookup-delete k j d)
