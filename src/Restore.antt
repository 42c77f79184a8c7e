-- ===== src/Restore.antt =====
-- privaite/pii/deanonymizer.py, `_deanonymize_exact`: one pass over a reply that replaces every
-- issued placeholder by its original.
pub mod Laws
pub mod Steps
pub mod Markers
use priv_ai_te.Prelude.{
  ℕ, zero, suc, ◌-◌, Bool, true, false, Option, none, some, List, [], ◌∷◌, ◌++◌, map, leb, null,
  if◌then◌else◌, Text, length,
}
use priv_ai_te.Prelude.Dicts.{Dict, lookup}
use priv_ai_te.Prelude.Prefixes.{is_prefix}
use priv_ai_te.Entity.{sorted}

-- `{fake: original for fake, original in ... if fake}`.
unfoldable pub non_empty : Dict Text → Dict Text
non_empty [] = []
non_empty ((fake, original) ∷ d) =
    let rest = non_empty d in if null fake then rest else (fake, original) ∷ rest

-- `sorted(fakes, key=len, reverse=True)`, which keeps the order of equal lengths.
unfoldable pub alternatives : Dict Text → Dict Text
alternatives = sorted (λ a b. leb (length b.0) (length a.0))

-- The alternation at one position: its first alternative that the text begins with.
unfoldable pub match_at : Dict Text → Text → Option (Text × Text)
match_at [] text = none
match_at ((fake, original) ∷ d) text =
    if is_prefix fake text then some (fake, original) else match_at d text

-- `pattern.sub`; `skip` is how much of the last match is still to be passed over.
unfoldable pub substitute : Dict Text → ℕ → Text → Text
substitute d skip [] = []
substitute d (suc skip) (c ∷ text) = substitute d skip text
substitute d zero (c ∷ text) = elim (match_at d (c ∷ text)) [
  | none ↦ c ∷ substitute d zero text
  | some (fake, original) ↦ original ++ substitute d (length fake - 1) text
]

unfoldable pub deanonymize_exact : Dict Text → Text → Text
unfolding non_empty alternatives match_at substitute
deanonymize_exact fake_to_original text =
    let fakes = non_empty fake_to_original in
    if null fakes then text else substitute (alternatives fakes) zero text
