-- ===== src/Gateway/Events/Framing.antt =====
-- privaite/gateway/restore.py, `_replace_data`: the framing of an event that is rewritten.
use priv_ai_te.Prelude.{
  ◌≡◌, refl, Bool, true, false, List, [], ◌∷◌, if◌then◌else◌, Text, any, Bool-cases, inl, inr,
}
use priv_ai_te.Gateway.Events.Lines.{is_data_line, data_lines, replace_data}

-- The name of the event, its id, the comments.
abbrev pub other_lines : List Text → List Text
other_lines [] = []
other_lines (line ∷ lines) =
    let rest = other_lines lines in if is_data_line line then rest else line ∷ rest

module _ (p : Text) where
  data_lines-emitted : (lines : List Text) → data_lines (replace_data lines p true) ≡ []
  unfolding replace_data
  data_lines-emitted [] = refl
  data_lines-emitted (line ∷ lines) = elim (Bool-cases (is_data_line line)) [
    | inl e ↦ rw e (data_lines-emitted lines)
    | inr e ↦ rw (e, e) (data_lines-emitted lines)
  ]

  other_lines-replace_data :
      (lines : List Text) (emitted : Bool)
      → other_lines (replace_data lines p emitted) ≡ other_lines lines
  unfolding replace_data
  other_lines-replace_data [] emitted = refl
  other_lines-replace_data (line ∷ lines) true = elim (Bool-cases (is_data_line line)) [
    | inl e ↦ rw e (other_lines-replace_data lines true)
    | inr e ↦ rw (e, e, other_lines-replace_data lines true) refl
  ]
  other_lines-replace_data (line ∷ lines) false = elim (Bool-cases (is_data_line line)) [
    | inl e ↦ rw e (other_lines-replace_data lines true)
    | inr e ↦ rw (e, e, other_lines-replace_data lines false) refl
  ]

  data_lines-first :
      (lines : List Text)
      → any is_data_line lines ≡ true
      → data_lines (replace_data lines p false) ≡ p ∷ []
  unfolding replace_data
  data_lines-first [] h = cc
  data_lines-first (line ∷ lines) h = elim (Bool-cases (is_data_line line)) [
    | inl e ↦ rw (e, data_lines-emitted lines) refl
    | inr e ↦ rw (e, e) (data_lines-first lines (rw e at h))
  ]

  -- If an event has data lines, then in the rewritten event a client reads the new payload as the one
  -- line of data, and every other line stands as it came, in its order.
  pub replace_data-data_lines :
      (lines : List Text)
      → any is_data_line lines ≡ true
      → (data_lines (replace_data lines p false) ≡ p ∷ [])
        × (other_lines (replace_data lines p false) ≡ other_lines lines)
  replace_data-data_lines lines h = (data_lines-first lines h, other_lines-replace_data lines false)
