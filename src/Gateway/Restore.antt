-- ===== src/Gateway/Restore.antt =====
-- privaite/gateway/restore.py, `restore_tree`: a whole reply restored, but for the blocks that must
-- reach the client as they came.
pub mod Depth
use priv_ai_te.Prelude.{
  ℕ, zero, suc, Bool, true, false, Option, none, some, List, [], ◌∷◌, if◌then◌else◌, Text, codes,
  text_eq,
}
use priv_ai_te.Json.{
  Json, Items, Fields, boolean, number, str, arr, obj, nil, item, end, field, get_field, text_in,
}
use priv_ai_te.Mapping.{PiiMapping}
use priv_ai_te.Messages.{JsonText}
use priv_ai_te.Messages.Restore.{restore_document}

module _ (json : JsonText) (enabled : Bool) (m : PiiMapping) where
  abbrev pub restored : Text → Json
  restored s = restore_document enabled (str s) (some m)

  -- Text that does not change is passed on as it is.
  abbrev pub unless_same : Text → Json → Json → Json
  unless_same s (str t) changed = if text_eq t s then str s else changed
  unless_same s j changed = changed

  abbrev pub at_arguments : Bool → (Text → Json) → Json → Json → Json
  at_arguments true arguments (str s) walked = arguments s
  at_arguments is_arguments arguments j walked = walked

  -- `restore_tree`, with what restores the texts under `arguments`.
  unfoldable mutual
    unfolding restore_document get_field

    pub restore_leaves : (Text → Json) → List Text → Json → Json
    restore_leaves arguments skip (obj fields) =
        let rest = restore_leaves_fields arguments skip fields in
        if text_in (get_field (codes "type") fields) skip then obj fields else obj rest
    restore_leaves arguments skip (arr items) = arr (restore_leaves_items arguments skip items)
    restore_leaves arguments skip (str s) = restored s
    restore_leaves arguments skip (number n) = number n
    restore_leaves arguments skip (boolean b) = boolean b
    restore_leaves arguments skip Json.null = Json.null

    pub restore_leaves_items : (Text → Json) → List Text → Items → Items
    restore_leaves_items arguments skip nil = nil
    restore_leaves_items arguments skip (item j items) =
        item (restore_leaves arguments skip j) (restore_leaves_items arguments skip items)

    pub restore_leaves_fields : (Text → Json) → List Text → Fields → Fields
    restore_leaves_fields arguments skip end = end
    restore_leaves_fields arguments skip (field k j fields) =
        let walked = restore_leaves arguments skip j in
        field k (at_arguments (text_eq k (codes "arguments")) arguments j walked)
          (restore_leaves_fields arguments skip fields)

  -- A text under `arguments` is parsed as JSON in its turn, `fuel` levels deep.
  unfoldable pub restore_json_arguments : ℕ → Text → Json
  unfolding restore_document restore_leaves
  restore_json_arguments zero arguments = restored arguments
  restore_json_arguments (suc fuel) arguments =
      unless_same arguments (restored arguments) (elim (json.loads arguments) [
        | none ↦ restored arguments
        | some parsed ↦ str (json.dumps (restore_leaves (restore_json_arguments fuel) [] parsed))
      ])

  unfoldable pub restore_tree : ℕ → List Text → Json → Json
  unfolding restore_leaves restore_json_arguments
  restore_tree fuel = restore_leaves (restore_json_arguments fuel)
