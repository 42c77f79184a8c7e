-- ===== src/Messages/Restore.antt =====
-- privaite/pii/engine.py: the restore of a reply that came whole, without fuzzy matching. A restore
-- that is switched off leaves the reply as it is.
use priv_ai_te.Prelude.{Bool, true, false, Option, none, some, if◌then◌else◌, Text, codes, null}
use priv_ai_te.Json.{Json, Items, Fields, str, arr, obj, nil, item, get_field, set_field}
use priv_ai_te.Mapping.{PiiMapping}
use priv_ai_te.Restore.{deanonymize_exact}
use priv_ai_te.Engine.{walk_deanonymize}
use priv_ai_te.Messages.{JsonText}

-- `DeAnonymizer.deanonymize`.
unfoldable pub deanonymize : PiiMapping → Text → Text
unfolding deanonymize_exact
deanonymize m text =
    if null m.original_to_fake then text else deanonymize_exact m.fake_to_original text

unfoldable pub process_response : Bool → Text → PiiMapping → Text
unfolding deanonymize
process_response enabled content m = if enabled then deanonymize m content else content

-- `enabled and mapping is not None and not mapping.is_empty`.
abbrev pub usable : Bool → Option PiiMapping → Option PiiMapping
usable false mapping = none
usable true none = none
usable true (some m) = if null m.original_to_fake then none else some m

unfoldable pub restore_document : Bool → Json → Option PiiMapping → Json
unfolding walk_deanonymize
restore_document enabled value mapping = elim (usable enabled mapping) [
  | none ↦ value
  | some m ↦ walk_deanonymize m value
]

module _ (json : JsonText) where
  unfoldable pub deanonymize_arguments : PiiMapping → Text → Text
  unfolding deanonymize walk_deanonymize
  deanonymize_arguments m arguments = elim (json.loads arguments) [
    | none ↦ deanonymize m arguments
    | some parsed ↦ json.dumps (walk_deanonymize m parsed)
  ]

  -- `if isinstance(function.get("arguments"), str)`: the arguments restored.
  unfoldable pub restore_function : PiiMapping → Fields → Fields
  unfolding deanonymize_arguments get_field set_field
  restore_function m function = elim (get_field (codes "arguments") function) [
    | some (str s) ↦ set_field (codes "arguments") (str (deanonymize_arguments m s)) function
    | _ ↦ function
  ]

  unfoldable pub restore_call : PiiMapping → Json → Json
  unfolding restore_function get_field set_field
  restore_call m (obj call) = elim (get_field (codes "function") call) [
    | some (obj function) ↦
        obj (set_field (codes "function") (obj (restore_function m function)) call)
    | _ ↦ obj call
  ]
  restore_call m call = call

  unfoldable pub restore_calls : PiiMapping → Items → Items
  unfolding restore_call
  restore_calls m nil = nil
  restore_calls m (item call calls) = item (restore_call m call) (restore_calls m calls)

  unfoldable pub process_response_tool_calls : Bool → Json → Option PiiMapping → Json
  unfolding restore_calls
  process_response_tool_calls enabled (arr calls) mapping = elim (usable enabled mapping) [
    | none ↦ arr calls
    | some m ↦ arr (restore_calls m calls)
  ]
  process_response_tool_calls enabled tool_calls mapping = tool_calls

  unfoldable pub process_response_function_call : Bool → Json → Option PiiMapping → Json
  unfolding restore_function
  process_response_function_call enabled (obj call) mapping = elim (usable enabled mapping) [
    | none ↦ obj call
    | some m ↦ obj (restore_function m call)
  ]
  process_response_function_call enabled function_call mapping = function_call
