-- ===== src/Messages/Derived.antt =====
-- `process_request` of privaite/pii/engine.py: the strings and the calls of tools within a message, before and
-- after.
use priv_ai_te.Prelude.{◌≡◌, some, Text, codes}
use priv_ai_te.Json.{Json, Fields, boolean, number, str, arr, obj, get_field, set_field}
use priv_ai_te.Mapping.{PiiMapping}
use priv_ai_te.Engine.{PiiEngine, anonymize_text, walk_anonymize}
use priv_ai_te.Engine.Traced.{text, anonymize_text-Traces}
use priv_ai_te.Action.{Action, pure, ◌>>=◌, each_item}
use priv_ai_te.Action.Makes.{Makes, Makes-pure, Makes-bind, Makes-on_fields, Makes-on_value}
use priv_ai_te.Action.Derived.{
  traced, json_text, object, From, FromFields, derived_on, fields_derived_on, same_fields,
  set_field-derived, Scrubs, ScrubsText, Makes-obj, Makes-arr, Makes-same, Makes-each_item,
  Makes-at_text, walk_anonymize-Makes,
}
use priv_ai_te.Messages.{
  JsonText, anonymize_str, anonymize_arguments, anonymize_function, anonymize_call,
  anonymize_tool_calls, anonymize_function_call,
}

module _ {S : Type 0} (g : PiiEngine S) (json : JsonText) where
  abbrev pub ScrubsEach : (Json → Action Json) → Type 0
  ScrubsEach = Scrubs g json.loads json.dumps

  abbrev pub FromObj : Fields → PiiMapping → Json → Type 0
  FromObj fields = From g json.loads json.dumps (obj fields)

  abbrev pub Made : Fields → PiiMapping → Fields → Type 0
  Made = FromFields g json.loads json.dumps

  -- The value of a key of an object is scrubbed and put back.
  pub Makes-put :
      (k : Text) (block : Fields) (j : Json) (m0 : PiiMapping) (act : Action Json)
      → get_field k block ≡ some j
      → Makes m0 (From g json.loads json.dumps j) act
      → Makes m0 (FromObj block) (act >>= λ v. pure (obj (set_field k v block)))
  Makes-put k block j m0 act here h = Makes-bind m0 _ _ act _ h (λ v m1 x dv.
      Makes-pure m1 (FromObj block) (obj (set_field k v block)) (λ m y.
        object block (set_field k v block) (
          set_field-derived g json.loads json.dumps m k block block j v
            (same_fields g json.loads json.dumps m block) here
            (derived_on g json.loads json.dumps m1 m y j v dv))))

  pub anonymize_str-Makes : ScrubsText g json.loads json.dumps (anonymize_str g)
  unfolding anonymize_str
  anonymize_str-Makes s m0 =
      Makes-bind m0 _ _ (anonymize_text g s) _ (λ m x c. anonymize_text-Traces g s m c)
        (λ t m1 x h. Makes-pure m1 (From g json.loads json.dumps (str s)) (str t) (λ m y.
          derived_on g json.loads json.dumps m1 m y (str s) (str t)
            (traced (str s) (str t) (text s t h))))

  pub anonymize_arguments-Makes : ScrubsText g json.loads json.dumps (anonymize_arguments g json)
  unfolding anonymize_arguments
  anonymize_arguments-Makes s m0 =
      Makes-on_value m0 _ (json.loads s) _ _
        (λ j here.
          Makes-bind m0 _ _ (walk_anonymize g j) _
            (walk_anonymize-Makes g json.loads json.dumps j m0)
            (λ w m1 x h.
              Makes-pure m1 (From g json.loads json.dumps (str s)) (str (json.dumps w)) (λ m y.
                derived_on g json.loads json.dumps m1 m y (str s) (str (json.dumps w))
                  (json_text s j w here h))))
        (anonymize_str-Makes s m0)

  anonymize_function-Makes :
      (fs : Fields) (m0 : PiiMapping) → Makes m0 (Made fs) (anonymize_function g json fs)
  unfolding anonymize_function
  anonymize_function-Makes fs m0 =
      Makes-at_text g json.loads json.dumps (codes "arguments") _ fs fs m0 anonymize_arguments-Makes
        (same_fields g json.loads json.dumps m0 fs)

  pub anonymize_function_call-Makes : ScrubsEach (anonymize_function_call g json)
  unfolding anonymize_function_call
  anonymize_function_call-Makes (obj call) m0 =
      Makes-obj g json.loads json.dumps call m0 _ (anonymize_function-Makes call m0)
  anonymize_function_call-Makes (arr s) m0 = Makes-same g json.loads json.dumps (arr s) m0
  anonymize_function_call-Makes (str s) m0 = Makes-same g json.loads json.dumps (str s) m0
  anonymize_function_call-Makes (number s) m0 = Makes-same g json.loads json.dumps (number s) m0
  anonymize_function_call-Makes (boolean s) m0 = Makes-same g json.loads json.dumps (boolean s) m0
  anonymize_function_call-Makes Json.null m0 = Makes-same g json.loads json.dumps Json.null m0

  anonymize_call-Makes : ScrubsEach (anonymize_call g json)
  unfolding anonymize_call
  anonymize_call-Makes (obj call) m0 =
      Makes-on_fields m0 _ (get_field (codes "function") call) _ _
        (λ function here.
          Makes-bind m0 _ _ (anonymize_function g json function) _
            (anonymize_function-Makes function m0)
            (λ new m1 x d.
              Makes-pure m1 (FromObj call) (obj (set_field (codes "function") (obj new) call))
                (λ m y. object call (set_field (codes "function") (obj new) call) (
                  set_field-derived g json.loads json.dumps m (codes "function") call call
                    (obj function) (obj new) (same_fields g json.loads json.dumps m call) here
                    (object function new
                      (fields_derived_on g json.loads json.dumps m1 m y function new d))))))
        (Makes-same g json.loads json.dumps (obj call) m0)
  anonymize_call-Makes (arr s) m0 = Makes-same g json.loads json.dumps (arr s) m0
  anonymize_call-Makes (str s) m0 = Makes-same g json.loads json.dumps (str s) m0
  anonymize_call-Makes (number s) m0 = Makes-same g json.loads json.dumps (number s) m0
  anonymize_call-Makes (boolean s) m0 = Makes-same g json.loads json.dumps (boolean s) m0
  anonymize_call-Makes Json.null m0 = Makes-same g json.loads json.dumps Json.null m0

  pub anonymize_tool_calls-Makes : ScrubsEach (anonymize_tool_calls g json)
  unfolding anonymize_tool_calls
  anonymize_tool_calls-Makes (arr calls) m0 =
      Makes-arr g json.loads json.dumps calls m0 (each_item (anonymize_call g json) calls)
        (Makes-each_item g json.loads json.dumps _ anonymize_call-Makes calls m0)
  anonymize_tool_calls-Makes (obj s) m0 = Makes-same g json.loads json.dumps (obj s) m0
  anonymize_tool_calls-Makes (str s) m0 = Makes-same g json.loads json.dumps (str s) m0
  anonymize_tool_calls-Makes (number s) m0 = Makes-same g json.loads json.dumps (number s) m0
  anonymize_tool_calls-Makes (boolean s) m0 = Makes-same g json.loads json.dumps (boolean s) m0
  anonymize_tool_calls-Makes Json.null m0 = Makes-same g json.loads json.dumps Json.null m0
