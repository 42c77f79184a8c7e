-- ===== src/Json.antt =====
-- JSON values as Python's `json` gives them. A number is kept as `str(value)` writes it.
use priv_ai_te.Prelude.{
  Bool, true, false, not, ◌||◌, Option, none, some, List, any, if◌then◌else◌, Text, codes, text_eq,
  [], ◌∷◌,
}

mutual
  pub data Json : Type 0 where
    null : Json
    boolean : Bool → Json
    number : Text → Json
    str : Text → Json
    arr : Items → Json
    obj : Fields → Json

  pub data Items : Type 0 where
    nil : Items
    item : Json → Items → Items

  pub data Fields : Type 0 where
    end : Fields
    field : Text → Json → Fields → Fields

-- `value.get(key)` of an object: its keys differ, as in every `dict`.
unfoldable pub get_field : Text → Fields → Option Json
get_field k end = none
get_field k (field j v fields) = if text_eq j k then some v else get_field k fields

-- `value[key] = v`: a key that is there keeps its place.
unfoldable pub set_field : Text → Json → Fields → Fields
set_field k v end = field k v end
set_field k v (field j w fields) =
    let rest = set_field k v fields in if text_eq j k then field j v fields else field j w rest

abbrev pub has_field : Text → Fields → Bool
has_field k end = false
has_field k (field j v fields) = text_eq j k || has_field k fields

-- The text of a value that is a string.
abbrev pub text_of : Option Json → Option Text
text_of (some (str s)) = some s
text_of _ = none

-- The value is a string among those listed; no other value equals one of them.
abbrev pub text_in : Option Json → List Text → Bool
text_in (some (str s)) names = any (λ n. text_eq s n) names
text_in _ names = false

-- `str(0)`, `str(0.0)` and `str(-0.0)`.
abbrev pub is_zero : Text → Bool
is_zero n = text_eq n (codes "0") || (text_eq n (codes "0.0") || text_eq n (codes "-0.0"))

-- Python's truth of a value.
abbrev pub is_truthy_json : Json → Bool
is_truthy_json Json.null = false
is_truthy_json (boolean b) = b
is_truthy_json (number n) = not (is_zero n)
is_truthy_json (str []) = false
is_truthy_json (str (c ∷ s)) = true
is_truthy_json (arr nil) = false
is_truthy_json (arr (item j items)) = true
is_truthy_json (obj end) = false
is_truthy_json (obj (field k j fields)) = true

-- A value may be asked for in a set: a list or an object raises there.
abbrev pub is_hashable : Option Json → Bool
is_hashable (some (arr items)) = false
is_hashable (some (obj fields)) = false
is_hashable _ = true
