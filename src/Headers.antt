-- ===== src/Headers.antt =====
-- python/foxreq/_headers.py: the ordered, immutable headers of a response. `str.lower` is a parameter.
pub mod Lookup
pub mod Valid
use foxreq.Prelude.{
  ℕ, List, [], ◌∷◌, ◌++◌, Bool, true, false, Option, none, some, if◌then◌else◌, ◌||◌,
}
use foxreq.Prelude.Lists.{length, any, contains}
use foxreq.Prelude.Result.{Result, ok, err, ◌>>=◌}
use foxreq.Prelude.Text.{text, Text, text_eq, is_empty}
use foxreq.Errors.{Raised, type_error, value_error, key_error}

-- A part of a header or a lookup name: a `str`, or any other object.
pub data Part : Type 0 where
  str : Text → Part
  other : Part

-- An item of the argument: what unpacks to two objects, what is text or bytes itself, and the rest.
pub data Item : Type 0 where
  pair : Part → Part → Item
  text_like not_pair : Item

pub record Headers : Type 0 where
  pub items : List (Text × Text)

-- `any(character in t for character in "\r\n\0")`
abbrev pub has_control : Text → Bool
has_control t = contains 13 t || (contains 10 t || contains 0 t)

unfoldable pub check_pair : Text → Text → Result Raised (Text × Text)
check_pair name value =
    if is_empty name || has_control name
    then err (value_error (text "invalid response header name"))
    else if has_control value
    then err (value_error (text "invalid response header value"))
    else ok (name, value)

unfoldable pub check_item : Item → Result Raised (Text × Text)
unfolding check_pair
check_item text_like = err (type_error (text "header items must be name/value pairs"))
check_item not_pair = err (type_error (text "header items must be name/value pairs"))
check_item (pair (str name) (str value)) = check_pair name value
check_item (pair _ _) = err (type_error (text "response header names and values must be strings"))

-- `for item in items: ...`
unfoldable pub normalize_items : List (Text × Text) → List Item → Result Raised (List (Text × Text))
normalize_items normalized [] = ok normalized
normalize_items normalized (item ∷ items) =
    check_item item >>= λ pair. normalize_items (normalized ++ (pair ∷ [])) items

unfoldable pub new_headers : List Item → Result Raised Headers
unfolding normalize_items
new_headers items = do normalized ← normalize_items [] items; ok (record { items = normalized })

abbrev pub lookup_name : Part → Result Raised Text
lookup_name (str name) = ok name
lookup_name other = err (type_error (text "header lookup name must be a string"))

module _ (lower : Text → Text) where
  unfoldable pub first_value : List (Text × Text) → Text → Option Text → Option Text
  first_value [] folded default = default
  first_value ((name, value) ∷ items) folded default =
      if text_eq (lower name) folded then some value else first_value items folded default

  unfoldable pub all_values : List (Text × Text) → Text → List Text
  all_values [] folded = []
  all_values ((name, value) ∷ items) folded =
      if text_eq (lower name) folded
      then value ∷ all_values items folded
      else all_values items folded

  unfoldable pub get : Headers → Part → Option Text → Result Raised (Option Text)
  unfolding first_value
  get headers name default = do
    n ← lookup_name name
    ok (first_value headers.items (lower n) default)

  unfoldable pub get_all : Headers → Part → Result Raised (List Text)
  unfolding all_values
  get_all headers name = do n ← lookup_name name; ok (all_values headers.items (lower n))

  abbrev pub found : Text → Option Text → Result Raised Text
  found name none = err (key_error name)
  found name (some value) = ok value

  -- `headers[name]`
  unfoldable pub get_item : Headers → Part → Result Raised Text
  unfolding get
  get_item headers name = do n ← lookup_name name; value ← get headers name none; found n value
