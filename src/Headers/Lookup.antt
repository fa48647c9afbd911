-- ===== src/Headers/Lookup.antt =====
-- _headers.py: the three lookups agree, and ignore the case of names.
use foxreq.Prelude.{◌≡◌, refl, List, [], ◌∷◌, Option, none, some, arith}
use foxreq.Prelude.Result.{Result, ok, err}
use foxreq.Prelude.Text.{Text}
use foxreq.Errors.{Raised, key_error}
use foxreq.Headers.{Headers, Part, first_value, all_values, get, get_all, get_item, found}

abbrev pub first_or : Option Text → List Text → Option Text
first_or default [] = default
first_or default (value ∷ values) = some value

abbrev pub first_or_missing : Text → List Text → Result Raised Text
first_or_missing name [] = err (key_error name)
first_or_missing name (value ∷ values) = ok value

first_value-all_values :
    (lower : Text → Text) (items : List (Text × Text)) (folded : Text) (default : Option Text)
    → first_value lower items folded default ≡ first_or default (all_values lower items folded)
unfolding first_value all_values
first_value-all_values lower [] folded default = refl
first_value-all_values lower ((name, value) ∷ items) folded default =
    ground (arith, first_value-all_values lower items folded default)

found-first_or :
    (lower : Text → Text) (name : Text) (values : List Text)
    → found lower name (first_or none values) ≡ first_or_missing name values
found-first_or lower name [] = refl
found-first_or lower name (value ∷ values) = refl

-- For a string name, `get` gives the first of the values that `get_all` gives, or the default, and
-- `headers[name]` that value or a KeyError with the name; a name with the same lower-case form finds
-- the same values.
pub lookups_agree :
    (lower : Text → Text) (headers : Headers) (name other_case : Text) (default : Option Text)
    → lower other_case ≡ lower name
    → (values : List Text) × (get_all lower headers (Part.str name) ≡ ok values)
      × (get_all lower headers (Part.str other_case) ≡ ok values)
      × (get lower headers (Part.str name) default ≡ ok (first_or default values))
      × (get lower headers (Part.str other_case) default ≡ ok (first_or default values))
      × (get_item lower headers (Part.str name) ≡ first_or_missing name values)
unfolding get get_all get_item
lookups_agree lower headers name other_case default same =
    let values = all_values lower headers.items (lower name) in
    let one = first_value-all_values lower headers.items (lower name) in
    (
      values,
      refl,
      rw same refl,
      rw (one default) refl,
      rw (same, one default) refl,
      rw (one none) (found-first_or lower name values),
    )
