-- ===== src/Json.antt =====
-- JSON-compatible Python values: the evidence that tools/fingerprint writes and compares. A dict is
-- its items in insertion order.
use foxreq.Prelude.{
  ℕ, List, [], ◌∷◌, Bool, ℤ, pos, Option, none, some, if◌then◌else◌, ◌&&◌, ◌==◌, false,
}
use foxreq.Prelude.Lists.{any, all}
use foxreq.Prelude.Float.{equals_nat}
use foxreq.Prelude.Text.{Text, text_eq}

mutual
  pub data Json : Type 0 where
    null : Json
    bool : Bool → Json
    int : ℤ → Json
    -- a float, as its 64 bits
    real : ℕ → Json
    str : Text → Json
    list : Items → Json
    dict : Fields → Json

  pub data Items : Type 0 where
    nil : Items
    cons : Json → Items → Items

  pub data Fields : Type 0 where
    end : Fields
    field : Text → Json → Fields → Fields

abbrev pub items : List Json → Items
items [] = nil
items (v ∷ vs) = cons v (items vs)

abbrev pub fields : List (Text × Json) → Fields
fields [] = end
fields ((k, v) ∷ kvs) = field k v (fields kvs)

abbrev pub number : ℕ → Json
number n = int (pos n)

-- `metadata.get(key)` of a dict, `none` where the key is missing
abbrev pub lookup : Text → Fields → Option Json
lookup key end = none
lookup key (field k v rest) = if text_eq k key then some v else lookup key rest

abbrev pub keys : Fields → List Text
keys end = []
keys (field k v rest) = k ∷ keys rest

abbrev pub contains_text : Text → List Text → Bool
contains_text t = any (λ u. text_eq u t)

-- `set(metadata) == {...}`
abbrev pub has_keys : Fields → List Text → Bool
has_keys f names =
    all (λ k. contains_text k names) (keys f) && all (λ n. contains_text n (keys f)) names

-- `value == n` for a number n: Python compares a bool and a float by value too.
unfoldable pub equals_number : Option Json → ℕ → Bool
equals_number (some (int (pos m))) n = m == n
equals_number (some (bool b)) n = (if b then 1 else 0) == n
equals_number (some (real x)) n = equals_nat x n
equals_number _ n = false
