-- ===== src/Compare.antt =====
-- tools/fingerprint/compare.py, `compare_evidence`: the differences of two pieces of evidence.
pub mod Same
pub mod Sound
pub mod Permutation
use foxreq.Prelude.{
  ℕ, zero, suc, ◌+◌, List, [], ◌∷◌, ◌++◌, Bool, true, false, Option, none, some, not, ◌&&◌, ◌||◌,
  ◌==◌, if◌then◌else◌, ℤ, pos, negsuc,
}
use foxreq.Prelude.Lists.{keep}
use foxreq.Prelude.Float.{Float, real_equal}
use foxreq.Prelude.Text.{text, Text, text_eq, decimal, sorted_texts}
use foxreq.Json.{
  Json, Items, Fields, null, bool, int, real, str, list, dict, nil, cons, end, field, lookup, keys,
  contains_text,
}

-- `Difference` of model.py
pub record Difference : Type 0 where
  pub path : Text
  pub expected : Json
  pub actual : Json

abbrev pub difference : Text → Json → Json → List Difference
difference path expected actual = record { path = path; expected = expected; actual = actual } ∷ []

abbrev pub int_eq : ℤ → ℤ → Bool
int_eq (pos m) (pos n) = m == n
int_eq (negsuc m) (negsuc n) = m == n
int_eq _ _ = false

abbrev pub bool_eq : Bool → Bool → Bool
bool_eq true b = b
bool_eq false b = not b

-- "{}.{}".format(path, key) and "{}[{}]".format(path, index)
unfoldable pub key_path : Text → Text → Text
key_path path key = path ++ (text "." ++ key)

unfoldable pub index_path : Text → ℕ → Text
index_path path index = path ++ (text "[" ++ (decimal index ++ text "]"))

-- `sorted(set(expected) | set(actual), key=str)`
unfoldable pub all_keys : Fields → Fields → List Text
all_keys f g = sorted_texts (keys f ++ keep (λ k. not (contains_text k (keys f))) (keys g))

abbrev pub for_keys : (Text → List Difference) → List Text → List Difference
for_keys d [] = []
for_keys d (k ∷ ks) = d k ++ for_keys d ks

unfoldable mutual
  pub compare_evidence : Json → Json → Text → List Difference
  compare_evidence null null path = []
  compare_evidence (bool a) (bool b) path =
      if bool_eq a b then [] else difference path (bool a) (bool b)
  compare_evidence (int a) (int b) path = if int_eq a b then [] else difference path (int a) (int b)
  compare_evidence (real a) (real b) path =
      if real_equal a b then [] else difference path (real a) (real b)
  compare_evidence (str a) (str b) path =
      if text_eq a b then [] else difference path (str a) (str b)
  compare_evidence (list xs) (list ys) path = compare_items xs ys path zero
  compare_evidence (dict f) (dict g) path =
      for_keys (λ key. compare_key f key (lookup key g) (key_path path key)) (all_keys f g)
  compare_evidence expected actual path = difference path expected actual

  -- What becomes of one key: missing in one of the dicts, or in both.
  pub compare_key : Fields → Text → Option Json → Text → List Difference
  compare_key end key none path = []
  compare_key end key (some actual) path = difference path null actual
  compare_key (field k v rest) key none path =
      if text_eq k key then difference path v null else compare_key rest key none path
  compare_key (field k v rest) key (some actual) path =
      if text_eq k key
      then compare_evidence v actual path
      else compare_key rest key (some actual) path

  -- The common part, then what is left of one of the lists.
  pub compare_items : Items → Items → Text → ℕ → List Difference
  compare_items nil nil path index = []
  compare_items nil (cons y ys) path index =
      difference (index_path path index) null y ++ compare_items nil ys path (index + 1)
  compare_items (cons x xs) nil path index =
      difference (index_path path index) x null ++ compare_items xs nil path (index + 1)
  compare_items (cons x xs) (cons y ys) path index =
      compare_evidence x y (index_path path index) ++ compare_items xs ys path (index + 1)
