-- ===== src/Tests/Compared.antt =====
-- tools/fingerprint/compare.py at small evidence and at two samples of three extensions.
use foxreq.Prelude.{ℕ, List, some, true, ==_refl, ==_iff, ◌==◌, ◌≡◌, ◌↔◌, [], ◌∷◌, refl}
use foxreq.Prelude.Text.{text, decimal}
use foxreq.Prelude.Lists.{All}
use foxreq.Prelude.Result.{ok}
use foxreq.Compare.Permutation.{Objects, Sample, PermutationPolicy, from_samples, compare_sample}
use foxreq.Compare.Permutation.Accepts.{compare_sample-from_samples}
use foxreq.Json.{Json, str, list, dict, number, null, fields, items}
use foxreq.Compare.{compare_evidence, all_keys, index_path, key_path}
use foxreq.Compare.Same.{Same}
use foxreq.Compare.Sound.{compare_evidence_iff}

abbrev hello : Json
hello = dict (
    fields (
      (text "version", number 771)
      ∷ (text "suites", list (items (number 4865 ∷ str (text "GREASE") ∷ [])))
      ∷ []))

abbrev reordered : Json
reordered = dict (
    fields (
      (text "suites", list (items (number 4865 ∷ str (text "GREASE") ∷ [])))
      ∷ (text "version", number 771)
      ∷ []))

-- A missing key and a longer list are each reported at their place.
missing_and_longer :
    compare_evidence hello
      (dict (fields ((text "suites", list (items (number 4865 ∷ []))) ∷ [])))
      (text "$")
    ≡ record { path = text "$.suites[1]"; expected = str (text "GREASE"); actual = null }
      ∷ record { path = text "$.version"; expected = number 771; actual = null }
      ∷ []
unfolding compare_evidence all_keys index_path key_path decimal
missing_and_longer = refl

compare_evidence_iff_example :
    (compare_evidence hello reordered (text "$") ≡ []) ↔ Same hello reordered
compare_evidence_iff_example = compare_evidence_iff hello reordered (text "$")

single : (v w : ℕ) → ◌≡◌ {A = List ℕ} (v ∷ []) (w ∷ []) → v ≡ w
single v w e = cc

-- Numbers, each with itself as its text.
abbrev numbers : Objects
numbers = record {
  Value = ℕ;
  same = λ v w. v == w;
  type_name = λ v. text "int";
  shown = λ v. v ∷ [];
  is_hashable = λ v. true;
  eq_of_same = λ v w. (==_iff v w).0;
  same_refl = ==_refl;
  eq_of_key = λ v w e f. single v w f;
}

abbrev samples : List (Sample numbers)
samples = some (some 5 ∷ some 7 ∷ some 9 ∷ []) ∷ some (some 5 ∷ some 9 ∷ some 7 ∷ []) ∷ []

abbrev policy : PermutationPolicy numbers
policy = record { fixed_positions = (0, 5) ∷ []; movable_types = 7 ∷ 9 ∷ []; extension_count = 3 }

policy_made : from_samples numbers samples ≡ ok policy
unfolding from_samples
policy_made = refl

compare_sample-from_samples_example : All (λ s. compare_sample numbers policy s ≡ ok []) samples
compare_sample-from_samples_example = compare_sample-from_samples numbers samples policy policy_made
