-- ===== src/Tests/Headers.antt =====
-- python/foxreq/_headers.py and tools/fingerprint/profile.py at small inputs.
use foxreq.Prelude.{◌≡◌, ◌↔◌, refl, List, [], ◌∷◌, map, none, ◌+◌, if◌then◌else◌, leb, ◌&&◌}
use foxreq.Prelude.Lists.{All}
use foxreq.Prelude.Result.{ok}
use foxreq.Prelude.Text.{Text, text}
use foxreq.Headers.{Headers, Part, get, get_all, get_item, new_headers}
use foxreq.Headers.Lookup.{lookups_agree, first_or, first_or_missing}
use foxreq.Headers.Valid.{new_headers_iff, item_of, IsHeader}
use foxreq.Json.{Json, str, list, number, dict, fields, items, equals_number}
use foxreq.Profile.{ProfileManifest, from_dict, resolve_profile}
use foxreq.Profile.Manifest.{from_dict-IsManifest, IsManifest}
use foxreq.Profile.Resolve.{resolve_profile_iff, IsDistinct, key_list, all_entries, Entry}

abbrev lower : Text → Text
lower t = map (λ c. if leb 65 c && leb c 90 then c + 32 else c) t

abbrev two_headers : Headers
two_headers = record { items = (text "Set-Cookie", text "a") ∷ (text "SET-COOKIE", text "b") ∷ [] }

lookups_agree_example :
    (values : List Text) × (get_all lower two_headers (Part.str (text "set-cookie")) ≡ ok values)
    × (get_all lower two_headers (Part.str (text "Set-Cookie")) ≡ ok values)
    × (get lower two_headers (Part.str (text "set-cookie")) none ≡ ok (first_or none values))
    × (get lower two_headers (Part.str (text "Set-Cookie")) none ≡ ok (first_or none values))
    × (get_item lower two_headers (Part.str (text "set-cookie"))
        ≡ first_or_missing (text "set-cookie") values)
lookups_agree_example =
    lookups_agree lower two_headers (text "set-cookie") (text "Set-Cookie") none refl

new_headers_iff_example : (new_headers (map item_of two_headers.items) ≡ ok two_headers) ↔ (
    (map item_of two_headers.items ≡ map item_of two_headers.items)
    × All IsHeader two_headers.items)
new_headers_iff_example = new_headers_iff (map item_of two_headers.items) two_headers

abbrev manifest : ProfileManifest
manifest = record {
  schema_version = 1;
  name = text "firefox_152";
  firefox_version = text "152.0.6";
  aliases = text "firefox" ∷ [];
  nss_revision = text "a";
  nspr_revision = text "b";
  capture_count = 5;
  extension_permutation = text "nss";
}

abbrev manifest_dict : Json
manifest_dict = dict (
    fields (
      (text "schema_version", number 1)
      ∷ (text "name", str (text "firefox_152"))
      ∷ (text "firefox_version", str (text "152.0.6"))
      ∷ (text "aliases", list (items (str (text "firefox") ∷ [])))
      ∷ (text "nss_revision", str (text "a"))
      ∷ (text "nspr_revision", str (text "b"))
      ∷ (text "capture_count", number 5)
      ∷ (text "extension_permutation", str (text "nss"))
      ∷ []))

manifest_loads : from_dict manifest_dict ≡ ok manifest
unfolding from_dict equals_number
manifest_loads = refl

from_dict-IsManifest_example : IsManifest manifest
from_dict-IsManifest_example = from_dict-IsManifest manifest_dict manifest manifest_loads

resolve_profile_iff_example : (resolve_profile (text "firefox") (manifest ∷ []) ≡ ok manifest) ↔ (
    IsDistinct (key_list (all_entries (manifest ∷ [])))
    × Entry (text "firefox") manifest (all_entries (manifest ∷ [])))
resolve_profile_iff_example = resolve_profile_iff (text "firefox") (manifest ∷ []) manifest
