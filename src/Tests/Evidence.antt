-- ===== src/Tests/Evidence.antt =====
-- tools/fingerprint: hellos for the evidence and the fingerprints.
use mathlib.Core.List.{Permᴰ}
use foxreq.Prelude.{ℕ, ◌+◌, ◌*◌, ◌<◌, ◌≡◌, ◌≢◌, ◌↔◌, refl, List, [], ◌∷◌, true, arith, inl, inr}
use foxreq.Prelude.Result.{err}
use foxreq.Prelude.Text.{Text}
use foxreq.Binary.{out_of_fuel}
use foxreq.Model.{ClientHello, TlsExtension}
use foxreq.Normalize.{is_grease, normalize_client_hello}
use foxreq.Normalize.Grease.{is_grease_iff}
use foxreq.Normalize.Dynamic.{Similar, normalize_client_hello-Similar}
use foxreq.Normalize.Total.{normalize_client_hello-ne-out_of_fuel}
use foxreq.Fingerprints.{ja3, ja4}
use foxreq.Fingerprints.Order.{ja4-perm}
use foxreq.Fingerprints.WithoutGrease.{ungreased, ja3-ja4-ungreased}

abbrev groups : TlsExtension
groups = record { type_id = 10; payload = 0 ∷ 2 ∷ 0 ∷ 29 ∷ [] }

abbrev versions : TlsExtension
versions = record { type_id = 43; payload = 2 ∷ 3 ∷ 4 ∷ [] }

abbrev drawn : ℕ → ℕ → TlsExtension
drawn id b = record { type_id = id; payload = b ∷ [] }

abbrev hello : List ℕ → List TlsExtension → ClientHello
hello suites extensions = record {
  legacy_version = 0x0303;
  random = 1 ∷ 2 ∷ [];
  session_id = 9 ∷ [];
  cipher_suites = suites;
  compression_methods = 0 ∷ [];
  extensions = extensions;
}

abbrev first_hello : ClientHello
first_hello = hello (0x0a0a ∷ 0x1301 ∷ 0x1302 ∷ []) (drawn 0x1a1a 0 ∷ groups ∷ versions ∷ [])

-- Another draw of GREASE, random bytes and session identifier.
abbrev second_hello : ClientHello
second_hello = record {
  legacy_version = 0x0303;
  random = 3 ∷ 4 ∷ [];
  session_id = 7 ∷ [];
  cipher_suites = 0x2a2a ∷ 0x1301 ∷ 0x1302 ∷ [];
  compression_methods = 0 ∷ [];
  extensions = drawn 0xfafa 5 ∷ groups ∷ versions ∷ [];
}

abbrev turned_hello : ClientHello
turned_hello = hello (0x1301 ∷ 0x0a0a ∷ 0x1302 ∷ []) (drawn 0x1a1a 0 ∷ versions ∷ groups ∷ [])

-- Stands for a digest: the text itself.
abbrev plain : Text → Text
plain t = t

is_grease_iff_example :
    (is_grease 0x2a2a ≡ true) ↔ ((k : ℕ) × (k < 16) × (0x2a2a ≡ 0x0A0A + 0x1010 * k))
is_grease_iff_example = is_grease_iff 0x2a2a (omega arith)

hellos-Similar : Similar first_hello second_hello
unfolding is_grease
hellos-Similar = record {
  version = refl;
  random = refl;
  session = refl;
  suites = (inr (refl, refl), (inl refl, (inl refl, tt)));
  methods = refl;
  extensions = (inr (refl, refl, refl), (inl refl, (inl refl, tt)));
}

normalize_client_hello-Similar_example :
    normalize_client_hello first_hello ≡ normalize_client_hello second_hello
normalize_client_hello-Similar_example =
    normalize_client_hello-Similar first_hello second_hello hellos-Similar

normalize_client_hello-ne-out_of_fuel_example : normalize_client_hello first_hello ≢ err out_of_fuel
normalize_client_hello-ne-out_of_fuel_example = normalize_client_hello-ne-out_of_fuel first_hello

ja4-perm_example : ja4 plain first_hello ≡ ja4 plain turned_hello
ja4-perm_example =
    ja4-perm plain first_hello turned_hello (refl, (refl, (refl, tt))) refl (Permᴰ.swap refl refl)
      (Permᴰ.cons refl (Permᴰ.swap refl refl))

ja3-ja4-ungreased_example :
    (ja3 plain (ungreased first_hello) ≡ ja3 plain first_hello)
    × (ja4 plain (ungreased first_hello) ≡ ja4 plain first_hello)
ja3-ja4-ungreased_example = ja3-ja4-ungreased plain plain first_hello
