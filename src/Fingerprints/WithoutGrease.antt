-- ===== src/Fingerprints/WithoutGrease.antt =====
-- fingerprints.py: GREASE leaves no trace in JA3 and JA4.
use foxreq.Prelude.{
  ℕ, ◌≡◌, refl, ap, ◌∙◌, List, [], ◌∷◌, Bool, false, ◌==◌, ==_iff, arith, Bool-cases, inl, inr,
}
use foxreq.Prelude.Lists.{keep}
use foxreq.Prelude.Text.{Text}
use foxreq.Model.{TlsExtension, ClientHello}
use foxreq.Normalize.{is_grease}
use foxreq.Fingerprints.{
  head?, with_id, extension, not_grease, type_ids, ja3_raw, ja3, signature_algorithms,
  alpn_protocols, supported_versions, ja4_version, ja4,
}

abbrev pub real_extensions : List TlsExtension → List TlsExtension
real_extensions = keep λ e. not_grease e.type_id

-- The hello as a client without GREASE would have sent it.
abbrev pub ungreased : ClientHello → ClientHello
ungreased h = record h {
  cipher_suites = keep not_grease h.cipher_suites;
  extensions = real_extensions h.extensions;
}

keep-keep {ℓ} : {A : Type ℓ} (p : A → Bool) (xs : List A) → keep p (keep p xs) ≡ keep p xs
keep-keep p [] = refl
keep-keep p (x ∷ xs) = ground (arith, keep-keep p xs)

type_ids-real :
    (es : List TlsExtension)
    → keep not_grease (type_ids (real_extensions es)) ≡ keep not_grease (type_ids es)
type_ids-real [] = refl
type_ids-real (e ∷ es) = ground (arith, type_ids-real es)

with_id-real :
    (id : ℕ) (es : List TlsExtension)
    → is_grease id ≡ false
    → with_id id (real_extensions es) ≡ with_id id es
with_id-real id [] h = refl
with_id-real id (e ∷ es) h = elim (Bool-cases (e.type_id == id)) [
  | inl same ↦
      let e_real : is_grease e.type_id ≡ false = ap is_grease ((==_iff e.type_id id).0 same) ∙ h in
      rw (e_real, same, with_id-real id es h)
  | inr other ↦ ground (arith, with_id-real id es h)
]

extension-real :
    (h : ClientHello) (id : ℕ) → is_grease id ≡ false → extension (ungreased h) id ≡ extension h id
unfolding extension
extension-real h id r = ap head? (with_id-real id h.extensions r)

-- Neither fingerprint changes, in raw form, digest or error, when all GREASE cipher suites and
-- extensions are taken out of a hello.
pub ja3-ja4-ungreased :
    (md5 sha256 : Text → Text) (h : ClientHello)
    → (ja3 md5 (ungreased h) ≡ ja3 md5 h) × (ja4 sha256 (ungreased h) ≡ ja4 sha256 h)
unfolding ja3 ja4 ja3_raw signature_algorithms alpn_protocols ja4_version supported_versions
ja3-ja4-ungreased md5 sha256 h = (
  rw (
    extension-real h 10 (unfold is_grease in refl),
    extension-real h 11 (unfold is_grease in refl),
    keep-keep not_grease h.cipher_suites,
    type_ids-real h.extensions,
  ),
  rw (
    extension-real h 13 (unfold is_grease in refl),
    extension-real h 16 (unfold is_grease in refl),
    extension-real h 43 (unfold is_grease in refl),
    extension-real h 0 (unfold is_grease in refl),
    keep-keep not_grease h.cipher_suites,
    type_ids-real h.extensions,
  ),
)
