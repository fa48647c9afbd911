-- ===== src/Normalize/Dynamic.antt =====
-- normalize.py: what two captures of one client may differ in without a difference in the evidence.
use foxreq.Prelude.{ℕ, ◌≡◌, refl, ap, ap₂, List, [], ◌∷◌, map, true, ◌⊎◌, inl, inr}
use foxreq.Prelude.Lists.{length}
use foxreq.Model.{TlsExtension, ClientHello}
use foxreq.Json.{Json}
use foxreq.Normalize.{
  is_grease, identifier, normalize_extension, normalize_extensions, normalize_client_hello,
}

-- Equal, or two GREASE values.
abbrev pub SameIdentifier : ℕ → ℕ → Type 0
SameIdentifier a b = (a ≡ b) ⊎ ((is_grease a ≡ true) × (is_grease b ≡ true))

-- Equal, or two GREASE extensions with payloads of one length.
abbrev pub SameExtension : TlsExtension → TlsExtension → Type 0
SameExtension e e' =
    (e ≡ e')
    ⊎ ((is_grease e.type_id ≡ true)
        × (is_grease e'.type_id ≡ true)
        × (length e.payload ≡ length e'.payload))

abbrev pub Pointwise {ℓ} : {A : Type ℓ} → (A → A → Type 0) → List A → List A → Type 0
Pointwise R [] [] = Unit {0}
Pointwise R (x ∷ xs) (y ∷ ys) = R x y × Pointwise R xs ys
Pointwise R _ _ = ⊥

-- Two hellos that differ only in their random bytes, in the content of the session identifier, and
-- in which GREASE values stand as cipher suites and as types of extensions, and what these hold.
pub record Similar (h h' : ClientHello) : Type 0 where
  pub version : h.legacy_version ≡ h'.legacy_version
  pub random : length h.random ≡ length h'.random
  pub session : length h.session_id ≡ length h'.session_id
  pub suites : Pointwise SameIdentifier h.cipher_suites h'.cipher_suites
  pub methods : h.compression_methods ≡ h'.compression_methods
  pub extensions : Pointwise SameExtension h.extensions h'.extensions

identifier-eq : (a b : ℕ) → SameIdentifier a b → identifier a ≡ identifier b
unfolding identifier
identifier-eq a b (inl e) = ap identifier e
identifier-eq a b (inr (ga, gb)) = rw (ga, gb)

identifiers-eq :
    (xs ys : List ℕ) → Pointwise SameIdentifier xs ys → map identifier xs ≡ map identifier ys
identifiers-eq [] [] h = refl
identifiers-eq [] (y ∷ ys) h = absurd h
identifiers-eq (x ∷ xs) [] h = absurd h
identifiers-eq (x ∷ xs) (y ∷ ys) h =
    ap₂ (λ (v : Json) (vs : List Json). v ∷ vs) (identifier-eq x y h.0) (identifiers-eq xs ys h.1)

extension-eq :
    (e e' : TlsExtension) → SameExtension e e' → normalize_extension e ≡ normalize_extension e'
unfolding normalize_extension
extension-eq e e' (inl same) = ap normalize_extension same
extension-eq e e' (inr (g, g', l)) = rw (g, g', l)

extensions-eq :
    (es es' : List TlsExtension)
    → Pointwise SameExtension es es'
    → normalize_extensions es ≡ normalize_extensions es'
unfolding normalize_extensions
extensions-eq [] [] h = refl
extensions-eq [] (e ∷ es) h = absurd h
extensions-eq (e ∷ es) [] h = absurd h
extensions-eq (e ∷ es) (e' ∷ es') h = rw (extension-eq e e' h.0, extensions-eq es es' h.1)

-- The evidence of two hellos is the same, or the same error, if they differ only in their random
-- bytes, in the content of their session identifiers, in which GREASE values stand as cipher suites
-- and as the types of extensions, and in the contents of these GREASE extensions.
pub normalize_client_hello-Similar :
    (h h' : ClientHello) → Similar h h' → normalize_client_hello h ≡ normalize_client_hello h'
unfolding normalize_client_hello
normalize_client_hello-Similar h h' s = rw (
  s.version,
  s.random,
  s.session,
  identifiers-eq h.cipher_suites h'.cipher_suites s.suites,
  s.methods,
  extensions-eq h.extensions h'.extensions s.extensions,
)
