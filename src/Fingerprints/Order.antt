-- ===== src/Fingerprints/Order.antt =====
-- fingerprints.py: JA4 forgets the order of cipher suites and extensions.
use mathlib.Core.List.{Permᴰ}
use foxreq.Prelude.{ℕ, ◌≤◌, ◌≡◌, refl, ap, ap₂, ◌∙◌, List, [], ◌∷◌, true, ◌==◌, arith}
use foxreq.Prelude.Lists.{length, contains}
use foxreq.Prelude.Perms.{perm_short, keep-perm, map-perm}
use foxreq.Prelude.Text.{Text}
use foxreq.Model.{TlsExtension, ClientHello}
use foxreq.Tls.Encode.{Distinct}
use foxreq.Fingerprints.{
  head?, with_id, extension, not_grease, type_ids, insert, sorted, signature_algorithms,
  alpn_protocols, supported_versions, ja4_version, ja4,
}

insert_comm : (a b : ℕ) (xs : List ℕ) → insert a (insert b xs) ≡ insert b (insert a xs)
insert_comm a b [] = ground arith
insert_comm a b (x ∷ xs) = ground (arith, insert_comm a b xs)

pub sorted-perm : {xs ys : List ℕ} → Permᴰ xs ys → sorted xs ≡ sorted ys
unfolding sorted
sorted-perm Permᴰ.nil = refl
sorted-perm (Permᴰ.cons e p) = ap₂ insert e (sorted-perm p)
sorted-perm (Permᴰ.swap {a} {b} {l = l} e e') =
    insert_comm a b (sorted l) ∙ ap₂ (λ x y. insert x (insert y (sorted l))) e' e
sorted-perm (Permᴰ.trans p q) = sorted-perm p ∙ sorted-perm q

-- An identifier that was seen comes no more, and one that was not comes once at most.
with_id_seen :
    (id : ℕ) (seen : List ℕ) (es : List TlsExtension)
    → Distinct seen (type_ids es)
    → contains id seen ≡ true
    → length (with_id id es) ≡ 0
with_id_seen id seen [] d h = refl
with_id_seen id seen (e ∷ es) d h = ground (arith, with_id_seen id (e.type_id ∷ seen) es d.1)

with_id_once :
    (id : ℕ) (seen : List ℕ) (es : List TlsExtension)
    → Distinct seen (type_ids es)
    → length (with_id id es) ≤ 1
with_id_once id seen [] d = omega arith
with_id_once id seen (e ∷ es) d =
    ground
      (arith, with_id_seen id (e.type_id ∷ seen) es d.1, with_id_once id (e.type_id ∷ seen) es d.1)

extension-perm :
    (h h' : ClientHello) (id : ℕ)
    → Distinct [] (type_ids h.extensions)
    → Permᴰ h.extensions h'.extensions
    → extension h id ≡ extension h' id
unfolding extension
extension-perm h h' id d r =
    ap head? (perm_short (keep-perm (λ e. e.type_id == id) r) (with_id_once id [] h.extensions d))

-- JA4 does not depend on the order in which a hello lists its cipher suites and its extensions,
-- whose identifiers are distinct: raw form, digest and error are the same.
pub ja4-perm :
    (sha256 : Text → Text) (h h' : ClientHello)
    → Distinct [] (type_ids h.extensions)
    → h.legacy_version ≡ h'.legacy_version
    → Permᴰ h.cipher_suites h'.cipher_suites
    → Permᴰ h.extensions h'.extensions
    → ja4 sha256 h ≡ ja4 sha256 h'
unfolding ja4 signature_algorithms alpn_protocols ja4_version supported_versions
ja4-perm sha256 h h' d v r q = rw (
  sorted-perm (keep-perm not_grease r),
  sorted-perm (keep-perm not_grease (map-perm (λ (e : TlsExtension). e.type_id) q)),
  extension-perm h h' 13 d q,
  extension-perm h h' 16 d q,
  extension-perm h h' 43 d q,
  extension-perm h h' 0 d q,
  v,
)
