-- ===== src/Tls/Parts.antt =====
-- tls.py: each part of the parser reads the bytes that stand for its value.
use foxreq.Prelude.{
  ℕ, ◌*◌, ◌%◌, ◌<◌, ◌≡◌, refl, sym, subst, ap, List, [], ◌∷◌, ◌++◌, map, Bool, true, false, not,
  ◌==◌, ==_iff, if◌then◌else◌, append-nil, append_assoc, arith, lt→ltb,
}
use foxreq.Prelude.Lists.{length, length-append, All, contains}
use foxreq.Prelude.Bytes.{to_big, length-to_big}
use foxreq.Prelude.Text.{Text, text}
use foxreq.Binary.{
  Parser, Message, pure, ◌>>=◌, ◌>>◌, u16, vector_u16, while_remaining, finish, raise,
}
use foxreq.Binary.Reads.{
  Reads, ReadsEnd, Rounds, done, round, map-Reads, bind-Reads, then-Reads, pure-Reads, offset-Reads,
  on-Reads, while_remaining-ReadsEnd, then-ReadsEnd, finish-ReadsEnd, remaining-ReadsEnd,
  Reads-ReadsEnd,
}
use foxreq.Binary.Failures.{Fails, error}
use foxreq.Binary.Outcomes.{Outcome, OutcomeEnd}
use foxreq.Binary.Fields.{vector, u16-Reads, vector_u16-Reads, subreader-Reads}
use foxreq.Model.{TlsExtension}
use foxreq.Tls.{
  raise_if, u16_round, u16_values, Extensions, extension_round, extension_block, parse_extensions,
  optional_extensions,
}
use foxreq.Tls.Encode.{
  IsU16, u16_list, extension_bytes, extension_list, IsExtension, type_ids, Distinct, block_bytes,
}

pub raise_if-Reads {ℓ} :
    {A : Type ℓ} (k : Parser A) (test : Bool) (m : Message) (at : ℕ) (path : Text) (g : List ℕ)
    (b : A)
    → test ≡ false
    → Reads k g b
    → Reads (raise_if test m at path >> k) g b
unfolding raise_if ◌>>=◌ pure
raise_if-Reads k test m at path g b h hk before rest base path' = rw h (hk before rest base path')

pub raise_if-ReadsEnd {ℓ} :
    {A : Type ℓ} (k : Parser A) (test : Bool) (m : Message) (at : ℕ) (path : Text) (g : List ℕ)
    (b : A)
    → test ≡ false
    → ReadsEnd k g b
    → ReadsEnd (raise_if test m at path >> k) g b
unfolding raise_if ◌>>=◌ pure
raise_if-ReadsEnd k test m at path g b h hk before base path' = rw h (hk before base path')

pub raise_if-Outcome {ℓ} :
    {A : Type ℓ} (k : Parser A) (test : Bool) (m : Message) (at : ℕ) (path : Text) (g : List ℕ)
    (P : A → Type 0)
    → test ≡ false
    → Outcome k g P
    → Outcome (raise_if test m at path >> k) g P
unfolding raise_if ◌>>=◌ pure
raise_if-Outcome k test m at path g P h hk before rest base path' = rw h (hk before rest base path')

pub raise_if-OutcomeEnd {ℓ} :
    {A : Type ℓ} (k : Parser A) (test : Bool) (m : Message) (at : ℕ) (path : Text) (g : List ℕ)
    (P : A → Type 0)
    → test ≡ false
    → OutcomeEnd k g P
    → OutcomeEnd (raise_if test m at path >> k) g P
unfolding raise_if ◌>>=◌ pure
raise_if-OutcomeEnd k test m at path g P h hk before base path' = rw h (hk before base path')

pub raise_if-Fails {ℓ} :
    {A : Type ℓ} (k : Parser A) (test : Bool) (m : Message) (at : ℕ) (path : Text) (o : ℕ)
    → test ≡ true
    → Fails (raise_if test m at path >> k) o [] (error m at path)
unfolding raise_if ◌>>=◌ raise
raise_if-Fails k test m at path o h before rest base path' e = rw h

u16_round-Reads :
    (values : List ℕ) (v : ℕ) → IsU16 v → Reads (u16_round values) (to_big 2 v) (values ++ (v ∷ []))
unfolding u16_round
u16_round-Reads values v h = map-Reads u16 (λ x. values ++ (x ∷ [])) (to_big 2 v) v (u16-Reads v h)

u16-Rounds : (acc xs : List ℕ) → All IsU16 xs → Rounds u16_round acc (map (to_big 2) xs) (acc ++ xs)
u16-Rounds acc [] h = subst (Rounds u16_round acc []) (sym (append-nil acc)) done
u16-Rounds acc (x ∷ xs) h =
    round (to_big 2 x) (omega (arith, length-to_big 2 x)) (u16_round-Reads acc x h.0) (
      subst (Rounds u16_round (acc ++ (x ∷ [])) (map (to_big 2) xs)) (append_assoc acc (x ∷ []) xs)
        (u16-Rounds (acc ++ (x ∷ [])) xs h.1))

pub length-u16_list : (xs : List ℕ) → length (u16_list xs) ≡ 2 * length xs
length-u16_list [] = refl
length-u16_list (x ∷ xs) =
    omega (arith, length-append (to_big 2 x) (u16_list xs), length-to_big 2 x, length-u16_list xs)

even_test : (n : ℕ) → n % 2 ≡ 0 → (n % 2 == 0) ≡ true
even_test n h = (==_iff (n % 2) 0).1 h

even_length : (xs : List ℕ) → not (length (u16_list xs) % 2 == 0) ≡ false
even_length xs = ap not (even_test (length (u16_list xs)) (omega (arith, length-u16_list xs)))

-- `_u16_values` works on a reader of its own: this one stands where it stood.
pub u16_values-Reads :
    (xs : List ℕ) (base : ℕ) (path : Text)
    → All IsU16 xs
    → Reads (u16_values (u16_list xs) base path) [] xs
unfolding u16_values
u16_values-Reads xs base path h = raise_if-Reads _ _ _ _ _ [] xs (even_length xs) (
    on-Reads (while_remaining u16_round []) (u16_list xs) base path xs
      (while_remaining-ReadsEnd u16_round (u16-Rounds [] xs h)))

extension_round-Reads :
    (s : Extensions) (e : TlsExtension)
    → IsExtension e
    → contains e.type_id s.seen ≡ false
    → Reads
        (extension_round s)
        (extension_bytes e)
        (record { items = s.items ++ (e ∷ []); seen = e.type_id ∷ s.seen })
unfolding extension_round
extension_round-Reads s e h fresh = offset-Reads _ _ _ λ at.
    bind-Reads u16 _ (to_big 2 e.type_id) (vector 2 e.payload) e.type_id _ (u16-Reads e.type_id h.0)
      (then-Reads vector_u16 _ (vector 2 e.payload) e.payload _ (vector_u16-Reads e.payload h.1)
        (raise_if-Reads _ _ _ _ _ [] _ fresh (pure-Reads _)))

extension-Rounds :
    (s : Extensions) (es : List TlsExtension)
    → All IsExtension es
    → Distinct s.seen (type_ids es)
    → (seen : List ℕ) × Rounds extension_round s
        (map extension_bytes es)
        (record { items = s.items ++ es; seen = seen })
extension-Rounds s [] h d = (
  s.seen,
  subst (λ items. Rounds extension_round s [] (record { items = items; seen = s.seen }))
      (sym (append-nil s.items)) done,
)
extension-Rounds s (e ∷ es) h d =
    let t : Extensions = record { items = s.items ++ (e ∷ []); seen = e.type_id ∷ s.seen } in
    let (seen, r) = extension-Rounds t es h.1 d.1 in
    (
      seen,
      round (extension_bytes e)
          (omega (
            arith,
            length-append (to_big 2 e.type_id) (vector 2 e.payload),
            length-to_big 2 e.type_id,
          ))
          (extension_round-Reads s e h.0 d.0)
          (subst
            (λ items.
              Rounds extension_round t (map extension_bytes es)
                (record { items = items; seen = seen }))
            (append_assoc s.items (e ∷ []) es) r),
    )

extension_block-ReadsEnd :
    (es : List TlsExtension)
    → All IsExtension es
    → Distinct [] (type_ids es)
    → ReadsEnd extension_block (extension_list es) es
unfolding extension_block
extension_block-ReadsEnd es h d =
    let (seen, r) = extension-Rounds (record { items = []; seen = [] }) es h d in
    then-ReadsEnd (while_remaining extension_round _) _ (extension_list es) _ es
      (while_remaining-ReadsEnd extension_round r)
      (then-ReadsEnd finish _ [] tt es finish-ReadsEnd
        (Reads-ReadsEnd (pure es) [] es (pure-Reads es)))

parse_extensions-Reads :
    (es : List TlsExtension)
    → All IsExtension es
    → Distinct [] (type_ids es)
    → length (extension_list es) < 65536
    → Reads parse_extensions (vector 2 (extension_list es)) es
unfolding parse_extensions
parse_extensions-Reads es h d fits =
    bind-Reads u16 _ (to_big 2 (length (extension_list es))) (extension_list es)
      (length (extension_list es)) es (u16-Reads (length (extension_list es)) fits)
      (subreader-Reads extension_block (extension_list es) (text "client_hello.extensions") es
        (extension_block-ReadsEnd es h d))

-- With a block the parser goes into it; with nothing left there are no extensions.
pub optional_extensions-ReadsEnd :
    (with_block : Bool) (es : List TlsExtension)
    → All IsExtension es
    → Distinct [] (type_ids es)
    → length (extension_list es) < 65536
    → (with_block ≡ false → es ≡ [])
    → ReadsEnd optional_extensions (block_bytes with_block es) es
unfolding optional_extensions
optional_extensions-ReadsEnd true es h d fits none_left =
    remaining-ReadsEnd _ (vector 2 (extension_list es)) es (
      subst
        (λ t. ReadsEnd (if t then parse_extensions else pure []) (vector 2 (extension_list es)) es)
        (sym (
          lt→ltb 0 (length (vector 2 (extension_list es))) (
            omega (
              arith,
              length-append (to_big 2 (length (extension_list es))) (extension_list es),
              length-to_big 2 (length (extension_list es)),
            ))))
        (Reads-ReadsEnd parse_extensions (vector 2 (extension_list es)) es
          (parse_extensions-Reads es h d fits)))
optional_extensions-ReadsEnd false es h d fits none_left =
    subst (λ fs. ReadsEnd optional_extensions [] fs) (sym (none_left refl))
      (remaining-ReadsEnd _ [] [] (Reads-ReadsEnd (pure []) [] [] (pure-Reads [])))
