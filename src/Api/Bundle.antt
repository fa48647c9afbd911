-- ===== src/Api/Bundle.antt =====
-- _normalize.py, `_read_pem_bundle`: a bundle of certificates is read back.
use foxreq.Prelude.{
  ℕ, ◌≤◌, ◌≡◌, ◌≢◌, refl, sym, ap, ◌∙◌, List, [], ◌∷◌, ◌++◌, Bool, true, false, Option, none, some,
  not, ◌||◌, ◌==◌, arith, append_assoc, append-nil, le→ltb, &&-eq-true,
}
use foxreq.Prelude.Lists.{length, all, All, All-append}
use foxreq.Prelude.Result.{ok}
use foxreq.Prelude.Text.{
  Text, text, text_eq, ascii, strip, is_space, starts_with, is_empty, separated,
}
use foxreq.Anchors.{Anchor}
use foxreq.Api.Pem.{
  FileAnswer, max_pem_bytes, begin_certificate, end_certificate, is_break, split_after, split_lines,
  certificate, line_round, finish_bundle, line_loop, read_pem_bundle,
}

-- A comment or an empty line, or the base-64 lines of a certificate with its bytes.
pub data Part : Type 0 where
  note : Text → Part
  block : List Text → Anchor → Part

abbrev pub block_lines : List Text → List Text
block_lines ls = begin_certificate ∷ (ls ++ (end_certificate ∷ []))

abbrev pub lines_of : List Part → List Text
lines_of [] = []
lines_of (note t ∷ parts) = t ∷ lines_of parts
lines_of (block ls der ∷ parts) = begin_certificate ∷ (ls ++ (end_certificate ∷ lines_of parts))

abbrev pub certificates : List Part → List Anchor
certificates [] = []
certificates (note t ∷ parts) = certificates parts
certificates (block ls der ∷ parts) = der ∷ certificates parts

-- Each line with a line feed behind it.
abbrev pub printed : List Text → Text
printed [] = []
printed (l ∷ ls) = l ++ (10 ∷ printed ls)

abbrev pub IsLine : Text → Type 0
IsLine = All (λ c. is_break c ≡ false)

-- What may stand between the two marks.
pub record IsBodyLine (l : Text) : Type 0 where
  pub line : IsLine l
  pub bare : strip l ≡ l
  pub no_begin : text_eq l begin_certificate ≡ false
  pub no_end : text_eq l end_certificate ≡ false

split_line :
    (l rest : Text) → IsLine l → split_after false (l ++ (10 ∷ rest)) ≡ l ∷ split_after false rest
unfolding split_after is_break
split_line [] rest h = refl
split_line (c ∷ cs) rest h =
    let fits : (c == 13) ≡ false = ground arith in
    let later = split_line cs rest h.1 in rw (fits, h.0, later) refl

split_printed : (ls : List Text) → All IsLine ls → split_lines (printed ls) ≡ ls
unfolding split_after
split_printed [] h = refl
split_printed (l ∷ ls) h = split_line l (printed ls) h.0 ∙ ap (λ r. l ∷ r) (split_printed ls h.1)

begin_bare : strip begin_certificate ≡ begin_certificate
unfolding strip is_space
begin_bare = refl

end_bare : strip end_certificate ≡ end_certificate
unfolding strip is_space
end_bare = refl

IsLine-of_all : (l : Text) → all (λ c. not (is_break c)) l ≡ true → IsLine l
IsLine-of_all [] h = tt
IsLine-of_all (c ∷ cs) h =
    let (here, there) = &&-eq-true (not (is_break c)) (all (λ c. not (is_break c)) cs) h in
    (not_lem (is_break c) here, IsLine-of_all cs there)
  where
    not_lem : (b : Bool) → not b ≡ true → b ≡ false
    not_lem b h = ground arith

begin_line_lem : IsLine begin_certificate
unfolding is_break
begin_line_lem = IsLine-of_all begin_certificate refl

end_line_lem : IsLine end_certificate
unfolding is_break
end_line_lem = IsLine-of_all end_certificate refl

module _ (der_of : Text → Option (List ℕ)) where
  -- A note that is skipped, or a block of body lines that hold the certificate.
  abbrev pub IsPart : Part → Type 0
  IsPart (note t) = IsLine t × ((is_empty (strip t) || starts_with (strip t) (text "#")) ≡ true)
  IsPart (block ls der) =
      All IsBodyLine ls
      × (der_of (separated (10 ∷ []) (block_lines ls) ++ (10 ∷ [])) ≡ some der)
      × (der ≢ [])

  body_lines :
      (anchors : List Anchor) (acc ls rest : List Text)
      → All IsBodyLine ls
      → line_loop der_of anchors (some acc) (ls ++ rest)
        ≡ line_loop der_of anchors (some (acc ++ ls)) rest
  unfolding line_loop line_round
  body_lines anchors acc [] rest h =
      ap (λ b. line_loop der_of anchors (some b) rest) (sym (append-nil acc))
  body_lines anchors acc (l ∷ ls) rest h =
      rw (h.0.bare, h.0.no_begin, h.0.no_end)
        (body_lines anchors (acc ++ (l ∷ [])) ls rest h.1
          ∙ ap (λ b. line_loop der_of anchors (some b) rest) (append_assoc acc (l ∷ []) ls))

  certificate_lem :
      (ls : List Text) (der : Anchor)
      → der_of (separated (10 ∷ []) ls ++ (10 ∷ [])) ≡ some der
      → der ≢ []
      → certificate der_of ls ≡ ok der
  unfolding certificate
  certificate_lem ls [] e h = absurd (h refl)
  certificate_lem ls (b ∷ bs) e h = rw e refl

  note_line :
      (anchors : List Anchor) (t : Text) (rest : List Text)
      → (is_empty (strip t) || starts_with (strip t) (text "#")) ≡ true
      → line_loop der_of anchors none (t ∷ rest) ≡ line_loop der_of anchors none rest
  unfolding line_loop line_round
  note_line anchors t rest h = rw h refl

  begin_line :
      (anchors : List Anchor) (rest : List Text)
      → line_loop der_of anchors none (begin_certificate ∷ rest)
        ≡ line_loop der_of anchors (some (begin_certificate ∷ [])) rest
  unfolding line_loop line_round
  begin_line anchors rest = rw begin_bare refl

  end_line :
      (anchors : List Anchor) (acc : List Text) (der : Anchor) (rest : List Text)
      → certificate der_of (acc ++ (end_certificate ∷ [])) ≡ ok der
      → line_loop der_of anchors (some acc) (end_certificate ∷ rest)
        ≡ line_loop der_of (anchors ++ (der ∷ [])) none rest
  unfolding line_loop line_round
  end_line anchors acc der rest h = rw end_bare (rw h refl)

  parts_read :
      (anchors : List Anchor) (parts : List Part)
      → All IsPart parts
      → line_loop der_of anchors none (lines_of parts)
        ≡ finish_bundle der_of (anchors ++ certificates parts) none
  unfolding line_loop
  parts_read anchors [] h = ap (λ a. finish_bundle der_of a none) (sym (append-nil anchors))
  parts_read anchors (note t ∷ parts) h =
      note_line anchors t (lines_of parts) h.0.1 ∙ parts_read anchors parts h.1
  parts_read anchors (block ls der ∷ parts) h =
      begin_line anchors (ls ++ (end_certificate ∷ lines_of parts))
      ∙ (body_lines anchors (begin_certificate ∷ []) ls (end_certificate ∷ lines_of parts) h.0.0
          ∙ (end_line anchors (begin_certificate ∷ ls) der (lines_of parts)
                (certificate_lem (block_lines ls) der h.0.1 h.0.2)
              ∙ (parts_read (anchors ++ (der ∷ [])) parts h.1
                  ∙ ap (λ a. finish_bundle der_of a none)
                      (append_assoc anchors (der ∷ []) (certificates parts)))))

  lines-IsLine : (parts : List Part) → All IsPart parts → All IsLine (lines_of parts)
  lines-IsLine [] h = tt
  lines-IsLine (note t ∷ parts) h = (h.0.0, lines-IsLine parts h.1)
  lines-IsLine (block ls der ∷ parts) h = (
    begin_line_lem,
    All-append IsLine ls (end_certificate ∷ lines_of parts) (body ls h.0.0)
        (end_line_lem, lines-IsLine parts h.1),
  )
    where
      body : (ls : List Text) → All IsBodyLine ls → All IsLine ls
      body [] h = tt
      body (l ∷ ls) h = (h.0.line, body ls h.1)

  -- A bundle of certificates, each between the two marks, with comments and empty lines around them,
  -- is read back as these certificates in their order. It is ASCII, within the limit and holds one at
  -- least, and the library decodes each block to bytes.
  pub read_pem_bundle-printed :
      (parts : List Part)
      → All IsPart parts
      → certificates parts ≢ []
      → length (printed (lines_of parts)) ≤ max_pem_bytes
      → ascii (printed (lines_of parts)) ≡ some (printed (lines_of parts))
      → read_pem_bundle der_of (FileAnswer.bytes (printed (lines_of parts)))
        ≡ ok (certificates parts)
  unfolding read_pem_bundle
  read_pem_bundle-printed parts h some_cert short plain =
      let raw = printed (lines_of parts) in
      let lines : split_lines raw ≡ lines_of parts =
        split_printed (lines_of parts) (lines-IsLine parts h) in
      rw (le→ltb max_pem_bytes (length raw) short) (
        rw plain (
          ap (line_loop der_of [] none) lines
          ∙ (parts_read [] parts h ∙ finished (certificates parts) some_cert)))
    where
      finished : (a : List Anchor) → a ≢ [] → finish_bundle der_of a none ≡ ok a
      finished [] h = absurd (h refl)
      finished (a ∷ as') h = refl
