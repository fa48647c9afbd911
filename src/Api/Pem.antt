-- ===== src/Api/Pem.antt =====
-- python/foxreq/_normalize.py, `_read_pem_bundle`. The file is the parameter `read`, and
-- `ssl.PEM_cert_to_DER_cert` the parameter `der_of`.
use foxreq.Prelude.{
  ℕ, List, [], ◌∷◌, ◌++◌, Bool, false, Option, none, some, not, ◌||◌, ◌&&◌, ◌==◌, leb, ltb, ◌*◌,
  if◌then◌else◌,
}
use foxreq.Prelude.Lists.{length}
use foxreq.Prelude.Result.{Result, ok, err, ◌>>=◌}
use foxreq.Prelude.Text.{Text, text, text_eq, ascii, strip, starts_with, is_empty, separated}
use foxreq.Errors.{FoxreqError, Kind}
use foxreq.Anchors.{Anchor}
use foxreq.Api.Profiles.{or_error}

abbrev pub configuration : Text → FoxreqError
configuration message = record { kind = Kind.configuration; message = message }

-- What is at a path: no file, a file that cannot be read, or the first bytes of one.
pub data FileAnswer : Type 0 where
  not_a_file unreadable : FileAnswer
  bytes : List ℕ → FileAnswer

-- `_MAX_PEM_BYTES`
abbrev pub max_pem_bytes : ℕ
max_pem_bytes = 4 * 1024 * 1024

abbrev pub begin_certificate : Text
begin_certificate = text "-----BEGIN CERTIFICATE-----"

abbrev pub end_certificate : Text
end_certificate = text "-----END CERTIFICATE-----"

-- Where `str.splitlines()` ends a line of an ASCII text.
unfoldable pub is_break : ℕ → Bool
is_break c = (leb 10 c && leb c 13) || (leb 28 c && leb c 30)

abbrev pub onto_first : ℕ → List Text → List Text
onto_first c [] = (c ∷ []) ∷ []
onto_first c (line ∷ lines) = (c ∷ line) ∷ lines

-- `text.splitlines()`. A line feed after a carriage return ends no line of its own.
unfoldable pub split_after : Bool → Text → List Text
unfolding is_break
split_after returned [] = []
split_after returned (c ∷ cs) =
    let rest = split_after (c == 13) cs in
    if returned && c == 10 then rest else if is_break c then [] ∷ rest else onto_first c rest

abbrev pub split_lines : Text → List Text
split_lines t = split_after false t

module _ (der_of : Text → Option (List ℕ)) where
  -- The bytes of a block, which are not to be empty.
  unfoldable pub certificate : List Text → Result FoxreqError (List ℕ)
  certificate block = do
    der ←
        or_error (der_of (separated (10 ∷ []) block ++ (10 ∷ [])))
          (configuration (text "PEM certificate is invalid"))
    if is_empty der then err (configuration (text "PEM certificate is empty")) else ok der

  -- One line: the anchors so far and the block that is open.
  unfoldable pub line_round :
      List Anchor
      → Option (List Text)
      → Text
      → Result FoxreqError (List Anchor × Option (List Text))
  unfolding certificate
  line_round anchors none stripped =
      if is_empty stripped || starts_with stripped (text "#")
      then ok (anchors, none)
      else if not (text_eq stripped begin_certificate)
      then err (configuration (text "PEM bundle contains non-certificate text"))
      else ok (anchors, some (begin_certificate ∷ []))
  line_round anchors (some block) stripped =
      if text_eq stripped begin_certificate
      then err (configuration (text "PEM certificate blocks cannot be nested"))
      else if text_eq stripped end_certificate
      then (certificate (block ++ (stripped ∷ [])) >>= λ der. ok (anchors ++ (der ∷ []), none))
      else ok (anchors, some (block ++ (stripped ∷ [])))

  abbrev pub finish_bundle : List Anchor → Option (List Text) → Result FoxreqError (List Anchor)
  finish_bundle anchors (some block) =
      err (configuration (text "PEM certificate block is truncated"))
  finish_bundle [] none = err (configuration (text "PEM bundle contains no certificates"))
  finish_bundle (a ∷ anchors) none = ok (a ∷ anchors)

  unfoldable pub line_loop :
      List Anchor → Option (List Text) → List Text → Result FoxreqError (List Anchor)
  unfolding line_round
  line_loop anchors block [] = finish_bundle anchors block
  line_loop anchors block (line ∷ lines) =
      line_round anchors block (strip line) >>= λ s. line_loop s.0 s.1 lines

  unfoldable pub read_text : List ℕ → Result FoxreqError (List Anchor)
  unfolding line_loop
  read_text raw =
      if ltb max_pem_bytes (length raw)
      then err (configuration (text "PEM bundle exceeds the 4 MiB limit"))
      else do
        t ← or_error (ascii raw) (configuration (text "PEM bundle must be ASCII"))
        line_loop [] none (split_lines t)

  unfoldable pub read_pem_bundle : FileAnswer → Result FoxreqError (List Anchor)
  unfolding read_text
  read_pem_bundle not_a_file = err (configuration (text "PEM bundle path is not a file"))
  read_pem_bundle unreadable = err (configuration (text "PEM bundle cannot be read"))
  read_pem_bundle (bytes raw) = read_text raw
