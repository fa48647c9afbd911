-- ===== src/Runtime/Names.antt =====
-- python/foxreq/_runtime_manifest.py: the tests on the texts of a lock. `str.upper` is a parameter.
use foxreq.Prelude.{ℕ, List, [], ◌∷◌, Bool, false, not, ◌&&◌, ◌||◌, ◌==◌, leb, if◌then◌else◌}
use foxreq.Prelude.Lists.{length, all, keep, contains}
use foxreq.Prelude.Text.{Text, text, text_eq, starts_with, separated, is_empty}
use foxreq.Json.{contains_text}

abbrev pub onto_head : ℕ → List Text → List Text
onto_head c [] = (c ∷ []) ∷ []
onto_head c (part ∷ parts) = (c ∷ part) ∷ parts

-- `t.split(c)`
abbrev pub split_on : ℕ → Text → List Text
split_on sep [] = [] ∷ []
split_on sep (c ∷ cs) =
    let rest = split_on sep cs in if c == sep then [] ∷ rest else onto_head c rest

-- What precedes the first `c`: `t.split(c, 1)[0]`.
abbrev pub before : ℕ → Text → Text
before sep [] = []
before sep (c ∷ cs) = if c == sep then [] else c ∷ before sep cs

-- `t.rstrip(" .")`
abbrev pub strip_dots : Text → Text
strip_dots [] = []
strip_dots (c ∷ cs) =
    let rest = strip_dots cs in if is_empty rest && (c == 32 || c == 46) then [] else c ∷ rest

-- `PurePosixPath(t).parts` of a text that does not start with a slash
abbrev pub path_parts : Text → List Text
path_parts t = keep (λ p. not (is_empty p || text_eq p (text "."))) (split_on 47 t)

-- "COM" or "LPT" with one of the digits from 1 to 9
abbrev is_device : Text → Bool
is_device (a ∷ b ∷ c ∷ d ∷ []) =
    (text_eq (a ∷ b ∷ c ∷ []) (text "COM") || text_eq (a ∷ b ∷ c ∷ []) (text "LPT"))
    && (leb 49 d && leb d 57)
is_device _ = false

-- `_WINDOWS_RESERVED`
unfoldable pub is_reserved : Text → Bool
is_reserved stem =
    contains_text stem (text "CON" ∷ text "PRN" ∷ text "AUX" ∷ text "NUL" ∷ []) || is_device stem

-- A part that names an entry of its directory, on Windows too.
unfoldable pub is_plain_part : (Text → Text) → Text → Bool
is_plain_part upper part =
    not (contains_text part ([] ∷ text "." ∷ text ".." ∷ []))
    && (not (contains 58 part) && not (is_reserved (upper (before 46 (strip_dots part)))))

-- `_safe_relative_name` of a string
unfoldable pub safe_relative_name : (Text → Text) → Text → Bool
safe_relative_name upper t =
    not (is_empty t || contains 92 t)
    && (not (starts_with t (text "/"))
        && (all (is_plain_part upper) (path_parts t)
            && text_eq (separated (text "/") (path_parts t)) t))

abbrev pub is_digit : ℕ → Bool
is_digit c = leb 48 c && leb c 57

-- `re.fullmatch(r"[0-9a-f]{n}", t)`
unfoldable pub is_hex : ℕ → Text → Bool
is_hex n t = length t == n && all (λ c. is_digit c || (leb 97 c && leb c 102)) t

-- `re.fullmatch(r"[0-9]{n}", t)`
unfoldable pub is_digits : ℕ → Text → Bool
is_digits n t = length t == n && all is_digit t

-- `re.fullmatch(r"[0-9]+(?:\.[0-9]+)+", t)`
unfoldable pub is_dotted : Text → Bool
is_dotted t =
    leb 2 (length (split_on 46 t)) && all (λ p. not (is_empty p) && all is_digit p) (split_on 46 t)
