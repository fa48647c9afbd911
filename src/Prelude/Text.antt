-- ===== src/Prelude/Text.antt =====
-- Python's `str` as the list of its code points.
use Prim.Native.Nat.{ℕ, zero, suc, ◌+◌, ◌-◌, ◌/◌, ◌%◌}
use Prim.Native.Char.{code}
use Prim.Native.String.{String}
use mathlib.Core.Path.{◌≡◌, refl}
use mathlib.Core.Bool.{Bool, true, false, ◌&&◌, ◌||◌}
use mathlib.Core.Option.{Option, none, some}
use mathlib.Core.List.{List, [], ◌∷◌, ◌++◌}
use native.Mathlib.Omega.{arith}
use foxreq.Prelude.Tests.{◌==◌, ltb, leb, if◌then◌else◌}
use foxreq.Prelude.Lists.{length, all, any}
use foxreq.Prelude.Options.{◌>>=◌}

abbrev pub Text : Type 0
Text = List ℕ

abbrev pub is_empty : Text → Bool
is_empty [] = true
is_empty (c ∷ cs) = false

-- A literal of the source.
abbrev pub text : String → Text
text String.[] = []
text (String.◌∷◌ c s) = code c ∷ text s

-- `a == b` of two strings
abbrev pub text_eq : Text → Text → Bool
text_eq [] [] = true
text_eq (x ∷ xs) (y ∷ ys) = x == y && text_eq xs ys
text_eq _ _ = false

pub eq_of_text_eq : (a b : Text) → text_eq a b ≡ true → a ≡ b
eq_of_text_eq [] [] h = refl
eq_of_text_eq [] (y ∷ ys) h = cc
eq_of_text_eq (x ∷ xs) [] h = cc
eq_of_text_eq (x ∷ xs) (y ∷ ys) h = ground (arith, eq_of_text_eq xs ys)

pub text_eq_refl : (a : Text) → text_eq a a ≡ true
text_eq_refl [] = refl
text_eq_refl (x ∷ xs) = ground (arith, text_eq_refl xs)

-- The digits of a number in a base up to 16, most significant first. The fuel `n + 1` is enough, as
-- each round divides by the base.
abbrev digit : ℕ → ℕ
digit d = if ltb d 10 then d + 48 else d + 87

digits_onto : ℕ → ℕ → ℕ → Text → Text
digits_onto zero base n acc = acc
digits_onto (suc fuel) base n acc =
    let rest = digits_onto fuel base (n / base) (digit (n % base) ∷ acc) in
    if ltb n base then digit n ∷ acc else rest

-- `str(n)`
unfoldable pub decimal : ℕ → Text
unfolding digits_onto
decimal n = digits_onto (n + 1) 10 n []

unfoldable pub hexadecimal : ℕ → Text
unfolding digits_onto
hexadecimal n = digits_onto (n + 1) 16 n []

zeros : ℕ → Text
zeros zero = []
zeros (suc n) = 48 ∷ zeros n

-- Zeros in front, up to a width.
unfoldable pub pad : ℕ → Text → Text
unfolding zeros
pad width t = zeros (width - length t) ++ t

-- `sep.join(parts)`
unfoldable pub separated : Text → List Text → Text
separated sep [] = []
separated sep (t ∷ []) = t
separated sep (t ∷ u ∷ ts) = t ++ (sep ++ separated sep (u ∷ ts))

-- `t.encode("ascii")` and `b.decode("ascii")` keep every code point, or raise a UnicodeError.
unfoldable pub ascii : Text → Option (List ℕ)
ascii t = if all (λ c. ltb c 128) t then some t else none

-- `t.encode("latin-1")`; `b.decode("latin-1")` of bytes is the same list.
unfoldable pub latin_1 : Text → Option (List ℕ)
latin_1 t = if all (λ c. ltb c 256) t then some t else none

-- `a <= b` of two strings, by their code points
abbrev pub text_le : Text → Text → Bool
text_le [] b = true
text_le (x ∷ xs) [] = false
text_le (x ∷ xs) (y ∷ ys) = if x == y then text_le xs ys else ltb x y

abbrev pub insert_text : Text → List Text → List Text
insert_text t [] = t ∷ []
insert_text t (u ∷ us) = if text_le t u then t ∷ u ∷ us else u ∷ insert_text t us

-- `sorted(ts)`
abbrev pub sorted_texts : List Text → List Text
sorted_texts [] = []
sorted_texts (t ∷ ts) = insert_text t (sorted_texts ts)

-- `prefix` starts the text.
abbrev pub starts_with : Text → Text → Bool
starts_with t [] = true
starts_with [] (p ∷ ps) = false
starts_with (c ∷ cs) (p ∷ ps) = c == p && starts_with cs ps

-- The white space that `str.strip()` removes.
unfoldable pub is_space : ℕ → Bool
is_space c =
    (leb 9 c && leb c 13)
    || ((leb 28 c && leb c 32)
        || (any (λ s. c == s)
              (0x85 ∷ 0xA0 ∷ 0x1680 ∷ 0x2028 ∷ 0x2029 ∷ 0x202F ∷ 0x205F ∷ 0x3000 ∷ [])
            || (leb 0x2000 c && leb c 0x200A)))

unfoldable pub strip_left : Text → Text
unfolding is_space
strip_left [] = []
strip_left (c ∷ cs) = if is_space c then strip_left cs else c ∷ cs

unfoldable pub strip_right : Text → Text
unfolding is_space
strip_right [] = []
strip_right (c ∷ cs) =
    let rest = strip_right cs in if is_space c && is_empty rest then [] else c ∷ rest

-- `t.strip()`
unfoldable pub strip : Text → Text
unfolding strip_left strip_right
strip t = strip_right (strip_left t)

-- The UTF-8 bytes of a code point, none for a surrogate.
unfoldable pub utf_8_char : ℕ → Option (List ℕ)
utf_8_char c =
    if ltb c 0x80
    then some (c ∷ [])
    else if ltb c 0x800
    then some ((192 + c / 64) ∷ (128 + c % 64) ∷ [])
    else if leb 0xD800 c && leb c 0xDFFF
    then none
    else if ltb c 0x10000
    then some ((224 + c / 4096) ∷ (128 + c / 64 % 64) ∷ (128 + c % 64) ∷ [])
    else some
        ((240 + c / 262144) ∷ (128 + c / 4096 % 64) ∷ (128 + c / 64 % 64) ∷ (128 + c % 64) ∷ [])

-- `t.encode("utf-8")`
unfoldable pub utf_8 : Text → Option (List ℕ)
unfolding utf_8_char
utf_8 [] = some []
utf_8 (c ∷ cs) = utf_8_char c >>= λ b. utf_8 cs >>= λ bs. some (b ++ bs)
