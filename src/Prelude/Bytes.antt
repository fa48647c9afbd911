-- ===== src/Prelude/Bytes.antt =====
-- Bytes and the big-endian integers of `int.from_bytes(b, "big")` and `n.to_bytes(k, "big")`.
use Prim.Native.Nat.{ℕ, zero, suc, ◌+◌, ◌*◌, ◌/◌, ◌%◌, ◌^◌, ◌<◌}
use mathlib.Core.Path.{◌≡◌, refl, ap, ap₂, sym, subst, ◌∙◌}
use mathlib.Core.List.{List, [], ◌∷◌, ◌++◌}
use native.Mathlib.Omega.{arith}
use native.Mathlib.Nat.{pow-suc}
use foxreq.Prelude.Lists.{length, length-append, All, All-append, All-append_left, All-append_right}

abbrev pub IsByte : ℕ → Type 0
IsByte b = b < 256

abbrev pub AllBytes : List ℕ → Type 0
AllBytes = All IsByte

unfoldable pub from_big_onto : ℕ → List ℕ → ℕ
from_big_onto acc [] = acc
from_big_onto acc (b ∷ bs) = from_big_onto (acc * 256 + b) bs

-- `int.from_bytes(bytes, "big")`
unfoldable pub from_big : List ℕ → ℕ
unfolding from_big_onto
from_big bytes = from_big_onto 0 bytes

-- `value.to_bytes(count, "big")` of a value that fits
unfoldable pub to_big : ℕ → ℕ → List ℕ
to_big zero value = []
to_big (suc count) value = to_big count (value / 256) ++ ((value % 256) ∷ [])

pub length-to_big : (count value : ℕ) → length (to_big count value) ≡ count
unfolding to_big
length-to_big zero value = refl
length-to_big (suc count) value = omega (
  arith,
  length-append (to_big count (value / 256)) ((value % 256) ∷ []),
  length-to_big count (value / 256),
)

pub to_big-AllBytes : (count value : ℕ) → AllBytes (to_big count value)
unfolding to_big
to_big-AllBytes zero value = tt
to_big-AllBytes (suc count) value =
    All-append IsByte (to_big count (value / 256)) _ (to_big-AllBytes count (value / 256))
      (omega arith)

from_big_onto-snoc :
    (acc : ℕ) (bs : List ℕ) (b : ℕ)
    → from_big_onto acc (bs ++ (b ∷ [])) ≡ from_big_onto acc bs * 256 + b
unfolding from_big_onto
from_big_onto-snoc acc [] b = refl
from_big_onto-snoc acc (x ∷ bs) b = from_big_onto-snoc (acc * 256 + x) bs b

-- What was written is read back.
pub from_big-to_big :
    (count value : ℕ) → value < 256 ^ count → from_big (to_big count value) ≡ value
unfolding from_big to_big
from_big-to_big zero value h = omega arith
from_big-to_big (suc count) value h =
    rw from_big_onto-snoc
      (omega (arith, from_big-to_big count (value / 256) (omega (arith, pow-suc 256 count))))

-- A list that is not empty, split before its last item.
pub unsnoc :
    (n : ℕ) (x : ℕ) (xs : List ℕ)
    → length xs ≡ n
    → (ys : List ℕ) × (y : ℕ) × ((x ∷ xs) ≡ ys ++ (y ∷ [])) × (length ys ≡ n)
unsnoc zero x [] h = ([], x, refl, refl)
unsnoc zero x (z ∷ xs) h = absurd (omega arith)
unsnoc (suc n) x [] h = absurd (omega arith)
unsnoc (suc n) x (z ∷ xs) h =
    let (ys, y, e, l) = unsnoc n z xs (omega arith) in (x ∷ ys, y, ap (λ r. x ∷ r) e, omega arith)

to_big-from_big_snoc :
    (n : ℕ) (ys : List ℕ) (y : ℕ)
    → (to_big n (from_big ys) ≡ ys) × (from_big ys < 256 ^ n)
    → y < 256
    → (to_big (suc n) (from_big (ys ++ (y ∷ []))) ≡ ys ++ (y ∷ []))
      × (from_big (ys ++ (y ∷ [])) < 256 ^ suc n)
unfolding from_big to_big
to_big-from_big_snoc n ys y h k = rw from_big_onto-snoc (
  ap₂ (λ (v w : ℕ). to_big n v ++ (w ∷ [])) (omega arith) (omega arith)
      ∙ ap (λ r. r ++ (y ∷ [])) h.0,
  omega (arith, pow-suc 256 n),
)

-- Bytes are determined by their number and the integer that they stand for.
pub to_big-from_big :
    (n : ℕ) (bs : List ℕ)
    → length bs ≡ n
    → AllBytes bs
    → (to_big n (from_big bs) ≡ bs) × (from_big bs < 256 ^ n)
unfolding from_big from_big_onto to_big
to_big-from_big zero [] h all = (refl, omega arith)
to_big-from_big zero (b ∷ bs) h all = absurd (omega arith)
to_big-from_big (suc n) [] h all = absurd (omega arith)
to_big-from_big (suc n) (b ∷ bs) h all =
    let (ys, y, e, l) = unsnoc n b bs (omega arith) in
    subst (λ zs. (to_big (suc n) (from_big zs) ≡ zs) × (from_big zs < 256 ^ suc n)) (sym e)
      (to_big-from_big_snoc n ys y
        (to_big-from_big n ys l (All-append_left IsByte ys _ (subst AllBytes e all)))
        (All-append_right IsByte ys _ (subst AllBytes e all)).0)
