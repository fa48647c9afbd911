-- ===== src/Binary/Fields.antt =====
-- binary.py: the integers and vectors of the wire, read back from what they are written as.
use foxreq.Prelude.{ℕ, ◌^◌, ◌<◌, ◌≡◌, refl, subst, List, [], ◌++◌, arith, pos}
use foxreq.Prelude.Lists.{length}
use foxreq.Prelude.Bytes.{from_big, to_big, length-to_big, from_big-to_big}
use foxreq.Prelude.Text.{Text}
use foxreq.Binary.{
  Parser, reader, subreader, on, pure, ◌>>=◌, get_offset, take, u8, uint, u16, u24, vector_u8,
  vector_u16, first,
}
use foxreq.Binary.Reads.{Reads, ReadsEnd, take-Reads, map-Reads, bind-Reads}

-- A vector behind its length in `count` bytes.
abbrev pub vector : ℕ → List ℕ → List ℕ
vector count body = to_big count (length body) ++ body

pub uint-Reads :
    (count value : ℕ) → value < 256 ^ count → Reads (uint count) (to_big count value) value
unfolding uint
uint-Reads count value h =
    subst (Reads (take (pos count) >>= λ bytes. pure (from_big bytes)) (to_big count value))
      (from_big-to_big count value h)
      (map-Reads (take (pos count)) from_big (to_big count value) (to_big count value)
        (take-Reads (to_big count value) count (length-to_big count value)))

first-to_big : (value : ℕ) → value < 256 → first (to_big 1 value) ≡ value
unfolding first to_big
first-to_big value h = omega arith

pub u8-Reads : (value : ℕ) → value < 256 → Reads u8 (to_big 1 value) value
unfolding u8
u8-Reads value h =
    subst (Reads (take (pos 1) >>= λ bytes. pure (first bytes)) (to_big 1 value))
      (first-to_big value h)
      (map-Reads (take (pos 1)) first (to_big 1 value) (to_big 1 value)
        (take-Reads (to_big 1 value) 1 (length-to_big 1 value)))

pub u16-Reads : (value : ℕ) → value < 65536 → Reads u16 (to_big 2 value) value
unfolding u16
u16-Reads value h = uint-Reads 2 value h

pub u24-Reads : (value : ℕ) → value < 16777216 → Reads u24 (to_big 3 value) value
unfolding u24
u24-Reads value h = uint-Reads 3 value h

pub vector_u8-Reads : (f : List ℕ) → length f < 256 → Reads vector_u8 (vector 1 f) f
unfolding vector_u8
vector_u8-Reads f h =
    bind-Reads u8 (λ size. take (pos size)) (to_big 1 (length f)) f (length f) f
      (u8-Reads (length f) h) (take-Reads f (length f) refl)

pub vector_u16-Reads : (f : List ℕ) → length f < 65536 → Reads vector_u16 (vector 2 f) f
unfolding vector_u16
vector_u16-Reads f h =
    bind-Reads u16 (λ size. take (pos size)) (to_big 2 (length f)) f (length f) f
      (u16-Reads (length f) h) (take-Reads f (length f) refl)

-- A parser that runs on a part of its own, to the end of that part.
pub subreader-Reads {ℓ} :
    {B : Type ℓ} (m : Parser B) (f : List ℕ) (path : Text) (b : B)
    → ReadsEnd m f b
    → Reads (subreader (length f) path >>= λ part. on part m) f b
unfolding ◌>>=◌ subreader get_offset pure on reader
subreader-Reads m f path b h before rest base path' =
    rw (take-Reads f (length f) refl before rest base path', h [] _ path, on) refl
