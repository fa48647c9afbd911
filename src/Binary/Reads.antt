-- ===== src/Binary/Reads.antt =====
-- binary.py: what a parser does on input that holds the bytes it expects. `Reads m f a` says that
-- `m` takes exactly `f` off the front, whatever follows, and returns `a`.
use foxreq.Prelude.{
  ℕ, zero, suc, ◌+◌, ◌≤◌, ◌<◌, ◌≡◌, refl, sym, ap, subst, ◌∙◌, List, [], ◌∷◌, ◌++◌, lt→ltb, le→ltb,
  append-nil, append_assoc, arith, pos,
}
use foxreq.Prelude.Lists
use foxreq.Prelude.Lists.{length, length-append, join}
use foxreq.Prelude.Result.{Result, ok}
use foxreq.Prelude.Text.{Text}
use foxreq.Binary.{
  Fault, Reader, Parser, reader, remaining, pure, ◌>>=◌, get_offset, get_remaining, take, finish,
  loop, while_remaining, on,
}

-- A reader that stands between `before` and `rest`.
abbrev pub between : List ℕ → List ℕ → ℕ → Text → Reader
between before rest base_offset path = record {
  bytes = before ++ rest;
  cursor = length before;
  base_offset = base_offset;
  path = path;
}

abbrev pub Reads {ℓ} : {A : Type ℓ} → Parser A → List ℕ → A → Type ℓ
Reads {A} m f a =
    (before rest : List ℕ) (base : ℕ) (path : Text)
    → m (between before (f ++ rest) base path) ≡ ok (a, between (before ++ f) rest base path)

-- The same where nothing follows.
abbrev pub ReadsEnd {ℓ} : {A : Type ℓ} → Parser A → List ℕ → A → Type ℓ
ReadsEnd {A} m f a =
    (before : List ℕ) (base : ℕ) (path : Text)
    → m (between before f base path) ≡ ok (a, between (before ++ f) [] base path)

between_nil :
    (before f rest : List ℕ) (base : ℕ) (path : Text)
    → between (before ++ f) rest base path ≡ record {
      bytes = before ++ (f ++ rest);
      cursor = length before + length f;
      base_offset = base;
      path = path;
    }
between_nil before f rest base path = rw (length-append, append_assoc)

pub remaining-between :
    (before rest : List ℕ) (base : ℕ) (path : Text)
    → remaining (between before rest base path) ≡ length rest
unfolding remaining
remaining-between before rest base path = omega (arith, length-append before rest)

pub take-Reads : (f : List ℕ) (size : ℕ) → length f ≡ size → Reads (take (pos size)) f f
unfolding take
take-Reads f size h before rest base path =
    rw (remaining-between, le→ltb (length (f ++ rest)) size (omega (arith, length-append f rest)))
      (rw (← h, Lists.drop-append, Lists.take-append, between_nil) refl)

pub between_assoc {ℓ} :
    {A : Type ℓ} (a : A) (x y z rest : List ℕ) (base : ℕ) (path : Text)
    → ◌≡◌ {A = Result Fault (A × Reader)}
        (ok (a, between ((x ++ y) ++ z) rest base path))
        (ok (a, between (x ++ (y ++ z)) rest base path))
between_assoc a x y z rest base path =
    ap (λ w. ok (a, between w rest base path)) (append_assoc x y z)

module _ {ℓ κ} {A : Type ℓ} {B : Type κ} where
  pub bind-Reads :
      (m : Parser A) (k : A → Parser B) (f g : List ℕ) (a : A) (b : B)
      → Reads m f a
      → Reads (k a) g b
      → Reads (m >>= k) (f ++ g) b
  unfolding ◌>>=◌
  bind-Reads m k f g a b hm hk before rest base path =
      rw (append_assoc f g rest, hm before (g ++ rest) base path)
        (hk (before ++ f) rest base path ∙ between_assoc b before f g rest base path)

  pub bind-ReadsEnd :
      (m : Parser A) (k : A → Parser B) (f g : List ℕ) (a : A) (b : B)
      → Reads m f a
      → ReadsEnd (k a) g b
      → ReadsEnd (m >>= k) (f ++ g) b
  unfolding ◌>>=◌
  bind-ReadsEnd m k f g a b hm hk before base path =
      rw (hm before g base path)
        (hk (before ++ f) base path ∙ between_assoc b before f g [] base path)

  -- What is computed from the value that was read.
  pub map-Reads :
      (m : Parser A) (h : A → B) (f : List ℕ) (a : A)
      → Reads m f a
      → Reads (m >>= λ x. pure (h x)) f (h a)
  unfolding ◌>>=◌ pure
  map-Reads m h f a hm before rest base path = rw (hm before rest base path)

  pub map-ReadsEnd :
      (m : Parser A) (h : A → B) (f : List ℕ) (a : A)
      → ReadsEnd m f a
      → ReadsEnd (m >>= λ x. pure (h x)) f (h a)
  unfolding ◌>>=◌ pure
  map-ReadsEnd m h f a hm before base path = rw (hm before base path)

  -- What follows takes no bytes.
  pub then-Reads :
      (m : Parser A) (k : A → Parser B) (f : List ℕ) (a : A) (b : B)
      → Reads m f a
      → Reads (k a) [] b
      → Reads (m >>= k) f b
  then-Reads m k f a b hm hk =
      subst (λ g. Reads (m >>= k) g b) (append-nil f) (bind-Reads m k f [] a b hm hk)

  -- A part that reads to the end, and then only looks at what is left.
  pub then-ReadsEnd :
      (m : Parser A) (k : A → Parser B) (f : List ℕ) (a : A) (b : B)
      → ReadsEnd m f a
      → ReadsEnd (k a) [] b
      → ReadsEnd (m >>= k) f b
  unfolding ◌>>=◌
  then-ReadsEnd m k f a b hm hk before base path =
      rw (hm before base path)
        (hk (before ++ f) base path ∙ ap (λ w. ok (b, between w [] base path)) (append-nil _))

module _ {ℓ} {A : Type ℓ} where
  pub pure-Reads : (a : A) → Reads (pure a) [] a
  unfolding pure
  pure-Reads a before rest base path =
      ap (λ w. ok (a, between w rest base path)) (sym (append-nil before))

  pub Reads-ReadsEnd : (m : Parser A) (f : List ℕ) (a : A) → Reads m f a → ReadsEnd m f a
  Reads-ReadsEnd m f a h before base path =
      ap (λ w. m (between before w base path)) (sym (append-nil f)) ∙ h before [] base path

  -- Another reader's run takes nothing from this one.
  pub on-Reads :
      (m : Parser A) (f : List ℕ) (base : ℕ) (path : Text) (a : A)
      → ReadsEnd m f a
      → Reads (on (reader f base path) m) [] a
  unfolding on reader
  on-Reads m f base path a hm before rest base' path' =
      rw (hm [] base path, on)
        (ap (λ w. ok (a, between w rest base' path')) (sym (append-nil before)))

  -- The offset only serves messages: the rest may do anything with it.
  pub offset-Reads :
      (k : ℕ → Parser A) (g : List ℕ) (b : A)
      → ((at : ℕ) → Reads (k at) g b)
      → Reads (get_offset >>= k) g b
  unfolding ◌>>=◌ get_offset
  offset-Reads k g b h before rest base path = h _ before rest base path

  pub offset-ReadsEnd :
      (k : ℕ → Parser A) (g : List ℕ) (b : A)
      → ((at : ℕ) → ReadsEnd (k at) g b)
      → ReadsEnd (get_offset >>= k) g b
  unfolding ◌>>=◌ get_offset
  offset-ReadsEnd k g b h before base path = h _ before base path

  pub remaining-ReadsEnd :
      (k : ℕ → Parser A) (g : List ℕ) (b : A)
      → ReadsEnd (k (length g)) g b
      → ReadsEnd (get_remaining >>= k) g b
  unfolding ◌>>=◌ get_remaining
  remaining-ReadsEnd k g b h before base path =
      rw (remaining-between before g base path) (h before base path)

pub finish-ReadsEnd : ReadsEnd finish [] tt
unfolding finish
finish-ReadsEnd before base path =
    rw remaining-between (ap (λ w. ok (tt, between w [] base path)) (sym (append-nil before)))

-- A round for each piece: it starts from one value of the loop's variables and ends in the next.
pub data Rounds {ℓ} {S : Type ℓ} (body : S → Parser S) : S → List (List ℕ) → S → Type ℓ where
  done : {s : S} → Rounds body s [] s
  round :
      {s t u : S} (f : List ℕ) {fs : List (List ℕ)}
      → 0 < length f
      → Reads (body s) f t
      → Rounds body t fs u
      → Rounds body s (f ∷ fs) u

module _ {ℓ} {S : Type ℓ} (body : S → Parser S) where
  loop-ReadsEnd :
      {s : S} {fs : List (List ℕ)} {u : S} (fuel : ℕ)
      → Rounds body s fs u
      → length (join fs) ≤ fuel
      → ReadsEnd (loop fuel body s) (join fs) u
  unfolding loop
  loop-ReadsEnd {s = s} zero done h before base path =
      rw remaining-between (ap (λ w. ok (s, between w [] base path)) (sym (append-nil before)))
  loop-ReadsEnd {s = s} (suc fuel) done h before base path =
      rw remaining-between (ap (λ w. ok (s, between w [] base path)) (sym (append-nil before)))
  loop-ReadsEnd zero (round f {fs} p b r) h before base path =
      absurd (omega (arith, length-append f (join fs)))
  loop-ReadsEnd {s = s} {u = u} (suc fuel) (round {t = t} f {fs} p b r) h before base path =
      let more : 0 < length (f ++ join fs) = omega (arith, length-append f (join fs)) in
      rw (remaining-between, lt→ltb _ _ more, b before (join fs) base path)
        (loop-ReadsEnd {s = t} fuel r (omega (arith, length-append f (join fs))) (before ++ f) base
            path
          ∙ between_assoc u before f (join fs) [] base path)

  pub while_remaining-ReadsEnd :
      {s : S} {fs : List (List ℕ)} {u : S}
      → Rounds body s fs u
      → ReadsEnd (while_remaining body s) (join fs) u
  unfolding while_remaining
  while_remaining-ReadsEnd {s = s} {fs} {u} r =
      remaining-ReadsEnd (λ size. loop size body s) (join fs) u
        (loop-ReadsEnd (length (join fs)) r (omega arith))
