-- ===== src/Binary/Failures.antt =====
-- binary.py: what a parser raises on input that goes wrong, and at which byte. `Fails m o f e` says
-- that `m`, at offset `o`, raises `e` once it has seen `f`, whatever follows.
use foxreq.Prelude.{
  ℕ, zero, suc, ◌+◌, ◌<◌, ◌≡◌, refl, subst, List, [], ◌++◌, lt→ltb, append-nil, append_assoc, arith,
}
use foxreq.Prelude.Lists.{length, length-append, join}
use foxreq.Prelude.Result.{err}
use foxreq.Prelude.Text.{Text}
use foxreq.Binary.{
  Fault, raised, Message, Parser, raise, ◌>>=◌, get_offset, get_remaining, offset, loop,
  while_remaining,
}
use foxreq.Binary.Reads.{between, Reads, Rounds, done, round, remaining-between}

abbrev pub Fails {ℓ} : {A : Type ℓ} → Parser A → ℕ → List ℕ → Fault → Type ℓ
Fails {A} m o f e =
    (before rest : List ℕ) (base : ℕ) (path : Text)
    → base + length before ≡ o
    → m (between before (f ++ rest) base path) ≡ err e

abbrev pub error : Message → ℕ → Text → Fault
error message at path = raised (record { message = message; offset = at; path = path })

module _ {ℓ κ} {A : Type ℓ} {B : Type κ} where
  pub bind-Fails :
      (m : Parser A) (k : A → Parser B) (o : ℕ) (f g : List ℕ) (a : A) (e : Fault)
      → Reads m f a
      → Fails (k a) (o + length f) g e
      → Fails (m >>= k) o (f ++ g) e
  unfolding ◌>>=◌
  bind-Fails m k o f g a e hm hk before rest base path h =
      rw (append_assoc f g rest, hm before (g ++ rest) base path)
        (hk (before ++ f) rest base path (omega (arith, length-append before f)))

  pub then-Fails :
      (m : Parser A) (k : A → Parser B) (o : ℕ) (f : List ℕ) (a : A) (e : Fault)
      → Reads m f a
      → Fails (k a) (o + length f) [] e
      → Fails (m >>= k) o f e
  then-Fails m k o f a e hm hk =
      subst (λ g. Fails (m >>= k) o g e) (append-nil f) (bind-Fails m k o f [] a e hm hk)

  -- The first part raises already.
  pub first-Fails :
      (m : Parser A) (k : A → Parser B) (o : ℕ) (f : List ℕ) (e : Fault)
      → Fails m o f e
      → Fails (m >>= k) o f e
  unfolding ◌>>=◌
  first-Fails m k o f e hm before rest base path h = rw (hm before rest base path h)

module _ {ℓ} {A : Type ℓ} where
  pub offset-Fails :
      (k : ℕ → Parser A) (o : ℕ) (f : List ℕ) (e : Fault)
      → Fails (k o) o f e
      → Fails (get_offset >>= k) o f e
  unfolding ◌>>=◌ get_offset offset
  offset-Fails k o f e hk before rest base path h = rw h (hk before rest base path h)

  pub raise-Fails :
      (m : Message) (at : ℕ) (path : Text) (o : ℕ) (f : List ℕ)
      → Fails (raise {A = A} m at path) o f (error m at path)
  unfolding raise
  raise-Fails m at path o f before rest base path' h = refl

module _ {ℓ} {S : Type ℓ} (body : S → Parser S) where
  loop-Fails :
      {s : S} {fs : List (List ℕ)} {t : S} (fuel : ℕ) (o : ℕ) (g : List ℕ) (e : Fault)
      → Rounds body s fs t
      → length (join fs) < fuel
      → 0 < length g
      → Fails (body t) (o + length (join fs)) g e
      → Fails (loop fuel body s) o (join fs ++ g) e
  unfolding loop
  loop-Fails zero o g e r h p hb before rest base path eq = absurd (omega arith)
  loop-Fails {s = s} (suc fuel) o g e done h p hb before rest base path eq = rw (
    remaining-between,
    lt→ltb 0 (length (g ++ rest)) (omega (arith, length-append g rest)),
    hb before rest base path (omega arith),
  )
  loop-Fails {s = s} (suc fuel) o g e (round {t = t} {u = u} f {fs} q b r) h p hb before rest base
        path eq =
      rw
        (
          append_assoc f (join fs) g,
          append_assoc f (join fs ++ g) rest,
          remaining-between,
          lt→ltb 0 (length (f ++ ((join fs ++ g) ++ rest)))
              (omega (arith, length-append f ((join fs ++ g) ++ rest))),
          b before ((join fs ++ g) ++ rest) base path,
        )
        (loop-Fails {s = t} fuel (o + length f) g e r (omega (arith, length-append f (join fs))) p
          (subst (λ n. Fails (body u) n g e) (omega (arith, length-append f (join fs))) hb)
          (before ++ f) rest base path (omega (arith, length-append before f)))

  -- The rounds before the one that raises are all made.
  pub while_remaining-Fails :
      {s : S} {fs : List (List ℕ)} {t : S} (o : ℕ) (g : List ℕ) (e : Fault)
      → Rounds body s fs t
      → 0 < length g
      → Fails (body t) (o + length (join fs)) g e
      → Fails (while_remaining body s) o (join fs ++ g) e
  unfolding while_remaining ◌>>=◌ get_remaining
  while_remaining-Fails {s = s} {fs} o g e r p hb before rest base path h = rw remaining-between (
      loop-Fails (length ((join fs ++ g) ++ rest)) o g e r
        (omega (arith, length-append (join fs ++ g) rest, length-append (join fs) g)) p hb before
        rest base path h)
