-- ===== src/Binary/Halts.antt =====
-- binary.py: no loop of the model runs out of rounds, since each round takes a byte at least.
use foxreq.Prelude.{
  ℕ, zero, suc, ◌+◌, ◌≤◌, ◌≡◌, ◌≢◌, refl, ◌∙◌, ltb, le→ltb, arith, pos, Bool-cases, inl, inr,
}
use foxreq.Prelude.Bytes.{from_big}
use foxreq.Prelude.Result.{Result, ok, err}
use foxreq.Prelude.Text.{Text}
use foxreq.Binary.{
  Fault, out_of_fuel, Message, Reader, Parser, reader, remaining, pure, raise, ◌>>=◌, get_offset,
  get_remaining, take, u8, u16, u24, uint, vector_u8, vector_u16, subreader, finish, first, loop,
  while_remaining, on, continue,
}
use foxreq.Binary.Consumes.{bind-eq-ok}

abbrev pub Halts {ℓ} : {A : Type ℓ} → Parser A → Type ℓ
Halts m = (r : Reader) → m r ≢ err out_of_fuel

-- A successful run takes `n` bytes at least.
abbrev pub Takes {ℓ} : {A : Type ℓ} → ℕ → Parser A → Type ℓ
Takes {A} n m = (r r' : Reader) (a : A) → m r ≡ ok (a, r') → remaining r' + n ≤ remaining r

module _ {ℓ} {A : Type ℓ} where
  pub pure-Halts : (a : A) → Halts (pure a)
  unfolding pure
  pure-Halts a r h = cc

  pub raise-Halts : (m : Message) (at : ℕ) (path : Text) → Halts (raise {A = A} m at path)
  unfolding raise
  raise-Halts m at path r h = ground arith

  pub pure-Takes : (a : A) → Takes 0 (pure a)
  unfolding pure
  pure-Takes a r r' b h = ground arith

  pub raise-Takes : (n : ℕ) (m : Message) (at : ℕ) (path : Text) → Takes n (raise {A = A} m at path)
  unfolding raise
  raise-Takes n m at path r r' b h = cc

module _ {ℓ κ} {A : Type ℓ} {B : Type κ} where
  pub bind-Halts :
      (m : Parser A) (k : A → Parser B) → Halts m → ((a : A) → Halts (k a)) → Halts (m >>= k)
  unfolding ◌>>=◌
  bind-Halts m k hm hk r = go (m r) refl
    where
      go : (o : Result Fault (A × Reader)) → m r ≡ o → continue o k ≢ err out_of_fuel
      go (ok (a, r')) e h = hk a r' h
      go (err x) e h = hm r (e ∙ cc)

  pub bind-Takes :
      (m : Parser A) (k : A → Parser B) (i j : ℕ)
      → Takes i m
      → ((a : A) → Takes j (k a))
      → Takes (i + j) (m >>= k)
  bind-Takes m k i j hm hk r r'' b h =
      let (a, r', e, e') = bind-eq-ok m k r r'' b h in omega (arith, hm r r' a e, hk a r' r'' b e')

pub on-Halts {ℓ} : {A : Type ℓ} (other : Reader) (m : Parser A) → Halts m → Halts (on other m)
unfolding on
on-Halts {A} other m hm r = go (m other) refl
  where
    go :
        (o : Result Fault (A × Reader))
        → m other ≡ o
        → continue o (λ a r'. ok (a, r)) ≢ err out_of_fuel
    go (ok (a, r')) e h = cc
    go (err x) e h = hm other (e ∙ cc)

-- A parser that takes `n` bytes at least makes progress.
pub progress {ℓ} : {A : Type ℓ} (m : Parser A) (n : ℕ) → Takes (suc n) m → Takes 1 m
progress m n h r r' a e = omega (arith, h r r' a e)

pub weaken {ℓ} : {A : Type ℓ} (m : Parser A) (n : ℕ) → Takes n m → Takes 0 m
weaken m n h r r' a e = omega (arith, h r r' a e)

pub take-Halts : (size : ℕ) → Halts (take (pos size))
unfolding take raise
take-Halts size r h = ground arith

pub take-Takes : (size : ℕ) → Takes size (take (pos size))
unfolding take raise remaining
take-Takes size r r' a h = ground arith

pub get_offset-Halts : Halts get_offset
unfolding get_offset
get_offset-Halts r h = cc

pub get_offset-Takes : Takes 0 get_offset
unfolding get_offset
get_offset-Takes r r' a h = ground arith

pub finish-Halts : Halts finish
unfolding finish raise
finish-Halts r h = ground arith

pub uint-Halts : (size : ℕ) → Halts (uint size)
unfolding uint
uint-Halts size =
    bind-Halts (take (pos size)) _ (take-Halts size) (λ bytes. pure-Halts (from_big bytes))

pub uint-Takes : (size : ℕ) → Takes size (uint size)
unfolding uint
uint-Takes size r r' a h = omega (
  arith,
  bind-Takes (take (pos size)) (λ bytes. pure (from_big bytes)) size 0 (take-Takes size)
      (λ bytes. pure-Takes (from_big bytes)) r r' a h,
)

pub u8-Halts : Halts u8
unfolding u8
u8-Halts = bind-Halts (take (pos 1)) _ (take-Halts 1) (λ bytes. pure-Halts (first bytes))

pub u8-Takes : Takes 1 u8
unfolding u8
u8-Takes = bind-Takes (take (pos 1)) _ 1 0 (take-Takes 1) (λ bytes. pure-Takes (first bytes))

pub u16-Halts : Halts u16
unfolding u16
u16-Halts = uint-Halts 2

pub u16-Takes : Takes 2 u16
unfolding u16
u16-Takes = uint-Takes 2

pub u24-Halts : Halts u24
unfolding u24
u24-Halts = uint-Halts 3

pub u24-Takes : Takes 3 u24
unfolding u24
u24-Takes = uint-Takes 3

pub vector_u8-Halts : Halts vector_u8
unfolding vector_u8
vector_u8-Halts = bind-Halts u8 _ u8-Halts take-Halts

pub vector_u8-Takes : Takes 1 vector_u8
unfolding vector_u8
vector_u8-Takes =
    bind-Takes u8 (λ size. take (pos size)) 1 0 u8-Takes
      (λ size. weaken (take (pos size)) size (take-Takes size))

pub vector_u16-Halts : Halts vector_u16
unfolding vector_u16
vector_u16-Halts = bind-Halts u16 _ u16-Halts take-Halts

pub vector_u16-Takes : Takes 2 vector_u16
unfolding vector_u16
vector_u16-Takes =
    bind-Takes u16 (λ size. take (pos size)) 2 0 u16-Takes
      (λ size. weaken (take (pos size)) size (take-Takes size))

pub subreader-Halts : (size : ℕ) (path : Text) → Halts (subreader size path)
unfolding subreader
subreader-Halts size path = bind-Halts get_offset _ get_offset-Halts λ start.
    bind-Halts (take (pos size)) _ (take-Halts size) λ bytes. pure-Halts (reader bytes start path)

pub get_remaining-Halts : Halts get_remaining
unfolding get_remaining
get_remaining-Halts r h = cc

module _ {ℓ} {S : Type ℓ} (body : S → Parser S) (halts : (s : S) → Halts (body s))
    (takes : (s : S) → Takes 1 (body s)) where
  loop-Halts :
      (fuel : ℕ) (s : S) (r : Reader) → remaining r ≤ fuel → loop fuel body s r ≢ err out_of_fuel
  unfolding loop
  loop-Halts zero s r h = rw (le→ltb 0 (remaining r) h) (λ e. cc)
  loop-Halts (suc fuel) s r h = elim (Bool-cases (ltb 0 (remaining r))) [
    | inl more ↦ rw more (go (loop-Halts fuel) (body s r) refl)
    | inr over ↦ rw over (λ e. cc)
  ]
    where
      go :
          ((t : S) (r' : Reader) → remaining r' ≤ fuel → loop fuel body t r' ≢ err out_of_fuel)
          → (o : Result Fault (S × Reader)) → body s r ≡ o
          → continue o (loop fuel body) ≢ err out_of_fuel
      go ih (ok (t, r')) e h' = ih t r' (omega (arith, takes s r r' t e)) h'
      go ih (err x) e h' = halts s r (e ∙ h')

  -- The rounds that the loop is given are enough.
  pub while_remaining-Halts : (s : S) → Halts (while_remaining body s)
  unfolding while_remaining ◌>>=◌ get_remaining
  while_remaining-Halts s r = loop-Halts (remaining r) s r (omega arith)
