-- ===== src/Headers/Valid.antt =====
-- _headers.py: what the constructor accepts.
use foxreq.Prelude.{
  ◌≡◌, ◌≢◌, ◌↔◌, refl, sym, ap, ◌∙◌, List, [], ◌∷◌, ◌++◌, map, false, arith, append_assoc,
  append-nil,
}
use foxreq.Prelude.Lists.{All}
use foxreq.Prelude.Result.{ok, bind-eq-ok}
use foxreq.Prelude.Text.{Text}
use foxreq.Headers.{
  Headers, Item, str, other, pair, text_like, not_pair, has_control, check_pair, check_item,
  normalize_items, new_headers,
}

-- No carriage return, line feed or NUL.
abbrev pub IsPlain : Text → Type 0
IsPlain = All λ c. (13 ≢ c) × (10 ≢ c) × (0 ≢ c)

abbrev pub IsHeader : Text × Text → Type 0
IsHeader (name, value) = (name ≢ []) × IsPlain name × IsPlain value

abbrev pub item_of : Text × Text → Item
item_of (name, value) = pair (str name) (str value)

has_control-IsPlain : (t : Text) → (has_control t ≡ false) ↔ IsPlain t
has_control-IsPlain [] = (λ h. tt, λ h. refl)
has_control-IsPlain (c ∷ cs) = (
  λ h. (ground arith, (has_control-IsPlain cs).0 (ground arith)),
  λ h. let rest : has_control cs ≡ false = (has_control-IsPlain cs).1 h.1 in ground arith,
)

check_pair_ok :
    (name value : Text) → IsHeader (name, value) → check_pair name value ≡ ok (name, value)
unfolding check_pair
check_pair_ok [] value h = absurd (h.0 refl)
check_pair_ok (c ∷ cs) value h =
    rw ((has_control-IsPlain (c ∷ cs)).1 h.1, (has_control-IsPlain value).1 h.2) refl

check_pair_inv :
    (name value : Text) (r : Text × Text)
    → check_pair name value ≡ ok r
    → (r ≡ (name, value)) × IsHeader (name, value)
unfolding check_pair
check_pair_inv [] value r e = absurd (cc)
check_pair_inv (c ∷ cs) value r e =
    let name_plain : has_control (c ∷ cs) ≡ false = ground arith in
    let value_plain : has_control value ≡ false = ground arith in
    (
      ground arith,
      (
        (λ h. cc),
        (has_control-IsPlain (c ∷ cs)).0 name_plain,
        (has_control-IsPlain value).0 value_plain,
      ),
    )

check_item_inv :
    (item : Item) (r : Text × Text) → check_item item ≡ ok r → (item ≡ item_of r) × IsHeader r
unfolding check_item
check_item_inv (pair (str name) (str value)) r e =
    let (same, valid) = check_pair_inv name value r e in (rw same refl, rw same valid)
check_item_inv (pair (str name) other) r e = absurd (cc)
check_item_inv (pair other _) r e = absurd (cc)
check_item_inv text_like r e = absurd (cc)
check_item_inv not_pair r e = absurd (cc)

normalize_items_ok :
    (acc hs : List (Text × Text))
    → All IsHeader hs
    → normalize_items acc (map item_of hs) ≡ ok (acc ++ hs)
unfolding normalize_items check_item
normalize_items_ok acc [] h = ap ok (sym (append-nil acc))
normalize_items_ok acc ((name, value) ∷ hs) h = rw (check_pair_ok name value h.0) (
    normalize_items_ok (acc ++ ((name, value) ∷ [])) hs h.1
    ∙ ap ok (append_assoc acc ((name, value) ∷ []) hs))

abbrev Accepted : List (Text × Text) → List Item → List (Text × Text) → Type 0
Accepted acc items result =
    (hs : List (Text × Text)) × (result ≡ acc ++ hs) × (items ≡ map item_of hs) × All IsHeader hs

normalize_items-Accepted :
    (acc : List (Text × Text)) (items : List Item) (result : List (Text × Text))
    → normalize_items acc items ≡ ok result
    → Accepted acc items result
unfolding normalize_items
normalize_items-Accepted acc [] result e = ([], ground (arith, append-nil acc), refl, tt)
normalize_items-Accepted acc (item ∷ items) result e =
    let (r, p, q) = bind-eq-ok (check_item item) _ result e in
    let (hs, a, b, c) = normalize_items-Accepted (acc ++ (r ∷ [])) items result q in
    let (same, valid) = check_item_inv item r p in
    (r ∷ hs, a ∙ append_assoc acc (r ∷ []) hs, cc, (valid, c))

-- The constructor succeeds exactly on pairs of strings with a name that is not empty and no carriage
-- return, line feed or NUL in name or value, and then keeps them all, duplicates too, in their order.
pub new_headers_iff :
    (items : List Item) (headers : Headers)
    → (new_headers items ≡ ok headers)
      ↔ ((items ≡ map item_of headers.items) × All IsHeader headers.items)
unfolding new_headers
new_headers_iff items headers = (
  λ e.
      let (hs, a, b, c) = normalize_items-Accepted [] items headers.items (ground arith) in
      (rw a b, rw a c),
  λ (same, valid). rw (same, normalize_items_ok [] headers.items valid) refl,
)
