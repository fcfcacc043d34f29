-- ===== src/Common/Lists.antt =====
-- Lists over the native numbers, and tables as lists of rows: search, update and counting.
use Prim.Native.Nat.{ℕ, zero, suc, ◌+◌}
use mathlib.Core.Path.{◌≡◌, refl, ap}
use mathlib.Core.Bool.{Bool, true, false, ◌&&◌, ◌||◌}
use mathlib.Core.Logic.{inl, inr}
use mathlib.Core.List.{List, [], ◌∷◌, ◌++◌}
use mathlib.Core.Option.{Option, none, some}
use native.Mathlib.Omega.{arith}
use forum_relay.Common.Tests.{if◌then◌else◌, Bool-cases}

module _ {ℓ} {A : Type ℓ} where
  abbrev pub length : List A → ℕ
  length [] = 0
  length (x ∷ xs) = suc (length xs)

  abbrev pub take : ℕ → List A → List A
  take zero xs = []
  take (suc n) [] = []
  take (suc n) (x ∷ xs) = x ∷ take n xs

  abbrev pub get_elem? : List A → ℕ → Option A
  get_elem? [] i = none
  get_elem? (x ∷ xs) zero = some x
  get_elem? (x ∷ xs) (suc i) = get_elem? xs i

  -- `xs.some(p)`, and SQL's EXISTS over the rows of a table.
  abbrev pub any : (A → Bool) → List A → Bool
  any p [] = false
  any p (x ∷ xs) = p x || any p xs

  abbrev pub all : (A → Bool) → List A → Bool
  all p [] = true
  all p (x ∷ xs) = p x && all p xs

  -- `xs.filter(p)`
  abbrev pub keep : (A → Bool) → List A → List A
  keep p [] = []
  keep p (x ∷ xs) = if p x then x ∷ keep p xs else keep p xs

  -- `xs.find(p)`, and the first row of a SELECT.
  abbrev pub find : (A → Bool) → List A → Option A
  find p [] = none
  find p (x ∷ xs) = if p x then some x else find p xs

  -- `UPDATE … SET f WHERE p`: each row that passes the test is rewritten in place.
  abbrev pub update_where : (A → Bool) → (A → A) → List A → List A
  update_where p f [] = []
  update_where p f (x ∷ xs) = (if p x then f x else x) ∷ update_where p f xs

  -- The number of rows that such an update affects.
  abbrev pub count_where : (A → Bool) → List A → ℕ
  count_where p [] = 0
  count_where p (x ∷ xs) = (if p x then 1 else 0) + count_where p xs

  abbrev pub All {κ} : (A → Type κ) → List A → Type κ
  All P [] = Unit
  All P (x ∷ xs) = P x × All P xs

  -- Of each row and each later row of the table, in that order.
  abbrev pub Ordered {κ} : (A → A → Type κ) → List A → Type κ
  Ordered R [] = Unit
  Ordered R (x ∷ xs) = All (R x) xs × Ordered R xs

  pub length-append : (xs ys : List A) → length (xs ++ ys) ≡ length xs + length ys
  length-append [] ys = omega arith
  length-append (x ∷ xs) ys = omega (arith, length-append xs ys)

  pub length-update_where :
      (p : A → Bool) (f : A → A) (xs : List A) → length (update_where p f xs) ≡ length xs
  length-update_where p f [] = refl
  length-update_where p f (x ∷ xs) = ap suc (length-update_where p f xs)

  pub update_where_none :
      (p : A → Bool) (f : A → A) (xs : List A) → count_where p xs ≡ 0 → update_where p f xs ≡ xs
  update_where_none p f [] h = refl
  update_where_none p f (x ∷ xs) h = ground (arith, update_where_none p f xs)

  pub All-append {κ} : (P : A → Type κ) (xs ys : List A) → All P xs → All P ys → All P (xs ++ ys)
  All-append P [] ys h k = k
  All-append P (x ∷ xs) ys h k = (h.0, All-append P xs ys h.1 k)

  pub All-append_left {κ} : (P : A → Type κ) (xs ys : List A) → All P (xs ++ ys) → All P xs
  All-append_left P [] ys h = tt
  All-append_left P (x ∷ xs) ys h = (h.0, All-append_left P xs ys h.1)

  pub All-append_right {κ} : (P : A → Type κ) (xs ys : List A) → All P (xs ++ ys) → All P ys
  All-append_right P [] ys h = h
  All-append_right P (x ∷ xs) ys h = All-append_right P xs ys h.1

  pub All-map {κ μ} :
      (P : A → Type κ) (Q : A → Type μ)
      → ((a : A) → P a → Q a)
      → (xs : List A) → All P xs
      → All Q xs
  All-map P Q f [] h = tt
  All-map P Q f (x ∷ xs) h = (f x h.0, All-map P Q f xs h.1)

  pub All-update_where {κ} :
      (P : A → Type κ) (p : A → Bool) (f : A → A)
      → ((a : A) → p a ≡ true → P a → P (f a))
      → (xs : List A) → All P xs
      → All P (update_where p f xs)
  All-update_where P p f keeps [] h = tt
  All-update_where P p f keeps (x ∷ xs) h = (here, All-update_where P p f keeps xs h.1)
    where
      here : P (if p x then f x else x)
      here = elim (Bool-cases (p x)) [ inl e ↦ rw e (keeps x e h.0) | inr e ↦ rw e h.0 ]

  pub Ordered-append_one {κ} :
      (R : A → A → Type κ) (xs : List A) (y : A)
      → Ordered R xs
      → All (λ x. R x y) xs
      → Ordered R (xs ++ y ∷ [])
  Ordered-append_one R [] y h k = (tt, tt)
  Ordered-append_one R (x ∷ xs) y h k =
      (All-append (R x) xs (y ∷ []) h.0 (k.0, tt), Ordered-append_one R xs y h.1 k.1)

  pub find_sound : (p : A → Bool) (xs : List A) (a : A) → find p xs ≡ some a → p a ≡ true
  find_sound p [] a h = cc
  find_sound p (x ∷ xs) a h = ground (arith, find_sound p xs a)

  pub not-any→All : (p : A → Bool) (xs : List A) → any p xs ≡ false → All (λ x. p x ≡ false) xs
  not-any→All p [] h = tt
  not-any→All p (x ∷ xs) h = ground (arith, not-any→All p xs)

  -- Each pair of rows stays related when the update keeps pairs related.
  pub Ordered-update_where {κ} :
      (R : A → A → Type κ) (p : A → Bool) (f : A → A)
      → ((x y : A) → R x y → R (if p x then f x else x) (if p y then f y else y))
      → (xs : List A) → Ordered R xs
      → Ordered R (update_where p f xs)
  Ordered-update_where R p f keeps [] h = tt
  Ordered-update_where R p f keeps (x ∷ xs) h =
      (later xs h.0, Ordered-update_where R p f keeps xs h.1)
    where
      later : (ys : List A) → All (R x) ys → All (R (if p x then f x else x)) (update_where p f ys)
      later [] k = tt
      later (y ∷ ys) k = (keeps x y k.0, later ys k.1)

  -- Row `r` of the table gives place to `r'`.
  pub Ordered-replace {κ} :
      (R : A → A → Type κ) (xs : List A) (r r' : A) (ys : List A)
      → Ordered R (xs ++ r ∷ ys)
      → All (λ x. R x r') xs
      → All (R r') ys
      → Ordered R (xs ++ r' ∷ ys)
  Ordered-replace R [] r r' ys h k l = (l, h.1)
  Ordered-replace R (x ∷ xs) r r' ys h k l = (
    All-append (R x) xs (r' ∷ ys) (All-append_left (R x) xs (r ∷ ys) h.0)
        (k.0, (All-append_right (R x) xs (r ∷ ys) h.0).1),
    Ordered-replace R xs r r' ys h.1 k.1 l,
  )

  -- What a row of the table has to do with those before it, and with those after it.
  pub Ordered-before {κ} :
      (R : A → A → Type κ) (xs : List A) (r : A) (ys : List A)
      → Ordered R (xs ++ r ∷ ys)
      → All (λ x. R x r) xs
  Ordered-before R [] r ys h = tt
  Ordered-before R (x ∷ xs) r ys h =
      ((All-append_right (R x) xs (r ∷ ys) h.0).0, Ordered-before R xs r ys h.1)

  pub Ordered-after {κ} :
      (R : A → A → Type κ) (xs : List A) (r : A) (ys : List A)
      → Ordered R (xs ++ r ∷ ys)
      → All (R r) ys
  Ordered-after R [] r ys h = h.0
  Ordered-after R (x ∷ xs) r ys h = Ordered-after R xs r ys h.1

  pub any-append : (p : A → Bool) (xs ys : List A) → any p (xs ++ ys) ≡ (any p xs || any p ys)
  any-append p [] ys = refl
  any-append p (x ∷ xs) ys = ground (arith, any-append p xs ys)

  -- An update that keeps the test's answer for a row, when it was true, keeps a row that passes.
  pub any-update_where :
      (q p : A → Bool) (f : A → A)
      → ((x : A) → p x ≡ true → q x ≡ true → q (f x) ≡ true)
      → (xs : List A) → any q xs ≡ true
      → any q (update_where p f xs) ≡ true
  any-update_where q p f keeps [] h = h
  any-update_where q p f keeps (x ∷ xs) h = ground (arith, keeps x, any-update_where q p f keeps xs)
