-- ===== src/Common/Lists.antt =====
-- Lists measured by native numbers, Boolean searches, and predicates on every element.
use Prim.Native.Nat.{ℕ, zero, suc, ◌+◌}
use mathlib.Core.Path.{◌≡◌, refl, sym, subst}
use mathlib.Core.Bool.{Bool, true, false, ◌&&◌, ◌||◌}
use mathlib.Core.Option.{Option, none, some}
use mathlib.Core.List.{List, [], ◌∷◌, ◌++◌, append_assoc}
use native.Mathlib.Omega.{arith}

module _ {ℓ} {A : Type ℓ} where
  abbrev pub length : List A → ℕ
  length [] = 0
  length (x ∷ xs) = suc (length xs)

  abbrev pub replicate : ℕ → A → List A
  replicate zero a = []
  replicate (suc n) a = a ∷ replicate n a

  abbrev pub get_elem? : List A → ℕ → Option A
  get_elem? [] i = none
  get_elem? (x ∷ xs) zero = some x
  get_elem? (x ∷ xs) (suc i) = get_elem? xs i

  -- What each element yields, in order.
  abbrev pub gather : {B : Type 0} → (A → List B) → List A → List B
  gather f [] = []
  gather f (x ∷ xs) = f x ++ gather f xs

  abbrev pub any : (A → Bool) → List A → Bool
  any p [] = false
  any p (x ∷ xs) = p x || any p xs

  abbrev pub all : (A → Bool) → List A → Bool
  all p [] = true
  all p (x ∷ xs) = p x && all p xs

  abbrev pub is_empty : List A → Bool
  is_empty [] = true
  is_empty (x ∷ xs) = false

  pub length-append : (xs ys : List A) → length (xs ++ ys) ≡ length xs + length ys
  length-append [] ys = omega arith
  length-append (x ∷ xs) ys = omega (arith, length-append xs ys)

  pub append-eq-nil : (xs ys : List A) → (xs ++ ys) ≡ [] → (xs ≡ []) × (ys ≡ [])
  append-eq-nil [] ys h = (refl, h)
  append-eq-nil (x ∷ xs) ys h = cc

module _ {ℓ κ} {A : Type ℓ} (P : A → Type κ) where
  abbrev pub All : List A → Type κ
  All [] = Unit
  All (x ∷ xs) = P x × All xs

  pub All-append : (xs ys : List A) → All xs → All ys → All (xs ++ ys)
  All-append [] ys h k = k
  All-append (x ∷ xs) ys (p, h) k = (p, All-append xs ys h k)

pub All-map {ℓ κ μ} :
    {A : Type ℓ} {P : A → Type κ} {Q : A → Type μ}
    → ((a : A) → P a → Q a)
    → (xs : List A) → All P xs
    → All Q xs
All-map f [] h = tt
All-map f (x ∷ xs) (p, h) = (f x p, All-map f xs h)

-- Membership as a family, which a proof can take apart.
pub data Elem {ℓ} {A : Type ℓ} (a : A) : List A → Type ℓ where
  here : {b : A} {xs : List A} → a ≡ b → Elem a (b ∷ xs)
  there : {b : A} {xs : List A} → Elem a xs → Elem a (b ∷ xs)

pub All-Elem {ℓ κ} :
    {A : Type ℓ} (P : A → Type κ) (xs : List A) → ((a : A) → Elem a xs → P a) → All P xs
All-Elem P [] h = tt
All-Elem P (x ∷ xs) h = (h x (here refl), All-Elem P xs (λ a m. h a (there m)))

pub Elem-All {ℓ κ} :
    {A : Type ℓ} (P : A → Type κ) (xs : List A) → All P xs → {a : A} → Elem a xs → P a
Elem-All P [] h m = elim m [ ]
Elem-All P (x ∷ xs) (p, h) (here e) = subst P (sym e) p
Elem-All P (x ∷ xs) (p, h) (there m) = Elem-All P xs h m

module _ {ℓ} {A : Type ℓ} (p : A → Bool) where
  any-Elem_cons :
      (x : A) (xs : List A)
      → (any p xs ≡ true → (a : A) × Elem a xs × (p a ≡ true))
      → (b : Bool) → p x ≡ b
      → (b || any p xs) ≡ true
      → (a : A) × Elem a (x ∷ xs) × (p a ≡ true)
  any-Elem_cons x xs ih true e h = (x, here refl, e)
  any-Elem_cons x xs ih false e h = let (a, m, q) = ih h in (a, there m, q)

  pub any-Elem : (xs : List A) → any p xs ≡ true → (a : A) × Elem a xs × (p a ≡ true)
  any-Elem [] h = cc
  any-Elem (x ∷ xs) h = any-Elem_cons x xs (any-Elem xs) (p x) refl h

  pub Elem-any : {a : A} (xs : List A) → Elem a xs → p a ≡ true → any p xs ≡ true
  Elem-any [] m h = elim m [ ]
  Elem-any (x ∷ xs) (here e) h = rw (← e, h)
  Elem-any (x ∷ xs) (there m) h = ground (arith, Elem-any xs m h)

  pub any-eq-false : (xs : List A) → any p xs ≡ false → All (λ a. p a ≡ false) xs
  any-eq-false [] h = tt
  any-eq-false (x ∷ xs) h = ground (arith, any-eq-false xs)

  pub any-append : (xs ys : List A) → any p (xs ++ ys) ≡ (any p xs || any p ys)
  any-append [] ys = refl
  any-append (x ∷ xs) ys = ground (arith, any-append xs ys)

  pub all-eq-true : (xs : List A) → all p xs ≡ true → All (λ a. p a ≡ true) xs
  all-eq-true [] h = tt
  all-eq-true (x ∷ xs) h = ground (arith, all-eq-true xs)

module _ {ℓ} {A : Type ℓ} {B : Type 0} (f : A → List B) where
  pub gather-append : (xs ys : List A) → gather f (xs ++ ys) ≡ (gather f xs ++ gather f ys)
  gather-append [] ys = refl
  gather-append (x ∷ xs) ys =
      rw (gather-append xs ys, append_assoc (f x) (gather f xs) (gather f ys)) refl
