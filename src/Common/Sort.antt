-- ===== src/Common/Sort.antt =====
-- `Array.prototype.sort` with a comparator: a stable sort. `le x y` is `compare(x, y) <= 0`.
use mathlib.Core.Path.{◌≡◌, refl, sym, subst, ◌∙◌}
use mathlib.Core.Logic.{◌⊎◌, inl, inr}
use mathlib.Core.Bool.{Bool, true, false, false≢true}
use mathlib.Core.Option.{Option, none, some}
use mathlib.Core.List.{List, [], ◌∷◌}
use native.Mathlib.Omega.{arith}
use touchmyapi.Common.Tests.{if◌then◌else◌, Bool-cases}
use touchmyapi.Common.Lists.{All, All-map, Elem, here, there}

module _ {ℓ} {A : Type ℓ} where
  -- `array.find(test) ?? null`
  unfoldable pub find : (A → Bool) → List A → Option A
  find test [] = none
  find test (x ∷ xs) = let later = find test xs in if test x then some x else later

  pub find-Elem :
      (test : A → Bool) (xs : List A) (a : A) → find test xs ≡ some a → Elem a xs × (test a ≡ true)
  unfolding find
  find-Elem test [] a h = cc
  find-Elem test (x ∷ xs) a h = elim (Bool-cases (test x)) [
    | inl yes_x ↦ let same : a ≡ x = ground arith in (here same, rw (same, yes_x) refl)
    | inr no_x ↦ let (m, t) = find-Elem test xs a (ground arith) in (there m, t)
  ]

  pub find-none :
      (test : A → Bool) (xs : List A) → find test xs ≡ none → All (λ a. test a ≡ false) xs
  unfolding find
  find-none test [] h = tt
  find-none test (x ∷ xs) h = elim (Bool-cases (test x)) [
    | inl yes_x ↦ ground arith
    | inr no_x ↦ (no_x, find-none test xs (ground arith))
  ]

module _ {ℓ} {A : Type ℓ} (le : A → A → Bool) where
  unfoldable pub insert : A → List A → List A
  insert x [] = x ∷ []
  insert x (y ∷ ys) = let later = insert x ys in if le x y then x ∷ y ∷ ys else y ∷ later

  unfoldable pub sort : List A → List A
  unfolding insert
  sort [] = []
  sort (x ∷ xs) = insert x (sort xs)

  -- What stands further on is not strictly before.
  abbrev pub IsSorted : List A → Type ℓ
  IsSorted [] = Unit
  IsSorted (x ∷ xs) = All (λ y. le x y ≡ true) xs × IsSorted xs

  insert-cons :
      (x y : A) (ys : List A)
      → ((le x y ≡ true) × (insert x (y ∷ ys) ≡ x ∷ y ∷ ys))
        ⊎ ((le x y ≡ false) × (insert x (y ∷ ys) ≡ y ∷ insert x ys))
  unfolding insert
  insert-cons x y ys = elim (Bool-cases (le x y)) [
    | inl first ↦ inl (first, rw first refl)
    | inr later ↦ inr (later, rw later refl)
  ]

  All-insert {κ} : (P : A → Type κ) (x : A) (xs : List A) → P x → All P xs → All P (insert x xs)
  unfolding insert
  All-insert P x [] p h = (p, tt)
  All-insert P x (y ∷ ys) p (q, h) = elim (insert-cons x y ys) [
    | inl (first, e) ↦ subst (All P) (sym e) (p, (q, h))
    | inr (later, e) ↦ subst (All P) (sym e) (q, All-insert P x ys p h)
  ]

  insert-All {κ} : (P : A → Type κ) (x : A) (xs : List A) → All P (insert x xs) → P x × All P xs
  unfolding insert
  insert-All P x [] h = h
  insert-All P x (y ∷ ys) h = elim (insert-cons x y ys) [
    | inl (first, e) ↦ subst (All P) e h
    | inr (later, e) ↦
        let (q, h') = subst (All P) e h in let (p, r) = insert-All P x ys h' in (p, (q, r))
  ]

  -- Whatever holds of all elements holds of all sorted ones, and conversely.
  pub All-sort {κ} : (P : A → Type κ) (xs : List A) → All P xs → All P (sort xs)
  unfolding sort
  All-sort P [] h = tt
  All-sort P (x ∷ xs) (p, h) = All-insert P x (sort xs) p (All-sort P xs h)

  pub sort-All {κ} : (P : A → Type κ) (xs : List A) → All P (sort xs) → All P xs
  unfolding sort
  sort-All P [] h = tt
  sort-All P (x ∷ xs) h = let (p, r) = insert-All P x (sort xs) h in (p, sort-All P xs r)

  -- The comparator is consistent: of two elements one is not behind the other, and transitively so.
  pub record IsConsistent : Type ℓ where
    pub total : (x y : A) → le x y ≡ false → le y x ≡ true
    pub transitive : (x y z : A) → le x y ≡ true → le y z ≡ true → le x z ≡ true

  module _ (consistent : IsConsistent) where
    insert-IsSorted : (x : A) (xs : List A) → IsSorted xs → IsSorted (insert x xs)
    unfolding insert
    insert-IsSorted x [] h = (tt, tt)
    insert-IsSorted x (y ∷ ys) (b, h) = elim (insert-cons x y ys) [
      | inl (first, e) ↦
          let beyond = All-map (λ z. consistent.transitive x y z first) ys b in
          subst IsSorted (sym e) ((first, beyond), (b, h))
      | inr (later, e) ↦ subst IsSorted (sym e) (
        All-insert (λ z. le y z ≡ true) x ys (consistent.total x y later) b,
        insert-IsSorted x ys h,
      )
    ]

    pub sort-IsSorted : (xs : List A) → IsSorted (sort xs)
    unfolding sort
    sort-IsSorted [] = tt
    sort-IsSorted (x ∷ xs) = insert-IsSorted x (sort xs) (sort-IsSorted xs)

    reflexive : (a : A) → le a a ≡ true
    reflexive a = elim (Bool-cases (le a a)) [
      | inl yes_a ↦ yes_a
      | inr no_a ↦ consistent.total a a no_a
    ]

    -- The first element that passes a test is not behind any other that passes it.
    pub find-first :
        (test : A → Bool) (xs : List A) (a : A)
        → IsSorted xs
        → find test xs ≡ some a
        → All (λ b. test b ≡ true → le a b ≡ true) xs
    unfolding find
    find-first test [] a sorted h = tt
    find-first test (x ∷ xs) a (b, sorted) h = elim (Bool-cases (test x)) [
      | inl passes ↦
          let same : x ≡ a = ground arith in
          let self : le a a ≡ true = reflexive a in
          (λ _. rw same self, All-map (λ z e _. subst (λ w. le w z ≡ true) same e) xs b)
      | inr fails ↦
          (λ t. absurd (false≢true (sym fails ∙ t)), find-first test xs a sorted (ground arith))
    ]
