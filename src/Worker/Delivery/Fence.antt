-- ===== src/Worker/Delivery/Fence.antt =====
-- apps/worker-control/src/service.ts: the fencing token in the key of an outbox event.
use touchmyapi.Common.{
  ℕ, ◌<◌, ◌≡◌, refl, ap, ◌∙◌, true, false, [], ◌∷◌, ◌++◌, none, some, arith, Text, codes, text_eq,
  all, is_digit, is_empty, cut_last, read_digits, print_number, print_digits, digit_code,
  digit_value, ltb, ◌/◌, ◌%◌, any, ◌==◌, ◌⊎◌, inl, inr, Bool-cases, zero, suc, ◌+◌, ◌*◌,
}
use touchmyapi.Js.{safe_bound}
use touchmyapi.Worker.Delivery.{job_fence, is_fence_kind}

cut_last-missing : (c : ℕ) (t : Text) → any (λ d. d == c) t ≡ false → cut_last c t ≡ none
unfolding cut_last
cut_last-missing c [] h = refl
cut_last-missing c (d ∷ t) h = ground (arith, cut_last-missing c t)

cut_last-append :
    (c : ℕ) (s t : Text) → any (λ d. d == c) t ≡ false → cut_last c (s ++ c ∷ t) ≡ some (s, t)
unfolding cut_last
cut_last-append c [] t h = ground (arith, cut_last-missing c t h)
cut_last-append c (d ∷ s) t h = ground (arith, cut_last-append c s t h)

-- Printing in base ten and reading.
digit-read : (n : ℕ) → n < 10 → digit_value (digit_code n) ≡ n
unfolding digit_value digit_code is_digit
digit-read n h = ground arith

digit-is : (n : ℕ) → n < 10 → is_digit (digit_code n) ≡ true
unfolding is_digit digit_code
digit-is n h = ground arith

print_digits-small :
    (fuel n : ℕ) (acc : Text)
    → ltb n 10 ≡ true
    → print_digits (suc fuel) 10 n acc ≡ digit_code n ∷ acc
unfolding print_digits
print_digits-small fuel n acc h = rw h refl

zero_add : (n : ℕ) → 0 + n ≡ n
zero_add n = omega arith

print_digits-read :
    (fuel n : ℕ) (acc : Text)
    → n < fuel
    → read_digits 10 0 (print_digits fuel 10 n acc) ≡ read_digits 10 n acc
unfolding print_digits read_digits
print_digits-read zero n acc h = absurd (omega arith)
print_digits-read (suc fuel) n acc h = elim (Bool-cases (ltb n 10)) [
  | inl small ↦
      ap (λ t. read_digits 10 0 t) (print_digits-small fuel n acc small)
      ∙ ap (λ m. read_digits 10 m acc)
          (zero_add (digit_value (digit_code n)) ∙ digit-read n (ground arith))
  | inr large ↦ rw large (
      print_digits-read fuel (n / 10) (digit_code (n % 10) ∷ acc) (ground arith)
      ∙ ap (λ m. read_digits 10 m acc)
          (ap (λ m. n / 10 * 10 + m) (digit-read (n % 10) (omega arith)) ∙ omega arith))
]

print_digits-all :
    (fuel n : ℕ) (acc : Text)
    → n < fuel
    → all is_digit acc ≡ true
    → (all is_digit (print_digits fuel 10 n acc) ≡ true)
      × (is_empty (print_digits fuel 10 n acc) ≡ false)
unfolding print_digits
print_digits-all zero n acc h k = absurd (omega arith)
print_digits-all (suc fuel) n acc h k = elim (Bool-cases (ltb n 10)) [
  | inl small ↦ rw small (ground (arith, digit-is n), refl)
  | inr large ↦ rw large (
      print_digits-all fuel (n / 10) (digit_code (n % 10) ∷ acc) (ground arith)
        (ground (arith, digit-is (n % 10) (omega arith))))
]

digits-free : (t : Text) → all is_digit t ≡ true → any (λ d. d == b':') t ≡ false
unfolding is_digit
digits-free [] h = refl
digits-free (c ∷ t) h = ground (arith, digits-free t)

printed-read : (n : ℕ) → read_digits 10 0 (print_number 10 n) ≡ n
unfolding print_number read_digits
printed-read n = print_digits-read (suc n) n [] (omega arith)

printed-all :
    (n : ℕ) → (all is_digit (print_number 10 n) ≡ true) × (is_empty (print_number 10 n) ≡ false)
unfolding print_number
printed-all n = print_digits-all (suc n) n [] (omega arith) refl

kind-free :
    (kind : Text)
    → (kind ≡ codes "delivery") ⊎ (kind ≡ codes "terminal")
    → (any (λ d. d == b':') kind ≡ false) × (is_fence_kind kind ≡ true)
unfolding text_eq
kind-free kind (inl e) = rw e (refl, refl)
kind-free kind (inr e) = rw e (refl, refl)

-- Both cuts of a key.
job_fence-cuts :
    (key before rest kind : Text) (token : ℕ)
    → token < safe_bound
    → cut_last b':' key ≡ some (before, print_number 10 token)
    → cut_last b':' before ≡ some (rest, kind)
    → is_fence_kind kind ≡ true
    → job_fence key ≡ some token
unfolding job_fence
job_fence-cuts key before rest kind token h e1 e2 k =
    ground (arith, e1, e2, printed-read token, printed-all token)

-- A key that ends in `:delivery:` or `:terminal:` and the decimal digits of a safe integer has that
-- integer as its fencing token.
pub job_fence-key :
    (rest kind : Text) (token : ℕ)
    → (kind ≡ codes "delivery") ⊎ (kind ≡ codes "terminal")
    → token < safe_bound
    → job_fence ((rest ++ b':' ∷ kind) ++ b':' ∷ print_number 10 token) ≡ some token
job_fence-key rest kind token k h =
    let (free, known) = kind-free kind k in
    job_fence-cuts _ (rest ++ b':' ∷ kind) rest kind token h
      (cut_last-append b':' (rest ++ b':' ∷ kind) (print_number 10 token)
        (digits-free (print_number 10 token) (printed-all token).0))
      (cut_last-append b':' rest kind free) known
