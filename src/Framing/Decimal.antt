-- ===== src/Framing/Decimal.antt =====
-- A number that is printed and read back.
use gopls_lazy.Base.{
  ℕ, zero, suc, ◌+◌, ◌*◌, ◌/◌, ◌%◌, ◌-◌, ◌<◌, Bool, true, false, Str, some, [], ◌∷◌, ◌++◌, ◌≡◌,
  refl, arith, ◌∙◌, ap, ltb, ◌==◌, ◌&&◌, Bool-cases, inl, inr, subst,
}
use gopls_lazy.Framing.{digits, decimal, is_digit, read_digits, int_limit, scan_digits, scan_int}

unfoldable pub all_digits : Str → Bool
all_digits [] = true
all_digits (x ∷ xs) = is_digit x && all_digits xs

all_digits-append : (s t : Str) → all_digits (s ++ t) ≡ (all_digits s && all_digits t)
unfolding all_digits
all_digits-append [] t = refl
all_digits-append (x ∷ s) t = ground (arith, all_digits-append s t)

read_digits-concat :
    (acc : ℕ) (s : Str) (x : ℕ)
    → all_digits s ≡ true
    → is_digit x ≡ true
    → read_digits acc (s ++ x ∷ []) ≡ read_digits acc s * 10 + (x - b'0')
unfolding read_digits all_digits
read_digits-concat acc [] x h k = rw k refl
read_digits-concat acc (y ∷ s) x h k =
    ground (arith, read_digits-concat (acc * 10 + (y - b'0')) s x)

last_digit : (n : ℕ) → is_digit (b'0' + n % 10) ≡ true
unfolding is_digit
last_digit n = ground arith

-- Digits, printed with enough fuel.
digits_lem :
    (fuel n : ℕ)
    → n < fuel
    → (all_digits (digits fuel n) ≡ true) × (read_digits 0 (digits fuel n) ≡ n)
unfolding digits all_digits is_digit read_digits
digits_lem zero n h = elim h [ ]
digits_lem (suc fuel) n h = elim (Bool-cases (ltb n 10)) [
  | inl y ↦ rw y (ground arith, ground arith)
  | inr k ↦
      let smaller : n / 10 < fuel = ground arith in
      let (a, b) = digits_lem fuel (n / 10) smaller in
      let last : is_digit (b'0' + n % 10) ≡ true = last_digit n in
      rw k (
        rw (all_digits-append (digits fuel (n / 10)) ((b'0' + n % 10) ∷ []), a, last) refl,
        read_digits-concat 0 (digits fuel (n / 10)) (b'0' + n % 10) a last ∙ rw b (omega arith),
      )
]

append-cons : (s : Str) (x : ℕ) → (y : ℕ) × (t : Str) × (s ++ x ∷ [] ≡ y ∷ t)
append-cons [] x = (x, [], refl)
append-cons (y ∷ s) x = (y, s ++ x ∷ [], refl)

digits_cons : (fuel n : ℕ) → (x : ℕ) × (s : Str) × (digits (suc fuel) n ≡ x ∷ s)
unfolding digits
digits_cons fuel n = elim (Bool-cases (ltb n 10)) [
  | inl y ↦ rw y (b'0' + n, [], refl)
  | inr k ↦ rw k (append-cons (digits fuel (n / 10)) (b'0' + n % 10))
]

scan_int-digits :
    (x : ℕ) (s : Str)
    → all_digits (x ∷ s) ≡ true
    → read_digits 0 (x ∷ s) < int_limit
    → scan_int (x ∷ s) ≡ some (read_digits 0 (x ∷ s))
unfolding scan_int scan_digits all_digits is_digit
scan_int-digits x s h l =
    let plus : (x == b'+') ≡ false = ground arith in
    let minus : (x == b'-') ≡ false = ground arith in
    let fits : ltb (read_digits 0 (x ∷ s)) int_limit ≡ true = ground arith in
    let digit : is_digit x ≡ true = ground arith in rw (plus, minus, digit, fits) refl

-- A number that fits in an int is read back, and its digits are digits.
pub scan_int-decimal :
    (n : ℕ) → n < int_limit → (scan_int (decimal n) ≡ some n) × (all_digits (decimal n) ≡ true)
unfolding decimal
scan_int-decimal n h =
    let (x, s, e) = digits_cons n n in
    let (a, b) = digits_lem (n + 1) n (omega arith) in
    let shown : digits (n + 1) n ≡ x ∷ s = subst (λ k. digits k n ≡ x ∷ s) (omega arith) e in
    let a' : all_digits (x ∷ s) ≡ true = rw shown at a in
    let b' : read_digits 0 (x ∷ s) ≡ n = rw shown at b in
    (rw shown (scan_int-digits x s a' (rw b' h) ∙ ap some b'), a)
