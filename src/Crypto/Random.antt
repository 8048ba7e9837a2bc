-- ===== src/Crypto/Random.antt =====
-- `timingSafeEqual` of packages/crypto/src/random.ts. The bytes are numbers below 256, on which `|`
-- and `^` of 32-bit integers are those of numbers.
use Prim.Native.Nat.{bit_or, bit_xor, bit_or-bitwise, bit_xor-bitwise, digits, differ, max}
use remotetab.Prelude.{
  ℕ, zero, suc, ◌/◌, ◌%◌, ◌≤◌, ◌≡◌, refl, sym, ap, ◌∙◌, ◌↔◌, Bool, true, false, not, List, [], ◌∷◌,
  arith, length, ◌==◌, if◌then◌else◌,
}

-- The loop: `diff |= (a[i] ?? 0) ^ (b[i] ?? 0)` for each place of `a`.
unfoldable pub diff_from : ℕ → List ℕ → List ℕ → ℕ
diff_from diff [] b = diff
diff_from diff (x ∷ a) [] = diff_from (bit_or diff (bit_xor x 0)) a []
diff_from diff (x ∷ a) (y ∷ b) = diff_from (bit_or diff (bit_xor x y)) a b

-- `timingSafeEqual(a, b)`.
unfoldable pub timing_safe_equal : List ℕ → List ℕ → Bool
unfolding diff_from
timing_safe_equal a b = if not (length a == length b) then false else diff_from 0 a b == 0

differ-eq : (x y : ℕ) → differ x y ≡ 0 → x ≡ y
differ-eq zero y h = sym h
differ-eq (suc x) zero h = h
differ-eq (suc x) (suc y) h = ap suc (differ-eq x y h)

differ_self : (x : ℕ) → differ x x ≡ 0
differ_self zero = refl
differ_self (suc x) = differ_self x

-- Digit by digit, an exclusive or is 0 only for equal numbers, and an or only for zeros.
xor_digits : (n x y : ℕ) → x ≤ n → digits (λ b. b) differ n x y ≡ 0 → x ≡ y
xor_digits zero zero y p h = sym h
xor_digits zero (suc x) y p h = absurd (omega arith)
xor_digits (suc n) zero y p h = sym h
xor_digits (suc n) (suc x) y p h = omega (
  arith,
  xor_digits n (suc x / 2) (y / 2) (omega arith) (omega arith),
  differ-eq (suc x % 2) (y % 2) (omega arith),
)

xor_digits_self : (n x : ℕ) → x ≤ n → digits (λ b. b) differ n x x ≡ 0
xor_digits_self zero zero p = refl
xor_digits_self zero (suc x) p = absurd (omega arith)
xor_digits_self (suc n) zero p = refl
xor_digits_self (suc n) (suc x) p =
    omega (arith, xor_digits_self n (suc x / 2) (omega arith), differ_self (suc x % 2))

max_zero : (x y : ℕ) → max x y ≡ 0 → (x ≡ 0) × (y ≡ 0)
max_zero x y h = (omega arith, omega arith)

or_digits : (n x y : ℕ) → x ≤ n → digits (λ b. b) max n x y ≡ 0 → (x ≡ 0) × (y ≡ 0)
or_digits zero zero y p h = (refl, h)
or_digits zero (suc x) y p h = absurd (omega arith)
or_digits (suc n) zero y p h = (refl, h)
or_digits (suc n) (suc x) y p h =
    let halves = or_digits n (suc x / 2) (y / 2) (omega arith) (omega arith) in
    let lowest : max (suc x % 2) (y % 2) ≡ 0 = omega arith in
    ground (arith, halves, max_zero (suc x % 2) (y % 2) lowest)

bit_xor-eq : (x y : ℕ) → bit_xor x y ≡ 0 → x ≡ y
bit_xor-eq x y h = xor_digits x x y (omega arith) (sym (bit_xor-bitwise x y) ∙ h)

bit_xor_self : (x : ℕ) → bit_xor x x ≡ 0
bit_xor_self x = bit_xor-bitwise x x ∙ xor_digits_self x x (omega arith)

bit_or-eq : (x y : ℕ) → bit_or x y ≡ 0 → (x ≡ 0) × (y ≡ 0)
bit_or-eq x y h = or_digits x x y (omega arith) (sym (bit_or-bitwise x y) ∙ h)

diff_from-eq :
    (diff : ℕ) (a b : List ℕ) → length a ≡ length b → diff_from diff a b ≡ 0 → (diff ≡ 0) × (a ≡ b)
unfolding diff_from
diff_from-eq diff [] [] e h = (h, refl)
diff_from-eq diff [] (y ∷ b) e h = absurd (omega arith)
diff_from-eq diff (x ∷ a) [] e h = absurd (omega arith)
diff_from-eq diff (x ∷ a) (y ∷ b) e h =
    let (zeros, tails) = diff_from-eq (bit_or diff (bit_xor x y)) a b (omega arith) h in
    let (before, here) = bit_or-eq diff (bit_xor x y) zeros in
    (before, cc (bit_xor-eq x y here, tails))

diff_from_self : (a : List ℕ) → diff_from 0 a a ≡ 0
unfolding diff_from
diff_from_self [] = refl
diff_from_self (x ∷ a) = rw (bit_xor_self x) (diff_from_self a)

-- The comparison is true exactly for equal bytes.
pub timing_safe_equal_iff : (a b : List ℕ) → (timing_safe_equal a b ≡ true) ↔ (a ≡ b)
unfolding timing_safe_equal
timing_safe_equal_iff a b = (
  λ h. (diff_from-eq 0 a b (ground arith) (ground arith)).1,
  λ e. rw e (ground (arith, diff_from_self b)),
)
