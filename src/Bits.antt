-- ===== src/Bits.antt =====
-- Laws of the C operators `&`, `|` and `^` on machine words, from the binary digits.
use Prim.Native.Nat.{max, digits, bitwise, bit_and-bitwise, bit_or-bitwise, bit_xor-bitwise, differ}
use native.Mathlib.Nat.{pow-suc, one-le-pow, mod-eq_of_lt}
use cosmos_pc.Prelude.{
  ℕ, zero, suc, ◌+◌, ◌*◌, ◌/◌, ◌%◌, ◌^◌, ◌≤◌, ◌<◌, min, bit_and, bit_or, bit_xor, ◌≡◌, refl, arith,
  ap, ap₂, sym, ◌∙◌, ◌-◌,
}

module _ (right : ℕ → ℕ) (op : ℕ → ℕ → ℕ) where
  -- A round more than the number needs changes nothing.
  digits_extra :
      (rounds x y : ℕ) → x ≤ rounds → digits right op (suc rounds) x y ≡ digits right op rounds x y
  digits_extra zero zero y le = refl
  digits_extra (suc rounds) zero y le = refl
  digits_extra zero (suc x) y le = absurd (omega arith)
  digits_extra (suc rounds) (suc x) y le =
      let half : suc x / 2 ≤ rounds = omega arith in
      ap (λ t. t * 2 + op (suc x % 2) (y % 2)) (digits_extra rounds (suc x / 2) (y / 2) half)

  digits_settled :
      (extra rounds x y : ℕ)
      → rounds ≡ x + extra
      → digits right op rounds x y ≡ bitwise right op x y
  digits_settled zero rounds x y e =
      let same : rounds ≡ x = omega arith in ap (λ n. digits right op n x y) same
  digits_settled (suc extra) zero x y e = absurd (omega arith)
  digits_settled (suc extra) (suc rounds) x y e =
      digits_extra rounds x y (omega arith) ∙ digits_settled extra rounds x y (omega arith)

  -- The lowest digits apart from the rest.
  bitwise_apart :
      (x y : ℕ)
      → bitwise right op (suc x) y
        ≡ 2 * bitwise right op (suc x / 2) (y / 2) + op (suc x % 2) (y % 2)
  bitwise_apart x y =
      omega (arith, digits_settled (x - suc x / 2) x (suc x / 2) (y / 2) (omega arith))

bit_and_step : (x y : ℕ) → bit_and x y ≡ 2 * bit_and (x / 2) (y / 2) + min (x % 2) (y % 2)
bit_and_step zero y = omega (arith, bit_and-bitwise zero y, bit_and-bitwise 0 (y / 2))
bit_and_step (suc x) y =
    bit_and-bitwise (suc x) y
    ∙ bitwise_apart (λ t. 0) min x y
    ∙ ap (λ t. 2 * t + min (suc x % 2) (y % 2)) (sym (bit_and-bitwise (suc x / 2) (y / 2)))

differ_digits : (x y : ℕ) → x < 2 → y < 2 → differ x y ≡ (x + y) % 2
differ_digits zero y p q = omega arith
differ_digits (suc zero) zero p q = refl
differ_digits (suc zero) (suc zero) p q = refl
differ_digits (suc zero) (suc (suc y)) p q = absurd (omega arith)
differ_digits (suc (suc x)) y p q = absurd (omega arith)

bit_and_zero_fuel : (n a : ℕ) → a ≤ n → bit_and a 0 ≡ 0
bit_and_zero_fuel zero zero h = refl
bit_and_zero_fuel zero (suc a) h = absurd (omega arith)
bit_and_zero_fuel (suc n) a h =
    omega (arith, bit_and_step a 0, bit_and_zero_fuel n (a / 2) (omega arith))

bit_and_zero : (a : ℕ) → bit_and a 0 ≡ 0
bit_and_zero a = bit_and_zero_fuel a a (omega arith)

-- The exclusive or of the lowest digits is their sum without the carry.
bit_xor_step : (a b : ℕ) → bit_xor a b ≡ bit_xor (a / 2) (b / 2) * 2 + (a % 2 + b % 2) % 2
bit_xor_step zero b = simp bit_xor-bitwise (omega arith)
bit_xor_step (suc a) b = simp bit_xor-bitwise (
    omega (
      arith,
      bitwise_apart (λ y. y) differ a b,
      differ_digits (suc a % 2) (b % 2) (omega arith) (omega arith),
    ))

pub bit_xor_half : (a b : ℕ) → bit_xor a b / 2 ≡ bit_xor (a / 2) (b / 2)
bit_xor_half a b = omega (arith, bit_xor_step a b)

pub bit_xor_low : (a b : ℕ) → bit_xor a b % 2 ≡ (a % 2 + b % 2) % 2
bit_xor_low a b = omega (arith, bit_xor_step a b)

-- Two words shifted left by one, with a digit moved in, under `^`.
pub bit_xor_shift :
    (a b x y : ℕ) → x < 2 → y < 2 → bit_xor (2 * a + x) (2 * b + y) ≡ 2 * bit_xor a b + (x + y) % 2
bit_xor_shift a b x y hx hy =
    let ea : (2 * a + x) / 2 ≡ a = omega arith in
    let eb : (2 * b + y) / 2 ≡ b = omega arith in
    let step = bit_xor_step (2 * a + x) (2 * b + y) in omega (arith, ap₂ bit_xor ea eb, step)

bit_xor_self_fuel : (n a : ℕ) → a ≤ n → bit_xor a a ≡ 0
bit_xor_self_fuel zero zero h = refl
bit_xor_self_fuel zero (suc a) h = absurd (omega arith)
bit_xor_self_fuel (suc n) a h =
    omega (arith, bit_xor_step a a, bit_xor_self_fuel n (a / 2) (omega arith))

pub bit_xor_self : (a : ℕ) → bit_xor a a ≡ 0
bit_xor_self a = bit_xor_self_fuel a a (omega arith)

pub zero-bit_xor : (a : ℕ) → bit_xor 0 a ≡ a
zero-bit_xor a = bit_xor-bitwise 0 a

bit_xor_comm_fuel : (n a b : ℕ) → a ≤ n → b ≤ n → bit_xor a b ≡ bit_xor b a
bit_xor_comm_fuel zero zero zero p q = refl
bit_xor_comm_fuel zero zero (suc b) p q = absurd (omega arith)
bit_xor_comm_fuel zero (suc a) b p q = absurd (omega arith)
bit_xor_comm_fuel (suc n) a b p q = omega (
  arith,
  bit_xor_step a b,
  bit_xor_step b a,
  bit_xor_comm_fuel n (a / 2) (b / 2) (omega arith) (omega arith),
)

pub bit_xor_comm : (a b : ℕ) → bit_xor a b ≡ bit_xor b a
bit_xor_comm a b = bit_xor_comm_fuel (a + b) a b (omega arith) (omega arith)

bit_xor_assoc_fuel :
    (n a b c : ℕ) → a ≤ n → b ≤ n → c ≤ n → bit_xor (bit_xor a b) c ≡ bit_xor a (bit_xor b c)
bit_xor_assoc_fuel zero zero b c p q r = rw (zero-bit_xor b, zero-bit_xor (bit_xor b c))
bit_xor_assoc_fuel zero (suc a) b c p q r = absurd (omega arith)
bit_xor_assoc_fuel (suc n) a b c p q r = omega (
  arith,
  bit_xor_step (bit_xor a b) c,
  bit_xor_step a (bit_xor b c),
  ap (λ t. bit_xor t (c / 2)) (bit_xor_half a b),
  ap (bit_xor (a / 2)) (bit_xor_half b c),
  bit_xor_low a b,
  bit_xor_low b c,
  bit_xor_assoc_fuel n (a / 2) (b / 2) (c / 2) (omega arith) (omega arith) (omega arith),
)

pub bit_xor_assoc : (a b c : ℕ) → bit_xor (bit_xor a b) c ≡ bit_xor a (bit_xor b c)
bit_xor_assoc a b c = bit_xor_assoc_fuel (a + b + c) a b c (omega arith) (omega arith) (omega arith)

-- `% 2m` and `/ 2m` through the half and the lowest digit.
mod-double : (m a : ℕ) → 0 < m → a % (m * 2) ≡ a / 2 % m * 2 + a % 2
mod-double m a h = grind arith

div-double : (m a : ℕ) → 0 < m → a / (m * 2) ≡ a / 2 / m
div-double m a h = grind arith

-- Cutting a word to its low digits commutes with `^`.
pub bit_xor-mod : (k a b : ℕ) → bit_xor a b % 2 ^ k ≡ bit_xor (a % 2 ^ k) (b % 2 ^ k)
bit_xor-mod zero a b = omega (
  arith,
  ap₂ bit_xor (let e : a % 1 ≡ 0 = omega arith in e) (let e : b % 1 ≡ 0 = omega arith in e),
)
bit_xor-mod (suc k) a b =
    let m = 2 ^ k in
    let pos : 0 < m = one-le-pow k 2 (omega arith) in
    let half_a : a % (m * 2) / 2 ≡ a / 2 % m = omega (arith, mod-double m a pos) in
    let half_b : b % (m * 2) / 2 ≡ b / 2 % m = omega (arith, mod-double m b pos) in
    rw (pow-suc 2 k) (
      omega (
        arith,
        mod-double m (bit_xor a b) pos,
        mod-double m a pos,
        mod-double m b pos,
        ap (λ t. t % m) (bit_xor_half a b),
        bit_xor_low a b,
        bit_xor-mod k (a / 2) (b / 2),
        bit_xor_step (a % (m * 2)) (b % (m * 2)),
        ap₂ bit_xor half_a half_b,
      ))

-- A right shift commutes with `^`.
pub bit_xor-div : (k a b : ℕ) → bit_xor a b / 2 ^ k ≡ bit_xor (a / 2 ^ k) (b / 2 ^ k)
bit_xor-div zero a b = omega (
  arith,
  ap₂ bit_xor (let e : a / 1 ≡ a = omega arith in e) (let e : b / 1 ≡ b = omega arith in e),
)
bit_xor-div (suc k) a b =
    let m = 2 ^ k in
    let pos : 0 < m = one-le-pow k 2 (omega arith) in
    rw (pow-suc 2 k) (
      omega (
        arith,
        div-double m (bit_xor a b) pos,
        ap₂ bit_xor (div-double m a pos) (div-double m b pos),
        ap (λ t. t / m) (bit_xor_half a b),
        bit_xor-div k (a / 2) (b / 2),
      ))

-- Words of `k` digits stay words of `k` digits.
pub bit_xor-lt : (k a b : ℕ) → a < 2 ^ k → b < 2 ^ k → bit_xor a b < 2 ^ k
bit_xor-lt k a b p q =
    let ea : a % 2 ^ k ≡ a = mod-eq_of_lt p in
    let eb : b % 2 ^ k ≡ b = mod-eq_of_lt q in
    omega (arith, bit_xor-mod k a b, ap₂ bit_xor ea eb, one-le-pow k 2)

-- A test of one digit.
pub bit_and_bit : (k a : ℕ) → bit_and a (2 ^ k) ≡ a / 2 ^ k % 2 * 2 ^ k
bit_and_bit zero a = omega (arith, bit_and_step a 1, bit_and_zero (a / 2))
bit_and_bit (suc k) a =
    let m = 2 ^ k in
    let pos : 0 < m = one-le-pow k 2 (omega arith) in
    let half : m * 2 / 2 ≡ m = omega arith in
    rw (pow-suc 2 k) (
      omega (
        arith,
        bit_and_step a (m * 2),
        ap (bit_and (a / 2)) half,
        bit_and_bit k (a / 2),
        ap (λ (t : ℕ). t % 2 * m) (div-double m a pos),
      ))

bit_or_step : (x y : ℕ) → bit_or x y ≡ 2 * bit_or (x / 2) (y / 2) + max (x % 2) (y % 2)
bit_or_step zero y = omega (arith, bit_or-bitwise zero y, bit_or-bitwise 0 (y / 2))
bit_or_step (suc x) y =
    bit_or-bitwise (suc x) y
    ∙ bitwise_apart (λ t. t) max x y
    ∙ ap (λ t. 2 * t + max (suc x % 2) (y % 2)) (sym (bit_or-bitwise (suc x / 2) (y / 2)))

bit_or_zero_fuel : (n a : ℕ) → a ≤ n → bit_or a 0 ≡ a
bit_or_zero_fuel zero zero h = refl
bit_or_zero_fuel zero (suc a) h = absurd (omega arith)
bit_or_zero_fuel (suc n) a h =
    omega (arith, bit_or_step a 0, bit_or_zero_fuel n (a / 2) (omega arith))

-- Setting the digit above a word of `k` digits.
pub bit_or_bit : (k a : ℕ) → a < 2 ^ k → bit_or a (2 ^ k) ≡ a + 2 ^ k
bit_or_bit zero a h = omega (arith, bit_or_step a 1, bit_or_zero_fuel (a / 2) (a / 2) (omega arith))
bit_or_bit (suc k) a h =
    let m = 2 ^ k in
    let e : 2 ^ suc k ≡ m * 2 = pow-suc 2 k in
    let half : m * 2 / 2 ≡ m = omega arith in
    rw (pow-suc 2 k) (
      omega (
        arith,
        bit_or_step a (m * 2),
        ap (bit_or (a / 2)) half,
        bit_or_bit k (a / 2) (omega arith),
      ))
