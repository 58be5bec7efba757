-- ===== src/Ymodem/Packet/Decimal.antt =====
-- `Int2Str` (modem/ymodem.cpp) and decimal notation.
use cosmos_pc.Prelude.{
  ℕ, zero, suc, ◌+◌, ◌-◌, ◌*◌, ◌/◌, ◌%◌, ◌^◌, ◌≤◌, ◌<◌, ◌≡◌, refl, sym, ap, ◌∙◌, Bool-cases, inl,
  inr, false, List, [], ◌∷◌, ◌++◌, ◌≢◌, ◌⊎◌, append-nil, append_assoc, arith, get_or, drop,
  overlay-append, length, replicate, overlay, set-write_at, length-append, u8, ◌==◌, ◌&&◌,
  if◌then◌else◌,
}
use native.Mathlib.Nat.{pow-suc, one-le-pow, mod-lt, mod-add-div', mod-eq_of_lt, div-lt_iff_lt-mul}
use cosmos_pc.Ymodem.Packet.{int2str_loop, int2str}
use cosmos_pc.Ymodem.Packet.CString.{c_string}

-- `k` digits of a number below 10 ^ k, the highest first.
unfoldable pub padded : ℕ → ℕ → List ℕ
padded zero n = []
padded (suc k) n = (n / 10 ^ k + 48) ∷ padded k (n % 10 ^ k)

-- The same without the zeros in front; 0 is one digit.
unfoldable pub decimal : ℕ → ℕ → List ℕ
decimal zero n = b'0' ∷ []
decimal (suc k) n = if n / 10 ^ k == 0 then decimal k (n % 10 ^ k) else padded (suc k) n

digit_small : (k n : ℕ) → n < 10 ^ suc k → n / 10 ^ k < 10
digit_small k n h =
    (div-lt_iff_lt-mul (one-le-pow k 10 (omega arith))).1 (omega (arith, pow-suc 10 k))

-- The value of `Div` with `k` rounds to go after this one.
top_digit : (k : ℕ) → 10 ^ suc k / 10 ≡ 10 ^ k
top_digit k = omega (arith, pow-suc 10 k)

rest_small : (k n : ℕ) → n % 10 ^ k < 10 ^ k
rest_small k n = mod-lt n (one-le-pow k 10 (omega arith))

-- A round after the first digit has been stored.
int2str_loop_digits :
    (k j n : ℕ) (ds a : List ℕ)
    → n < 10 ^ k
    → j ≡ length ds
    → 0 < j
    → int2str_loop k (10 ^ k / 10) j j n (overlay ds a) ≡ overlay (ds ++ padded k n) a
unfolding int2str_loop padded
int2str_loop_digits zero j n ds a h e pos = ap (λ l. overlay l a) (sym (append-nil ds))
int2str_loop_digits (suc k) j n ds a h e pos =
    let d = n / 10 ^ k + 48 in
    let byte : u8 d ≡ d = mod-eq_of_lt (let small = digit_small k n h in omega arith) in
    let started : (j == 0) ≡ false = ground arith in
    let not_leading : (d == 48 && (j == 0)) ≡ false = ground arith in
    rw (top_digit k, byte, not_leading, set-write_at 0 j ds d a (omega arith))
      (int2str_loop_digits k (j + 1) (n % 10 ^ k) (ds ++ d ∷ []) a (rest_small k n)
          (omega (arith, length-append ds (d ∷ []))) (omega arith)
        ∙ ap (λ l. overlay l a) (append_assoc ds (d ∷ []) (padded k (n % 10 ^ k))))

-- The rounds before: what they leave is a zero at the front.
int2str_loop-decimal :
    (k n : ℕ) (a : List ℕ)
    → n < 10 ^ k
    → int2str_loop k (10 ^ k / 10) 0 0 n (b'0' ∷ a) ≡ overlay (decimal k n) (b'0' ∷ a)
unfolding int2str_loop decimal padded
int2str_loop-decimal zero n a small = refl
int2str_loop-decimal (suc k) n a small =
    let d = n / 10 ^ k + 48 in
    let byte : u8 d ≡ d = mod-eq_of_lt (let less = digit_small k n small in omega arith) in
    elim (Bool-cases (n / 10 ^ k == 0)) [
      | inl is_zero ↦
          let leading : d ≡ 48 = ground arith in
          rw (is_zero, top_digit k, byte, leading)
            (int2str_loop-decimal k (n % 10 ^ k) a (rest_small k n))
      | inr positive ↦
          let not_leading : (d == 48) ≡ false = ground arith in
          rw (positive, top_digit k, byte, not_leading)
            (int2str_loop_digits k 1 (n % 10 ^ k) (d ∷ []) (b'0' ∷ a) (rest_small k n) refl
              (omega arith))
    ]

int2str_loop_start :
    (k div n h : ℕ) (a : List ℕ)
    → int2str_loop (suc k) div 0 0 n (h ∷ a) ≡ int2str_loop (suc k) div 0 0 n (b'0' ∷ a)
unfolding int2str_loop
int2str_loop_start k div n h a = refl

overlay-decimal :
    (k n h h' : ℕ) (a : List ℕ) → overlay (decimal k n) (h ∷ a) ≡ overlay (decimal k n) (h' ∷ a)
unfolding decimal padded
overlay-decimal zero n h h' a = refl
overlay-decimal (suc k) n h h' a = elim (Bool-cases (n / 10 ^ k == 0)) [
  | inl is_zero ↦ rw is_zero (overlay-decimal k (n % 10 ^ k) h h' a)
  | inr positive ↦ rw positive
]

-- The array after `Int2Str`: the digits, and the zeros behind them.
int2str-overlay :
    (n : ℕ) → n < 10 ^ 10 → int2str (replicate 10 0) n ≡ overlay (decimal 10 n) (replicate 10 0)
unfolding int2str
int2str-overlay n small =
    int2str_loop_start 9 1000000000 n 0 (replicate 9 0)
    ∙ int2str_loop-decimal 10 n (replicate 9 0) small
    ∙ overlay-decimal 10 n b'0' 0 (replicate 9 0)

-- Decimal digits, as bytes.
abbrev pub AreDecimals : List ℕ → Type 0
AreDecimals [] = Unit
AreDecimals (c ∷ rest) = (b'0' ≤ c) × (c ≤ b'9') × AreDecimals rest

padded-AreDecimals : (k n : ℕ) → n < 10 ^ k → AreDecimals (padded k n)
unfolding padded
padded-AreDecimals zero n h = tt
padded-AreDecimals (suc k) n h =
    let digit = digit_small k n h in
    (omega arith, omega arith, padded-AreDecimals k (n % 10 ^ k) (rest_small k n))

pub decimal-AreDecimals : (k n : ℕ) → n < 10 ^ k → AreDecimals (decimal k n)
unfolding decimal padded
decimal-AreDecimals zero n h = (omega arith, omega arith, tt)
decimal-AreDecimals (suc k) n h = elim (Bool-cases (n / 10 ^ k == 0)) [
  | inl is_zero ↦ rw is_zero (decimal-AreDecimals k (n % 10 ^ k) (rest_small k n))
  | inr positive ↦ rw positive (padded-AreDecimals (suc k) n h)
]

pub length-padded : (k n : ℕ) → length (padded k n) ≡ k
unfolding padded
length-padded zero n = refl
length-padded (suc k) n = ap suc (length-padded k (n % 10 ^ k))

length-decimal-le : (k n : ℕ) → length (decimal (suc k) n) ≤ suc k
unfolding decimal
length-decimal-le zero n = ground (arith, length-padded 1 n)
length-decimal-le (suc k) n = elim (Bool-cases (n / 10 ^ suc k == 0)) [
  | inl is_zero ↦ rw is_zero (let shorter = length-decimal-le k (n % 10 ^ suc k) in omega arith)
  | inr positive ↦ rw positive (omega (arith, length-padded (suc (suc k)) n))
]

parse_from : ℕ → List ℕ → ℕ
parse_from value [] = value
parse_from value (c ∷ rest) = parse_from (value * 10 + (c - 48)) rest

-- What a reader makes of a string of digits.
unfoldable pub parse_decimal : List ℕ → ℕ
unfolding parse_from
parse_decimal digits = parse_from 0 digits

regroup : (v k n : ℕ) → (v * 10 + n / 10 ^ k) * 10 ^ k + n % 10 ^ k ≡ v * 10 ^ suc k + n
regroup v k n = omega (arith, ap (λ (t : ℕ). v * t) (pow-suc 10 k), mod-add-div' n (10 ^ k))

parse_from-padded :
    (k n value : ℕ) → n < 10 ^ k → parse_from value (padded k n) ≡ value * 10 ^ k + n
unfolding parse_from padded
parse_from-padded zero n value h = omega arith
parse_from-padded (suc k) n value h =
    let q = n / 10 ^ k in
    let digit : q + 48 - 48 ≡ q = omega arith in
    ap (λ d. parse_from (value * 10 + d) (padded k (n % 10 ^ k))) digit
    ∙ parse_from-padded k (n % 10 ^ k) (value * 10 + q) (rest_small k n)
    ∙ regroup value k n

pub parse_decimal-padded : (k n : ℕ) → n < 10 ^ k → parse_decimal (padded k n) ≡ n
unfolding parse_decimal
parse_decimal-padded k n h = parse_from-padded k n 0 h ∙ omega arith

pub parse_decimal-decimal : (k n : ℕ) → n < 10 ^ k → parse_decimal (decimal k n) ≡ n
unfolding decimal parse_decimal
parse_decimal-decimal zero n h = omega arith
parse_decimal-decimal (suc k) n h = elim (Bool-cases (n / 10 ^ k == 0)) [
  | inl is_zero ↦
      let top : n / 10 ^ k ≡ 0 = ground arith in
      rw is_zero (
        parse_decimal-decimal k (n % 10 ^ k) (rest_small k n)
        ∙ omega (arith, mod-add-div' n (10 ^ k), ap (λ (t : ℕ). t * 10 ^ k) top))
  | inr positive ↦ rw positive (parse_from-padded (suc k) n 0 h ∙ omega arith)
]

-- A decimal string of a number: digits only, ten at most, and no zero leads but for the number 0.
pub record IsDecimal (n : ℕ) (digits : List ℕ) : Type 0 where
  pub reads_back : parse_decimal digits ≡ n
  pub all_digits : AreDecimals digits
  pub at_most_ten : length digits ≤ 10
  pub no_leading_zero : (n ≡ 0) ⊎ (get_or digits 0 b'0' ≢ b'0')

leading_digit : (k n : ℕ) → n < 10 ^ k → (n ≡ 0) ⊎ (get_or (decimal k n) 0 b'0' ≢ b'0')
unfolding decimal padded
leading_digit zero n h = inl (omega arith)
leading_digit (suc k) n h = elim (Bool-cases (n / 10 ^ k == 0)) [
  | inl is_zero ↦
      let top : n / 10 ^ k ≡ 0 = ground arith in
      let same : n % 10 ^ k ≡ n =
        omega (arith, mod-add-div' n (10 ^ k), ap (λ (t : ℕ). t * 10 ^ k) top) in
      rw (is_zero, same) (rw same at (leading_digit k (n % 10 ^ k) (rest_small k n)))
  | inr positive ↦ rw positive (inr (ground arith))
]

pub c_string-decimal :
    (digits zeros : List ℕ)
    → AreDecimals digits
    → c_string zeros ≡ []
    → c_string (digits ++ zeros) ≡ digits
c_string-decimal [] zeros all e = e
c_string-decimal (c ∷ rest) zeros all e =
    let nonzero : (c == 0) ≡ false = ground arith in
    rw nonzero (ap (◌∷◌ c) (c_string-decimal rest zeros all.2 e))

pub c_string-drop : (m n : ℕ) → c_string (drop m (replicate n 0)) ≡ []
c_string-drop zero zero = refl
c_string-drop zero (suc n) = refl
c_string-drop (suc m) zero = refl
c_string-drop (suc m) (suc n) = c_string-drop m n

c_string-int2str : (n : ℕ) → n < 10 ^ 10 → c_string (int2str (replicate 10 0) n) ≡ decimal 10 n
c_string-int2str n small =
    let digits = decimal 10 n in
    ap c_string
      (int2str-overlay n small ∙ overlay-append digits (replicate 10 0) (length-decimal-le 9 n))
    ∙ c_string-decimal digits _ (decimal-AreDecimals 10 n small) (c_string-drop (length digits) 10)

-- For a number below 2 ^ 32, the string that `Int2Str` leaves in a zeroed array of ten bytes is read
-- back as the number, has digits only, ten at most, and no leading zero unless the number is 0.
pub int2str-IsDecimal : (n : ℕ) → n < 2 ^ 32 → IsDecimal n (c_string (int2str (replicate 10 0) n))
int2str-IsDecimal n small =
    let fits : n < 10 ^ 10 = omega arith in
    rw (c_string-int2str n fits) (record {
      reads_back = parse_decimal-decimal 10 n fits;
      all_digits = decimal-AreDecimals 10 n fits;
      at_most_ten = length-decimal-le 9 n;
      no_leading_zero = leading_digit 10 n fits;
    })
