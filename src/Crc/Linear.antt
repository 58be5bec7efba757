-- ===== src/Crc/Linear.antt =====
-- The division of Crc/Spec and `^`.
use cosmos_pc.Prelude.{
  ℕ, zero, suc, ◌+◌, ◌-◌, ◌*◌, ◌/◌, ◌%◌, ◌^◌, ◌≤◌, ◌<◌, bit_xor, ◌≡◌, refl, ◌∙◌, ◌≡⟨◌⟩◌, ◌∎, sym,
  ap, inl, inr, List, [], ◌∷◌, arith, ltb, Bool-cases,
}
use native.Mathlib.Nat.{pow-suc, one-le-pow, zero-div, mod-add-div', div-div-eq-div-mul}
use cosmos_pc.Bits.{
  bit_xor_shift, bit_xor-mod, bit_xor-div, bit_xor-lt, bit_xor_comm, bit_xor_assoc, bit_xor_self,
  zero-bit_xor, bit_xor_low,
}
use cosmos_pc.Crc.Spec.{crc_bit, bits, remainder}

-- Four words, regrouped.
pub bit_xor_swap :
    (a b c d : ℕ) → bit_xor (bit_xor a b) (bit_xor c d) ≡ bit_xor (bit_xor a c) (bit_xor b d)
bit_xor_swap a b c d =
    rw (bit_xor_assoc a b, ← bit_xor_assoc b c, bit_xor_comm b c, bit_xor_assoc c b)
      (sym (bit_xor_assoc a c (bit_xor b d)))

-- The step without its test: the digit that leaves the register times the polynomial.
crc_bit_branchless :
    (r b : ℕ)
    → r < 65536
    → b < 2
    → crc_bit r b ≡ bit_xor ((2 * r + b) % 2 ^ 16) ((2 * r + b) / 2 ^ 16 * 0x1021)
unfolding crc_bit
crc_bit_branchless r b hr hb = elim (Bool-cases (ltb t 65536)) [
  | inl low ↦
      let rest : t % 2 ^ 16 ≡ t = ground arith in
      let none_out : t / 2 ^ 16 * 0x1021 ≡ 0 = ground arith in
      rw (rest, none_out, bit_xor_comm t 0, zero-bit_xor t) (ground arith)
  | inr high ↦
      let rest : t % 2 ^ 16 ≡ t - 65536 = ground arith in
      let one_out : t / 2 ^ 16 * 0x1021 ≡ 0x1021 = ground arith in rw (rest, one_out) (ground arith)
]
  where
    t : ℕ
    t = 2 * r + b

pub crc_bit-lt : (r b : ℕ) → r < 65536 → b < 2 → crc_bit r b < 65536
crc_bit-lt r b hr hb =
    rw (crc_bit_branchless r b hr hb) (bit_xor-lt 16 _ _ (omega arith) (omega arith))

-- A digit times a word, under `^`.
bit_xor_scale : (x y c : ℕ) → x < 2 → y < 2 → bit_xor x y * c ≡ bit_xor (x * c) (y * c)
bit_xor_scale zero y c hx hy =
    let none_left : 0 * c ≡ 0 = omega arith in rw (zero-bit_xor y, none_left, zero-bit_xor (y * c))
bit_xor_scale (suc zero) zero c hx hy =
    let none_left : 0 * c ≡ 0 = omega arith in
    rw (none_left, bit_xor_comm (1 * c) 0, zero-bit_xor (1 * c))
bit_xor_scale (suc zero) (suc zero) c hx hy = omega (arith, bit_xor_self 1, bit_xor_self (1 * c))
bit_xor_scale (suc zero) (suc (suc y)) c hx hy = absurd (omega arith)
bit_xor_scale (suc (suc x)) y c hx hy = absurd (omega arith)

-- One step is linear.
pub crc_bit-bit_xor :
    (r s b c : ℕ)
    → r < 65536
    → s < 65536
    → b < 2
    → c < 2
    → crc_bit (bit_xor r s) ((b + c) % 2) ≡ bit_xor (crc_bit r b) (crc_bit s c)
crc_bit-bit_xor r s b c hr hs hb hc =
    let t = 2 * r + b in
    let u = 2 * s + c in
    rw
      (
        crc_bit_branchless (bit_xor r s) ((b + c) % 2) (bit_xor-lt 16 r s hr hs) (omega arith),
        crc_bit_branchless r b hr hb,
        crc_bit_branchless s c hs hc,
        ← bit_xor_shift r s b c hb hc,
        bit_xor-mod 16 t u,
        bit_xor-div 16 t u,
        bit_xor_scale (t / 2 ^ 16) (u / 2 ^ 16) 0x1021 (omega arith) (omega arith),
      )
      (bit_xor_swap (t % 2 ^ 16) (u % 2 ^ 16) (t / 2 ^ 16 * 0x1021) (u / 2 ^ 16 * 0x1021))

-- The digits that were not in the register are moved in unchanged while its top digits are zero.
crc_bit_small : (r b : ℕ) → r < 32768 → b < 2 → crc_bit r b ≡ 2 * r + b
unfolding crc_bit
crc_bit_small r b hr hb = ground arith

crc_bit_kernel : (d : ℕ) → crc_bit d 0 ≡ 0 → d ≡ 0
unfolding crc_bit
crc_bit_kernel d e = ground (arith, bit_xor_low (2 * d - 65536) 0x1021)

pub eq_of_bit_xor : (r s : ℕ) → bit_xor r s ≡ 0 → r ≡ s
eq_of_bit_xor r s e =
    r
    ≡⟨ sym (zero-bit_xor r) ⟩ bit_xor 0 r
    ≡⟨ bit_xor_comm 0 r ⟩ bit_xor r 0
    ≡⟨ ap (bit_xor r) (sym (bit_xor_self s)) ⟩ bit_xor r (bit_xor s s)
    ≡⟨ sym (bit_xor_assoc r s s) ⟩ bit_xor (bit_xor r s) s
    ≡⟨ ap (λ x. bit_xor x s) e ⟩ bit_xor 0 s
    ≡⟨ zero-bit_xor s ⟩ s ∎

-- A step forgets nothing: the lowest digit of the result tells which digit left the register.
pub crc_bit_injective :
    (r s b : ℕ) → r < 65536 → s < 65536 → b < 2 → crc_bit r b ≡ crc_bit s b → r ≡ s
crc_bit_injective r s b hr hs hb e =
    let even : (b + b) % 2 ≡ 0 = omega arith in
    let apart : crc_bit (bit_xor r s) 0 ≡ 0 = rw even at (
      crc_bit-bit_xor r s b b hr hs hb hb
      ∙ ap (λ x. bit_xor x (crc_bit s b)) e
      ∙ bit_xor_self (crc_bit s b)) in
    eq_of_bit_xor r s (crc_bit_kernel (bit_xor r s) apart)

-- Lists of binary digits.
abbrev pub AreDigits : List ℕ → Type 0
AreDigits [] = Unit
AreDigits (b ∷ bs) = (b < 2) × AreDigits bs

pub bits-AreDigits : (k n : ℕ) → AreDigits (bits k n)
bits-AreDigits zero n = tt
bits-AreDigits (suc k) n = (omega arith, bits-AreDigits k n)

pub remainder_injective :
    (bs : List ℕ) (r s : ℕ)
    → r < 65536
    → s < 65536
    → AreDigits bs
    → remainder r bs ≡ remainder s bs
    → r ≡ s
remainder_injective [] r s hr hs all e = e
remainder_injective (b ∷ bs) r s hr hs (h, all) e = crc_bit_injective r s b hr hs h (
    remainder_injective bs (crc_bit r b) (crc_bit s b) (crc_bit-lt r b hr h) (crc_bit-lt s b hs h)
      all e)

-- Digits beside a state are the digits alone, from the empty register, and the state beside zeros.
pub remainder_split :
    (k n r s : ℕ)
    → r < 65536
    → s < 65536
    → remainder (bit_xor r s) (bits k n) ≡ bit_xor (remainder r (bits k 0)) (remainder s (bits k n))
remainder_split zero n r s hr hs = refl
remainder_split (suc k) n r s hr hs =
    let d = n / 2 ^ k % 2 in
    let none_there : 0 / 2 ^ k % 2 ≡ 0 = rw zero-div in
    let alone : (0 + d) % 2 ≡ d = omega arith in
    rw (
      none_there,
      ← remainder_split k n (crc_bit r 0) (crc_bit s d) (crc_bit-lt r 0 hr (omega arith))
          (crc_bit-lt s d hs (omega arith)),
      ← crc_bit-bit_xor r s 0 d hr hs (omega arith) (omega arith),
      alone,
    )

mod_top : (m n : ℕ) → 0 < m → n % (m * 2) ≡ n / m % 2 * m + n % m
mod_top m n h =
    let q = n / m in
    let parts : q ≡ q / 2 * 2 + q % 2 = omega arith in
    omega (
      arith,
      mod-add-div' n (m * 2),
      mod-add-div' n m,
      ap (λ (t : ℕ). t * (m * 2)) (div-div-eq-div-mul n m 2),
      ap (λ (t : ℕ). t * m) parts,
    )

half_room : (s m : ℕ) → 0 < m → (s + 1) * (m * 2) ≤ 65536 → s < 32768
half_room s m pos h = grind arith

next_room : (s d m : ℕ) → d < 2 → (s + 1) * (m * 2) ≤ 65536 → (2 * s + d + 1) * m ≤ 65536
next_room s d m hd h = grind arith

fill_sum : (s m n : ℕ) → 0 < m → (2 * s + n / m % 2) * m + n % m ≡ s * (m * 2) + n % (m * 2)
fill_sum s m n h = omega (arith, mod_top m n h)

-- Sixteen digits or fewer fill the register from below.
pub remainder_fill :
    (k n s : ℕ) → (s + 1) * 2 ^ k ≤ 65536 → remainder s (bits k n) ≡ s * 2 ^ k + n % 2 ^ k
remainder_fill zero n s h = omega arith
remainder_fill (suc k) n s h =
    let m = 2 ^ k in
    let d = n / m % 2 in
    let pos : 0 < m = one-le-pow k 2 (omega arith) in
    let room : (s + 1) * (m * 2) ≤ 65536 = rw (pow-suc 2 k) at h in
    ap (λ x. remainder x (bits k n)) (crc_bit_small s d (half_room s m pos room) (omega arith))
    ∙ remainder_fill k n (2 * s + d) (next_room s d m (omega arith) room)
    ∙ rw (pow-suc 2 k) (fill_sum s m n pos)
