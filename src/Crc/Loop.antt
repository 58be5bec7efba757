-- ===== src/Crc/Loop.antt =====
-- The loop of `UpdateCRC16` (modem/ymodem.cpp) and the division by the polynomial.
use cosmos_pc.Prelude.{
  ℕ, zero, suc, ◌+◌, ◌-◌, ◌*◌, ◌/◌, ◌%◌, ◌^◌, ◌≤◌, ◌<◌, bit_and, bit_or, bit_xor, ◌≡◌, refl, ◌∙◌,
  sym, ap, Bool-cases, inl, inr, true, false, some, List, [], ◌∷◌, ◌++◌, arith, u8, u16, u32, ltb,
  ◌==◌, if◌then◌else◌,
}
use native.Mathlib.Nat.{pow-suc, one-le-pow, mod-eq_of_lt}
use cosmos_pc.Bits.{bit_xor-mod, bit_and_bit, bit_or_bit}
use cosmos_pc.Crc.{crc_round, crc_loop, update_crc16, crc_data, cal_crc16}
use cosmos_pc.Crc.Spec.{crc_bit, bits, remainder, message_bits, AreBytes}

-- A digit test of the source is the digit.
and_bit8 : (a : ℕ) → (bit_and a 0x100 == 0) ≡ (a / 256 % 2 == 0)
and_bit8 a = ground (arith, bit_and_bit 8 a)

and_bit16 : (a : ℕ) → (bit_and a 0x10000 == 0) ≡ (a / 65536 % 2 == 0)
and_bit16 a = ground (arith, bit_and_bit 16 a)

fed_lem :
    (crc b : ℕ)
    → b < 2
    → (if b == 0 then u32 (crc * 2) else u32 (u32 (crc * 2) + 1)) ≡ u32 (crc * 2 + b)
fed_lem crc b h = ground arith

reduce_low :
    (crc b : ℕ)
    → b < 2
    → (let fed = u32 (crc * 2 + b) in if fed / 65536 % 2 == 0 then fed else bit_xor fed 0x1021)
        % 65536
      ≡ crc_bit (crc % 65536) b
unfolding crc_bit
reduce_low crc b h =
    let fed = u32 (crc * 2 + b) in
    let t = 2 * (crc % 65536) + b in
    elim (Bool-cases (ltb t 65536)) [
      | inl low ↦ ground arith
      | inr high ↦
          let cut : fed % 65536 ≡ t - 65536 = ground arith in
          ground (arith, bit_xor-mod 16 fed 0x1021, ap (λ x. bit_xor x 0x1021) cut)
    ]

-- Modulo 2 ^ 16 one round is one step of the division: the digits above are never looked at again.
round_low : (crc inp : ℕ) → crc_round crc inp % 65536 ≡ crc_bit (crc % 65536) (inp / 256 % 2)
unfolding crc_round
round_low crc inp =
    rw (and_bit8 inp, and_bit16, fed_lem crc (inp / 256 % 2) (omega arith))
      (reduce_low crc (inp / 256 % 2) (omega arith))

-- The digits of `inp` from the eighth on down, fed into the register.
feed : ℕ → ℕ → ℕ → ℕ
feed zero r inp = r
feed (suc k) r inp = feed k (crc_bit r (inp * 2 / 256 % 2)) (inp * 2)

crc_loop_more :
    (fuel crc inp : ℕ)
    → inp * 2 < 65536
    → crc_loop (suc fuel) crc inp ≡ crc_loop fuel (crc_round crc (inp * 2)) (inp * 2)
unfolding crc_loop
crc_loop_more fuel crc inp h =
    let whole : u32 (inp * 2) ≡ inp * 2 = omega arith in
    let go : (bit_and (inp * 2) 0x10000 == 0) ≡ true = rw and_bit16 (ground arith) in rw (whole, go)

crc_loop_last :
    (fuel crc inp : ℕ)
    → 65536 ≤ inp * 2
    → inp * 2 < 131072
    → crc_loop (suc fuel) crc inp ≡ some (crc_round crc (inp * 2))
unfolding crc_loop
crc_loop_last fuel crc inp lo hi =
    let whole : u32 (inp * 2) ≡ inp * 2 = omega arith in
    let stop : (bit_and (inp * 2) 0x10000 == 0) ≡ false = rw and_bit16 (ground arith) in
    rw (whole, stop)

below_of_scaled : (inp p : ℕ) → 0 < p → inp * 2 * (p * 2) < 131072 → inp * 2 < 65536
below_of_scaled inp p h b = grind arith

-- The loop ends when the marker digit of `inp` reaches the seventeenth place, after `k + 1` rounds.
crc_loop-feed :
    (k crc inp : ℕ)
    → 65536 ≤ inp * 2 ^ suc k
    → inp * 2 ^ suc k < 131072
    → (c : ℕ) × (crc_loop (suc k) crc inp ≡ some c) × (c % 65536 ≡ feed (suc k) (crc % 65536) inp)
unfolding feed
crc_loop-feed zero crc inp lo hi =
    (crc_round crc (inp * 2), crc_loop_last 0 crc inp lo hi, round_low crc (inp * 2))
crc_loop-feed (suc k) crc inp lo hi =
    let regroup : inp * 2 ^ suc (suc k) ≡ inp * 2 * 2 ^ suc k =
      omega (arith, ap (λ (t : ℕ). inp * t) (pow-suc 2 (suc k))) in
    let small : inp * 2 < 65536 =
      below_of_scaled inp (2 ^ k) (one-le-pow k 2 (omega arith))
        (rw (← pow-suc 2 k) (omega (arith, regroup))) in
    let (c, runs, low) =
      crc_loop-feed k (crc_round crc (inp * 2)) (inp * 2) (omega (arith, regroup))
        (omega (arith, regroup)) in
    (c, crc_loop_more (suc k) crc inp small ∙ runs, rw (← round_low crc (inp * 2)) low)

-- `byte | 0x100` fed for eight rounds is the eight digits of the byte, highest first.
feed-bits : (r byte : ℕ) → byte < 256 → feed 8 r (byte + 256) ≡ remainder r (bits 8 byte)
unfolding feed
feed-bits r byte h =
    let e1 : (byte + 256) * 2 / 256 % 2 ≡ byte / 128 % 2 = omega arith in
    let e2 : (byte + 256) * 2 * 2 / 256 % 2 ≡ byte / 64 % 2 = omega arith in
    let e3 : (byte + 256) * 2 * 2 * 2 / 256 % 2 ≡ byte / 32 % 2 = omega arith in
    let e4 : (byte + 256) * 2 * 2 * 2 * 2 / 256 % 2 ≡ byte / 16 % 2 = omega arith in
    let e5 : (byte + 256) * 2 * 2 * 2 * 2 * 2 / 256 % 2 ≡ byte / 8 % 2 = omega arith in
    let e6 : (byte + 256) * 2 * 2 * 2 * 2 * 2 * 2 / 256 % 2 ≡ byte / 4 % 2 = omega arith in
    let e7 : (byte + 256) * 2 * 2 * 2 * 2 * 2 * 2 * 2 / 256 % 2 ≡ byte / 2 % 2 = omega arith in
    let e8 : (byte + 256) * 2 * 2 * 2 * 2 * 2 * 2 * 2 * 2 / 256 % 2 ≡ byte / 1 % 2 = omega arith in
    rw (e1, e2, e3, e4, e5, e6, e7, e8)

-- `UpdateCRC16` leaves its loop by the test, after eight rounds.
pub crc_loop_eight :
    (crc byte : ℕ)
    → byte < 256
    → (c : ℕ) × (crc_loop 8 crc (bit_or byte 0x100) ≡ some c)
      × (c % 65536 ≡ remainder (crc % 65536) (bits 8 byte))
crc_loop_eight crc byte h =
    let (c, runs, low) = crc_loop-feed 7 crc (byte + 256) (omega arith) (omega arith) in
    (c, rw (bit_or_bit 8 byte h) runs, low ∙ feed-bits (crc % 65536) byte h)

-- One byte of `UpdateCRC16` is eight digits of the division.
pub update_crc16-remainder :
    (crc byte : ℕ) → crc < 65536 → byte < 256 → update_crc16 crc byte ≡ remainder crc (bits 8 byte)
unfolding update_crc16
update_crc16-remainder crc byte hc hb =
    let (c, runs, low) = crc_loop_eight crc byte hb in
    let same_crc : u16 crc ≡ crc = mod-eq_of_lt hc in
    let same_byte : u8 byte ≡ byte = mod-eq_of_lt hb in
    rw (same_crc, same_byte, runs) (rw same_crc at low)

pub update_crc16-lt : (crc byte : ℕ) → update_crc16 crc byte < 65536
unfolding update_crc16
update_crc16-lt crc byte = omega arith

pub crc_data-lt : (crc : ℕ) (bytes : List ℕ) → crc < 65536 → crc_data crc bytes < 65536
unfolding crc_data
crc_data-lt crc [] h = h
crc_data-lt crc (byte ∷ rest) h =
    crc_data-lt (update_crc16 crc byte) rest (update_crc16-lt crc byte)

pub crc_data-remainder :
    (crc : ℕ) (bytes : List ℕ)
    → crc < 65536
    → AreBytes bytes
    → crc_data crc bytes ≡ remainder crc (message_bits bytes)
unfolding crc_data
crc_data-remainder crc [] h all = refl
crc_data-remainder crc (byte ∷ rest) h (here, all) =
    crc_data-remainder (update_crc16 crc byte) rest (update_crc16-lt crc byte) all
    ∙ ap (λ r. remainder r (message_bits rest)) (update_crc16-remainder crc byte h here)

pub crc_data-append :
    (crc : ℕ) (xs ys : List ℕ) → crc_data crc (xs ++ ys) ≡ crc_data (crc_data crc xs) ys
unfolding crc_data
crc_data-append crc [] ys = refl
crc_data-append crc (x ∷ xs) ys = crc_data-append (update_crc16 crc x) xs ys

pub AreBytes-append : (xs ys : List ℕ) → AreBytes xs → AreBytes ys → AreBytes (xs ++ ys)
AreBytes-append [] ys hx hy = hy
AreBytes-append (x ∷ xs) ys (h, hx) hy = (h, AreBytes-append xs ys hx hy)

-- The two last calls of `Cal_CRC16` feed two zero bytes.
pub cal_crc16-crc_data : (bytes : List ℕ) → cal_crc16 bytes ≡ crc_data 0 (bytes ++ 0 ∷ 0 ∷ [])
unfolding cal_crc16 crc_data
cal_crc16-crc_data bytes =
    mod-eq_of_lt (update_crc16-lt (update_crc16 (crc_data 0 bytes) 0) 0)
    ∙ sym (crc_data-append 0 bytes (0 ∷ 0 ∷ []))

pub cal_crc16-lt : (bytes : List ℕ) → cal_crc16 bytes < 65536
cal_crc16-lt bytes =
    rw (cal_crc16-crc_data bytes) (crc_data-lt 0 (bytes ++ 0 ∷ 0 ∷ []) (omega arith))

-- For bytes, `Cal_CRC16` is the remainder of the message, followed by two zero bytes, in the
-- division by x ^ 16 + x ^ 12 + x ^ 5 + 1.
pub cal_crc16-remainder :
    (bytes : List ℕ)
    → AreBytes bytes
    → cal_crc16 bytes ≡ remainder 0 (message_bits (bytes ++ 0 ∷ 0 ∷ []))
cal_crc16-remainder bytes all =
    cal_crc16-crc_data bytes
    ∙ crc_data-remainder 0 (bytes ++ 0 ∷ 0 ∷ []) (omega arith)
        (AreBytes-append bytes (0 ∷ 0 ∷ []) all (omega arith))
