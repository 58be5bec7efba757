-- ===== src/Crc/Spec.antt =====
-- The reference for the checksum: division by x ^ 16 + x ^ 12 + x ^ 5 + 1 over the binary digits, one
-- digit at a time, in a register of 16 digits.
use mathlib.Core.List.{foldl}
use cosmos_pc.Prelude.{
  ℕ, zero, suc, ◌+◌, ◌-◌, ◌*◌, ◌/◌, ◌%◌, ◌^◌, ◌<◌, bit_xor, List, [], ◌∷◌, ◌++◌, ltb, if◌then◌else◌,
}

-- Times x, plus the next digit; a digit that leaves the register is x ^ 16, that is
-- x ^ 12 + x ^ 5 + 1.
unfoldable pub crc_bit : ℕ → ℕ → ℕ
crc_bit r b = let t = 2 * r + b in if ltb t 65536 then t else bit_xor (t - 65536) 0x1021

-- The `k` lowest digits of a number, highest first.
abbrev pub bits : ℕ → ℕ → List ℕ
bits zero n = []
bits (suc k) n = (n / 2 ^ k % 2) ∷ bits k n

abbrev pub remainder : ℕ → List ℕ → ℕ
remainder = foldl crc_bit

abbrev pub message_bits : List ℕ → List ℕ
message_bits [] = []
message_bits (byte ∷ rest) = bits 8 byte ++ message_bits rest

abbrev pub AreBytes : List ℕ → Type 0
AreBytes [] = Unit
AreBytes (byte ∷ rest) = (byte < 256) × AreBytes rest
