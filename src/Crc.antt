-- ===== src/Crc.antt =====
-- `UpdateCRC16`, `Cal_CRC16` and `CalChecksum` of modem/ymodem.cpp. A buffer with its length is the
-- list of its bytes; a `uint32_t` is a number below 2 ^ 32.
pub mod Spec
pub mod Loop
pub mod Linear
pub mod Detect
pub mod Tests
use mathlib.Core.Option.{get_or}
use cosmos_pc.Prelude.{
  ℕ, zero, suc, ◌+◌, ◌*◌, ◌/◌, bit_and, bit_or, bit_xor, Option, none, some, List, [], ◌∷◌, u8, u16,
  u32, ◌==◌, if◌then◌else◌,
}

-- The body of the `do` loop after `in <<= 1`: the new `crc`.
unfoldable pub crc_round : ℕ → ℕ → ℕ
crc_round crc inp =
    let shifted = u32 (crc * 2) in
    let fed = if bit_and inp 0x100 == 0 then shifted else u32 (shifted + 1) in
    if bit_and fed 0x10000 == 0 then fed else bit_xor fed 0x1021

-- `do { … } while (!(in & 0x10000))`; `none` means that the fuel ran out.
unfoldable pub crc_loop : ℕ → ℕ → ℕ → Option ℕ
crc_loop zero crc inp = none
crc_loop (suc fuel) crc inp =
    let shifted = u32 (inp * 2) in
    let crc' = crc_round crc shifted in
    let rest = crc_loop fuel crc' shifted in
    if bit_and shifted 0x10000 == 0 then rest else some crc'

-- The arguments are converted to `uint16_t` and `uint8_t`. Eight rounds are enough (`Crc.Loop`).
unfoldable pub update_crc16 : ℕ → ℕ → ℕ
update_crc16 crc_in byte = u16 (get_or (crc_loop 8 (u16 crc_in) (bit_or (u8 byte) 0x100)) 0)

-- The `while` loop over the data.
unfoldable pub crc_data : ℕ → List ℕ → ℕ
crc_data crc [] = crc
crc_data crc (byte ∷ rest) = crc_data (update_crc16 crc byte) rest

unfoldable pub cal_crc16 : List ℕ → ℕ
cal_crc16 bytes = u16 (update_crc16 (update_crc16 (crc_data 0 bytes) 0) 0)

unfoldable pub sum_data : ℕ → List ℕ → ℕ
sum_data sum [] = sum
sum_data sum (byte ∷ rest) = sum_data (u32 (sum + byte)) rest

unfoldable pub cal_checksum : List ℕ → ℕ
cal_checksum bytes = u8 (sum_data 0 bytes)
