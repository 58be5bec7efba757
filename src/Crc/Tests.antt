-- ===== src/Crc/Tests.antt =====
-- The checksum of "123456789", and runs of the theorems.
use cosmos_pc.Prelude.{ℕ, ◌≡◌, refl, List, [], ◌∷◌, ◌++◌, arith}
use cosmos_pc.Crc.{crc_round, crc_loop, update_crc16, crc_data, cal_crc16, sum_data, cal_checksum}
use cosmos_pc.Crc.Spec.{remainder, message_bits}
use cosmos_pc.Crc.Loop.{cal_crc16-remainder}
use cosmos_pc.Crc.Detect.{cal_crc16_detects}

abbrev check_input : List ℕ
check_input = 0x31 ∷ 0x32 ∷ 0x33 ∷ 0x34 ∷ 0x35 ∷ 0x36 ∷ 0x37 ∷ 0x38 ∷ 0x39 ∷ []

cal_crc16_check : cal_crc16 check_input ≡ 0x31c3
unfolding cal_crc16 crc_data update_crc16 crc_loop crc_round
cal_crc16_check = refl

cal_checksum_check : cal_checksum check_input ≡ 0xdd
unfolding cal_checksum sum_data
cal_checksum_check = refl

cal_crc16-remainder_example :
    cal_crc16 check_input ≡ remainder 0 (message_bits (check_input ++ 0 ∷ 0 ∷ []))
cal_crc16-remainder_example = cal_crc16-remainder check_input (omega arith)

cal_crc16_detects_example : ◌≡◌ {A = ℕ} 2 2 × ◌≡◌ {A = ℕ} 3 3
cal_crc16_detects_example =
    cal_crc16_detects (1 ∷ []) (4 ∷ []) 2 3 2 3 (omega arith) (omega arith) refl
