-- ===== src/Crc/Detect.antt =====
-- `Cal_CRC16` (modem/ymodem.cpp) as a receiver uses it.
use cosmos_pc.Prelude.{
  ℕ, ◌+◌, ◌*◌, ◌/◌, ◌%◌, ◌<◌, bit_xor, ◌≡◌, ◌∙◌, ◌≡⟨◌⟩◌, ◌∎, sym, ap, ap₂, List, [], ◌∷◌, ◌++◌,
  arith, append_assoc,
}
use cosmos_pc.Bits.{bit_xor_self, zero-bit_xor, bit_xor_assoc, bit_xor_comm}
use cosmos_pc.Crc.{crc_data, cal_crc16}
use cosmos_pc.Crc.Spec.{bits, remainder, message_bits, AreBytes}
use cosmos_pc.Crc.Loop.{
  crc_data-lt, crc_data-append, crc_data-remainder, cal_crc16-crc_data, AreBytes-append,
}
use cosmos_pc.Crc.Linear.{AreDigits, remainder_split, remainder_fill, remainder_injective}

-- The two bytes in which `Ymodem_Transmit` stores a checksum, high byte first.
abbrev pub crc_bytes : ℕ → List ℕ
crc_bytes crc = (crc / 256) ∷ (crc % 256) ∷ []

bits_pair : (x y : ℕ) → x < 256 → y < 256 → message_bits (x ∷ y ∷ []) ≡ bits 16 (x * 256 + y)
bits_pair x y hx hy = ground arith

-- Two bytes after a register `r`: what two zero bytes would give, `^` the bytes.
crc_data_pair :
    (r x y : ℕ)
    → r < 65536
    → x < 256
    → y < 256
    → crc_data r (x ∷ y ∷ []) ≡ bit_xor (crc_data r (0 ∷ 0 ∷ [])) (x * 256 + y)
crc_data_pair r x y hr hx hy =
    let n = x * 256 + y in
    let whole : 0 + n % 65536 ≡ n = omega arith in
    crc_data r (x ∷ y ∷ [])
    ≡⟨ crc_data-remainder r (x ∷ y ∷ []) hr (hx, (hy, tt)) ⟩ remainder r (message_bits (x ∷ y ∷ []))
    ≡⟨ ap (remainder r) (bits_pair x y hx hy) ⟩ remainder r (bits 16 n)
    ≡⟨ ap (λ s. remainder s (bits 16 n)) (sym (bit_xor_comm r 0 ∙ zero-bit_xor r)) ⟩
      remainder (bit_xor r 0) (bits 16 n)
    ≡⟨ remainder_split 16 n r 0 hr (omega arith) ⟩
      bit_xor (remainder r (bits 16 0)) (remainder 0 (bits 16 n))
    ≡⟨ ap₂ bit_xor (sym (crc_data-remainder r (0 ∷ 0 ∷ []) hr (omega arith)))
        (remainder_fill 16 n 0 (omega arith) ∙ whole) ⟩
      bit_xor (crc_data r (0 ∷ 0 ∷ [])) n ∎

-- For a message of bytes, a receiver that runs the checksum loop from 0 over the message and its two
-- checksum bytes, the high one first, gets zero.
pub crc_data-cal_crc16 :
    (bytes : List ℕ) → AreBytes bytes → crc_data 0 (bytes ++ crc_bytes (cal_crc16 bytes)) ≡ 0
crc_data-cal_crc16 bytes all =
    let r = crc_data 0 bytes in
    let c = cal_crc16 bytes in
    let small : r < 65536 = crc_data-lt 0 bytes (omega arith) in
    let c_eq : c ≡ crc_data r (0 ∷ 0 ∷ []) =
      cal_crc16-crc_data bytes ∙ crc_data-append 0 bytes (0 ∷ 0 ∷ []) in
    let c_small : c < 65536 = rw c_eq (crc_data-lt r (0 ∷ 0 ∷ []) small) in
    let parts : c / 256 * 256 + c % 256 ≡ c = omega arith in
    crc_data-append 0 bytes (crc_bytes c)
    ∙ crc_data_pair r (c / 256) (c % 256) small (omega arith) (omega arith)
    ∙ ap₂ bit_xor (sym c_eq) parts
    ∙ bit_xor_self c

AreDigits-message_bits : (bytes : List ℕ) → AreDigits (message_bits bytes)
AreDigits-message_bits [] = tt
AreDigits-message_bits (byte ∷ rest) = ground (arith, AreDigits-message_bits rest)

-- Bytes after the register do not make up for a difference in it.
crc_data_injective :
    (r s : ℕ) (rest : List ℕ)
    → r < 65536
    → s < 65536
    → AreBytes rest
    → crc_data r rest ≡ crc_data s rest
    → r ≡ s
crc_data_injective r s rest hr hs all e =
    remainder_injective (message_bits rest) r s hr hs (AreDigits-message_bits rest)
      (sym (crc_data-remainder r rest hr all) ∙ e ∙ crc_data-remainder s rest hs all)

bit_xor_cancel : (c v w : ℕ) → bit_xor c v ≡ bit_xor c w → v ≡ w
bit_xor_cancel c v w e =
    v
    ≡⟨ sym (zero-bit_xor v) ⟩ bit_xor 0 v
    ≡⟨ ap (λ x. bit_xor x v) (sym (bit_xor_self c)) ⟩ bit_xor (bit_xor c c) v
    ≡⟨ bit_xor_assoc c c v ⟩ bit_xor c (bit_xor c v)
    ≡⟨ ap (bit_xor c) e ⟩ bit_xor c (bit_xor c w)
    ≡⟨ sym (bit_xor_assoc c c w) ⟩ bit_xor (bit_xor c c) w
    ≡⟨ ap (λ x. bit_xor x w) (bit_xor_self c) ⟩ bit_xor 0 w
    ≡⟨ zero-bit_xor w ⟩ w ∎

-- The checksum of a message with two bytes singled out, from the register before them.
cal_crc16_around :
    (before after : List ℕ) (x y : ℕ)
    → cal_crc16 (before ++ (x ∷ y ∷ after))
      ≡ crc_data (crc_data (crc_data 0 before) (x ∷ y ∷ [])) (after ++ 0 ∷ 0 ∷ [])
cal_crc16_around before after x y =
    let zeros : List ℕ = 0 ∷ 0 ∷ [] in
    cal_crc16-crc_data (before ++ (x ∷ y ∷ after))
    ∙ ap (crc_data 0) (append_assoc before (x ∷ y ∷ after) zeros)
    ∙ crc_data-append 0 before ((x ∷ y ∷ []) ++ (after ++ zeros))
    ∙ crc_data-append (crc_data 0 before) (x ∷ y ∷ []) (after ++ zeros)

-- If two messages agree but for two neighbouring bytes, with bytes there and behind, and have the same
-- checksum, they agree there too: any error within two neighbouring bytes is detected.
pub cal_crc16_detects :
    (before after : List ℕ) (x y x' y' : ℕ)
    → AreBytes after
    → AreBytes (x ∷ y ∷ x' ∷ y' ∷ [])
    → cal_crc16 (before ++ (x ∷ y ∷ after)) ≡ cal_crc16 (before ++ (x' ∷ y' ∷ after))
    → (x ≡ x') × (y ≡ y')
cal_crc16_detects before after x y x' y' ha (hx, (hy, (hx', (hy', _)))) e =
    let r = crc_data 0 before in
    let small : r < 65536 = crc_data-lt 0 before (omega arith) in
    let same_state : crc_data r (x ∷ y ∷ []) ≡ crc_data r (x' ∷ y' ∷ []) =
      crc_data_injective _ _ (after ++ 0 ∷ 0 ∷ []) (crc_data-lt r (x ∷ y ∷ []) small)
        (crc_data-lt r (x' ∷ y' ∷ []) small) (AreBytes-append after (0 ∷ 0 ∷ []) ha (omega arith))
        (sym (cal_crc16_around before after x y) ∙ e ∙ cal_crc16_around before after x' y') in
    let same : x * 256 + y ≡ x' * 256 + y' =
      bit_xor_cancel (crc_data r (0 ∷ 0 ∷ [])) _ _ (
        sym (crc_data_pair r x y small hx hy) ∙ same_state ∙ crc_data_pair r x' y' small hx' hy') in
    omega arith
