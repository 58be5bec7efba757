-- ===== src/Ymodem/Transmit.antt =====
-- `Ymodem_Transmit` of modem/ymodem.cpp.
pub mod Outcomes
pub mod Stream
pub mod Limit
pub mod Session
use cosmos_pc.Prelude.{
  ℕ, zero, suc, ◌+◌, ◌-◌, ◌*◌, ◌/◌, ◌%◌, Bool, true, false, Option, none, some, List, [], ◌∷◌, ◌++◌,
  take, drop, set, replicate, u8, u16, u32, ltb, leb, ◌==◌, if◌then◌else◌,
}
use cosmos_pc.Os.{Os, Sys}
use cosmos_pc.Crc.{cal_crc16, cal_checksum}
use cosmos_pc.Ymodem.Uart.{Bcb2win, send_byte, send_packet, wait_for_char}
use cosmos_pc.Ymodem.Packet.{
  packet_header, packet_overhead, packet_size, packet_1k_size, file_name_length, soh, fill,
  prepare_initial_packet, prepare_packet,
}

abbrev pub eot : ℕ
eot = 0x04

abbrev pub ack : ℕ
ack = 0x06

abbrev pub crc16 : ℕ
crc16 = 0x43

-- `USER_FLASH_END_ADDRESS - APPLICATION_ADDRESS + 1`
abbrev pub user_flash_size : ℕ
user_flash_size = 0x080fffff - 0x08020000 + 1

-- What `return -1` is in a `uint8_t`.
abbrev pub minus_one : ℕ
minus_one = 255

-- Either the control goes on with the packet buffer, or the function has returned a code, or a loop
-- of `Ymodem_SendPacket` has used up its fuel.
pub data Outcome (os : Os) : Type 0 where
  goes_on : List ℕ → Sys os → Outcome os
  returned : ℕ → Sys os → Outcome os
  hung : Outcome os

-- The packet with its check stored behind `n` bytes of data, and the length to send. The local
-- `CRC16_F` is 1, so that the branch of the sum is not taken; it stores the sum at `PACKET_SIZE` for
-- every `n`.
unfoldable pub seal : ℕ → List ℕ → ℕ → List ℕ × ℕ
seal crc16_f packet n =
    if crc16_f == 0
    then (
      set packet (packet_size + packet_header + 0) (cal_checksum (take n (drop 3 packet))),
      packet_size + packet_header + 1,
    )
    else let temp_crc = cal_crc16 (take n (drop 3 packet)) in
      (
        set (set packet (n + packet_header + 0) (temp_crc / 256 % 256)) (n + packet_header + 1)
            (temp_crc % 256),
        n + packet_header + 2,
      )

-- `if (size >= PACKET_1K_SIZE) pktSize = PACKET_1K_SIZE; else pktSize = PACKET_SIZE;`
unfoldable pub pkt_size : ℕ → ℕ
pkt_size size = if leb packet_1k_size size then packet_1k_size else packet_size

-- `size` and `blkNumber` behind a packet; `none` is `return 0xFF`.
unfoldable pub advance : ℕ → ℕ → Option (ℕ × ℕ)
advance size blk_number =
    if ltb (pkt_size size) size
    then if blk_number == user_flash_size / 1024
      then none
      else some (size - pkt_size size, u16 (blk_number + 1))
    else some (0, blk_number)

module _ {os : Os} where
  -- Go on with what comes next, unless the function has returned.
  unfoldable pub and_then : Outcome os → (List ℕ → Sys os → Outcome os) → Outcome os
  and_then (goes_on packet s) next = next packet s
  and_then (returned code s) next = returned code s
  and_then hung next = hung

  unfoldable pub after_sending : Option (List ℕ × Sys os) → Outcome os
  after_sending none = hung
  after_sending (some r) = goes_on r.0 r.1

  -- `SendDlgItemMessage(…, PBM_SETPOS, 100*(sizeFile - size)/sizeFile, 0)`
  unfoldable pub show_progress : ℕ → ℕ → Sys os → Sys os
  show_progress size_file size s = record s {
    progress = (u32 (100 * (size_file - size)) / size_file) ∷ s.progress;
  }

module _ (os : Os) (f : Bcb2win) (fuel : ℕ) where
  -- `if (!Ymodem_WaitForChar(ch)) return -1;`
  unfoldable pub await : ℕ → List ℕ → Sys os → Outcome os
  await ch packet s =
      let (answered, s') = wait_for_char os f ch s in
      if answered then goes_on packet s' else returned minus_one s'

  -- Seal and send a packet of `n` data bytes, and wait for `ACK`.
  unfoldable pub send_sealed : List ℕ → ℕ → Sys os → Outcome os
  send_sealed packet n s =
      let (ready, length) = seal 1 packet n in
      and_then (after_sending (send_packet os f fuel ready length s)) (await ack)

  -- The first block: the packet with the name and the size, `ACK`, then 'C'.
  unfoldable pub send_header : List ℕ → List ℕ → ℕ → Sys os → Outcome os
  send_header packet filename size_file s =
      and_then (send_sealed (prepare_initial_packet packet filename size_file) packet_size s)
        (await crc16)

  -- `while (size)`, with the rounds left, `buf_ptr` as the bytes that it points at, and the variables
  -- `packet_data`, `size` and `blkNumber`.
  unfoldable pub send_blocks : ℕ → ℕ → List ℕ → ℕ → ℕ → List ℕ → Sys os → Outcome os
  send_blocks zero size_file buf_ptr size blk_number packet s =
      if size == 0 then goes_on packet s else hung
  send_blocks (suc rounds) size_file buf_ptr size blk_number packet s = elim (size == 0) [
    | true ↦ goes_on packet s
    | false ↦
        and_then
          (send_sealed (prepare_packet buf_ptr packet (u8 blk_number) size) (pkt_size size) s)
          (λ packet' s'. elim (advance size blk_number) [
            | none ↦ returned 0xff s'
            | some left ↦
                send_blocks rounds size_file (drop (pkt_size size) buf_ptr) left.0 left.1 packet'
                  (show_progress size_file left.0 s')
          ])
  ]

  -- The last two bytes, sent one by one, and the end.
  unfoldable pub send_last_crc : List ℕ → Sys os → Outcome os
  send_last_crc packet s =
      let temp_crc = cal_crc16 (take packet_size (drop 3 packet)) in
      let s2 = send_byte os f (u8 (temp_crc / 256)) s in
      let s3 = send_byte os f (temp_crc % 256) s2 in
      and_then (await ack packet s3) (λ packet' s'. returned 0 s')

  -- The packet of zeros that ends the session.
  unfoldable pub send_empty : List ℕ → Sys os → Outcome os
  send_empty packet s =
      let marked = set (set (set packet 0 soh) 1 0) 2 0xff in
      let empty = fill packet_size packet_header 0x00 marked in
      and_then (after_sending (send_packet os f fuel empty (packet_size + packet_header) s))
        send_last_crc

  -- `EOT`, its `ACK`, and the last packet.
  unfoldable pub send_end : List ℕ → Sys os → Outcome os
  send_end packet s = and_then (await ack packet (send_byte os f eot s)) send_empty

  -- `Ymodem_Transmit`. `packet` and `last` are what the stack holds: the 1029 bytes of `packet_data`,
  -- and `filename[255]`, which the copy of the name leaves out. The name is the array passed in.
  unfoldable pub transmit : List ℕ → ℕ → List ℕ → List ℕ → ℕ → Sys os → Outcome os
  transmit packet last buf send_file_name size_file s =
      let filename = take (file_name_length - 1) send_file_name ++ last ∷ [] in
      and_then (send_header packet filename size_file s) (λ packet' s'.
        and_then (send_blocks size_file size_file buf size_file 1 packet' s') send_end)
