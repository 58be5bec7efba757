-- ===== src/Ymodem/Transmit/Limit.antt =====
-- The limit on the number of blocks in `Ymodem_Transmit`, counted as if every packet had 1024 bytes.
use cosmos_pc.Prelude.{
  ℕ, zero, suc, ◌+◌, ◌-◌, ◌*◌, ◌/◌, ◌≤◌, ◌<◌, ◌≡◌, ◌≢◌, sym, ap, ◌∙◌, Bool-cases, inl, inr, Option,
  none, some, List, ◌∷◌, ◌++◌, arith, take, drop, true, false, u8, u16, ltb, leb, ◌==◌, [],
}
use cosmos_pc.Os.{Os, Sys}
use cosmos_pc.Ymodem.Uart.{Bcb2win, send_packet, wait_for_char}
use cosmos_pc.Ymodem.Packet.{file_name_length, packet_size, prepare_packet, prepare_initial_packet}
use cosmos_pc.Ymodem.Transmit.{
  Outcome, goes_on, returned, hung, ack, crc16, user_flash_size, pkt_size, advance, await,
  send_sealed, send_header, send_blocks, show_progress, send_end, transmit, and_then, after_sending,
  seal,
}

-- The control goes on, or hangs, or the function has returned 255.
pub data IsPart (os : Os) : Outcome os → Type 0 where
  part_goes_on : (packet : List ℕ) (s : Sys os) → IsPart os (goes_on packet s)
  part_hung : IsPart os hung
  part_failed : (s : Sys os) → IsPart os (returned 255 s)

-- The function hangs, or has returned 255.
pub data IsFailure (os : Os) : Outcome os → Type 0 where
  is_hung : IsFailure os hung
  has_failed : (s : Sys os) → IsFailure os (returned 255 s)

module _ {os : Os} where
  IsPart-and_then :
      (o : Outcome os) (next : List ℕ → Sys os → Outcome os)
      → IsPart os o
      → ((packet : List ℕ) (s : Sys os) → IsPart os (next packet s))
      → IsPart os (and_then o next)
  unfolding and_then
  IsPart-and_then _ next (part_goes_on packet s) k = k packet s
  IsPart-and_then _ next part_hung k = part_hung
  IsPart-and_then _ next (part_failed s) k = part_failed s

  IsFailure-and_then :
      (o : Outcome os) (next : List ℕ → Sys os → Outcome os)
      → IsPart os o
      → ((packet : List ℕ) (s : Sys os) → IsFailure os (next packet s))
      → IsFailure os (and_then o next)
  unfolding and_then
  IsFailure-and_then _ next (part_goes_on packet s) k = k packet s
  IsFailure-and_then _ next part_hung k = is_hung
  IsFailure-and_then _ next (part_failed s) k = has_failed s

  IsFailure-stops :
      (o : Outcome os) (next : List ℕ → Sys os → Outcome os)
      → IsFailure os o
      → IsFailure os (and_then o next)
  unfolding and_then
  IsFailure-stops _ next is_hung = is_hung
  IsFailure-stops _ next (has_failed s) = has_failed s

  after_sending-IsPart : (r : Option (List ℕ × Sys os)) → IsPart os (after_sending r)
  unfolding after_sending
  after_sending-IsPart none = part_hung
  after_sending-IsPart (some r) = part_goes_on r.0 r.1

-- At the limit any rest but one full packet is too much.
advance_at_limit : (size : ℕ) → 128 < size → size ≢ 1024 → advance size 896 ≡ none
unfolding advance pkt_size
advance_at_limit size large not_full = elim (Bool-cases (leb 1024 size)) [
  | inl big ↦ let more : ltb 1024 size ≡ true = ground arith in rw (big, more)
  | inr small ↦ let more : ltb 128 size ≡ true = ground arith in rw (small, more)
]

advance_before :
    (size blk : ℕ)
    → 1024 < size
    → blk < 896
    → (pkt_size size ≡ 1024) × (advance size blk ≡ some (size - 1024, blk + 1))
unfolding advance pkt_size
advance_before size blk large early =
    let big : leb 1024 size ≡ true = ground arith in
    let more : ltb 1024 size ≡ true = ground arith in
    let room : (blk == user_flash_size / 1024) ≡ false = ground arith in
    let next : u16 (blk + 1) ≡ blk + 1 = omega arith in (rw big, rw (big, more, room, next))

module _ (os : Os) (f : Bcb2win) (fuel : ℕ) where
  await-IsPart : (ch : ℕ) (packet : List ℕ) (s : Sys os) → IsPart os (await os f fuel ch packet s)
  unfolding await
  await-IsPart ch packet s = elim (Bool-cases (wait_for_char os f ch s).0) [
    | inl e ↦ rw (e, await) (part_goes_on packet (wait_for_char os f ch s).1)
    | inr e ↦ rw (e, await) (part_failed (wait_for_char os f ch s).1)
  ]

  send_sealed-IsPart :
      (packet : List ℕ) (n : ℕ) (s : Sys os) → IsPart os (send_sealed os f fuel packet n s)
  unfolding send_sealed
  send_sealed-IsPart packet n s =
      IsPart-and_then _ (await os f fuel ack)
        (after_sending-IsPart (send_packet os f fuel (seal 1 packet n).0 (seal 1 packet n).1 s))
        (λ packet' s'. await-IsPart ack packet' s')

  send_header-IsPart :
      (packet filename : List ℕ) (size : ℕ) (s : Sys os)
      → IsPart os (send_header os f fuel packet filename size s)
  unfolding send_header
  send_header-IsPart packet filename size s =
      IsPart-and_then _ (await os f fuel crc16)
        (send_sealed-IsPart (prepare_initial_packet packet filename size) packet_size s)
        (λ packet' s'. await-IsPart crc16 packet' s')

  send_blocks-IsFailure :
      (rounds size_file : ℕ) (source : List ℕ) (size blk t : ℕ) (packet : List ℕ) (s : Sys os)
      → size ≡ (896 - blk) * 1024 + t
      → blk ≤ 896
      → 128 < t
      → t ≢ 1024
      → IsFailure os (send_blocks os f fuel rounds size_file source size blk packet s)
  unfolding send_blocks
  send_blocks-IsFailure zero size_file source size blk t packet s e limit large not_full =
      let more : (size == 0) ≡ false = ground arith in rw (more, send_blocks) is_hung
  send_blocks-IsFailure (suc rounds) size_file source size blk t packet s e limit large not_full =
      let more : (size == 0) ≡ false = ground arith in
      rw (more, send_blocks)
        (IsFailure-and_then _ _
          (send_sealed-IsPart (prepare_packet source packet (u8 blk) size) (pkt_size size) s)
          (λ packet' s'. elim (Bool-cases (ltb blk 896)) [
            | inl early ↦
                let step = advance_before size blk (ground arith) (ground arith) in
                rw (step.1, send_blocks)
                  (send_blocks-IsFailure rounds size_file (drop (pkt_size size) source)
                    (size - 1024) (blk + 1) t packet' (show_progress size_file (size - 1024) s')
                    (ground arith) (ground arith) large not_full)
            | inr late ↦
                let at_limit : blk ≡ 896 = ground arith in
                let rest : size ≡ t = omega arith in
                let stop : advance size blk ≡ none =
                  ap (λ b. advance size b) at_limit
                  ∙ advance_at_limit size (omega arith) (λ full. not_full (sym rest ∙ full)) in
                rw (stop, send_blocks) (has_failed s')
          ]))

  -- `Ymodem_Transmit` does not return 0 for a file of more than 895 * 1024 + 128 bytes, unless it
  -- has 896 * 1024: the bytes behind the last full packet go out in packets of 128, for which no block
  -- number is left.
  pub transmit_too_large :
      (packet : List ℕ) (last : ℕ) (buf name : List ℕ) (size : ℕ) (s : Sys os)
      → 895 * 1024 + 128 < size
      → size ≢ 896 * 1024
      → IsFailure os (transmit os f fuel packet last buf name size s)
  unfolding transmit
  transmit_too_large packet last buf name size s large not_full =
      IsFailure-and_then _ _
        (send_header-IsPart packet (take (file_name_length - 1) name ++ last ∷ []) size s)
        (λ packet' s'. IsFailure-stops _ (send_end os f fuel) (
          send_blocks-IsFailure size size buf size 1 (size - 895 * 1024) packet' s' (omega arith)
            (omega arith) (omega arith) (λ full. not_full (omega (arith, full)))))
