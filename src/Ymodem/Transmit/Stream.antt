-- ===== src/Ymodem/Transmit/Stream.antt =====
-- What a session of `Ymodem_Transmit` is to send: the packets, each with its check, in order.
use cosmos_pc.Prelude.{
  ℕ, zero, suc, ◌+◌, ◌-◌, ◌≤◌, ◌≡◌, refl, sym, ap, ◌∙◌, Bool-cases, inl, inr, ◌⊎◌, none, some, List,
  [], ◌∷◌, ◌++◌, arith, length, take, drop, set, replicate, take_all, take-overlay_le, length-take,
  length-append, length-replicate, length-write_at, overlay, u8, u16, ltb, ◌==◌, min, ◌/◌,
}
use cosmos_pc.Ymodem.Packet.{
  packet_header, packet_size, soh, fill, prepare_initial_packet, prepare_packet,
}
use cosmos_pc.Ymodem.Packet.Content.{
  initial_head, data_frame, prepare_initial_packet-overlay, prepare_packet-overlay, marked_lem,
  fill-overlay,
}
use cosmos_pc.Ymodem.Transmit.{eot, user_flash_size, pkt_size, advance}
use cosmos_pc.Ymodem.Transmit.Outcomes.{sealed}

-- The frame of the first block: the header, the name, a zero, the digits of the size and zeros, cut
-- at the length of a packet.
unfoldable pub header_frame : List ℕ → ℕ → List ℕ
header_frame filename size =
    let head = initial_head filename size in
    take (packet_size + packet_header)
      (head ++ replicate (packet_size + packet_header - length head) 0)

-- The packets of `size` bytes, from the block `blk` on.
unfoldable pub data_stream : ℕ → List ℕ → ℕ → ℕ → List ℕ
data_stream zero source size blk = []
data_stream (suc rounds) source zero blk = []
data_stream (suc rounds) source (suc size) blk =
    sealed (data_frame source (u8 blk) (suc size))
    ++ data_stream rounds (drop (pkt_size (suc size)) source) (suc size - pkt_size (suc size))
        (blk + 1)

-- The packet of zeros.
unfoldable pub empty_frame : List ℕ
empty_frame = soh ∷ 0x00 ∷ 0xff ∷ replicate packet_size 0

-- What the end of a session sends.
unfoldable pub end_stream : List ℕ
end_stream = (eot ∷ []) ++ sealed empty_frame

-- A whole session.
abbrev pub session : List ℕ → List ℕ → ℕ → List ℕ
session filename source size =
    sealed (header_frame filename size) ++ (data_stream size source size 1 ++ end_stream)

pub take-header_frame :
    (packet filename : List ℕ) (size : ℕ)
    → 131 ≤ length packet
    → take (128 + 3) (prepare_initial_packet packet filename size) ≡ header_frame filename size
unfolding header_frame
take-header_frame packet filename size room =
    let head = initial_head filename size in
    ap (take 131) (prepare_initial_packet-overlay packet filename size)
    ∙ take-overlay_le 131 (head ++ replicate (131 - length head) 0) packet
        (omega (
          arith,
          length-append head (replicate (131 - length head) 0),
          length-replicate (131 - length head) (let z : ℕ = 0 in z),
        ))
        room

pub length-prepare_initial_packet :
    (packet filename : List ℕ) (size : ℕ)
    → length (prepare_initial_packet packet filename size) ≡ length packet
length-prepare_initial_packet packet filename size =
    ap length (prepare_initial_packet-overlay packet filename size)
    ∙ length-write_at 0
        (initial_head filename size
          ++ replicate (packet_size + packet_header - length (initial_head filename size)) 0)
        packet

length-frame :
    (start seq comp full size : ℕ) (source : List ℕ)
    → size ≤ length source
    → length (start ∷ seq ∷ comp ∷ (take (min size full) source ++ replicate (full - size) 0x1a))
      ≡ full + 3
length-frame start seq comp full size source h = omega (
  arith,
  length-append (take (min size full) source) (replicate (full - size) 0x1a),
  length-replicate (full - size) (let z : ℕ = 0x1a in z),
  length-take (min size full) source,
)

length-data_frame :
    (source : List ℕ) (k size : ℕ)
    → size ≤ length source
    → length (data_frame source k size) ≡ pkt_size size + 3
unfolding data_frame pkt_size
length-data_frame source k size h = length-frame 0 0 0 (pkt_size size) size source h

pub pkt_size_bounds : (size : ℕ) → (128 ≤ pkt_size size) × (pkt_size size ≤ 1024)
unfolding pkt_size
pkt_size_bounds size = ground arith

module _ (packet source : List ℕ) (k size : ℕ) (room : 1029 ≤ length packet)
    (there : size ≤ length source) where
  pub take-prepare_packet :
      take (pkt_size size + 3) (prepare_packet source packet k size) ≡ data_frame source k size
  take-prepare_packet =
      let frame = data_frame source k size in
      let long = length-data_frame source k size there in
      let bounds = pkt_size_bounds size in
      ap (take (pkt_size size + 3)) (prepare_packet-overlay source packet k size there)
      ∙ take-overlay_le (pkt_size size + 3) frame packet (omega (arith, long))
          (omega (arith, bounds.1))
      ∙ take_all (pkt_size size + 3) frame (omega (arith, long))

  pub length-prepare_packet : length (prepare_packet source packet k size) ≡ length packet
  length-prepare_packet =
      ap length (prepare_packet-overlay source packet k size there)
      ∙ length-write_at 0 (data_frame source k size) packet

data_stream_zero : (rounds : ℕ) (source : List ℕ) (blk : ℕ) → data_stream rounds source 0 blk ≡ []
unfolding data_stream
data_stream_zero zero source blk = refl
data_stream_zero (suc rounds) source blk = refl

-- Behind a packet, either the limit is reached, or the rest of the stream is what is left.
pub advance-cases :
    (size blk : ℕ)
    → blk ≤ 896
    → (advance size blk ≡ none)
      ⊎ ((left : ℕ) × (blk' : ℕ) × (advance size blk ≡ some (left, blk'))
          × (left ≡ size - pkt_size size)
          × (blk' ≤ 896)
          × ((rounds : ℕ) (source : List ℕ)
              → data_stream rounds source left blk'
                ≡ data_stream rounds source (size - pkt_size size) (blk + 1)))
unfolding advance
advance-cases size blk limit = elim (Bool-cases (ltb (pkt_size size) size)) [
  | inl more ↦ elim (Bool-cases (blk == user_flash_size / 1024)) [
    | inl full ↦ inl (rw (more, full))
    | inr room ↦
        let next : u16 (blk + 1) ≡ blk + 1 = omega arith in
        inr (
          size - pkt_size size,
          blk + 1,
          rw (more, room, next),
          refl,
          ground arith,
          λ rounds source. refl,
        )
  ]
  | inr done ↦
      let nothing : size - pkt_size size ≡ 0 = ground arith in
      inr (
        0,
        blk,
        rw done,
        sym nothing,
        limit,
        λ rounds source.
            data_stream_zero rounds source blk
            ∙ sym (data_stream_zero rounds source (blk + 1))
            ∙ ap (λ k. data_stream rounds source k (blk + 1)) (sym nothing),
      )
]

-- The buffer as `Ymodem_Transmit` fills it for the last packet.
abbrev pub emptied : List ℕ → List ℕ
emptied packet = fill packet_size packet_header 0x00 (set (set (set packet 0 soh) 1 0) 2 0xff)

emptied-overlay : (packet : List ℕ) → emptied packet ≡ overlay empty_frame packet
unfolding empty_frame
emptied-overlay packet =
    ap (fill 128 3 0) (marked_lem soh 0 0xff packet)
    ∙ fill-overlay 128 3 0 (soh ∷ 0 ∷ 0xff ∷ []) packet refl

pub length-emptied : (packet : List ℕ) → length (emptied packet) ≡ length packet
length-emptied packet = ap length (emptied-overlay packet) ∙ length-write_at 0 empty_frame packet

pub take-emptied : (packet : List ℕ) → 131 ≤ length packet → take 131 (emptied packet) ≡ empty_frame
unfolding empty_frame
take-emptied packet room =
    let sizes = length-replicate 128 (let z : ℕ = 0 in z) in
    ap (take 131) (emptied-overlay packet)
    ∙ take-overlay_le 131 empty_frame packet (omega (arith, sizes)) room
    ∙ take_all 131 empty_frame (omega (arith, sizes))
