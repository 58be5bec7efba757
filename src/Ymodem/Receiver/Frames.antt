-- ===== src/Ymodem/Receiver/Frames.antt =====
-- The receiver on the packets of a session of `Ymodem_Transmit`.
use cosmos_pc.Prelude.{
  ℕ, zero, suc, ◌+◌, ◌-◌, ◌≤◌, ◌<◌, ◌≡◌, refl, sym, ap, ap₂, ◌∙◌, Bool-cases, inl, inr, true, false,
  some, List, [], ◌∷◌, ◌++◌, append_assoc, append-nil, arith, length, take, drop, replicate,
  length-append, length-take, length-drop, length-replicate, take_all, take-append_le,
  take-append_self, drop-append_length, min, u8, leb, ◌==◌, if◌then◌else◌,
}
use cosmos_pc.Crc.{crc_data, cal_crc16}
use cosmos_pc.Crc.Spec.{AreBytes}
use cosmos_pc.Crc.Loop.{AreBytes-append}
use cosmos_pc.Crc.Detect.{crc_bytes, crc_data-cal_crc16}
use cosmos_pc.Ymodem.Packet.{soh, stx, packet_1k_size}
use cosmos_pc.Ymodem.Packet.Content.{data_frame}
use cosmos_pc.Ymodem.Transmit.{pkt_size}
use cosmos_pc.Ymodem.Transmit.Outcomes.{sealed}
use cosmos_pc.Ymodem.Transmit.Stream.{data_stream, pkt_size_bounds}
use cosmos_pc.Ymodem.Receiver.{data_length, receive_body, receive_frame, receive_data}

pub AreBytes-take : (n : ℕ) (xs : List ℕ) → AreBytes xs → AreBytes (take n xs)
AreBytes-take zero xs h = tt
AreBytes-take (suc n) [] h = tt
AreBytes-take (suc n) (x ∷ xs) (small, h) = (small, AreBytes-take n xs h)

pub AreBytes-drop : (n : ℕ) (xs : List ℕ) → AreBytes xs → AreBytes (drop n xs)
AreBytes-drop zero xs h = h
AreBytes-drop (suc n) [] h = tt
AreBytes-drop (suc n) (x ∷ xs) (small, h) = AreBytes-drop n xs h

pub AreBytes-replicate : (n v : ℕ) → v < 256 → AreBytes (replicate n v)
AreBytes-replicate zero v h = tt
AreBytes-replicate (suc n) v h = (h, AreBytes-replicate n v h)

-- A run and the run behind it.
take-split : (k n m : ℕ) (xs : List ℕ) → m ≡ k + n → take k xs ++ take n (drop k xs) ≡ take m xs
take-split zero n m xs e = let same : n ≡ m = omega arith in ap (λ i. take i xs) same
take-split (suc k) n zero xs e = absurd (omega arith)
take-split (suc k) zero (suc m) [] e = refl
take-split (suc k) (suc n) (suc m) [] e = refl
take-split (suc k) n (suc m) (x ∷ xs) e = ap (◌∷◌ x) (take-split k n m xs (omega arith))

take-join :
    (size n : ℕ) (xs : List ℕ) → take (min size n) xs ++ take (size - n) (drop n xs) ≡ take size xs
take-join size n xs = elim (Bool-cases (leb n size)) [
  | inl more ↦
      let first : min size n ≡ n = ground arith in
      ap (λ k. take k xs ++ take (size - n) (drop n xs)) first
      ∙ take-split n (size - n) size xs (ground arith)
  | inr all ↦
      let first : min size n ≡ size = ground arith in
      let nothing : size - n ≡ 0 = ground arith in
      ap₂ (λ k m. take k xs ++ take m (drop n xs)) first nothing ∙ append-nil (take size xs)
]

receive_body-sealed :
    (seq n comp : ℕ) (payload tail : List ℕ)
    → comp ≡ 255 - seq
    → length payload ≡ n
    → AreBytes payload
    → receive_body seq n seq comp ((payload ++ crc_bytes (cal_crc16 payload)) ++ tail)
      ≡ some (payload, tail)
unfolding receive_body
receive_body-sealed seq n comp payload tail e size all =
    let check = crc_bytes (cal_crc16 payload) in
    let whole = payload ++ check in
    let long : length whole ≡ n + 2 = omega (arith, length-append payload check) in
    let there : leb (n + 2) (length (whole ++ tail)) ≡ true =
      ground (arith, length-append whole tail) in
    let cut : take (n + 2) (whole ++ tail) ≡ whole =
      ap (λ k. take k (whole ++ tail)) (sym long) ∙ take-append_self whole tail in
    let inside : take n (whole ++ tail) ≡ payload =
      take-append_le n whole tail (omega arith)
      ∙ take-append_le n payload check (omega arith)
      ∙ take_all n payload (omega arith) in
    let right : (crc_data 0 whole == 0) ≡ true = ground (arith, crc_data-cal_crc16 payload all) in
    let number : (seq == seq) ≡ true = ground arith in
    let complement : (comp == 255 - seq) ≡ true = ground arith in
    rw (number, complement, there, cut, right, inside)
      (ap (λ l. some (payload, l)) (drop-append_length whole tail (n + 2) (sym long)))

-- A sealed packet is taken.
pub receive_frame-sealed :
    (start seq comp n : ℕ) (payload tail : List ℕ)
    → data_length start ≡ some n
    → comp ≡ 255 - seq
    → length payload ≡ n
    → AreBytes payload
    → receive_frame seq (sealed (start ∷ seq ∷ comp ∷ payload) ++ tail) ≡ some (payload, tail)
unfolding receive_frame
receive_frame-sealed start seq comp n payload tail known e size all =
    rw (known, receive_frame) (receive_body-sealed seq n comp payload tail e size all)

-- Cut at the size, the filler is gone.
take_padded :
    (size full k : ℕ) (source : List ℕ)
    → k ≡ min size full
    → size ≤ length source
    → take size (take k source ++ replicate (full - size) 0x1a) ≡ take k source
take_padded size full k source e there = elim (Bool-cases (leb size full)) [
  | inl fits ↦
      let same : k ≡ size = ground arith in
      let long = length-take k source in
      take-append_le size (take k source) (replicate (full - size) 0x1a) (omega arith)
      ∙ take_all size (take k source) (omega arith)
  | inr over ↦
      let nothing : full - size ≡ 0 = ground arith in
      let short : length (take k source) ≤ size = ground (arith, length-take k source) in
      ap (λ m. take size (take k source ++ replicate m 0x1a)) nothing
      ∙ ap (take size) (append-nil (take k source))
      ∙ take_all size (take k source) short
]

start_known :
    (size : ℕ) → data_length (if leb packet_1k_size size then stx else soh) ≡ some (pkt_size size)
unfolding data_length pkt_size
start_known size = elim (Bool-cases (leb packet_1k_size size)) [
  | inl big ↦ rw big
  | inr small ↦ rw small
]

module _ (source : List ℕ) (blk size : ℕ) (all : AreBytes source)
    (there : size ≤ length source) where
  abbrev pub frame_data : List ℕ
  frame_data = take (min size (pkt_size size)) source ++ replicate (pkt_size size - size) 0x1a

  length-frame_data : length frame_data ≡ pkt_size size
  length-frame_data = omega (
    arith,
    length-append (take (min size (pkt_size size)) source) (replicate (pkt_size size - size) 0x1a),
    length-take (min size (pkt_size size)) source,
    length-replicate (pkt_size size - size) (let z : ℕ = 0x1a in z),
  )

  take-frame_data : take size frame_data ≡ take (min size (pkt_size size)) source
  take-frame_data = take_padded size (pkt_size size) (min size (pkt_size size)) source refl there

  receive_frame-data_frame :
      (tail : List ℕ)
      → receive_frame (u8 blk) (sealed (data_frame source (u8 blk) size) ++ tail)
        ≡ some (frame_data, tail)
  unfolding data_frame pkt_size data_length
  receive_frame-data_frame tail =
      receive_frame-sealed (if leb packet_1k_size size then stx else soh) (u8 blk)
        (u8 (255 - u8 blk)) (pkt_size size) frame_data tail (start_known size) (omega arith)
        length-frame_data
        (AreBytes-append (take (min size (pkt_size size)) source)
          (replicate (pkt_size size - size) 0x1a)
          (AreBytes-take (min size (pkt_size size)) source all)
          (AreBytes-replicate (pkt_size size - size) 0x1a (omega arith)))

receive_data-step :
    (rounds size seq : ℕ) (bytes payload rest content tail : List ℕ)
    → (size == 0) ≡ false
    → receive_frame seq bytes ≡ some (payload, rest)
    → receive_data rounds (size - length payload) (u8 (seq + 1)) rest ≡ some (content, tail)
    → receive_data (suc rounds) size seq bytes ≡ some (take size payload ++ content, tail)
unfolding receive_data
receive_data-step rounds size seq bytes payload rest content tail more taken others =
    rw (more, taken, others, receive_data)

receive_data-none :
    (rounds seq : ℕ) (bytes : List ℕ) → receive_data rounds 0 seq bytes ≡ some ([], bytes)
unfolding receive_data
receive_data-none zero seq bytes = refl
receive_data-none (suc rounds) seq bytes = refl

-- The packets of a file of bytes, taken by the receiver, are the file.
pub receive_data-data_stream :
    (rounds size blk : ℕ) (source tail : List ℕ)
    → AreBytes source
    → size ≤ length source
    → size ≤ rounds
    → receive_data rounds size (u8 blk) (data_stream rounds source size blk ++ tail)
      ≡ some (take size source, tail)
unfolding data_stream
receive_data-data_stream zero zero blk source tail all there le = receive_data-none 0 (u8 blk) tail
receive_data-data_stream zero (suc size) blk source tail all there le = absurd (omega arith)
receive_data-data_stream (suc rounds) zero blk source tail all there le =
    receive_data-none (suc rounds) (u8 blk) tail
receive_data-data_stream (suc rounds) (suc size) blk source tail all there le =
    let n = pkt_size (suc size) in
    let frame = sealed (data_frame source (u8 blk) (suc size)) in
    let left = suc size - n in
    let stream = data_stream rounds (drop n source) left (blk + 1) in
    let payload = frame_data source blk (suc size) all there in
    let others =
      receive_data-data_stream rounds left (blk + 1) (drop n source) tail
        (AreBytes-drop n source all) (omega (arith, length-drop n source))
        (omega (arith, (pkt_size_bounds (suc size)).0)) in
    let next : u8 (u8 blk + 1) ≡ u8 (blk + 1) = omega arith in
    ap (receive_data (suc rounds) (suc size) (u8 blk)) (append_assoc frame stream tail)
    ∙ receive_data-step rounds (suc size) (u8 blk) (frame ++ (stream ++ tail)) payload
        (stream ++ tail) (take left (drop n source)) tail (ground arith)
        (receive_frame-data_frame source blk (suc size) all there (stream ++ tail))
        (ap₂ (λ k m. receive_data rounds (suc size - k) m (stream ++ tail))
            (length-frame_data source blk (suc size) all there) next
          ∙ others)
    ∙ ap (λ l. some (l ++ take left (drop n source), tail))
        (take-frame_data source blk (suc size) all there)
    ∙ ap (λ l. some (l, tail)) (take-join (suc size) n source)
