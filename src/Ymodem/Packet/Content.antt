-- ===== src/Ymodem/Packet/Content.antt =====
-- What the two `Prepare` functions leave in the packet buffer, as one run of bytes from its start.
use cosmos_pc.Prelude.{
  ℕ, zero, suc, ◌+◌, ◌-◌, ◌≤◌, ◌≡◌, refl, sym, ap, ap₂, ◌∙◌, Bool-cases, inl, inr, true, false,
  List, [], ◌∷◌, ◌++◌, append-nil, append_assoc, arith, length, get_or, set, take, drop, replicate,
  overlay, set-eq-write_at, set-write_at, length-append, u8, ltb, leb, ◌==◌, if◌then◌else◌, min,
  length-take,
}
use native.Mathlib.Numerals.{add-one}
use cosmos_pc.Ymodem.Packet.CString.{c_string}
use cosmos_pc.Ymodem.Packet.{
  packet_header, packet_size, packet_1k_size, file_name_length, soh, stx, int2str, copy_name,
  copy_digits, fill, prepare_initial_packet, copy_data, prepare_packet,
}

-- A run of `v`s behind a run.
pub fill-overlay :
    (rounds i v : ℕ) (xs a : List ℕ)
    → i ≡ length xs
    → fill rounds i v (overlay xs a) ≡ overlay (xs ++ replicate rounds v) a
unfolding fill
fill-overlay zero i v xs a e = ap (λ l. overlay l a) (sym (append-nil xs))
fill-overlay (suc rounds) i v xs a e =
    ap (fill rounds (i + 1) v) (set-write_at 0 i xs v a (omega arith))
    ∙ fill-overlay rounds (i + 1) v (xs ++ v ∷ []) a (omega (arith, length-append xs (v ∷ [])))
    ∙ ap (λ l. overlay l a) (append_assoc xs (v ∷ []) (replicate rounds v))

copy_data-overlay :
    (rounds i : ℕ) (source xs a : List ℕ)
    → i ≡ length xs
    → copy_data rounds i source (overlay xs a) ≡ overlay (xs ++ take rounds source) a
unfolding copy_data
copy_data-overlay zero i source xs a e = ap (λ l. overlay l a) (sym (append-nil xs))
copy_data-overlay (suc rounds) i [] xs a e = ap (λ l. overlay l a) (sym (append-nil xs))
copy_data-overlay (suc rounds) i (c ∷ source) xs a e =
    ap (copy_data rounds (i + 1) source) (set-write_at 0 i xs c a (omega arith))
    ∙ copy_data-overlay rounds (i + 1) source (xs ++ c ∷ []) a
        (omega (arith, length-append xs (c ∷ [])))
    ∙ ap (λ l. overlay l a) (append_assoc xs (c ∷ []) (take rounds source))

-- The index and the packet after a string was copied behind a run.
abbrev copied : ℕ → List ℕ → List ℕ → List ℕ → ℕ × List ℕ
copied i xs str a = (i + length str, overlay (xs ++ str) a)

copied-nil : (i : ℕ) (xs a : List ℕ) → (i, overlay xs a) ≡ copied i xs [] a
copied-nil i xs a = ap₂ (λ n l. (n, overlay l a)) (omega arith) (sym (append-nil xs))

copied-cons :
    (i c : ℕ) (xs str a : List ℕ) → copied (i + 1) (xs ++ c ∷ []) str a ≡ copied i xs (c ∷ str) a
copied-cons i c xs str a =
    ap₂ (λ n l. (n, overlay l a)) (omega arith) (append_assoc xs (c ∷ []) str)

copy_digits-overlay :
    (digits : List ℕ) (i : ℕ) (xs a : List ℕ)
    → i ≡ length xs
    → copy_digits digits i (overlay xs a) ≡ copied i xs (c_string digits) a
unfolding copy_digits
copy_digits-overlay [] i xs a e = copied-nil i xs a
copy_digits-overlay (c ∷ rest) i xs a e = elim (Bool-cases (c == 0)) [
  | inl end ↦ rw (end, copy_digits) (copied-nil i xs a)
  | inr more ↦
      rw (more, copy_digits, set-write_at 0 i xs c a (omega arith))
        (copy_digits-overlay rest (i + 1) (xs ++ c ∷ []) a
            (omega (arith, length-append xs (c ∷ [])))
          ∙ copied-cons i c xs (c_string rest) a)
]

-- The part of the name that the loop still reads: it begins with the byte that is tested.
c_string-take-drop :
    (rounds i : ℕ) (name : List ℕ)
    → c_string (take (suc rounds) (drop i name)) ≡ (
        if get_or name i 0 == 0
        then []
        else get_or name i 0 ∷ c_string (take rounds (drop (suc i) name)))
c_string-take-drop rounds zero [] = refl
c_string-take-drop rounds (suc i) [] = refl
c_string-take-drop rounds zero (c ∷ name) = refl
c_string-take-drop rounds (suc i) (c ∷ name) = c_string-take-drop rounds i name

copy_name-overlay :
    (rounds i : ℕ) (name xs a : List ℕ)
    → i + packet_header ≡ length xs
    → copy_name rounds i name (overlay xs a) ≡ copied i xs (c_string (take rounds (drop i name))) a
unfolding copy_name
copy_name-overlay zero i name xs a e = copied-nil i xs a
copy_name-overlay (suc rounds) i name xs a e = elim (Bool-cases (get_or name i 0 == 0)) [
  | inl end ↦ rw (c_string-take-drop rounds i name, end, copy_name) (copied-nil i xs a)
  | inr more ↦
      let c = get_or name i 0 in
      rw
        (
          c_string-take-drop rounds i name,
          more,
          copy_name,
          set-write_at 0 (i + 3) xs c a (omega arith),
          add-one i,
        )
        (copy_name-overlay rounds (suc i) name (xs ++ c ∷ []) a
            (omega (arith, length-append xs (c ∷ [])))
          ∙ rw (← add-one i) (copied-cons i c xs (c_string (take rounds (drop (i + 1) name))) a))
]

pub marked_lem :
    (a b c : ℕ) (packet : List ℕ)
    → set (set (set packet 0 a) 1 b) 2 c ≡ overlay (a ∷ b ∷ c ∷ []) packet
marked_lem a b c packet = rw (
  set-eq-write_at 0 a packet,
  set-write_at 0 1 (a ∷ []) b packet refl,
  set-write_at 0 2 (a ∷ b ∷ []) c packet refl,
)

-- The name and the size of the first packet, as C strings: behind the three bytes of the header.
abbrev pub initial_head : List ℕ → ℕ → List ℕ
initial_head file_name size =
    soh
    ∷ 0x00
    ∷ 0xff
    ∷ (c_string (take file_name_length file_name) ++ (0 ∷ c_string (int2str (replicate 10 0) size)))

-- The first packet is its header, the name, a zero, the digits of the size, and zeros up to the
-- length of a packet; behind that the buffer is what it was.
pub prepare_initial_packet-overlay :
    (packet file_name : List ℕ) (size : ℕ)
    → let head = initial_head file_name size in
      prepare_initial_packet packet file_name size
      ≡ overlay (head ++ replicate (packet_size + packet_header - length head) 0) packet
unfolding prepare_initial_packet
prepare_initial_packet-overlay packet file_name size =
    let str = c_string (take file_name_length file_name) in
    let digits = c_string (int2str (replicate 10 0) size) in
    let head = initial_head file_name size in
    let marked : List ℕ = soh ∷ 0x00 ∷ 0xff ∷ [] in
    let k = 0 + length str + packet_header in
    rw
      (
        marked_lem soh 0x00 0xff packet,
        copy_name-overlay file_name_length 0 file_name marked packet refl,
        set-write_at 0 k (marked ++ str) 0 packet (omega arith),
        copy_digits-overlay (int2str (replicate 10 0) size) (k + 1) ((marked ++ str) ++ 0 ∷ [])
            packet (omega (arith, length-append str (0 ∷ []))),
        fill-overlay (packet_size + packet_header - (k + 1 + length digits)) (k + 1 + length digits)
            0 (((marked ++ str) ++ 0 ∷ []) ++ digits) packet
            (omega (arith, length-append str (0 ∷ []), length-append (str ++ 0 ∷ []) digits)),
      )
      (ap₂
        (λ l n.
          overlay (soh ∷ 0x00 ∷ 0xff ∷ (l ++ replicate (packet_size + packet_header - n) 0)) packet)
        (append_assoc str (0 ∷ []) digits) (omega (arith, length-append str (0 ∷ digits))))

-- The packet for `size_blk` bytes left: as many of them as fit, and the filler behind them.
unfoldable pub data_frame : List ℕ → ℕ → ℕ → List ℕ
data_frame source pkt_no size_blk =
    let full = if leb packet_1k_size size_blk then packet_1k_size else packet_size in
    let start = if leb packet_1k_size size_blk then stx else soh in
    start
    ∷ pkt_no
    ∷ u8 (255 - pkt_no)
    ∷ (take (min size_blk full) source ++ replicate (full - size_blk) 0x1a)

packet_run :
    (full size start seq c : ℕ) (source packet : List ℕ)
    → size ≤ length source
    → fill
        (full - size)
        (size + packet_header)
        0x1a
        (copy_data size packet_header source (set (set (set packet 0 start) 1 seq) 2 c))
      ≡ overlay (start ∷ seq ∷ c ∷ (take size source ++ replicate (full - size) 0x1a)) packet
packet_run full size start seq c source packet h = rw (
  marked_lem start seq c packet,
  copy_data-overlay size 3 source (start ∷ seq ∷ c ∷ []) packet refl,
  fill-overlay (full - size) (size + 3) 0x1a (start ∷ seq ∷ c ∷ take size source) packet
      (omega (arith, length-take size source)),
)

data_frame_large :
    (source : List ℕ) (pkt_no size_blk : ℕ)
    → leb packet_1k_size size_blk ≡ true
    → data_frame source pkt_no size_blk
      ≡ stx ∷ pkt_no ∷ u8 (255 - pkt_no) ∷ (take 1024 source ++ [])
unfolding data_frame
data_frame_large source pkt_no size_blk big =
    let cut : min size_blk 1024 ≡ 1024 = ground arith in
    let whole : 1024 - size_blk ≡ 0 = ground arith in rw (big, cut, whole)

data_frame_small :
    (source : List ℕ) (pkt_no size_blk size : ℕ)
    → leb packet_1k_size size_blk ≡ false
    → size ≡ min size_blk 128
    → data_frame source pkt_no size_blk
      ≡ soh ∷ pkt_no ∷ u8 (255 - pkt_no) ∷ (take size source ++ replicate (128 - size) 0x1a)
unfolding data_frame
data_frame_small source pkt_no size_blk size small e =
    let rest : 128 - size_blk ≡ 128 - size = omega arith in rw (small, rest, e)

-- If the source has at least the bytes left to send, the packet buffer holds the frame of the data,
-- and behind it what it held before.
pub prepare_packet-overlay :
    (source packet : List ℕ) (pkt_no size_blk : ℕ)
    → size_blk ≤ length source
    → prepare_packet source packet pkt_no size_blk
      ≡ overlay (data_frame source pkt_no size_blk) packet
unfolding prepare_packet
prepare_packet-overlay source packet pkt_no size_blk h =
    let comp = u8 (255 - pkt_no) in
    elim (Bool-cases (leb packet_1k_size size_blk)) [
      | inl big ↦
          let no_less : ltb size_blk packet_1k_size ≡ false = ground arith in
          rw (data_frame_large source pkt_no size_blk big, big, no_less)
            (packet_run 1024 1024 stx pkt_no comp source packet (ground arith))
      | inr small ↦ elim (Bool-cases (ltb size_blk packet_size)) [
        | inl less ↦
            let fits : leb size_blk 128 ≡ true = ground arith in
            rw
              (
                data_frame_small source pkt_no size_blk size_blk small (ground arith),
                small,
                less,
                fits,
              )
              (packet_run 128 size_blk soh pkt_no comp source packet h)
        | inr more ↦
            rw (data_frame_small source pkt_no size_blk 128 small (ground arith), small, more)
              (packet_run 128 128 soh pkt_no comp source packet (ground arith))
      ]
    ]
