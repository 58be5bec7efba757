-- ===== src/Ymodem/Packet/Block0.antt =====
-- The first block as a receiver reads it: the name up to a zero, then the digits of the size up to
-- the next.
use cosmos_pc.Prelude.{
  ℕ, zero, suc, ◌+◌, ◌-◌, ◌^◌, ◌≤◌, ◌<◌, ◌≡◌, refl, sym, ap, ◌∙◌, false, List, [], ◌∷◌, ◌++◌,
  append_assoc, arith, length, take, drop, replicate, overlay, take-overlay_le, take_all,
  take-append_le, drop-append_length, length-append, length-replicate, ◌==◌,
}
use cosmos_pc.Ymodem.Packet.{
  packet_header, packet_size, file_name_length, soh, int2str, prepare_initial_packet,
}
use cosmos_pc.Ymodem.Packet.CString.{c_string}
use cosmos_pc.Ymodem.Packet.Decimal.{
  parse_decimal, IsDecimal, int2str-IsDecimal, c_string-decimal, c_string-drop,
}
use cosmos_pc.Ymodem.Packet.Content.{prepare_initial_packet-overlay}

-- The bytes of the block on the wire, its check excluded.
abbrev pub block : List ℕ → List ℕ
block packet = take (packet_size + packet_header) packet

-- The receiver's reading of a block.
abbrev pub read_name : List ℕ → List ℕ
read_name bytes = c_string (drop packet_header bytes)

abbrev pub read_size : List ℕ → ℕ
read_size bytes =
    parse_decimal (c_string (drop (packet_header + length (read_name bytes) + 1) bytes))

-- No zero stands in a name.
abbrev pub IsName : List ℕ → Type 0
IsName [] = Unit
IsName (c ∷ rest) = (0 < c) × IsName rest

c_string-append : (name rest : List ℕ) → IsName name → c_string (name ++ (0 ∷ rest)) ≡ name
c_string-append [] rest h = refl
c_string-append (c ∷ name) rest (pos, h) =
    let more : (c == 0) ≡ false = ground arith in rw more (ap (◌∷◌ c) (c_string-append name rest h))

c_string-take :
    (k : ℕ) (name rest : List ℕ)
    → IsName name
    → length name < k
    → c_string (take k (name ++ (0 ∷ rest))) ≡ name
c_string-take zero name rest h less = absurd (omega arith)
c_string-take (suc k) [] rest h less = refl
c_string-take (suc k) (c ∷ name) rest (pos, h) less =
    let more : (c == 0) ≡ false = ground arith in
    rw more (ap (◌∷◌ c) (c_string-take k name rest h (omega arith)))

-- The digits that `Int2Str` prints.
abbrev pub size_digits : ℕ → List ℕ
size_digits size = c_string (int2str (replicate 10 0) size)

module _ (packet name rest : List ℕ) (size : ℕ) (room : packet_size + packet_header ≤ length packet)
    (is_name : IsName name) (short : length name < file_name_length) where
  abbrev after_header : List ℕ
  after_header = name ++ (0 ∷ size_digits size)

  abbrev filled : List ℕ
  filled =
      soh
      ∷ 0x00
      ∷ 0xff
      ∷ (after_header
          ++ replicate (packet_size + packet_header - length (soh ∷ 0x00 ∷ 0xff ∷ after_header)) 0)

  prepared : prepare_initial_packet packet (name ++ (0 ∷ rest)) size ≡ overlay filled packet
  prepared =
      prepare_initial_packet-overlay packet (name ++ (0 ∷ rest)) size
      ∙ ap
          (λ str.
            let head = soh ∷ 0x00 ∷ 0xff ∷ (str ++ (0 ∷ size_digits size)) in
            overlay (head ++ replicate (packet_size + packet_header - length head) 0) packet)
          (c_string-take file_name_length name rest is_name short)

  -- In a buffer of at least 131 bytes, for a name without zeros and of less than 256 bytes that is ended
  -- by a zero, and a size below 2 ^ 32: if the name, a zero and the digits fit 128 bytes, a receiver
  -- reads the name and the size off the first block.
  pub prepare_initial_packet-read :
      length name + 1 + length (size_digits size) ≤ packet_size
      → size < 2 ^ 32
      → let bytes = block (prepare_initial_packet packet (name ++ (0 ∷ rest)) size) in
        (read_name bytes ≡ name) × (read_size bytes ≡ size)
  prepare_initial_packet-read fits small = (name_back, size_back)
    where
      zeros : List ℕ
      zeros = replicate (packet_size + packet_header - length (soh ∷ 0x00 ∷ 0xff ∷ after_header)) 0

      content : List ℕ
      content = name ++ (0 ∷ (size_digits size ++ zeros))

      bytes : List ℕ
      bytes = block (prepare_initial_packet packet (name ++ (0 ∷ rest)) size)

      whole : bytes ≡ soh ∷ 0x00 ∷ 0xff ∷ content
      whole =
          ap block prepared
          ∙ take-overlay_le 131 filled packet
              (omega (
                arith,
                length-append after_header zeros,
                length-append name (0 ∷ size_digits size),
                length-replicate (131 - length (soh ∷ 0x00 ∷ 0xff ∷ after_header))
                    (let z : ℕ = 0 in z),
              ))
              room
          ∙ take_all 131 filled (
              omega (
                arith,
                length-append after_header zeros,
                length-append name (0 ∷ size_digits size),
                length-replicate (131 - length (soh ∷ 0x00 ∷ 0xff ∷ after_header))
                    (let z : ℕ = 0 in z),
              ))
          ∙ ap (λ l. soh ∷ 0x00 ∷ 0xff ∷ l) (append_assoc name (0 ∷ size_digits size) zeros)

      name_back : read_name bytes ≡ name
      name_back = ap read_name whole ∙ c_string-append name (size_digits size ++ zeros) is_name

      decimal_lem : IsDecimal size (size_digits size)
      decimal_lem = int2str-IsDecimal size small

      behind_name :
          drop (suc (suc (suc (length name + 1)))) (soh ∷ 0x00 ∷ 0xff ∷ content)
          ≡ size_digits size ++ zeros
      behind_name =
          ap (drop (length name + 1)) (sym (append_assoc name (0 ∷ []) (size_digits size ++ zeros)))
          ∙ drop-append_length (name ++ (0 ∷ [])) (size_digits size ++ zeros) (length name + 1)
              (omega (arith, length-append name (0 ∷ [])))

      past_name : packet_header + length (c_string content) + 1 ≡ suc (suc (suc (length name + 1)))
      past_name =
          omega (arith, ap length (c_string-append name (size_digits size ++ zeros) is_name))

      size_back : read_size bytes ≡ size
      size_back =
          ap read_size whole
          ∙ ap (λ k. parse_decimal (c_string (drop k (soh ∷ 0x00 ∷ 0xff ∷ content)))) past_name
          ∙ ap (λ l. parse_decimal (c_string l)) behind_name
          ∙ ap parse_decimal
              (c_string-decimal (size_digits size) zeros decimal_lem.all_digits (c_string-drop 0 _))
          ∙ decimal_lem.reads_back

  -- A longer name leaves no room for the size.
  block_long :
      127 ≤ length name
      → block (prepare_initial_packet packet (name ++ (0 ∷ rest)) size)
        ≡ take (packet_size + packet_header) (soh ∷ 0x00 ∷ 0xff ∷ (name ++ (0 ∷ [])))
  block_long long =
      let marked = soh ∷ 0x00 ∷ 0xff ∷ (name ++ (0 ∷ [])) in
      let behind =
        size_digits size
        ++ replicate (packet_size + packet_header - length (soh ∷ 0x00 ∷ 0xff ∷ after_header)) 0 in
      let split : filled ≡ marked ++ behind = simp append_assoc in
      ap block (prepared ∙ ap (λ l. overlay l packet) split)
      ∙ take-overlay_le 131 (marked ++ behind) packet
          (omega (arith, length-append name (0 ∷ []), length-append marked behind)) room
      ∙ take-append_le 131 marked behind (omega (arith, length-append name (0 ∷ [])))

-- In a buffer of at least 131 bytes, for a name without zeros of 127 to 255 bytes that is ended by a
-- zero, the first block is the same whatever the size of the file.
pub prepare_initial_packet_long_name :
    (packet name rest : List ℕ) (size size' : ℕ)
    → packet_size + packet_header ≤ length packet
    → IsName name
    → 127 ≤ length name
    → length name < file_name_length
    → block (prepare_initial_packet packet (name ++ (0 ∷ rest)) size)
      ≡ block (prepare_initial_packet packet (name ++ (0 ∷ rest)) size')
prepare_initial_packet_long_name packet name rest size size' room is_name long short =
    block_long packet name rest size room is_name short long
    ∙ sym (block_long packet name rest size' room is_name short long)
