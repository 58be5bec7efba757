-- ===== src/Ymodem/Receiver/Roundtrip.antt =====
-- The receiver on a whole session of `Ymodem_Transmit`.
use cosmos_pc.Prelude.{
  ℕ, zero, suc, ◌+◌, ◌-◌, ◌^◌, ◌≤◌, ◌<◌, ◌≡◌, refl, sym, ap, ◌∙◌, true, false, some, List, [], ◌∷◌,
  ◌++◌, append_assoc, arith, length, take, drop, replicate, length-append, length-take,
  length-replicate, take_all, take-append_le, drop-append_length,
}
use mathlib.Core.Path.{subst}
use cosmos_pc.Os.{is_null, Os, Sys, IsLawful, IsLive}
use cosmos_pc.ComIo.{ComIo}
use cosmos_pc.Crc.Spec.{AreBytes}
use cosmos_pc.Crc.Loop.{AreBytes-append}
use cosmos_pc.Crc.Detect.{crc_bytes}
use cosmos_pc.Crc.{cal_crc16, crc_data, update_crc16, crc_loop, crc_round}
use cosmos_pc.Ymodem.Uart.Send.{form}
use cosmos_pc.Ymodem.Packet.{soh, packet_header, packet_size, file_name_length}
use cosmos_pc.Ymodem.Packet.CString.{c_string}
use cosmos_pc.Ymodem.Packet.Decimal.{AreDecimals, int2str-IsDecimal}
use cosmos_pc.Ymodem.Packet.Content.{initial_head}
use cosmos_pc.Ymodem.Packet.Block0.{
  block, read_name, read_size, IsName, size_digits, prepare_initial_packet-read,
}
use cosmos_pc.Ymodem.Transmit.{Outcome, goes_on, returned, hung, transmit}
use cosmos_pc.Ymodem.Transmit.Outcomes.{sealed, Finishes, completed, stopped}
use cosmos_pc.Ymodem.Transmit.Stream.{
  header_frame, take-header_frame, data_stream, empty_frame, end_stream, session,
}
use cosmos_pc.Ymodem.Transmit.Session.{transmit-Finishes}
use cosmos_pc.Ymodem.Receiver.{
  data_length, receive_frame, receive_body, receive_data, receive_end, receive,
}
use cosmos_pc.Ymodem.Receiver.Frames.{
  AreBytes-take, AreBytes-replicate, receive_frame-sealed, receive_data-data_stream,
}

AreDecimals-AreBytes : (ds : List ℕ) → AreDecimals ds → AreBytes ds
AreDecimals-AreBytes [] h = tt
AreDecimals-AreBytes (d ∷ ds) (low, high, h) = (omega arith, AreDecimals-AreBytes ds h)

AreBytes-c_string : (xs : List ℕ) → AreBytes xs → AreBytes (c_string xs)
AreBytes-c_string [] h = tt
AreBytes-c_string (x ∷ xs) (small, h) = ground (arith, AreBytes-c_string xs h)

-- The data of the first block.
abbrev pub header_data : List ℕ → ℕ → List ℕ
header_data filename size =
    let head = initial_head filename size in
    take 128 (
      (c_string (take file_name_length filename) ++ (0 ∷ size_digits size))
      ++ replicate (packet_size + packet_header - length head) 0)

header_frame-header_data :
    (filename : List ℕ) (size : ℕ)
    → header_frame filename size ≡ soh ∷ 0 ∷ 0xff ∷ header_data filename size
unfolding header_frame
header_frame-header_data filename size = refl

length-header_data : (filename : List ℕ) (size : ℕ) → length (header_data filename size) ≡ 128
length-header_data filename size =
    let head = initial_head filename size in
    let str = c_string (take file_name_length filename) ++ (0 ∷ size_digits size) in
    let zeros : List ℕ = replicate (131 - length head) 0 in
    omega (
      arith,
      length-take 128 (str ++ zeros),
      length-append str zeros,
      length-replicate (131 - length head) (let z : ℕ = 0 in z),
    )

AreBytes-header_data :
    (filename : List ℕ) (size : ℕ)
    → AreBytes filename
    → size < 2 ^ 32
    → AreBytes (header_data filename size)
AreBytes-header_data filename size all small =
    let head = initial_head filename size in
    let str = c_string (take file_name_length filename) in
    AreBytes-take 128 _ (
      AreBytes-append (str ++ (0 ∷ size_digits size)) (replicate (131 - length head) 0)
        (AreBytes-append str (0 ∷ size_digits size)
          (AreBytes-c_string (take file_name_length filename)
            (AreBytes-take file_name_length filename all))
          (
            omega arith,
            AreDecimals-AreBytes (size_digits size) (int2str-IsDecimal size small).all_digits,
          ))
        (AreBytes-replicate (131 - length head) 0 (omega arith)))

block-header_frame :
    (filename tail : List ℕ) (size : ℕ)
    → block (sealed (header_frame filename size) ++ tail) ≡ header_frame filename size
block-header_frame filename tail size =
    let frame = header_frame filename size in
    let check = crc_bytes (cal_crc16 (drop 3 frame)) in
    let long : length frame ≡ 131 =
      ap length (header_frame-header_data filename size)
      ∙ omega (arith, length-header_data filename size) in
    ap (take 131) (append_assoc frame check tail)
    ∙ take-append_le 131 frame (check ++ tail) (omega arith)
    ∙ take_all 131 frame (omega arith)

receive_end-end_stream : receive_end end_stream ≡ true
unfolding receive_end end_stream empty_frame receive_frame receive_body data_length cal_crc16
    crc_data update_crc16 crc_loop crc_round
receive_end-end_stream = refl

receive-step :
    (bytes head after content rest : List ℕ)
    → receive_frame 0 bytes ≡ some (head, after)
    → receive_data (read_size (block bytes)) (read_size (block bytes)) 1 after
      ≡ some (content, rest)
    → receive_end rest ≡ true
    → receive bytes ≡ some (read_name (block bytes), content)
unfolding receive
receive-step bytes head after content rest first others ended = rw (first, others, ended, receive)

module _ (name rest : List ℕ) (size : ℕ) (is_name : IsName name) (short : length name < 256)
    (fits : length name + 1 + length (size_digits size) ≤ 128) (small : size < 2 ^ 32)
    (all : AreBytes (name ++ (0 ∷ rest))) where
  header_frame-read :
      (read_name (header_frame (name ++ (0 ∷ rest)) size) ≡ name)
      × (read_size (header_frame (name ++ (0 ∷ rest)) size) ≡ size)
  header_frame-read =
      let buffer : List ℕ = replicate 131 0 in
      let read =
        prepare_initial_packet-read buffer name rest size (omega arith) is_name short fits small in
      let same = sym (take-header_frame buffer (name ++ (0 ∷ rest)) size (omega arith)) in
      (ap read_name same ∙ read.0, ap read_size same ∙ read.1)

  receive-session :
      (buf : List ℕ)
      → AreBytes buf
      → size ≤ length buf
      → receive (session (name ++ (0 ∷ rest)) buf size) ≡ some (name, take size buf)
  receive-session buf bytes there =
      let filename = name ++ (0 ∷ rest) in
      let after = data_stream size buf size 1 ++ end_stream in
      let whole = sealed (header_frame filename size) ++ after in
      let head = block-header_frame filename after size in
      let size_eq = ap read_size head ∙ header_frame-read.1 in
      receive-step whole (header_data filename size) after (take size buf) end_stream
        (ap (λ f. receive_frame 0 (sealed f ++ after)) (header_frame-header_data filename size)
          ∙ receive_frame-sealed soh 0 0xff 128 (header_data filename size) after soh_known refl
              (length-header_data filename size) (AreBytes-header_data filename size all small))
        (ap (λ k. receive_data k k 1 after) size_eq
          ∙ receive_data-data_stream size size 1 buf end_stream bytes there (omega arith))
        receive_end-end_stream
      ∙ ap (λ n. some (n, take size buf)) (ap read_name head ∙ header_frame-read.0)
    where
      soh_known : data_length soh ≡ some 128
      soh_known = unfold data_length in refl

take-name :
    (k m : ℕ) (name rest : List ℕ)
    → k ≡ length name + 1 + m
    → take k (name ++ (0 ∷ rest)) ≡ name ++ (0 ∷ take m rest)
take-name zero m name rest e = absurd (omega arith)
take-name (suc k) m [] rest e = let same : k ≡ m = omega arith in ap (λ i. 0 ∷ take i rest) same
take-name (suc k) m (c ∷ name) rest e = ap (◌∷◌ c) (take-name k m name rest (omega arith))

abbrev code_of : {os : Os} → Outcome os → ℕ
code_of (goes_on packet s) = 1
code_of (returned code s) = code
code_of hung = 1

abbrev pub sys_of : {os : Os} → Sys os → Outcome os → Sys os
sys_of t (goes_on packet s) = s
sys_of t (returned code s) = s
sys_of t hung = t

-- A part that has returned 0 has sent everything.
Finishes-zero :
    {os : Os} (stream : List ℕ) (s s' : Sys os) (o : Outcome os)
    → Finishes os stream s o
    → o ≡ returned 0 s'
    → s'.wire ≡ s.wire ++ stream
Finishes-zero stream s s' _ (completed t sent) e = ap (λ o. (sys_of t o).wire) (sym e) ∙ sent
Finishes-zero stream s s' _ (stopped sent rest t split wire) e =
    let wrong : ◌≡◌ {A = ℕ} 255 0 = ap code_of e in absurd (omega (arith, wrong))

module _ (os : Os) (c : ComIo) (is_open : is_null c.h_com ≡ false) (lawful : IsLawful os)
    (live : IsLive os) (fuel : ℕ) (enough : 1029 < fuel) where
  -- On an open port whose writes take at least a byte and no more than they are given, with more than
  -- 1029 rounds of fuel for each packet and the 1029 bytes of the packet buffer; for a name of less than
  -- 255 nonzero bytes, ended by a zero, that fits the first block with the digits of the size, a size
  -- below 2 ^ 32, and at least that many bytes in `buf`: if `Ymodem_Transmit` has returned 0, a
  -- receiver that reads what it put on the wire gets the name and the first `size` bytes of `buf`.
  pub transmit-receive :
      (packet : List ℕ) (last : ℕ) (buf name rest : List ℕ) (size : ℕ) (s s' : Sys os)
      → length packet ≡ 1029
      → IsName name
      → length name < 255
      → length name + 1 + length (size_digits size) ≤ 128
      → AreBytes (name ++ (0 ∷ rest))
      → last < 256
      → AreBytes buf
      → size < 2 ^ 32
      → size ≤ length buf
      → transmit os (form c) fuel packet last buf (name ++ (0 ∷ rest)) size s ≡ returned 0 s'
      → receive (drop (length s.wire) s'.wire) ≡ some (name, take size buf)
  transmit-receive packet last buf name rest size s s' room is_name short fits all last_byte bytes
        small there done =
      let rest' = take (254 - length name) rest ++ last ∷ [] in
      let filename = take 255 (name ++ (0 ∷ rest)) ++ last ∷ [] in
      let same : filename ≡ name ++ (0 ∷ rest') =
        ap (λ l. l ++ last ∷ []) (take-name 255 (254 - length name) name rest (omega arith))
        ∙ append_assoc name (0 ∷ take (254 - length name) rest) (last ∷ []) in
      let kept : AreBytes (name ++ (0 ∷ rest')) = subst AreBytes same (
        AreBytes-append (take 255 (name ++ (0 ∷ rest))) (last ∷ [])
          (AreBytes-take 255 (name ++ (0 ∷ rest)) all) (last_byte, tt)) in
      let sent =
        Finishes-zero (session filename buf size) s s'
          (transmit os (form c) fuel packet last buf (name ++ (0 ∷ rest)) size s)
          (transmit-Finishes os c is_open lawful live fuel enough packet last buf
            (name ++ (0 ∷ rest)) size s room there)
          done in
      ap (λ w. receive (drop (length s.wire) w)) sent
      ∙ ap receive (drop-append_length s.wire (session filename buf size) (length s.wire) refl)
      ∙ ap (λ f. receive (session f buf size)) same
      ∙ receive-session name rest' size is_name (omega arith) fits small kept buf bytes there
