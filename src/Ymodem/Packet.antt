-- ===== src/Ymodem/Packet.antt =====
-- `Int2Str`, `Ymodem_PrepareIntialPacket` and `Ymodem_PreparePacket` of modem/ymodem.cpp, with the
-- constants of modem/ymodem.h. An array is the list of its bytes, and a loop is a function over its
-- variables.
pub mod CString
pub mod Decimal
pub mod Content
pub mod Block0
use cosmos_pc.Prelude.{
  ℕ, zero, suc, ◌+◌, ◌-◌, ◌/◌, ◌%◌, ◌&&◌, Bool, true, false, List, [], ◌∷◌, get_or, set, replicate,
  u8, u32, ltb, leb, ◌==◌, if◌then◌else◌,
}

abbrev pub packet_header : ℕ
packet_header = 3

abbrev pub packet_overhead : ℕ
packet_overhead = packet_header + 2

abbrev pub packet_size : ℕ
packet_size = 128

abbrev pub packet_1k_size : ℕ
packet_1k_size = 1024

abbrev pub file_name_length : ℕ
file_name_length = 256

abbrev pub soh : ℕ
soh = 0x01

abbrev pub stx : ℕ
stx = 0x02

-- The loop of `Int2Str`, with the rounds left and the variables `Div`, `j`, `Status`, `intnum`, `str`.
-- `intnum / Div` is unsigned, so `intnum` is its bit pattern.
unfoldable pub int2str_loop : ℕ → ℕ → ℕ → ℕ → ℕ → List ℕ → List ℕ
int2str_loop zero div j status intnum str = str
int2str_loop (suc rounds) div j status intnum str =
    let c = u8 (intnum / div + 48) in
    let leading = c == b'0' && status == 0 in
    int2str_loop rounds (div / 10) (if leading then 0 else j + 1)
      (if leading then status else status + 1) (intnum % div) (set str j c)

unfoldable pub int2str : List ℕ → ℕ → List ℕ
int2str str intnum = int2str_loop 10 1000000000 0 0 intnum str

-- The copy of the name, with the rounds left: `i` after the loop and the packet. The test reads
-- `fileName[i]` before it looks at `i`, so at 256 it reads outside the array; whatever stands there,
-- the loop ends.
unfoldable pub copy_name : ℕ → ℕ → List ℕ → List ℕ → ℕ × List ℕ
copy_name zero i name packet = (i, packet)
copy_name (suc rounds) i name packet = elim (get_or name i 0 == 0) [
  | true ↦ (i, packet)
  | false ↦ copy_name rounds (i + 1) name (set packet (i + packet_header) (get_or name i 0))
]

-- The copy of the digits, with the bytes of `file_ptr` left. Ten digits fill the array: the test
-- then reads outside it, which is taken to end the loop.
unfoldable pub copy_digits : List ℕ → ℕ → List ℕ → ℕ × List ℕ
copy_digits [] i packet = (i, packet)
copy_digits (c ∷ rest) i packet = elim (c == 0) [
  | true ↦ (i, packet)
  | false ↦ copy_digits rest (i + 1) (set packet i c)
]

-- `for (k = i; k < i + rounds; k++) packet[k] = v`
unfoldable pub fill : ℕ → ℕ → ℕ → List ℕ → List ℕ
fill zero i v packet = packet
fill (suc rounds) i v packet = fill rounds (i + 1) v (set packet i v)

unfoldable pub prepare_initial_packet : List ℕ → List ℕ → ℕ → List ℕ
prepare_initial_packet packet file_name size =
    let marked = set (set (set packet 0 soh) 1 0x00) 2 0xff in
    let (i, named) = copy_name file_name_length 0 file_name marked in
    let ended = set named (i + packet_header) 0x00 in
    let file_ptr = int2str (replicate 10 0) size in
    let (k, sized) = copy_digits file_ptr (i + packet_header + 1) ended in
    fill (packet_size + packet_header - k) k 0 sized

-- The copy of the file's bytes into `data[i]`, with the rounds left; `source` is what `file_ptr`
-- points at.
unfoldable pub copy_data : ℕ → ℕ → List ℕ → List ℕ → List ℕ
copy_data zero i source packet = packet
copy_data (suc rounds) i [] packet = packet
copy_data (suc rounds) i (c ∷ source) packet = copy_data rounds (i + 1) source (set packet i c)

unfoldable pub prepare_packet : List ℕ → List ℕ → ℕ → ℕ → List ℕ
prepare_packet source packet pkt_no size_blk =
    let full = if leb packet_1k_size size_blk then packet_1k_size else packet_size in
    let size = if ltb size_blk full then size_blk else full in
    let start = if full == packet_1k_size then stx else soh in
    let marked = set (set (set packet 0 start) 1 pkt_no) 2 (u8 (255 - pkt_no)) in
    let copied = copy_data size packet_header source marked in
    if leb size full then fill (full - size) (size + packet_header) 0x1a copied else copied
