-- ===== src/Ymodem/Receiver.antt =====
-- A receiver of the protocol, written from its description: it checks the number of each packet, its
-- complement and the checksum, and cuts the file at its size.
pub mod Frames
pub mod Roundtrip
use cosmos_pc.Prelude.{
  ℕ, zero, suc, ◌+◌, ◌-◌, ◌&&◌, Bool, true, false, Option, none, some, List, [], ◌∷◌, ◌++◌, length,
  take, drop, leb, ◌==◌, if◌then◌else◌, u8,
}
use cosmos_pc.Crc.{crc_data}
use cosmos_pc.Ymodem.Packet.{soh, stx}
use cosmos_pc.Ymodem.Packet.Block0.{block, read_name, read_size}
use cosmos_pc.Ymodem.Transmit.{eot}

-- The number of data bytes that a start byte announces.
unfoldable pub data_length : ℕ → Option ℕ
data_length start = if start == soh then some 128 else if start == stx then some 1024 else none

-- A packet with the number `seq`: its data, and what follows.
unfoldable pub receive_body : ℕ → ℕ → ℕ → ℕ → List ℕ → Option (List ℕ × List ℕ)
receive_body seq n number comp rest =
    if number == seq
      && comp == 255 - seq
      && leb (n + 2) (length rest)
      && crc_data 0 (take (n + 2) rest) == 0
    then some (take n rest, drop (n + 2) rest)
    else none

unfoldable pub receive_frame : ℕ → List ℕ → Option (List ℕ × List ℕ)
receive_frame seq (start ∷ number ∷ comp ∷ rest) = elim (data_length start) [
  | none ↦ none
  | some n ↦ receive_body seq n number comp rest
]
receive_frame seq [] = none
receive_frame seq (a ∷ []) = none
receive_frame seq (a ∷ b ∷ []) = none

-- The packets of `size` bytes, with the rounds left: the bytes, and what follows.
unfoldable pub receive_data : ℕ → ℕ → ℕ → List ℕ → Option (List ℕ × List ℕ)
receive_data zero size seq bytes = if size == 0 then some ([], bytes) else none
receive_data (suc rounds) size seq bytes = elim (size == 0) [
  | true ↦ some ([], bytes)
  | false ↦ elim (receive_frame seq bytes) [
    | none ↦ none
    | some r ↦ elim (receive_data rounds (size - length r.0) (u8 (seq + 1)) r.1) [
      | none ↦ none
      | some t ↦ some (take size r.0 ++ t.0, t.1)
    ]
  ]
]

-- The end: `EOT`, and a packet with an empty name, and nothing behind it.
unfoldable pub receive_end : List ℕ → Bool
receive_end [] = false
receive_end (b ∷ rest) = elim (receive_frame 0 rest) [
  | none ↦ false
  | some r ↦ b == eot && length (read_name (block rest)) == 0 && length r.1 == 0
]

-- A session: the name of the file and its bytes.
unfoldable pub receive : List ℕ → Option (List ℕ × List ℕ)
receive bytes = elim (receive_frame 0 bytes) [
  | none ↦ none
  | some r ↦
      let size = read_size (block bytes) in
      elim (receive_data size size 1 r.1) [
        | none ↦ none
        | some t ↦ if receive_end t.1 then some (read_name (block bytes), t.0) else none
      ]
]
