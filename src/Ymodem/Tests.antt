-- ===== src/Ymodem/Tests.antt =====
-- Runs of the theorems on a scripted port, and of `Ymodem_Transmit` on a file of three bytes.
use cosmos_pc.Prelude.{
  ℕ, zero, suc, ◌+◌, ◌≤◌, ◌≡◌, refl, true, false, none, some, List, [], ◌∷◌, ◌++◌, arith, length,
  take, drop, replicate, length-take, overlay,
}
use cosmos_pc.Os.{open_handle, Os, Sys, IsLawful, IsLive}
use cosmos_pc.ComIo.{ComIo, write_com, read_com}
use cosmos_pc.Crc.{cal_crc16, crc_data, update_crc16, crc_loop, crc_round}
use cosmos_pc.Ymodem.Uart.{
  send_packet, send_packet_loop, uart_write, uart_read, receive_byte, wait_for_char, wait_loop,
  send_byte, send_byte_loop, single,
}
use cosmos_pc.Ymodem.Uart.Send.{form, IsSent, send_packet-IsSent, send_packet_hangs}
use cosmos_pc.Ymodem.Packet.{
  int2str, int2str_loop, prepare_initial_packet, prepare_packet, copy_name, copy_digits, copy_data,
  fill,
}
use cosmos_pc.Ymodem.Packet.CString.{c_string}
use cosmos_pc.Ymodem.Packet.Decimal.{IsDecimal, int2str-IsDecimal}
use cosmos_pc.Ymodem.Packet.Content.{data_frame, prepare_packet-overlay}
use cosmos_pc.Ymodem.Packet.Block0.{
  block, IsName, read_name, read_size, prepare_initial_packet-read,
  prepare_initial_packet_long_name, size_digits,
}
use cosmos_pc.Ymodem.Transmit.{
  Outcome, returned, transmit, send_header, send_sealed, send_blocks, send_end, send_empty,
  send_last_crc, await, and_then, after_sending, show_progress, advance, pkt_size, seal,
}
use cosmos_pc.Ymodem.Transmit.Outcomes.{Finishes}
use cosmos_pc.Ymodem.Transmit.Stream.{session}
use cosmos_pc.Ymodem.Transmit.Session.{transmit-Finishes}
use cosmos_pc.Ymodem.Receiver.{receive}
use cosmos_pc.Ymodem.Receiver.Roundtrip.{sys_of, transmit-receive}
use cosmos_pc.Ymodem.Transmit.Limit.{IsFailure, transmit_too_large}

-- A system whose ports take every byte and give the bytes of a script.
abbrev scripted : Os
scripted = record {
  World = List ℕ;
  create_file = λ name disposition w. (open_handle 1, w);
  close_handle = λ h w. w;
  create_directory = λ name w. w;
  delete_file = λ name w. w;
  set_comm_timeouts = λ h w. (true, w);
  read_file = λ h n w. (true, take n w, drop n w);
  write_file = λ h bs w. (true, length bs, w);
}

scripted-IsLawful : IsLawful scripted
scripted-IsLawful = record {
  read_le = λ h n w. omega (arith, length-take n w);
  write_le = λ h bs w. omega arith;
}

scripted-IsLive : IsLive scripted
scripted-IsLive = record { write_some = λ h bs w some_left. some_left }

-- A system whose ports take nothing.
abbrev silent : Os
silent = record {
  World = List ℕ;
  create_file = λ name disposition w. (open_handle 1, w);
  close_handle = λ h w. w;
  create_directory = λ name w. w;
  delete_file = λ name w. w;
  set_comm_timeouts = λ h w. (true, w);
  read_file = λ h n w. (true, take n w, drop n w);
  write_file = λ h bs w. (true, 0, w);
}

abbrev port : ComIo
port = record { sz_dev_name = []; h_com = open_handle 1; reading = false }

-- The answers to a file of one packet: the first block, 'C', the packet, `EOT`, the last packet.
abbrev start : Sys scripted
start = record { world = 6 ∷ 67 ∷ 6 ∷ 6 ∷ 6 ∷ []; wire = []; stray = 0; progress = [] }

abbrev still : Sys silent
still = record { world = []; wire = []; stray = 0; progress = [] }

abbrev name : List ℕ
name = b'a' ∷ b'b' ∷ []

abbrev content : List ℕ
content = 10 ∷ 20 ∷ 30 ∷ []

abbrev buffer : List ℕ
buffer = replicate 1029 0

abbrev long_name : List ℕ
long_name = replicate 130 b'a'

abbrev large : List ℕ
large = replicate 917503 0

letters-IsName : (n : ℕ) → IsName (replicate n b'a')
letters-IsName zero = tt
letters-IsName (suc n) = (omega arith, letters-IsName n)

abbrev run : Outcome scripted
run = transmit scripted (form port) 1030 buffer 0 content (name ++ 0 ∷ []) 3 start

abbrev finish : Sys scripted
finish = sys_of start run

-- A file of three bytes is sent, and the function returns 0.
run_completes : run ≡ returned 0 finish
unfolding transmit send_header send_sealed send_blocks send_end send_empty send_last_crc await
    and_then after_sending show_progress advance pkt_size seal prepare_initial_packet prepare_packet
    copy_name copy_digits copy_data fill int2str int2str_loop send_packet send_packet_loop
    uart_write write_com uart_read read_com receive_byte wait_for_char wait_loop send_byte
    send_byte_loop single cal_crc16 crc_data update_crc16 crc_loop crc_round
run_completes = refl

int2str-IsDecimal_example : IsDecimal 917504 (c_string (int2str (replicate 10 0) 917504))
int2str-IsDecimal_example = int2str-IsDecimal 917504 (omega arith)

prepare_packet-overlay_example :
    prepare_packet content buffer 1 3 ≡ overlay (data_frame content 1 3) buffer
prepare_packet-overlay_example = prepare_packet-overlay content buffer 1 3 (omega arith)

prepare_initial_packet-read_example :
    (read_name (block (prepare_initial_packet buffer (name ++ 0 ∷ []) 3)) ≡ name)
    × (read_size (block (prepare_initial_packet buffer (name ++ 0 ∷ []) 3)) ≡ 3)
prepare_initial_packet-read_example =
    prepare_initial_packet-read buffer name [] 3 (omega arith) (omega arith) (omega arith)
      three_short (omega arith)
  where
    three_short : 2 + 1 + length (size_digits 3) ≤ 128
    three_short = omega (arith, (int2str-IsDecimal 3 (omega arith)).at_most_ten)

prepare_initial_packet_long_name_example :
    block (prepare_initial_packet buffer (long_name ++ 0 ∷ []) 1)
    ≡ block (prepare_initial_packet buffer (long_name ++ 0 ∷ []) 2)
prepare_initial_packet_long_name_example =
    prepare_initial_packet_long_name buffer long_name [] 1 2 (omega arith) (letters-IsName 130)
      (omega arith) (omega arith)

send_packet-IsSent_example :
    IsSent scripted port refl 3 content content content start
      (send_packet scripted (form port) 4 content 3 start)
send_packet-IsSent_example =
    send_packet-IsSent scripted port refl scripted-IsLawful scripted-IsLive 3 (omega arith) 4
      content start (omega arith) (omega arith)

send_packet_hangs_example : send_packet silent (form port) 1000 content 3 still ≡ none
send_packet_hangs_example =
    send_packet_hangs silent port refl (λ bs w. refl) 3 (omega arith) 1000 content still

transmit-Finishes_example :
    Finishes scripted
      (session (name ++ 0 ∷ 0 ∷ []) content 3)
      start
      (transmit scripted (form port) 1030 buffer 0 content (name ++ 0 ∷ []) 3 start)
transmit-Finishes_example =
    transmit-Finishes scripted port refl scripted-IsLawful scripted-IsLive 1030 (omega arith) buffer
      0 content (name ++ 0 ∷ []) 3 start refl (omega arith)

transmit_too_large_example :
    IsFailure scripted
      (transmit scripted (form port) 1030 buffer 0 large (name ++ 0 ∷ []) 917503 start)
transmit_too_large_example =
    transmit_too_large scripted (form port) 1030 buffer 0 large (name ++ 0 ∷ []) 917503 start
      (omega arith) (omega arith)

transmit-receive_example :
    receive (drop (length start.wire) finish.wire) ≡ some (name, take 3 content)
transmit-receive_example =
    transmit-receive scripted port refl scripted-IsLawful scripted-IsLive 1030 (omega arith) buffer
      0 content name [] 3 start finish refl (omega arith) (omega arith)
      (omega (arith, (int2str-IsDecimal 3 (omega arith)).at_most_ten)) (omega arith) (omega arith)
      (omega arith) (omega arith) (omega arith) run_completes
