-- ===== src/Form/Uart.antt =====
-- The port of the form in Unit1.cxx: `UART_OPEN`, `UART_CLOSE`, `UART_SET_BAUDRATE`, `UART_READ`, `UART_WRITE`.
use cosmos_pc.Prelude.{ℕ, Bool, true, false, Option, none, some, List, [], ◌∷◌, ◌++◌, if◌then◌else◌}
use cosmos_pc.Os.{invalid_handle, is_invalid, open_existing}
use cosmos_pc.Ymodem.Packet.Decimal.{decimal}
use cosmos_pc.Form.{FormOs, Form}

-- `"\\.\COM%d\"`
unfoldable pub device_path : ℕ → List ℕ
device_path index =
    b'\\' ∷ b'\\' ∷ b'.' ∷ b'\\' ∷ b'C' ∷ b'O' ∷ b'M' ∷ decimal 10 index ++ b'\\' ∷ []

module _ {x : FormOs} where
  -- The two statements with which each failure gives the port up.
  abbrev pub give_up : Form x → Form x
  give_up s = record s { world = x.os.close_handle s.h_com s.world; h_com = invalid_handle }

  -- `UART_OPEN`
  unfoldable pub open_uart : ℕ → Form x → Bool × Form x
  open_uart index s =
      let (h, w1) = x.os.create_file (device_path index) open_existing s.world in
      let (got, w2) = x.get_comm_timeouts h w1 in
      let (is_set, w3) = x.os.set_comm_timeouts h w2 in
      if is_invalid s.h_com
      then if is_invalid h
        then (false, record s { world = w1; h_com = h })
        else if got
        then if is_set
          then (true, record s { world = w3; h_com = h })
          else (false, give_up (record s { world = w3; h_com = h }))
        else (false, give_up (record s { world = w2; h_com = h }))
      else (true, s)

  -- `UART_CLOSE`
  unfoldable pub close_uart : Form x → Form x
  close_uart s = if is_invalid s.h_com then s else give_up s

  -- `UART_SET_BAUDRATE`: the other fields of the settings are constants. It returns 0 in every case.
  unfoldable pub set_baudrate : ℕ → Form x → ℕ × Form x
  set_baudrate baud s =
      let (got, w1) = x.get_comm_state s.h_com s.world in
      let (is_set, w2) = x.set_comm_state s.h_com baud w1 in
      if is_invalid s.h_com
      then (0, s)
      else if got
      then if is_set then (0, record s { world = w2 }) else (0, give_up (record s { world = w2 }))
      else (0, give_up (record s { world = w1 }))

  -- `UART_READ`: the bytes, or `none` for the result 0.
  unfoldable pub read_uart : ℕ → Form x → Option (List ℕ) × Form x
  read_uart bytes_to_read s =
      let (ok, bytes, w) = x.os.read_file s.h_com bytes_to_read s.world in
      let s1 : Form x = record s { world = w } in
      if ok then (some bytes, s1) else (none, give_up s1)

  -- `UART_WRITE`: the number of bytes written, or `none` for the result 0.
  unfoldable pub write_uart : List ℕ → Form x → Option ℕ × Form x
  write_uart bytes s =
      let (ok, n, w) = x.os.write_file s.h_com bytes s.world in
      let s1 : Form x = record s { world = w } in if ok then (some n, s1) else (none, give_up s1)
