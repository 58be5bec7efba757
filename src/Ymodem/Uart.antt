-- ===== src/Ymodem/Uart.antt =====
-- The class `BCB2WIN` and the byte and packet loops of modem/ymodem.cpp over it. `Sleep` and
-- `ShowTestMessage` have no effect on the state.
pub mod Send
pub mod Wait
use cosmos_pc.Prelude.{
  ℕ, zero, suc, ◌+◌, ◌-◌, Bool, true, false, Option, none, some, List, [], ◌∷◌, u16, ltb, ◌==◌,
  if◌then◌else◌,
}
use cosmos_pc.Os.{Handle, null_handle, Os, Sys}
use cosmos_pc.ComIo.{ComIo, init_com_io, deinit_com_io, read_com, write_com}

-- `none` is a `NULL` pointer.
pub record Bcb2win : Type 0 where
  pub updateio : Option ComIo

abbrev pub nak_timeout : ℕ
nak_timeout = 500

-- The byte that was read, if `len == 1`.
unfoldable pub single : List ℕ → Option ℕ
single [] = none
single (c ∷ []) = some c
single (c ∷ d ∷ rest) = none

module _ (os : Os) where
  -- `Init`: the constructor of `ComIO` leaves `hCom` as it is, and `InitComIO(TRUE)` sets it.
  unfoldable pub init : List ℕ → Sys os → (Bool × Bcb2win) × Sys os
  init buf s =
      let c : ComIo = record { sz_dev_name = buf; h_com = null_handle; reading = false } in
      let ((ok, c'), s') = init_com_io os c true s in ((ok, record { updateio = some c' }), s')

  -- `UART_CLOSE`: the destructor closes the port.
  unfoldable pub uart_close : Bcb2win → Sys os → Bcb2win × Sys os
  uart_close f s = elim f.updateio [
    | none ↦ (record { updateio = none }, s)
    | some c ↦ let (r, s') = deinit_com_io os c s in (record { updateio = none }, s')
  ]

  -- `UART_READ`: `none` is the result 0, else the `*len` bytes read.
  unfoldable pub uart_read : Bcb2win → ℕ → Sys os → Option (List ℕ) × Sys os
  uart_read f n s = elim f.updateio [
    | none ↦ (none, s)
    | some c ↦ let (bytes, s') = read_com os c n s in (some bytes, s')
  ]

  -- `UART_WRITE`: `none` is the result 0, else `*len`; and the buffer, which `WriteCom` changes.
  unfoldable pub uart_write : Bcb2win → List ℕ → ℕ → ℕ → Sys os → (Option ℕ × List ℕ) × Sys os
  uart_write f buf off n s = elim f.updateio [
    | none ↦ ((none, buf), s)
    | some c ↦ let ((len, buf'), s') = write_com os c buf off n s in ((some len, buf'), s')
  ]

  module _ (f : Bcb2win) where
    -- `Receive_Byte`: `none` is the result -1.
    unfoldable pub receive_byte : ℕ → Sys os → Option ℕ × Sys os
    receive_byte zero s = (none, s)
    receive_byte (suc timeout) s =
        let (result, s') = uart_read f 1 s in
        elim result [
          | none ↦ (none, s')
          | some bytes ↦ elim (single bytes) [
            | none ↦ receive_byte timeout s'
            | some c ↦ (some c, s')
          ]
        ]

    -- The loop of `Send_Byte`, with the rounds left. The buffer is the parameter `c` itself.
    unfoldable pub send_byte_loop : ℕ → List ℕ → Sys os → Sys os
    send_byte_loop zero buf s = s
    send_byte_loop (suc rounds) buf s =
        let (written, s') = uart_write f buf 0 1 s in
        elim written.0 [
          | none ↦ s'
          | some len ↦ elim (len == 1) [ true ↦ s' | false ↦ send_byte_loop rounds written.1 s' ]
        ]

    unfoldable pub send_byte : ℕ → Sys os → Sys os
    send_byte c s = send_byte_loop 25 (c ∷ []) s

    -- The loop of `Ymodem_SendPacket`; `none` means that the fuel ran out.
    unfoldable pub send_packet_loop : ℕ → ℕ → ℕ → List ℕ → Sys os → Option (List ℕ × Sys os)
    send_packet_loop zero index length buf s = none
    send_packet_loop (suc fuel) index length buf s = elim (ltb index length) [
      | false ↦ some (buf, s)
      | true ↦
          let (written, s') = uart_write f buf index (length - index) s in
          elim written.0 [
            | none ↦ some (written.1, s')
            | some len ↦ send_packet_loop fuel (u16 (index + u16 len)) length written.1 s'
          ]
    ]

    unfoldable pub send_packet : ℕ → List ℕ → ℕ → Sys os → Option (List ℕ × Sys os)
    send_packet fuel buf length s = send_packet_loop fuel 0 length buf s

    -- The loop of `Ymodem_WaitForChar`, with the rounds left.
    unfoldable pub wait_loop : ℕ → ℕ → Sys os → Bool × Sys os
    wait_loop zero ch s = (false, s)
    wait_loop (suc rounds) ch s =
        let (received, s') = receive_byte nak_timeout s in
        elim received [
          | none ↦ wait_loop rounds ch s'
          | some c ↦ elim (c == ch) [ true ↦ (true, s') | false ↦ wait_loop rounds ch s' ]
        ]

    unfoldable pub wait_for_char : ℕ → Sys os → Bool × Sys os
    wait_for_char ch s = wait_loop 20 ch s
