-- ===== src/Form/Update.antt =====
-- `Process_Update` of Unit1.cxx.
use cosmos_pc.Prelude.{
  ℕ, zero, suc, ◌+◌, Bool, true, false, Option, none, some, List, [], ◌∷◌, ◌++◌, length, replicate,
  overlay, u32, ◌==◌, if◌then◌else◌,
}
use cosmos_pc.Download.Text.{c_string}
use cosmos_pc.Form.{FormOs, Form, enable}
use cosmos_pc.Form.Texts.{
  open_said, write_said, read_said, dots_end, error_end, ok_end, no_response,
}
use cosmos_pc.Form.Messages.{show_test_message}
use cosmos_pc.Form.Uart.{open_uart, close_uart, read_uart, write_uart}

-- `item_index` and `port_text` are what the combo box shows, `transmit` is `Ymodem_Transmit` of the form,
-- whose class is not in the repository.
module _ {x : FormOs} (item_index : ℕ) (port_text : List ℕ)
    (transmit : List ℕ → List ℕ → ℕ → Form x → ℕ × Form x) where
  -- The way out with a message: `UART_CLOSE`, and the button and the box enabled again.
  unfoldable pub fail_with : List ℕ → Form x → Form x
  fail_with text s = enable (close_uart (show_test_message text s))

  -- The loops of `UART_READ`, with the rounds left and `total_length`: `none` after a failed read, which
  -- has left the function.
  unfoldable pub listen : ℕ → ℕ → Form x → Option ℕ × Form x
  listen zero total s = (some total, s)
  listen (suc rounds) total s =
      let (result, s1) = read_uart 128 s in
      elim result [
        | none ↦ (none, fail_with (read_said ++ port_text ++ error_end) s1)
        | some bytes ↦
            listen rounds (u32 (total + length bytes))
              (show_test_message (c_string (overlay bytes (replicate 256 0))) s1)
      ]

  -- A command, 2000 reads, and the test that there was an answer: whether to go on.
  unfoldable pub ask : List ℕ → Form x → Bool × Form x
  ask bytes s =
      let (written, s1) = write_uart bytes s in
      let (total, s2) = listen 2000 0 s1 in
      elim written [
        | none ↦ (false, fail_with (write_said ++ port_text ++ error_end) s1)
        | some out_length ↦ elim total [
          | none ↦ (false, s2)
          | some n ↦ if n == 0 then (false, fail_with no_response s2) else (true, s2)
        ]
      ]

  -- The command '3', 3000 reads, and the end.
  unfoldable pub run_program : Form x → Form x
  run_program s =
      let (written, s1) = write_uart (b'3' ∷ []) s in
      let (total, s2) = listen 3000 0 s1 in
      elim written [
        | none ↦ fail_with (write_said ++ port_text ++ error_end) s1
        | some out_length ↦ elim total [ none ↦ s2 | some n ↦ enable (close_uart s2) ]
      ]

  -- `Ymodem_Transmit`, and 2000 reads if it returned 0.
  unfoldable pub send_file : Form x → Form x
  send_file s =
      let (code, s1) = transmit s.image_data s.filename s.image_length s in
      let (total, s2) = listen 2000 0 s1 in
      if code == 0 then elim total [ none ↦ s2 | some n ↦ run_program s2 ] else run_program s1

  -- `Process_Update`
  unfoldable pub process_update : Form x → Form x
  process_update s =
      let s1 = show_test_message (open_said ++ port_text ++ dots_end) s in
      let (opened, s2) = open_uart (item_index + 1) s1 in
      let s3 = show_test_message (open_said ++ port_text ++ ok_end) s2 in
      let (goes_on, s4) = ask (b'a' ∷ b'0' ∷ []) s3 in
      let (goes_on', s5) = ask (b'1' ∷ []) s4 in
      if opened
      then if goes_on then if goes_on' then send_file s5 else s5 else s4
      else enable (show_test_message (open_said ++ port_text ++ error_end) s2)
