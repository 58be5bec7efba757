-- ===== src/Update.antt =====
-- UpdateGWatch.cpp: the thread that sends a firmware image. `Image_data` is the list of the bytes read so
-- far; the messages are left out.
pub mod Loading
pub mod Closing
pub mod Wire
pub mod Sending
pub mod Tests
use cosmos_pc.Prelude.{
  ℕ, zero, suc, ◌+◌, ◌-◌, Bool, true, false, Option, none, some, List, [], ◌∷◌, ◌++◌, length,
  replicate, u32, ltb, ◌==◌, if◌then◌else◌,
}
use cosmos_pc.Os.{Handle, is_invalid, open_existing, Os, Sys}
use cosmos_pc.Ymodem.Uart.{Bcb2win, init, uart_close, uart_read, uart_write}
use cosmos_pc.Ymodem.Transmit.{Outcome, goes_on, returned, hung, user_flash_size, transmit}

-- `get_file_size` is `GetFileSize`, `port` what `getCommPort` gives, `file_name` what `sprintf` makes of the
-- name with `%S`. `packet` and `last` are what the stack of `Ymodem_Transmit` holds, `fuel` that of its
-- loops. The reading loop ends within as many rounds as the image has bytes, since it reads one at least.
module _ (os : Os) (get_file_size : Handle → os.World → ℕ) (port file_name packet : List ℕ)
    (last fuel : ℕ) where
  abbrev pub Done : Type 0
  Done = Option (Bcb2win × Sys os)

  -- The loop that reads the image: `none` is the return without it.
  unfoldable pub load_image : ℕ → Handle → ℕ → List ℕ → Sys os → Option (List ℕ) × Sys os
  load_image zero h image_len image s = (none, s)
  load_image (suc rounds) h image_len image s = elim (ltb (length image) image_len) [
    | false ↦ (some image, s)
    | true ↦
        let (ok, bytes, w) = os.read_file h (image_len - length image) s.world in
        let s' = record s { world = w } in
        elim ok [
          | false ↦ (none, s')
          | true ↦
              if length bytes == 0
              then (none, s')
              else load_image rounds h image_len (image ++ bytes) s'
        ]
  ]

  -- `UART_CLOSE` and the return.
  unfoldable pub leave : Bcb2win → Sys os → Done
  leave f s = some (uart_close os f s)

  -- The loops of `UART_READ`, with the rounds left and `total_length`; `none` is a failed read.
  unfoldable pub drain : ℕ → ℕ → Bcb2win → Sys os → Option ℕ × Sys os
  drain zero total f s = (some total, s)
  drain (suc rounds) total f s =
      let (result, s') = uart_read os f 128 s in
      elim result [
        | none ↦ (none, s')
        | some bytes ↦ drain rounds (u32 (total + length bytes)) f s'
      ]

  -- A command, and the answers to it: on without an error and with at least one byte of answer.
  unfoldable pub exchange : List ℕ → ℕ → Bcb2win → (Sys os → Done) → Sys os → Done
  exchange buffer in_length f next s =
      let (written, s') = uart_write os f buffer 0 in_length s in
      elim written.0 [
        | none ↦ leave f s'
        | some out_length ↦
            let (total, s2) = drain 20 0 f s' in
            elim total [ none ↦ leave f s2 | some n ↦ if n == 0 then leave f s2 else next s2 ]
      ]

  -- The command '3', which runs the program, and its answers.
  unfoldable pub start_program : Bcb2win → Sys os → Done
  start_program f s =
      let (written, s') = uart_write os f (b'3' ∷ replicate 255 0) 0 1 s in
      elim written.0 [
        | none ↦ leave f s'
        | some out_length ↦ let (total, s2) = drain 30 0 f s' in leave f s2
      ]

  -- What follows `Ymodem_Transmit`: answers are read only if it returned 0, and the program is started
  -- anyway.
  unfoldable pub after_image : ℕ → Bcb2win → Sys os → Done
  after_image code f s = elim (code == 0) [
    | false ↦ start_program f s
    | true ↦
        let (total, s2) = drain 20 0 f s in
        elim total [ none ↦ leave f s2 | some n ↦ start_program f s2 ]
  ]

  unfoldable pub after_transmit : Bcb2win → Outcome os → Done
  after_transmit f hung = none
  after_transmit f (goes_on packet' s) = none
  after_transmit f (returned code s) = after_image code f s

  unfoldable pub send_image : List ℕ → ℕ → Bcb2win → Sys os → Done
  send_image image image_len f s =
      after_transmit f (transmit os f fuel packet last image file_name image_len s)

  -- From `Form1->Init` on.
  unfoldable pub update_watch : List ℕ → ℕ → Sys os → Done
  update_watch image image_len s =
      let ((ok, f), s') = init os port s in
      exchange (b'a' ∷ b'0' ∷ replicate 254 0) 2 f
        (λ s2. exchange (b'1' ∷ replicate 255 0) 1 f (λ s3. send_image image image_len f s3) s2) s'

  -- `doUpdate`: what becomes of `Form1`, and `none` if it hangs.
  unfoldable pub do_update : List ℕ → Bcb2win → Sys os → Done
  do_update sz_file_name form1 s =
      let (h, w) = os.create_file sz_file_name open_existing s.world in
      let opened = record s { world = w } in
      let image_len = u32 (get_file_size h w) in
      let close =
        (λ (t : Sys os). let r : Sys os = record t { world = os.close_handle h t.world } in r) in
      elim (is_invalid h) [
        | true ↦ some (form1, opened)
        | false ↦ elim (ltb user_flash_size image_len) [
          | true ↦ some (form1, close opened)
          | false ↦
              let (image, s2) = load_image (suc image_len) h image_len [] opened in
              elim image [
                | none ↦ some (form1, close s2)
                | some bytes ↦ update_watch bytes image_len (close s2)
              ]
        ]
      ]
