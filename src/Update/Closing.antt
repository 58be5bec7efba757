-- ===== src/Update/Closing.antt =====
-- The port object at each way out of `doUpdate` (UpdateGWatch.cpp).
use cosmos_pc.Prelude.{
  ℕ, suc, ◌≡◌, refl, Bool-cases, Option-cases, inl, inr, Option, none, some, List, [], ◌∷◌,
  replicate, u32, ltb, ◌==◌,
}
use cosmos_pc.Os.{Handle, open_existing, is_invalid, Os, Sys}
use cosmos_pc.Ymodem.Uart.{Bcb2win, uart_close, uart_write}
use cosmos_pc.Ymodem.Transmit.{Outcome, goes_on, returned, hung, user_flash_size, transmit}
use cosmos_pc.Update.{
  leave, drain, exchange, start_program, after_image, after_transmit, send_image, update_watch,
  load_image, do_update,
}

-- It hangs, or `Form1` has no port object.
pub data IsClosed (os : Os) : Option (Bcb2win × Sys os) → Type 0 where
  hangs : IsClosed os none
  has_left : (f : Bcb2win) (s : Sys os) → f.updateio ≡ none → IsClosed os (some (f, s))

module _ (os : Os) (get_file_size : Handle → os.World → ℕ) (port file_name packet : List ℕ)
    (last fuel : ℕ) where
  leave-IsClosed :
      (f : Bcb2win) (s : Sys os)
      → IsClosed os (leave os get_file_size port file_name packet last fuel f s)
  unfolding leave uart_close
  leave-IsClosed f s = elim (Option-cases f.updateio) [
    | inl e ↦ rw (e, uart_close) (has_left _ s refl)
    | inr (c, e) ↦ rw (e, uart_close) (has_left _ _ refl)
  ]

  start_program-IsClosed :
      (f : Bcb2win) (s : Sys os)
      → IsClosed os (start_program os get_file_size port file_name packet last fuel f s)
  unfolding start_program
  start_program-IsClosed f s =
      elim (Option-cases (uart_write os f (b'3' ∷ replicate 255 0) 0 1 s).0.0) [
        | inl e ↦ rw (e, start_program) (leave-IsClosed f _)
        | inr (out_length, e) ↦ rw (e, start_program) (leave-IsClosed f _)
      ]

  exchange-IsClosed :
      (buffer : List ℕ) (in_length : ℕ) (f : Bcb2win) (next : Sys os → Option (Bcb2win × Sys os))
      (s : Sys os)
      → ((t : Sys os) → IsClosed os (next t))
      → IsClosed os
          (exchange os get_file_size port file_name packet last fuel buffer in_length f next s)
  unfolding exchange
  exchange-IsClosed buffer in_length f next s k =
      elim (Option-cases (uart_write os f buffer 0 in_length s).0.0) [
        | inl e ↦ rw (e, exchange) (leave-IsClosed f _)
        | inr (out_length, e) ↦
            elim (Option-cases
              (drain os get_file_size port file_name packet last fuel 20 0 f
                (uart_write os f buffer 0 in_length s).1).0) [
                  | inl e' ↦ rw (e, e', exchange) (leave-IsClosed f _)
                  | inr (n, e') ↦ elim (Bool-cases (n == 0)) [
                    | inl silent ↦ rw (e, e', silent, exchange) (leave-IsClosed f _)
                    | inr answered ↦ rw (e, e', answered, exchange) (k _)
                  ]
                ]
      ]

  answers-IsClosed :
      (code : ℕ) (f : Bcb2win) (s : Sys os)
      → IsClosed os (after_image os get_file_size port file_name packet last fuel code f s)
  unfolding after_image
  answers-IsClosed code f s = elim (Bool-cases (code == 0)) [
    | inr failed ↦ rw (failed, after_image) (start_program-IsClosed f s)
    | inl sent ↦
        elim (Option-cases (drain os get_file_size port file_name packet last fuel 20 0 f s).0) [
          | inl e ↦ rw (sent, e, after_image) (leave-IsClosed f _)
          | inr (n, e) ↦ rw (sent, e, after_image) (start_program-IsClosed f _)
        ]
  ]

  outcome-IsClosed :
      (f : Bcb2win) (o : Outcome os)
      → IsClosed os (after_transmit os get_file_size port file_name packet last fuel f o)
  unfolding after_transmit
  outcome-IsClosed f hung = hangs
  outcome-IsClosed f (goes_on packet' s') = hangs
  outcome-IsClosed f (returned code s') = answers-IsClosed code f s'

  update_watch-IsClosed :
      (image : List ℕ) (image_len : ℕ) (s : Sys os)
      → IsClosed os
          (update_watch os get_file_size port file_name packet last fuel image image_len s)
  unfolding update_watch send_image
  update_watch-IsClosed image image_len s = exchange-IsClosed _ 2 _ _ _ (λ s2.
      exchange-IsClosed _ 1 _ _ s2
        (λ s3. outcome-IsClosed _ (transmit os _ fuel packet last image file_name image_len s3)))

  -- If `Form1` has no port object before, it has none after `doUpdate`, whichever way that returns.
  pub do_update-IsClosed :
      (sz_file_name : List ℕ) (form1 : Bcb2win) (s : Sys os)
      → form1.updateio ≡ none
      → IsClosed os
          (do_update os get_file_size port file_name packet last fuel sz_file_name form1 s)
  unfolding do_update
  do_update-IsClosed sz_file_name form1 s free =
      let h = (os.create_file sz_file_name open_existing s.world).0 in
      let w = (os.create_file sz_file_name open_existing s.world).1 in
      let image_len = u32 (get_file_size h w) in
      let opened : Sys os = record s { world = w } in
      let loaded =
        load_image os get_file_size port file_name packet last fuel (suc image_len) h image_len []
          opened in
      elim (Bool-cases (is_invalid h)) [
        | inl bad ↦ rw (bad, do_update) (has_left form1 _ free)
        | inr good ↦ elim (Bool-cases (ltb user_flash_size image_len)) [
          | inl large ↦ rw (good, large, do_update) (has_left form1 _ free)
          | inr fits ↦ elim (Option-cases loaded.0) [
            | inl e ↦ rw (good, fits, e, do_update) (has_left form1 _ free)
            | inr (image, e) ↦
                rw (good, fits, e, do_update) (update_watch-IsClosed image image_len _)
          ]
        ]
      ]
