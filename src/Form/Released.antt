-- ===== src/Form/Released.antt =====
-- What every way out of `Process_Update` of Unit1.cxx leaves behind.
use cosmos_pc.Prelude.{
  ℕ, zero, suc, ◌+◌, ◌≡◌, ◌≢◌, ◌⊎◌, refl, ◌∙◌, Bool-cases, Option-cases, inl, inr, Bool, true,
  false, Option, none, some, List, [], ◌∷◌, ◌++◌, length, replicate, overlay, u32, ltb, ◌==◌,
  if◌then◌else◌, pick,
}
use mathlib.Core.Bool.{false≢true}
use cosmos_pc.Os.{Handle, null_handle, invalid_handle, open_handle, is_invalid, open_existing}
use cosmos_pc.Download.Text.{c_string}
use cosmos_pc.Form.{FormOs, Form, enable}
use cosmos_pc.Form.Texts.{
  open_said, write_said, read_said, dots_end, error_end, ok_end, no_response,
}
use cosmos_pc.Form.Messages.{show_test_message}
use cosmos_pc.Form.Uart.{device_path, open_uart, close_uart, read_uart, write_uart}
use cosmos_pc.Form.Update.{fail_with, listen, ask, run_program, send_file, process_update}

is_invalid-invalid : (h : Handle) → is_invalid h ≡ true → h ≡ invalid_handle
is_invalid-invalid invalid_handle e = refl
is_invalid-invalid null_handle e = absurd (false≢true e)
is_invalid-invalid (open_handle n) e = absurd (false≢true e)

module _ {x : FormOs} where
  -- The port is given up, and the controls can be used again.
  pub record Released (t : Form x) : Type 0 where
    pub closed : t.h_com ≡ invalid_handle
    pub button : t.button_enabled ≡ true
    pub combo : t.combo_enabled ≡ true

  close_uart-closes : (s : Form x) → (close_uart s).h_com ≡ invalid_handle
  unfolding close_uart
  close_uart-closes s = elim (Bool-cases (is_invalid s.h_com)) [
    | inl e ↦ rw e (is_invalid-invalid s.h_com e)
    | inr e ↦ rw e refl
  ]

  close_uart-Released : (s : Form x) → Released (enable (close_uart s))
  close_uart-Released s = record { closed = close_uart-closes s; button = refl; combo = refl }

  -- A port that was not opened is given up.
  abbrev OpenOrNot : Bool × Form x → Type 0
  OpenOrNot r = (r.0 ≡ true) ⊎ (r.1.h_com ≡ invalid_handle)

  open_uart-OpenOrNot : (index : ℕ) (s : Form x) → OpenOrNot (open_uart index s)
  unfolding open_uart
  open_uart-OpenOrNot index s =
      let (h, w1) = x.os.create_file (device_path index) open_existing s.world in
      let (got, w2) = x.get_comm_timeouts h w1 in
      let (is_set, w3) = x.os.set_comm_timeouts h w2 in
      pick OpenOrNot (is_invalid s.h_com)
        (elim (Bool-cases (is_invalid h)) [
          | inl e ↦ rw e (inr (is_invalid-invalid h e))
          | inr e ↦
              rw e (pick OpenOrNot got (pick OpenOrNot is_set (inl refl) (inr refl)) (inr refl))
        ])
        (inl refl)

  show_test_message-port : (text : List ℕ) (s : Form x) → (show_test_message text s).h_com ≡ s.h_com
  unfolding show_test_message
  show_test_message-port text s =
      elim (Bool-cases (ltb s.message_max_text_size (u32 (s.message_counter + length text)))) [
        | inl e ↦ rw e refl
        | inr e ↦ rw e refl
      ]

module _ {x : FormOs} (item_index : ℕ) (port_text : List ℕ)
    (transmit : List ℕ → List ℕ → ℕ → Form x → ℕ × Form x) where
  fail_with-Released :
      (text : List ℕ) (s : Form x) → Released (fail_with item_index port_text transmit text s)
  unfolding fail_with
  fail_with-Released text s = close_uart-Released (show_test_message text s)

  -- A loop of reads goes on, or has left the function.
  abbrev Heard : Option ℕ × Form x → Type 0
  Heard r = (r.0 ≢ none) ⊎ Released r.1

  listen-Heard :
      (rounds total : ℕ) (s : Form x) → Heard (listen item_index port_text transmit rounds total s)
  unfolding listen
  listen-Heard zero total s = inl (λ e. cc)
  listen-Heard (suc rounds) total s = elim (Option-cases (read_uart 128 s).0) [
    | inl e ↦
        rw (e, listen)
          (inr (fail_with-Released (read_said ++ port_text ++ error_end) (read_uart 128 s).1))
    | inr (bytes, e) ↦
        rw (e, listen)
          (listen-Heard rounds (u32 (total + length bytes))
            (show_test_message (c_string (overlay bytes (replicate 256 0))) (read_uart 128 s).1))
  ]

  after_reads :
      (r : Option ℕ × Form x) (next : Form x)
      → Heard r
      → Released next
      → Released (elim r.0 [ none ↦ r.1 | some n ↦ next ])
  after_reads (none, t) next (inl e) released = absurd (e refl)
  after_reads (none, t) next (inr gone) released = gone
  after_reads (some n, t) next heard released = released

  run_program-Released : (s : Form x) → Released (run_program item_index port_text transmit s)
  unfolding run_program
  run_program-Released s =
      let (written, s1) = write_uart (b'3' ∷ []) s in
      let r = listen item_index port_text transmit 3000 0 s1 in
      elim (Option-cases written) [
        | inl e ↦ rw (e, run_program) (fail_with-Released (write_said ++ port_text ++ error_end) s1)
        | inr (n, e) ↦
            rw (e, run_program)
              (after_reads r (enable (close_uart r.1)) (listen-Heard 3000 0 s1)
                (close_uart-Released r.1))
      ]

  send_file-Released : (s : Form x) → Released (send_file item_index port_text transmit s)
  unfolding send_file
  send_file-Released s =
      let s1 = (transmit s.image_data s.filename s.image_length s).1 in
      let r = listen item_index port_text transmit 2000 0 s1 in
      pick Released ((transmit s.image_data s.filename s.image_length s).0 == 0)
        (after_reads r (run_program item_index port_text transmit r.1) (listen-Heard 2000 0 s1)
          (run_program-Released r.1))
        (run_program-Released s1)

  -- A command goes on, or has left the function.
  abbrev Answered : Bool × Form x → Type 0
  Answered r = (r.0 ≡ true) ⊎ Released r.1

  ask-Answered :
      (bytes : List ℕ) (s : Form x) → Answered (ask item_index port_text transmit bytes s)
  unfolding ask
  ask-Answered bytes s =
      let (written, s1) = write_uart bytes s in
      let r = listen item_index port_text transmit 2000 0 s1 in
      elim (Option-cases written) [
        | inl e ↦ rw (e, ask) (inr (fail_with-Released (write_said ++ port_text ++ error_end) s1))
        | inr (n, e) ↦ elim (Option-cases r.0) [
          | inl gone ↦
              rw (e, gone, ask)
                (elim (listen-Heard 2000 0 s1) [
                  | inl goes ↦ absurd (goes gone)
                  | inr left ↦ inr left
                ])
          | inr (total, heard) ↦
              rw (e, heard, ask)
                (pick Answered (total == 0) (inr (fail_with-Released no_response r.1)) (inl refl))
        ]
      ]

  after_ask :
      (r : Bool × Form x) (next : Form x)
      → Answered r
      → Released next
      → Released (if r.0 then next else r.1)
  after_ask (true, t) next answered released = released
  after_ask (false, t) next (inl e) released = absurd (false≢true e)
  after_ask (false, t) next (inr gone) released = gone

  -- Whatever the port and the transfer do, `Process_Update` returns with the port given up, the button
  -- enabled and the box for the port enabled.
  pub process_update-Released :
      (s : Form x) → Released (process_update item_index port_text transmit s)
  unfolding process_update
  process_update-Released s =
      let s1 = show_test_message (open_said ++ port_text ++ dots_end) s in
      let r = open_uart (item_index + 1) s1 in
      let s3 = show_test_message (open_said ++ port_text ++ ok_end) r.1 in
      let c = ask item_index port_text transmit (b'a' ∷ b'0' ∷ []) s3 in
      let c' = ask item_index port_text transmit (b'1' ∷ []) c.1 in
      let failed = open_said ++ port_text ++ error_end in
      let done =
        after_ask c (if c'.0 then send_file item_index port_text transmit c'.1 else c'.1)
          (ask-Answered (b'a' ∷ b'0' ∷ []) s3)
          (after_ask c' (send_file item_index port_text transmit c'.1)
            (ask-Answered (b'1' ∷ []) c.1) (send_file-Released c'.1)) in
      elim (open_uart-OpenOrNot (item_index + 1) s1) [
        | inl opened ↦ rw opened done
        | inr closed ↦ pick Released r.0 done (record {
          closed = show_test_message-port failed r.1 ∙ closed;
          button = refl;
          combo = refl;
        })
      ]
