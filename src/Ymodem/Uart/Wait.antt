-- ===== src/Ymodem/Uart/Wait.antt =====
-- `Ymodem_WaitForChar` and `Send_Byte` of modem/ymodem.cpp, on the wire.
use cosmos_pc.Prelude.{
  ℕ, zero, suc, ◌≡◌, refl, ap, ◌∙◌, Bool-cases, Option-cases, inl, inr, true, false, List, [], ◌∷◌,
  ◌++◌, arith, take, ◌==◌,
}
use cosmos_pc.Os.{is_null, Os, Sys, IsLawful, IsLive}
use cosmos_pc.ComIo.{ComIo, read_com}
use cosmos_pc.Ymodem.Uart.{
  Bcb2win, uart_read, single, receive_byte, send_byte_loop, send_byte, wait_loop, wait_for_char,
  nak_timeout,
}
use cosmos_pc.Ymodem.Uart.Send.{form, taken, after_write, uart_write_open}

-- Nothing was written, and nothing shown.
pub record IsQuiet (os : Os) (s s' : Sys os) : Type 0 where
  pub same_wire : s'.wire ≡ s.wire
  pub same_progress : s'.progress ≡ s.progress

module _ (os : Os) (f : Bcb2win) where
  IsQuiet-refl : (s : Sys os) → IsQuiet os s s
  IsQuiet-refl s = record { same_wire = refl; same_progress = refl }

  IsQuiet-trans : {s t u : Sys os} → IsQuiet os s t → IsQuiet os t u → IsQuiet os s u
  IsQuiet-trans p q = record {
    same_wire = q.same_wire ∙ p.same_wire;
    same_progress = q.same_progress ∙ p.same_progress;
  }

  uart_read-IsQuiet : (n : ℕ) (s : Sys os) → IsQuiet os s (uart_read os f n s).1
  unfolding uart_read read_com
  uart_read-IsQuiet n s = elim (Option-cases f.updateio) [
    | inl e ↦ rw (e, uart_read) (IsQuiet-refl s)
    | inr (c, e) ↦ elim (Bool-cases (is_null c.h_com)) [
      | inl shut ↦ rw (e, shut, uart_read, read_com) (IsQuiet-refl s)
      | inr on ↦ rw (e, on, uart_read, read_com) record { same_wire = refl; same_progress = refl }
    ]
  ]

  receive_byte-IsQuiet : (timeout : ℕ) (s : Sys os) → IsQuiet os s (receive_byte os f timeout s).1
  unfolding receive_byte
  receive_byte-IsQuiet zero s = IsQuiet-refl s
  receive_byte-IsQuiet (suc timeout) s =
      let quiet = uart_read-IsQuiet 1 s in
      let s' = (uart_read os f 1 s).1 in
      elim (Option-cases (uart_read os f 1 s).0) [
        | inl e ↦ rw (e, receive_byte) quiet
        | inr (bytes, e) ↦ elim (Option-cases (single bytes)) [
          | inl e' ↦
              rw (e, e', receive_byte) (IsQuiet-trans quiet (receive_byte-IsQuiet timeout s'))
          | inr (c, e') ↦ rw (e, e', receive_byte) quiet
        ]
      ]

  wait_loop-IsQuiet : (rounds ch : ℕ) (s : Sys os) → IsQuiet os s (wait_loop os f rounds ch s).1
  unfolding wait_loop
  wait_loop-IsQuiet zero ch s = IsQuiet-refl s
  wait_loop-IsQuiet (suc rounds) ch s =
      let quiet = receive_byte-IsQuiet nak_timeout s in
      let s' = (receive_byte os f nak_timeout s).1 in
      elim (Option-cases (receive_byte os f nak_timeout s).0) [
        | inl e ↦ rw (e, wait_loop) (IsQuiet-trans quiet (wait_loop-IsQuiet rounds ch s'))
        | inr (c, e) ↦ elim (Bool-cases (c == ch)) [
          | inl same ↦ rw (e, same, wait_loop) quiet
          | inr differ ↦
              rw (e, differ, wait_loop) (IsQuiet-trans quiet (wait_loop-IsQuiet rounds ch s'))
        ]
      ]

  pub wait_for_char-IsQuiet : (ch : ℕ) (s : Sys os) → IsQuiet os s (wait_for_char os f ch s).1
  unfolding wait_for_char
  wait_for_char-IsQuiet ch s = wait_loop-IsQuiet 20 ch s

module _ (os : Os) (c : ComIo) (is_open : is_null c.h_com ≡ false) (lawful : IsLawful os)
    (live : IsLive os) where
  send_byte_loop_once :
      (rounds : ℕ) (buf : List ℕ) (s : Sys os)
      → (taken os c is_open buf 0 1 s == 1) ≡ true
      → send_byte_loop os (form c) (suc rounds) buf s ≡ after_write os c is_open buf 0 1 s
  unfolding send_byte_loop
  send_byte_loop_once rounds buf s one = rw (
    uart_write_open os c is_open buf 0 1 s,
    one,
    uart_write_open os c is_open buf 0 1 s,
    send_byte_loop,
  )

  -- A byte is on the wire once.
  pub send_byte-wire :
      (b : ℕ) (s : Sys os)
      → ((send_byte os (form c) b s).wire ≡ s.wire ++ (b ∷ []))
        × ((send_byte os (form c) b s).progress ≡ s.progress)
  unfolding send_byte
  send_byte-wire b s =
      let bytes : List ℕ = b ∷ [] in
      let k = taken os c is_open bytes 0 1 s in
      let lower = live.write_some c.h_com bytes s.world (omega arith) in
      let upper = lawful.write_le c.h_com bytes s.world in
      let once : k ≡ 1 = omega (arith, lower, upper) in
      let one : (k == 1) ≡ true = ground (arith, once) in
      let done = send_byte_loop_once 24 bytes s one in
      (
        ap (λ (t : Sys os). t.wire) done ∙ ap (λ n. s.wire ++ take n bytes) once,
        ap (λ (t : Sys os). t.progress) done,
      )
