-- ===== src/Update/Wire.antt =====
-- The commands of `doUpdate` (UpdateGWatch.cpp) on the wire.
use cosmos_pc.Prelude.{
  ℕ, zero, suc, ◌+◌, ◌≡◌, ◌⊎◌, refl, sym, ap, ◌∙◌, Bool-cases, inl, inr, false, Option, none, some,
  List, [], ◌∷◌, ◌++◌, append_assoc, append-nil, length, replicate, take, u32, ◌==◌,
}
use cosmos_pc.Os.{Handle, is_null, Os, Sys}
use cosmos_pc.ComIo.{ComIo, deinit_com_io, read_com}
use cosmos_pc.ComIo.Wire.{write_com-wire}
use cosmos_pc.Download.Transfer.{IsRoomy}
use cosmos_pc.Ymodem.Uart.{Bcb2win, uart_close, uart_read, uart_write}
use cosmos_pc.Ymodem.Uart.Send.{form}
use cosmos_pc.Update.{leave, drain, exchange, start_program, after_image}

-- It returns without the port object, and `sent` is what it has put on the wire.
pub record Leaves (os : Os) (s : Sys os) (sent : List ℕ) (result : Option (Bcb2win × Sys os))
    : Type 0 where
  pub f' : Bcb2win
  pub s' : Sys os
  pub returns : result ≡ some (f', s')
  pub released : f'.updateio ≡ none
  pub on_wire : s'.wire ≡ s.wire ++ sent

pub Leaves-after :
    {os : Os} {s : Sys os} {o : Option (Bcb2win × Sys os)} (t : Sys os) (xs ys : List ℕ)
    → t.wire ≡ s.wire ++ xs
    → Leaves os t ys o
    → Leaves os s (xs ++ ys) o
Leaves-after {s = s} t xs ys e done = record {
  f' = done.f';
  s' = done.s';
  returns = done.returns;
  released = done.released;
  on_wire = done.on_wire ∙ ap (λ l. l ++ ys) e ∙ append_assoc s.wire xs ys;
}

module _ (os : Os) (get_file_size : Handle → os.World → ℕ) (port file_name packet : List ℕ)
    (last fuel : ℕ) where
  module _ (c : ComIo) where
    read_com-wire : (n : ℕ) (s : Sys os) → (read_com os c n s).1.wire ≡ s.wire
    unfolding read_com
    read_com-wire n s = elim (Bool-cases (is_null c.h_com)) [
      | inl e ↦ rw (e, read_com) refl
      | inr e ↦ rw (e, read_com) refl
    ]

    pub leave-Leaves :
        (s : Sys os)
        → Leaves os s [] (leave os get_file_size port file_name packet last fuel (form c) s)
    unfolding leave uart_close deinit_com_io
    leave-Leaves s = record {
      f' = (uart_close os (form c) s).0;
      s' = (uart_close os (form c) s).1;
      returns = refl;
      released = refl;
      on_wire = sym (append-nil s.wire);
    }

    -- An open port object can be read from, and reading puts nothing on the wire.
    drain-wire :
        (rounds total : ℕ) (s : Sys os)
        → let drained =
            drain os get_file_size port file_name packet last fuel rounds total (form c) s in
          (n : ℕ) × (drained.0 ≡ some n) × (drained.1.wire ≡ s.wire)
    unfolding drain uart_read
    drain-wire zero total s = (total, refl, refl)
    drain-wire (suc rounds) total s =
        let s' = (read_com os c 128 s).1 in
        let (n, e, same) = drain-wire rounds (u32 (total + length (read_com os c 128 s).0)) s' in
        (n, e, same ∙ read_com-wire 128 s)

    module _ (roomy : IsRoomy os) (is_open : is_null c.h_com ≡ false) where
      -- After a command and its answers, it is left or goes on.
      pub exchange-cases :
          (buffer : List ℕ) (n : ℕ) (next : Sys os → Option (Bcb2win × Sys os)) (s : Sys os)
          → let result =
              exchange os get_file_size port file_name packet last fuel buffer n (form c) next s in
            (t : Sys os) × (t.wire ≡ s.wire ++ take n buffer)
            × ((result ≡ leave os get_file_size port file_name packet last fuel (form c) t)
                ⊎ (result ≡ next t))
      unfolding exchange uart_write
      exchange-cases buffer n next s =
          let s' = (uart_write os (form c) buffer 0 n s).1 in
          let (total, e, same) = drain-wire 20 0 s' in
          let sent = same ∙ write_com-wire os roomy c buffer n s is_open in
          let t = (drain os get_file_size port file_name packet last fuel 20 0 (form c) s').1 in
          elim (Bool-cases (total == 0)) [
            | inl silent ↦ (t, sent, inl (rw (e, silent, exchange) refl))
            | inr answered ↦ (t, sent, inr (rw (e, answered, exchange) refl))
          ]

      start_program-Leaves :
          (s : Sys os)
          → Leaves os s
              (b'3' ∷ [])
              (start_program os get_file_size port file_name packet last fuel (form c) s)
      unfolding start_program uart_write
      start_program-Leaves s =
          let buffer = b'3' ∷ replicate 255 0 in
          let s' = (uart_write os (form c) buffer 0 1 s).1 in
          let (total, e, same) = drain-wire 30 0 s' in
          let t = (drain os get_file_size port file_name packet last fuel 30 0 (form c) s').1 in
          Leaves-after t (b'3' ∷ []) [] (same ∙ write_com-wire os roomy c buffer 1 s is_open)
            (leave-Leaves t)

      pub after_image-Leaves :
          (code : ℕ) (s : Sys os)
          → Leaves os s
              (b'3' ∷ [])
              (after_image os get_file_size port file_name packet last fuel code (form c) s)
      unfolding after_image
      after_image-Leaves code s = elim (Bool-cases (code == 0)) [
        | inr failed ↦ rw (failed, after_image) (start_program-Leaves s)
        | inl sent ↦
            let (total, e, same) = drain-wire 20 0 s in
            let t = (drain os get_file_size port file_name packet last fuel 20 0 (form c) s).1 in
            rw (sent, e, after_image)
              (Leaves-after t [] (b'3' ∷ []) (same ∙ sym (append-nil s.wire))
                (start_program-Leaves t))
      ]
