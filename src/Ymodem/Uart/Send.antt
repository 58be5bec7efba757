-- ===== src/Ymodem/Uart/Send.antt =====
-- The loop of `Ymodem_SendPacket` (modem/ymodem.cpp) on an open port, which may split the writes.
use cosmos_pc.Prelude.{
  ℕ, zero, suc, ◌+◌, ◌-◌, ◌^◌, ◌≤◌, ◌<◌, ◌≡◌, refl, sym, ap, ap₂, ◌∙◌, Bool-cases, inl, inr, true,
  false, Option, none, some, List, ◌++◌, append_assoc, append-nil, arith, length, take, drop, set,
  u16, ltb, if◌then◌else◌, take-set_self, take-drop, drop-add, take-append-drop, length-take,
  length-drop, length-set, drop_all,
}
use cosmos_pc.Os.{is_null, Os, Sys, IsLawful, IsLive}
use cosmos_pc.ComIo.{ComIo, write_com}
use cosmos_pc.Ymodem.Uart.{Bcb2win, uart_write, send_packet_loop, send_packet}

-- The object `Form1` over a port.
abbrev pub form : ComIo → Bcb2win
form c = record { updateio = some c }

module _ (os : Os) (c : ComIo) (is_open : is_null c.h_com ≡ false) where
  -- The number of bytes that the system takes of a request.
  abbrev pub taken : List ℕ → ℕ → ℕ → Sys os → ℕ
  taken buf off n s = (os.write_file c.h_com (take n (drop off buf)) s.world).1

  abbrev pub after_write : List ℕ → ℕ → ℕ → Sys os → Sys os
  after_write buf off n s =
      let bytes = take n (drop off buf) in
      record s {
        world = (os.write_file c.h_com bytes s.world).2;
        wire = s.wire ++ take (taken buf off n s) bytes;
        stray = if ltb (off + n) (length buf) then s.stray else s.stray + 1;
      }

  -- `UART_WRITE` on an open port.
  pub uart_write_open :
      (buf : List ℕ) (off n : ℕ) (s : Sys os)
      → uart_write os (form c) buf off n s
        ≡ ((some (taken buf off n s), set buf (off + n) 0), after_write buf off n s)
  unfolding uart_write write_com
  uart_write_open buf off n s = rw is_open

  send_packet_loop_step :
      (fuel index L : ℕ) (buf : List ℕ) (s : Sys os)
      → index < L
      → send_packet_loop os (form c) (suc fuel) index L buf s
        ≡ send_packet_loop os
            (form c)
            fuel
            (u16 (index + u16 (taken buf index (L - index) s)))
            L
            (set buf (index + (L - index)) 0)
            (after_write buf index (L - index) s)
  unfolding send_packet_loop
  send_packet_loop_step fuel index L buf s less =
      let on : ltb index L ≡ true = ground arith in
      rw (
        on,
        send_packet_loop,
        uart_write_open buf index (L - index) s,
        uart_write_open buf index (L - index) s,
      )

  send_packet_loop_done :
      (fuel index L : ℕ) (buf : List ℕ) (s : Sys os)
      → ltb index L ≡ false
      → send_packet_loop os (form c) (suc fuel) index L buf s ≡ some (buf, s)
  unfolding send_packet_loop
  send_packet_loop_done fuel index L buf s done = rw (done, send_packet_loop)

  -- A call that returned with `rest` sent behind what was there, and the first `n` bytes of the
  -- buffer `sent` as they were.
  pub record IsSent (n : ℕ) (sent rest buf : List ℕ) (s : Sys os)
      (result : Option (List ℕ × Sys os)) : Type 0 where
    pub buf' : List ℕ
    pub s' : Sys os
    pub returns : result ≡ some (buf', s')
    pub on_wire : s'.wire ≡ s.wire ++ rest
    pub same_length : length buf' ≡ length buf
    pub same_bytes : take n buf' ≡ sent
    pub same_progress : s'.progress ≡ s.progress

  module _ (lawful : IsLawful os) (live : IsLive os) (L : ℕ) (fits : L < 2 ^ 16) where
    taken_bounds :
        (buf : List ℕ) (index : ℕ) (s : Sys os)
        → index < L
        → L ≤ length buf
        → (0 < taken buf index (L - index) s) × (taken buf index (L - index) s ≤ L - index)
    taken_bounds buf index s less room =
        let bytes = take (L - index) (drop index buf) in
        let size : length bytes ≡ L - index =
          omega (arith, length-take (L - index) (drop index buf), length-drop index buf) in
        (
          live.write_some c.h_com bytes s.world (omega arith),
          omega (arith, lawful.write_le c.h_com bytes s.world),
        )

    -- One more round in front.
    IsSent-step :
        (fuel index : ℕ) (sent buf : List ℕ) (s : Sys os)
        → take L buf ≡ sent
        → index < L
        → let k = taken buf index (L - index) s in
          let buf1 = set buf (index + (L - index)) 0 in
          k ≤ L - index
          → IsSent L sent (drop (index + k) sent) buf1 (after_write buf index (L - index) s) (
              send_packet_loop os
                (form c)
                fuel
                (index + k)
                L
                buf1
                (after_write buf index (L - index) s))
          → IsSent L sent
              (drop index sent)
              buf
              s
              (send_packet_loop os (form c) (suc fuel) index L buf s)
    IsSent-step fuel index sent buf s e less le rest =
        let k = taken buf index (L - index) s in
        let next : u16 (index + u16 k) ≡ index + k = omega arith in
        let bytes_eq : take (L - index) (drop index buf) ≡ drop index sent =
          take-drop L index (L - index) buf refl ∙ ap (drop index) e in
        record {
          buf' = rest.buf';
          s' = rest.s';
          returns =
              send_packet_loop_step fuel index L buf s less
              ∙ ap
                  (λ i.
                    send_packet_loop os (form c) fuel i L (set buf (index + (L - index)) 0)
                      (after_write buf index (L - index) s))
                  next
              ∙ rest.returns;
          on_wire =
              rest.on_wire
              ∙ ap₂ (λ x y. (s.wire ++ take k x) ++ y) bytes_eq
                  (drop-add index k (index + k) sent refl)
              ∙ append_assoc s.wire (take k (drop index sent)) (drop k (drop index sent))
              ∙ ap (λ l. s.wire ++ l) (take-append-drop k (drop index sent));
          same_length = rest.same_length ∙ length-set buf (index + (L - index)) 0;
          same_bytes = rest.same_bytes;
          same_progress = rest.same_progress;
        }

    take_kept :
        (index : ℕ) (buf : List ℕ)
        → index < L
        → take L (set buf (index + (L - index)) 0) ≡ take L buf
    take_kept index buf less =
        let end : index + (L - index) ≡ L = omega arith in
        ap (λ i. take L (set buf i 0)) end ∙ take-set_self L buf 0

    send_packet_loop-IsSent :
        (fuel index : ℕ) (sent buf : List ℕ) (s : Sys os)
        → take L buf ≡ sent
        → index ≤ L
        → L ≤ length buf
        → L - index < fuel
        → IsSent L sent (drop index sent) buf s (send_packet_loop os (form c) fuel index L buf s)
    send_packet_loop-IsSent zero index sent buf s e le room enough = absurd (omega arith)
    send_packet_loop-IsSent (suc fuel) index sent buf s e le room enough =
        elim (Bool-cases (ltb index L)) [
          | inr done ↦ record {
            buf' = buf;
            s' = s;
            returns = send_packet_loop_done fuel index L buf s done;
            on_wire =
                sym (append-nil s.wire)
                ∙ ap (λ l. s.wire ++ l) (sym (drop_all index sent (sent_le index done)));
            same_length = refl;
            same_bytes = e;
            same_progress = refl;
          }
          | inl more ↦
              let less : index < L = ground arith in
              let k = taken buf index (L - index) s in
              let bounds = taken_bounds buf index s less room in
              IsSent-step fuel index sent buf s e less bounds.1 (
                send_packet_loop-IsSent fuel (index + k) sent (set buf (index + (L - index)) 0)
                  (after_write buf index (L - index) s) (take_kept index buf less ∙ e) (omega arith)
                  (omega (arith, length-set buf (index + (L - index)) (let z : ℕ = 0 in z)))
                  (omega arith))
        ]
      where
        sent_le : (i : ℕ) → ltb i L ≡ false → length sent ≤ i
        sent_le i stop =
            let size = length-take L buf in ground (arith, ap length e, length-take L buf)

    -- On an open port whose writes take at least a byte and no more than they are given, for a packet of
    -- `L` < 2 ^ 16 bytes within its buffer and more than `L` rounds of fuel: `Ymodem_SendPacket`
    -- returns, with the first `L` bytes of the buffer on the wire behind what was there, the same
    -- bytes still in the buffer, its length kept, and nothing shown.
    pub send_packet-IsSent :
        (fuel : ℕ) (buf : List ℕ) (s : Sys os)
        → L ≤ length buf
        → L < fuel
        → IsSent L (take L buf) (take L buf) buf s (send_packet os (form c) fuel buf L s)
    unfolding send_packet
    send_packet-IsSent fuel buf s room enough =
        send_packet_loop-IsSent fuel 0 (take L buf) buf s refl (omega arith) room (omega arith)

  module _ (nothing : (bs : List ℕ) (w : os.World) → (os.write_file c.h_com bs w).1 ≡ 0) (L : ℕ)
      (some_left : 0 < L) where
    send_packet_loop_hangs :
        (fuel : ℕ) (buf : List ℕ) (s : Sys os) → send_packet_loop os (form c) fuel 0 L buf s ≡ none
    send_packet_loop_hangs zero buf s = unfold send_packet_loop in refl
    send_packet_loop_hangs (suc fuel) buf s =
        let k = taken buf 0 (L - 0) s in
        let none_taken : k ≡ 0 = nothing (take (L - 0) buf) s.world in
        let stays : u16 (0 + u16 k) ≡ 0 = omega arith in
        send_packet_loop_step fuel 0 L buf s some_left
        ∙ ap
            (λ i.
              send_packet_loop os (form c) fuel i L (set buf (0 + (L - 0)) 0)
                (after_write buf 0 (L - 0) s))
            stays
        ∙ send_packet_loop_hangs fuel (set buf (0 + (L - 0)) 0) (after_write buf 0 (L - 0) s)

    -- On an open port that never takes a byte, `Ymodem_SendPacket` of a packet with at least one byte
    -- uses up any amount of fuel: the loop does not end.
    pub send_packet_hangs :
        (fuel : ℕ) (buf : List ℕ) (s : Sys os) → send_packet os (form c) fuel buf L s ≡ none
    unfolding send_packet
    send_packet_hangs fuel buf s = send_packet_loop_hangs fuel buf s
