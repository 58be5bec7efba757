-- ===== src/Ymodem/Transmit/Session.antt =====
-- A session of `Ymodem_Transmit` on the wire.
use cosmos_pc.Prelude.{
  ℕ, zero, suc, ◌+◌, ◌-◌, ◌%◌, ◌≤◌, ◌<◌, ◌≡◌, refl, sym, ap, ◌∙◌, inl, inr, List, [], ◌∷◌, ◌++◌,
  append-nil, arith, length, take, drop, take-drop, length-drop, false, u8, ◌==◌, ◌/◌,
}
use mathlib.Core.Path.{subst}
use cosmos_pc.Os.{is_null, Os, Sys, IsLawful, IsLive}
use cosmos_pc.ComIo.{ComIo}
use cosmos_pc.Crc.{cal_crc16}
use cosmos_pc.Crc.Detect.{crc_bytes}
use cosmos_pc.Ymodem.Uart.{send_byte}
use cosmos_pc.Ymodem.Uart.Send.{form, send_packet-IsSent}
use cosmos_pc.Crc.Loop.{cal_crc16-lt}
use cosmos_pc.Ymodem.Uart.Wait.{send_byte-wire}
use cosmos_pc.Ymodem.Packet.{prepare_initial_packet, prepare_packet}
use cosmos_pc.Ymodem.Packet.Content.{data_frame}
use cosmos_pc.Ymodem.Transmit.{
  returned, eot, ack, crc16, pkt_size, await, send_sealed, send_header, send_blocks, show_progress,
  send_last_crc, send_empty, send_end, transmit, and_then, after_sending,
}
use cosmos_pc.Ymodem.Transmit.Outcomes.{
  Ends, went, failed, Finishes, completed, Ends-after, Finishes-after, Ends-and_then,
  Finishes-and_then, sealed, await-Ends, send_sealed-Ends,
}
use cosmos_pc.Ymodem.Transmit.Stream.{
  header_frame, data_stream, empty_frame, end_stream, session, take-header_frame,
  length-prepare_initial_packet, pkt_size_bounds, advance-cases, take-prepare_packet,
  length-prepare_packet, emptied, length-emptied, take-emptied,
}

module _ (os : Os) (c : ComIo) (is_open : is_null c.h_com ≡ false) (lawful : IsLawful os)
    (live : IsLive os) (fuel : ℕ) (enough : 1029 < fuel) where
  send_header-Ends :
      (packet filename : List ℕ) (size : ℕ) (s : Sys os)
      → length packet ≡ 1029
      → Ends os 1029
          (sealed (header_frame filename size))
          s
          (send_header os (form c) fuel packet filename size s)
  unfolding send_header
  send_header-Ends packet filename size s room =
      let frame = header_frame filename size in
      let ready = prepare_initial_packet packet filename size in
      let sends =
        send_sealed-Ends os c is_open lawful live fuel 1029 128 ready frame s (omega arith)
          (omega arith) (omega arith) (length-prepare_initial_packet packet filename size ∙ room)
          (take-header_frame packet filename size (omega (arith, room))) in
      subst (λ l. Ends os 1029 l s (send_header os (form c) fuel packet filename size s))
        (append-nil (sealed frame))
        (Ends-and_then (sealed frame) [] (await os (form c) fuel crc16) _ sends (λ packet' s' size'.
          await-Ends os c is_open lawful live fuel crc16 1029 packet' s' size'))

  send_block-Ends :
      (packet source : List ℕ) (blk size : ℕ) (s : Sys os)
      → length packet ≡ 1029
      → size ≤ length source
      → Ends os 1029 (sealed (data_frame source (u8 blk) size)) s (
          send_sealed os
            (form c)
            fuel
            (prepare_packet source packet (u8 blk) size)
            (pkt_size size)
            s)
  send_block-Ends packet source blk size s room there =
      let bounds = pkt_size_bounds size in
      send_sealed-Ends os c is_open lawful live fuel 1029 (pkt_size size)
        (prepare_packet source packet (u8 blk) size) (data_frame source (u8 blk) size) s
        (omega (arith, bounds.1)) (omega (arith, bounds.1)) (omega (arith, bounds.1))
        (length-prepare_packet packet source (u8 blk) size (omega (arith, room)) there ∙ room)
        (take-prepare_packet packet source (u8 blk) size (omega (arith, room)) there)

  send_blocks-Ends :
      (rounds size_file : ℕ) (source : List ℕ) (size blk : ℕ) (packet : List ℕ) (s : Sys os)
      → length packet ≡ 1029
      → size ≤ length source
      → size ≤ rounds
      → blk ≤ 896
      → Ends os 1029
          (data_stream rounds source size blk)
          s
          (send_blocks os (form c) fuel rounds size_file source size blk packet s)
  unfolding data_stream send_blocks show_progress
  send_blocks-Ends zero size_file source zero blk packet s room there le limit =
      went packet s room (sym (append-nil s.wire))
  send_blocks-Ends zero size_file source (suc size) blk packet s room there le limit =
      absurd (omega arith)
  send_blocks-Ends (suc rounds) size_file source zero blk packet s room there le limit =
      went packet s room (sym (append-nil s.wire))
  send_blocks-Ends (suc rounds) size_file source (suc size) blk packet s room there le limit =
      let n = pkt_size (suc size) in
      let after = drop n source in
      let bounds = pkt_size_bounds (suc size) in
      let more : (suc size == 0) ≡ false = ground arith in
      rw (more, send_blocks)
        (Ends-and_then {n = 1029} {s = s} (sealed (data_frame source (u8 blk) (suc size)))
          (data_stream rounds after (suc size - n) (blk + 1)) _ _
          (send_block-Ends packet source blk (suc size) s room there)
          (λ packet' s' size'. elim (advance-cases (suc size) blk limit) [
            | inl e ↦ rw e (
                failed [] (data_stream rounds after (suc size - n) (blk + 1)) s' refl
                  (sym (append-nil s'.wire)))
            | inr (left, blk', e, e_left, small, same) ↦
                let shown = show_progress size_file left s' in
                rw e (
                  Ends-after s' shown [] (data_stream rounds after (suc size - n) (blk + 1))
                    (sym (append-nil s'.wire))
                    (send_blocks os (form c) fuel rounds size_file after left blk' packet' shown)
                    (subst
                      (λ l. Ends os 1029 l shown (
                        send_blocks os (form c) fuel rounds size_file after left blk' packet'
                          shown))
                      (same rounds after)
                      (send_blocks-Ends rounds size_file after left blk' packet' shown size'
                        (omega (arith, length-drop n source)) (omega arith) small)))
          ]))

  send_last_crc-Finishes :
      (packet : List ℕ) (s : Sys os)
      → length packet ≡ 1029
      → Finishes os
          (crc_bytes (cal_crc16 (take 128 (drop 3 packet))))
          s
          (send_last_crc os (form c) fuel packet s)
  unfolding send_last_crc
  send_last_crc-Finishes packet s size =
      let crc = cal_crc16 (take 128 (drop 3 packet)) in
      let high = u8 (crc / 256) in
      let s2 = send_byte os (form c) high s in
      let s3 = send_byte os (form c) (crc % 256) s2 in
      let exact : high ≡ crc / 256 = omega (arith, cal_crc16-lt (take 128 (drop 3 packet))) in
      let first = (send_byte-wire os c is_open lawful live high s).0 in
      let second = (send_byte-wire os c is_open lawful live (crc % 256) s2).0 in
      Finishes-after s s2 (crc / 256 ∷ []) (crc % 256 ∷ [])
        (first ∙ ap (λ b. s.wire ++ b ∷ []) exact) (send_last_crc os (form c) fuel packet s)
        (Finishes-after s2 s3 (crc % 256 ∷ []) [] second (send_last_crc os (form c) fuel packet s) (
          Finishes-and_then [] [] (λ packet' s'. returned 0 s')
            (await os (form c) fuel ack packet s3)
            (await-Ends os c is_open lawful live fuel ack 1029 packet s3 size)
            (λ packet' s' size'. completed s' (sym (append-nil s'.wire)))))

  send_empty-Finishes :
      (packet : List ℕ) (s : Sys os)
      → length packet ≡ 1029
      → Finishes os (sealed empty_frame) s (send_empty os (form c) fuel packet s)
  unfolding send_empty after_sending and_then
  send_empty-Finishes packet s size =
      let empty = emptied packet in
      let sizes = length-emptied packet in
      let sent =
        send_packet-IsSent os c is_open lawful live 131 (omega arith) fuel empty s
          (omega (arith, sizes, size)) (omega arith) in
      let frame = take-emptied packet (omega (arith, size)) in
      let inside : take 128 (drop 3 sent.buf') ≡ drop 3 empty_frame =
        take-drop 131 3 128 sent.buf' refl ∙ ap (drop 3) (sent.same_bytes ∙ frame) in
      let crc = crc_bytes (cal_crc16 (drop 3 empty_frame)) in
      rw (sent.returns, after_sending, and_then)
        (Finishes-after s sent.s' empty_frame crc (sent.on_wire ∙ ap (λ l. s.wire ++ l) frame)
          (send_last_crc os (form c) fuel sent.buf' sent.s')
          (subst
            (λ l.
              Finishes os (crc_bytes (cal_crc16 l)) sent.s'
                (send_last_crc os (form c) fuel sent.buf' sent.s'))
            inside (send_last_crc-Finishes sent.buf' sent.s' (sent.same_length ∙ sizes ∙ size))))

  send_end-Finishes :
      (packet : List ℕ) (s : Sys os)
      → length packet ≡ 1029
      → Finishes os end_stream s (send_end os (form c) fuel packet s)
  unfolding send_end end_stream
  send_end-Finishes packet s size =
      let t = send_byte os (form c) eot s in
      let sent = (send_byte-wire os c is_open lawful live eot s).0 in
      Finishes-after s t (eot ∷ []) (sealed empty_frame) sent (send_end os (form c) fuel packet s) (
        Finishes-and_then [] (sealed empty_frame) (send_empty os (form c) fuel)
          (await os (form c) fuel ack packet t)
          (await-Ends os c is_open lawful live fuel ack 1029 packet t size)
          (λ packet' s' size'. send_empty-Finishes packet' s' size'))

  -- On an open port whose writes take at least a byte and no more than they are given, with more than
  -- 1029 rounds of fuel for each packet, the 1029 bytes of the packet buffer, and at least the file's
  -- size in `buf`: `Ymodem_Transmit` returns, either 0 with the whole session on the wire behind what
  -- was there, or 255 with a beginning of the session.
  pub transmit-Finishes :
      (packet : List ℕ) (last : ℕ) (buf name : List ℕ) (size : ℕ) (s : Sys os)
      → length packet ≡ 1029
      → size ≤ length buf
      → Finishes os
          (session (take 255 name ++ last ∷ []) buf size)
          s
          (transmit os (form c) fuel packet last buf name size s)
  unfolding transmit
  transmit-Finishes packet last buf name size s room there =
      let filename = take 255 name ++ last ∷ [] in
      Finishes-and_then (sealed (header_frame filename size))
        (data_stream size buf size 1 ++ end_stream) _
        (send_header os (form c) fuel packet filename size s)
        (send_header-Ends packet filename size s room)
        (λ packet' s' size'.
          Finishes-and_then (data_stream size buf size 1) end_stream (send_end os (form c) fuel)
            (send_blocks os (form c) fuel size size buf size 1 packet' s')
            (send_blocks-Ends size size buf size 1 packet' s' size' there (omega arith)
              (omega arith))
            (λ packet2 s2 size2. send_end-Finishes packet2 s2 size2))
