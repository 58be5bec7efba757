-- ===== src/Ymodem/Transmit/Outcomes.antt =====
-- The bytes on the wire under each outcome of a part of `Ymodem_Transmit`, and how they add up.
use cosmos_pc.Prelude.{
  ℕ, zero, suc, ◌+◌, ◌/◌, ◌%◌, ◌≤◌, ◌<◌, ◌^◌, ◌≡◌, refl, sym, ap, ap₂, ◌∙◌, Bool-cases, inl, inr,
  List, [], ◌∷◌, ◌++◌, append_assoc, append-nil, arith, length, take, drop, set, take-drop,
  length-set, false,
}
use mathlib.Core.Path.{subst}
use cosmos_pc.Os.{is_null, Os, Sys, IsLawful, IsLive}
use cosmos_pc.ComIo.{ComIo}
use cosmos_pc.Crc.{cal_crc16}
use cosmos_pc.Crc.Loop.{cal_crc16-lt}
use cosmos_pc.Crc.Detect.{crc_bytes}
use cosmos_pc.Ymodem.Uart.{send_packet, wait_for_char}
use cosmos_pc.Ymodem.Uart.Send.{form, send_packet-IsSent}
use cosmos_pc.Ymodem.Uart.Wait.{wait_for_char-IsQuiet}
use cosmos_pc.Ymodem.Transmit.{
  Outcome, goes_on, returned, ack, seal, and_then, after_sending, await, send_sealed,
}

-- A part that is to send `stream`: it goes on with all of it sent and a packet buffer of `n` bytes, or
-- it has returned 255 with a beginning of it sent. It does not hang.
pub data Ends (os : Os) (n : ℕ) (stream : List ℕ) (s : Sys os) : Outcome os → Type 0 where
  went :
      (packet' : List ℕ) (s' : Sys os)
      → length packet' ≡ n
      → s'.wire ≡ s.wire ++ stream
      → Ends os n stream s (goes_on packet' s')
  failed :
      (sent rest : List ℕ) (s' : Sys os)
      → stream ≡ sent ++ rest
      → s'.wire ≡ s.wire ++ sent
      → Ends os n stream s (returned 255 s')

-- The last part: it has returned 0 with all of `stream` sent, or 255 with a beginning of it.
pub data Finishes (os : Os) (stream : List ℕ) (s : Sys os) : Outcome os → Type 0 where
  completed : (s' : Sys os) → s'.wire ≡ s.wire ++ stream → Finishes os stream s (returned 0 s')
  stopped :
      (sent rest : List ℕ) (s' : Sys os)
      → stream ≡ sent ++ rest
      → s'.wire ≡ s.wire ++ sent
      → Finishes os stream s (returned 255 s')

wire_more :
    (a : List ℕ) {b c : List ℕ} (xs ys : List ℕ) → b ≡ a ++ xs → c ≡ b ++ ys → c ≡ a ++ (xs ++ ys)
wire_more a xs ys e e' = e' ∙ ap (λ w. w ++ ys) e ∙ append_assoc a xs ys

more_sent :
    {stream : List ℕ} (sent rest xs : List ℕ)
    → stream ≡ sent ++ rest
    → xs ++ stream ≡ (xs ++ sent) ++ rest
more_sent sent rest xs e = ap (λ l. xs ++ l) e ∙ sym (append_assoc xs sent rest)

more_left :
    {stream : List ℕ} (sent rest ys : List ℕ)
    → stream ≡ sent ++ rest
    → stream ++ ys ≡ sent ++ (rest ++ ys)
more_left sent rest ys e = ap (λ l. l ++ ys) e ∙ append_assoc sent rest ys

module _ {os : Os} (s t : Sys os) (xs ys : List ℕ) (e : t.wire ≡ s.wire ++ xs) where
  pub Ends-after : {n : ℕ} (o : Outcome os) → Ends os n ys t o → Ends os n (xs ++ ys) s o
  Ends-after _ (went p u size e') = went p u size (wire_more s.wire xs ys e e')
  Ends-after _ (failed sent rest u split e') =
      failed (xs ++ sent) rest u (more_sent sent rest xs split) (wire_more s.wire xs sent e e')

  pub Finishes-after : (o : Outcome os) → Finishes os ys t o → Finishes os (xs ++ ys) s o
  Finishes-after _ (completed u e') = completed u (wire_more s.wire xs ys e e')
  Finishes-after _ (stopped sent rest u split e') =
      stopped (xs ++ sent) rest u (more_sent sent rest xs split) (wire_more s.wire xs sent e e')

module _ {os : Os} {n : ℕ} {s : Sys os} (xs ys : List ℕ) (next : List ℕ → Sys os → Outcome os) where
  pub Ends-and_then :
      (o : Outcome os)
      → Ends os n xs s o
      → ((packet' : List ℕ) (s' : Sys os) → length packet' ≡ n → Ends os n ys s' (next packet' s'))
      → Ends os n (xs ++ ys) s (and_then o next)
  unfolding and_then
  Ends-and_then _ (went packet' s' size e) k =
      Ends-after s s' xs ys e (next packet' s') (k packet' s' size)
  Ends-and_then _ (failed sent rest s' split e) k =
      failed sent (rest ++ ys) s' (more_left sent rest ys split) e

  pub Finishes-and_then :
      (o : Outcome os)
      → Ends os n xs s o
      → ((packet' : List ℕ) (s' : Sys os)
          → length packet' ≡ n
          → Finishes os ys s' (next packet' s'))
      → Finishes os (xs ++ ys) s (and_then o next)
  unfolding and_then
  Finishes-and_then _ (went packet' s' size e) k =
      Finishes-after s s' xs ys e (next packet' s') (k packet' s' size)
  Finishes-and_then _ (failed sent rest s' split e) k =
      stopped sent (rest ++ ys) s' (more_left sent rest ys split) e

-- A packet as it is on the wire: the frame and the checksum of its data.
abbrev pub sealed : List ℕ → List ℕ
sealed frame = frame ++ crc_bytes (cal_crc16 (drop 3 frame))

take-set_pair :
    (i j m : ℕ) (p : List ℕ) (x y : ℕ)
    → j ≡ i + 1
    → m ≡ i + 2
    → m ≤ length p
    → take m (set (set p i x) j y) ≡ take i p ++ x ∷ y ∷ []
take-set_pair i j m [] x y ej em h = absurd (omega arith)
take-set_pair i zero m (a ∷ p) x y ej em h = absurd (omega arith)
take-set_pair i (suc j) zero (a ∷ p) x y ej em h = absurd (omega arith)
take-set_pair zero (suc j) (suc m) (a ∷ []) x y ej em h = absurd (omega arith)
take-set_pair zero (suc j) (suc m) (a ∷ b ∷ p) x y ej em h =
    let j_eq : j ≡ 0 = omega arith in let m_eq : m ≡ 1 = omega arith in rw (j_eq, m_eq)
take-set_pair (suc i) (suc j) (suc m) (a ∷ p) x y ej em h =
    ap (◌∷◌ a) (take-set_pair i j m p x y (omega arith) (omega arith) (omega arith))

-- A sealed buffer starts with the sealed frame.
seal-sealed :
    (packet frame : List ℕ) (n : ℕ)
    → take (n + 3) packet ≡ frame
    → n + 5 ≤ length packet
    → take (n + 3 + 2) (seal 1 packet n).0 ≡ sealed frame
unfolding seal
seal-sealed packet frame n e h =
    let c = cal_crc16 (take n (drop 3 packet)) in
    let cut : take n (drop 3 packet) ≡ drop 3 frame =
      take-drop (n + 3) 3 n packet (omega arith) ∙ ap (drop 3) e in
    let small : c < 65536 = cal_crc16-lt (take n (drop 3 packet)) in
    let start : n + 3 + 0 ≡ n + 3 = omega arith in
    let high : c / 256 % 256 ≡ c / 256 = omega arith in
    take-set_pair (n + 3 + 0) (n + 3 + 1) (n + 3 + 2) packet (c / 256 % 256) (c % 256) (omega arith)
      (omega arith) (omega arith)
    ∙ ap₂ (λ l x. l ++ x ∷ c % 256 ∷ []) (ap (λ i. take i packet) start ∙ e) high
    ∙ ap (λ l. frame ++ crc_bytes (cal_crc16 l)) cut

seal-length :
    (packet : List ℕ) (n : ℕ)
    → (length (seal 1 packet n).0 ≡ length packet) × ((seal 1 packet n).1 ≡ n + 3 + 2)
unfolding seal
seal-length packet n =
    let c = cal_crc16 (take n (drop 3 packet)) in
    let first = set packet (n + 3 + 0) (c / 256 % 256) in
    (
      length-set first (n + 3 + 1) (c % 256) ∙ length-set packet (n + 3 + 0) (c / 256 % 256),
      omega arith,
    )

module _ (os : Os) (c : ComIo) (is_open : is_null c.h_com ≡ false) (lawful : IsLawful os)
    (live : IsLive os) (fuel : ℕ) where
  -- Waiting sends nothing.
  pub await-Ends :
      (ch n : ℕ) (packet : List ℕ) (s : Sys os)
      → length packet ≡ n
      → Ends os n [] s (await os (form c) fuel ch packet s)
  unfolding await
  await-Ends ch n packet s size =
      let quiet = wait_for_char-IsQuiet os (form c) ch s in
      let t = (wait_for_char os (form c) ch s).1 in
      let same : t.wire ≡ s.wire ++ [] = quiet.same_wire ∙ sym (append-nil s.wire) in
      elim (Bool-cases (wait_for_char os (form c) ch s).0) [
        | inl e ↦ rw (e, await) (went packet t size same)
        | inr e ↦ rw (e, await) (failed [] [] t refl same)
      ]

  -- `Ymodem_SendPacket`, as a part of the function.
  pub after_sending-Ends :
      (n L : ℕ) (packet frame : List ℕ) (s : Sys os)
      → L < 2 ^ 16
      → L < fuel
      → L ≤ length packet
      → length packet ≡ n
      → take L packet ≡ frame
      → Ends os n frame s (after_sending (send_packet os (form c) fuel packet L s))
  unfolding after_sending
  after_sending-Ends n L packet frame s fits enough room size e =
      let sent = send_packet-IsSent os c is_open lawful live L fits fuel packet s room enough in
      rw (sent.returns, after_sending)
        (went sent.buf' sent.s' (sent.same_length ∙ size) (sent.on_wire ∙ ap (λ l. s.wire ++ l) e))

  -- A packet whose buffer starts with `frame` is sent sealed.
  pub send_sealed-Ends :
      (n k : ℕ) (packet frame : List ℕ) (s : Sys os)
      → k + 5 < 2 ^ 16
      → k + 5 < fuel
      → k + 5 ≤ n
      → length packet ≡ n
      → take (k + 3) packet ≡ frame
      → Ends os n (sealed frame) s (send_sealed os (form c) fuel packet k s)
  unfolding send_sealed
  send_sealed-Ends n k packet frame s fits enough room size e =
      let ready = (seal 1 packet k).0 in
      let lengths = seal-length packet k in
      let whole = seal-sealed packet frame k e (omega (arith, size)) in
      let L = (seal 1 packet k).1 in
      let sends =
        after_sending-Ends n L ready (sealed frame) s (omega (arith, lengths.1))
          (omega (arith, lengths.1)) (omega (arith, lengths.0, lengths.1, size)) (lengths.0 ∙ size)
          (ap (λ l. take l ready) lengths.1 ∙ whole) in
      let on =
        Ends-and_then {n = n} {s = s} (sealed frame) [] (await os (form c) fuel ack) _ sends
          (λ packet' s' size'. await-Ends ack n packet' s' size') in
      subst (λ l. Ends os n l s (send_sealed os (form c) fuel packet k s))
        (append-nil (sealed frame)) on
