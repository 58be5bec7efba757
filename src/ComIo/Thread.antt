-- ===== src/ComIo/Thread.antt =====
-- The reading thread of ComIO.cpp with the object that MainProcFunc.cpp registers, and the request of
-- CosmosSpp.cpp.
use cosmos_pc.Prelude.{
  ℕ, zero, suc, ◌^◌, ◌<◌, ◌≡◌, refl, ap, ◌∙◌, Bool, true, false, Option, none, some, List, [], ◌∷◌,
  ◌++◌, arith, length, take, drop, replicate, overlay, length-append, take-overlay_le,
  take-append_le, take_all, ltb, ◌==◌, if◌then◌else◌,
}
use cosmos_pc.Os.{Os, is_null}
use cosmos_pc.ComIo.{ComIo, read_com}
use cosmos_pc.ComIo.Wire.{write_com-wire}
use cosmos_pc.ComIo.Device.{Device, deliver, read_thread, request_from}
use cosmos_pc.Ymodem.Packet.Decimal.{padded, length-padded, parse_decimal, parse_decimal-padded}
use cosmos_pc.Download.Text.{six_digits}
use cosmos_pc.Download.{ReadProc, proc}
use cosmos_pc.Download.Transfer.{IsRoomy}

-- The bytes of the request of `RequestFrom`.
abbrev min_request : ℕ → List ℕ
min_request i = 0xaa ∷ 0xbb ∷ 0xcc ∷ 0x01 ∷ padded 6 i

six_sent :
    (i : ℕ) → i < 10 ^ 6 → take 6 (overlay (six_digits i ++ 0 ∷ []) (replicate 252 0)) ≡ padded 6 i
unfolding six_digits
six_sent i small =
    let on : ltb i 1000000 ≡ true = ground arith in
    let long = length-padded 6 i in
    rw on (
      take-overlay_le 6 (padded 6 i ++ 0 ∷ []) (replicate 252 0)
        (omega (arith, long, length-append (padded 6 i) (0 ∷ []))) (omega arith)
      ∙ take-append_le 6 (padded 6 i) (0 ∷ []) (omega (arith, long))
      ∙ take_all 6 (padded 6 i) (omega (arith, long)))

module _ (os : Os) (directory : List ℕ) where
  -- The buffers that the port gives in `n` reads, each read after the one before was handled.
  abbrev handled : ℕ → ComIo → ReadProc os → Option (ReadProc os)
  handled zero c r = some r
  handled (suc n) c r =
      let (bytes, sys') = read_com os c 1024 r.sys in
      let r1 : ReadProc os = record r { sys = sys' } in
      elim (if length bytes == 0 then some r1 else proc os directory bytes r1) [
        | none ↦ none
        | some r2 ↦ handled n c r2
      ]

  deliver-object :
      (d : Device os) (bytes : List ℕ) (r : ReadProc os)
      → d.callback ≡ none
      → d.objproc ≡ true
      → deliver os directory d bytes r ≡ proc os directory bytes r
  unfolding deliver
  deliver-object d bytes r no_function registered = rw (no_function, registered, deliver) refl

  same_next :
      (o : Option (ReadProc os)) {f g : ReadProc os → Option (ReadProc os)}
      → ((r : ReadProc os) → f r ≡ g r)
      → elim o [ none ↦ none | some r ↦ f r ] ≡ elim o [ none ↦ none | some r ↦ g r ]
  same_next none e = refl
  same_next (some r) e = e r

  -- With an object registered and no function, the reading thread hands each buffer that is not empty to
  -- the object, in order; and once the handle is gone, it handles nothing more, whatever is in the port.
  read_thread-handled :
      (n : ℕ) (later : List Bool) (d : Device os) (r : ReadProc os)
      → d.callback ≡ none
      → d.objproc ≡ true
      → read_thread os directory (replicate n true ++ (false ∷ later)) d r ≡ handled n d.port r
  unfolding read_thread
  read_thread-handled zero later d r no_function registered = refl
  read_thread-handled (suc n) later d r no_function registered =
      let (bytes, sys') = read_com os d.port 1024 r.sys in
      let r1 : ReadProc os = record r { sys = sys' } in
      rw (deliver-object d bytes r1 no_function registered, read_thread)
        (same_next (if length bytes == 0 then some r1 else proc os directory bytes r1)
          (λ r2. read_thread-handled n later d r2 no_function registered))

  -- On an open port that takes all it is given, `RequestFrom` sends ten bytes for a number below 1000000,
  -- in which the number can be read, and sets the flag to 0; it does not go on to the next number.
  request_from_once :
      (d : Device os) (i : ℕ) (r : ReadProc os)
      → IsRoomy os
      → is_null d.port.h_com ≡ false
      → i < 10 ^ 6
      → let t = request_from os directory d i r in
        (t.sys.wire ≡ r.sys.wire ++ min_request i)
        × (parse_decimal (drop 4 (min_request i)) ≡ i)
        × (t.flag ≡ 0)
  unfolding request_from
  request_from_once d i r roomy is_open small = (
    write_com-wire os roomy d.port
          (overlay (0xaa ∷ 0xbb ∷ 0xcc ∷ 0x01 ∷ six_digits i ++ 0 ∷ []) (replicate 256 0)) 10 r.sys
          is_open
        ∙ ap (λ l. r.sys.wire ++ 0xaa ∷ 0xbb ∷ 0xcc ∷ 0x01 ∷ l) (six_sent i small),
    parse_decimal-padded 6 i small,
    refl,
  )
