-- ===== src/Sync/Requests.antt =====
-- The request for a file that `doSync` (MainProcFunc.cpp) sends.
use cosmos_pc.Prelude.{
  ℕ, ◌^◌, ◌<◌, ◌≡◌, refl, ap, ◌∙◌, true, false, some, List, [], ◌∷◌, ◌++◌, append_assoc, arith,
  take, drop, replicate, take_all, take-append_le, take-append_past, ltb, ◌==◌,
}
use cosmos_pc.Os.{Os, is_null}
use cosmos_pc.ComIo.{ComIo}
use cosmos_pc.ComIo.Wire.{write_com-wire}
use cosmos_pc.Ymodem.Packet.Decimal.{padded, length-padded, parse_decimal, parse_decimal-padded}
use cosmos_pc.Download.Text.{six_digits}
use cosmos_pc.Download.Transfer.{IsRoomy}
use cosmos_pc.Sync.{
  Sync, fread_command, request, check_file_exist, request_file, next_round, sync_round,
}

-- The number that a reader takes out of a request.
abbrev pub requested : List ℕ → ℕ
requested bytes = parse_decimal (take 6 (drop 10 bytes))

-- The 19 bytes that are sent.
abbrev pub sent_request : ℕ → List ℕ
sent_request i = fread_command ++ (padded 6 i ++ (13 ∷ 0 ∷ 0 ∷ []))

take-request : (i : ℕ) → i < 10 ^ 6 → take 19 (request i) ≡ sent_request i
unfolding request six_digits
take-request i small =
    let on : ltb i 1000000 ≡ true = ground arith in
    let long = length-padded 6 i in
    rw on (
      ap (λ l. fread_command ++ take 9 l) (append_assoc (padded 6 i) (13 ∷ []) (replicate 239 0))
      ∙ ap (λ l. fread_command ++ l)
          (take-append_past 9 3 (padded 6 i) (13 ∷ replicate 239 0) (omega (arith, long))))

requested-sent_request : (i : ℕ) → i < 10 ^ 6 → requested (sent_request i) ≡ i
requested-sent_request i small =
    let long = length-padded 6 i in
    ap parse_decimal (
      take-append_le 6 (padded 6 i) (13 ∷ 0 ∷ 0 ∷ []) (omega (arith, long))
      ∙ take_all 6 (padded 6 i) (omega (arith, long)))
    ∙ parse_decimal-padded 6 i small

module _ (os : Os) (directory : List ℕ) (roomy : IsRoomy os) where
  next_round-more :
      (s : Sync os)
      → s.i < 1000000
      → let t = next_round os directory s in
        (t.r_proc.sys.wire ≡ s.r_proc.sys.wire)
        × (t.r_proc.flag ≡ s.r_proc.flag)
        × (t.r_proc.dw_name ≡ s.r_proc.dw_name)
        × (t.i ≡ s.i)
  unfolding next_round
  next_round-more s less =
      let more : ltb s.i 1000000 ≡ true = ground arith in
      rw (more, next_round) (refl, refl, refl, refl)

  request_file-missing :
      (c : ComIo) (s : Sync os)
      → is_null c.h_com ≡ false
      → s.i < 1000000
      → (check_file_exist os directory s.i s.r_proc.sys).0 ≡ false
      → let t = request_file os directory c s in
        (t.r_proc.sys.wire ≡ s.r_proc.sys.wire ++ sent_request s.i)
        × (t.r_proc.flag ≡ 1)
        × (t.r_proc.dw_name ≡ s.i)
        × (t.i ≡ s.i)
  unfolding request_file check_file_exist
  request_file-missing c s is_open less missing =
      let sys' = (check_file_exist os directory s.i s.r_proc.sys).1 in
      rw (missing, request_file)
        (
          write_com-wire os roomy c (request s.i) 19 sys' is_open
              ∙ ap (λ l. s.r_proc.sys.wire ++ l) (take-request s.i less),
          refl,
          refl,
          refl,
        )

  -- On a system that takes all it is given: when `doSync` is in its loop below 1000000, with the port open,
  -- the flag 0 and no file for `i`, the round sends 19 bytes in which the number is `i`, and then `i` is
  -- the same, is the number whose file the reading thread will open, and the flag is 1.
  pub request_sent :
      (c : ComIo) (s : Sync os)
      → s.looping ≡ true
      → s.pcio ≡ some c
      → is_null c.h_com ≡ false
      → s.r_proc.flag ≡ 0
      → s.i < 1000000
      → (check_file_exist os directory s.i s.r_proc.sys).0 ≡ false
      → let t = sync_round os directory s in
        (t.r_proc.sys.wire ≡ s.r_proc.sys.wire ++ sent_request s.i)
        × (requested (sent_request s.i) ≡ s.i)
        × (t.r_proc.flag ≡ 1)
        × (t.r_proc.dw_name ≡ s.i)
        × (t.i ≡ s.i)
  unfolding sync_round
  request_sent c s on port is_open flag less missing =
      let is0 : (s.r_proc.flag == 0) ≡ true = ground arith in
      let asked = request_file-missing c s is_open less missing in
      let same : (request_file os directory c s).i < 1000000 = omega (arith, asked.3) in
      let shown = next_round-more (request_file os directory c s) same in
      rw (on, port, is0, sync_round)
        (
          shown.0 ∙ asked.0,
          requested-sent_request s.i less,
          shown.1 ∙ asked.1,
          shown.2 ∙ asked.2,
          shown.3 ∙ asked.3,
        )
