-- ===== src/Sync/Cycle.antt =====
-- One file from the request to `doParseFile`: `doSync` (MainProcFunc.cpp) and the reading thread together.
use cosmos_pc.Prelude.{
  ℕ, ◌+◌, ◌^◌, ◌≤◌, ◌<◌, ◌≡◌, refl, ap, ap₂, ◌∙◌, true, false, some, List, [], ◌∷◌, ◌++◌, arith,
  length, ltb, ◌==◌,
}
use cosmos_pc.Os.{Os, is_null}
use cosmos_pc.ComIo.{ComIo}
use cosmos_pc.Download.{ReadProc, read_told, content, message, proc_all}
use cosmos_pc.Download.Transfer.{IsRoomy, AreContent, join, total, download}
use cosmos_pc.Sync.{Sync, check_file_exist, request_file, next_round, sync_round}
use cosmos_pc.Sync.Requests.{request_sent}

module _ (os : Os) (directory : List ℕ) where
  -- What has become of the file `i` with the content `bytes`.
  pub record IsTaken (s t : Sync os) (bytes : List ℕ) : Type 0 where
    pub noted : t.parsed ≡ s.i ∷ s.parsed
    pub moved : t.i ≡ s.i + 1
    pub goes_on : t.looping ≡ true
    pub at_rest : t.r_proc.flag ≡ 0
    pub saved : t.r_proc.saved ≡ bytes

  finished_round :
      (c : ComIo) (s : Sync os)
      → s.looping ≡ true
      → s.pcio ≡ some c
      → s.r_proc.flag ≡ 3
      → s.i + 1 < 1000000
      → IsTaken s (sync_round os directory s) s.r_proc.saved
  unfolding sync_round next_round
  finished_round c s on port flag less =
      let not0 : (s.r_proc.flag == 0) ≡ false = ground arith in
      let not2 : (s.r_proc.flag == 2) ≡ false = ground arith in
      let is3 : (s.r_proc.flag == 3) ≡ true = ground arith in
      let more : ltb (s.i + 1) 1000000 ≡ true = ground arith in
      rw (on, port, not0, not2, is3, more, sync_round, next_round)
        (record { noted = refl; moved = refl; goes_on = on; at_rest = refl; saved = refl })

  request_round :
      (c : ComIo) (s : Sync os)
      → s.looping ≡ true
      → s.pcio ≡ some c
      → s.r_proc.flag ≡ 0
      → s.i < 1000000
      → (check_file_exist os directory s.i s.r_proc.sys).0 ≡ false
      → let t = sync_round os directory s in
        (t.looping ≡ true) × (t.pcio ≡ some c) × (t.parsed ≡ s.parsed)
  unfolding sync_round next_round request_file
  request_round c s on port flag less missing =
      let is0 : (s.r_proc.flag == 0) ≡ true = ground arith in
      let more : ltb s.i 1000000 ≡ true = ground arith in
      rw (on, port, is0, missing, more, sync_round, next_round, request_file) (on, port, refl)

  -- On a system that takes all it is given: `doSync` is in its loop, with the port open and the flag 0, the
  -- number is below 999999 and there is no file for it. After its round, the watch tells a size of `n` > 0
  -- to read, and sends buffers without commands whose lengths stay below `n` and a last one that reaches
  -- it, below 2 ^ 32 in all. Then the reading thread handles them without a division by zero, and in the
  -- next round `doSync` starts `doParseFile` for the number, the bytes saved are those of the buffers in
  -- order, the flag is 0, and the loop goes on with the next number.
  pub sync_round-IsTaken :
      (c : ComIo) (s : Sync os) (head : List ℕ) (n : ℕ) (bufs : List (List ℕ)) (last : List ℕ)
      → IsRoomy os
      → s.looping ≡ true
      → s.pcio ≡ some c
      → is_null c.h_com ≡ false
      → s.r_proc.flag ≡ 0
      → s.i + 1 < 1000000
      → (check_file_exist os directory s.i s.r_proc.sys).0 ≡ false
      → message head ≡ read_told n
      → AreContent bufs
      → message last ≡ content
      → 0 < n
      → n < 2 ^ 32
      → total bufs < n
      → n ≤ total bufs + length last
      → total bufs + length last < 2 ^ 32
      → let t = sync_round os directory s in
        (r : ReadProc os) × (proc_all os directory (head ∷ (bufs ++ last ∷ [])) t.r_proc ≡ some r)
        × IsTaken s (sync_round os directory (record t { r_proc = r })) (join bufs ++ last)
  sync_round-IsTaken c s head n bufs last roomy on port is_open flag less missing told all e
        some_size size_small below reached small =
      let t = sync_round os directory s in
      let sent =
        request_sent os directory roomy c s on port is_open flag (omega (arith, less)) missing in
      let kept = request_round c s on port flag (omega (arith, less)) missing in
      let done =
        download os directory roomy head n bufs last t.r_proc told all e some_size size_small below
          reached small in
      let u : Sync os = record t { r_proc = done.final } in
      let round = finished_round c u kept.0 kept.1 done.finished (omega (arith, sent.4, less)) in
      (
        done.final,
        done.returns,
        record {
          noted = round.noted ∙ ap₂ (λ i l. i ∷ l) sent.4 kept.2;
          moved = round.moved ∙ ap (λ i. i + 1) sent.4;
          goes_on = round.goes_on;
          at_rest = round.at_rest;
          saved = round.saved ∙ done.complete;
        },
      )
