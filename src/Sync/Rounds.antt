-- ===== src/Sync/Rounds.antt =====
-- The rounds of `doSync` and `StopSync` (MainProcFunc.cpp) and the invariant.
use cosmos_pc.Prelude.{
  ℕ, ◌+◌, ◌≤◌, ◌<◌, ◌≡◌, refl, sym, Bool-cases, Option-cases, inl, inr, true, false, some, List, [],
  ◌∷◌, arith, ltb, ◌==◌,
}
use mathlib.Core.Path.{subst}
use cosmos_pc.Os.{Os, Sys}
use cosmos_pc.ComIo.{ComIo, deinit_com_io}
use cosmos_pc.Sync.{
  Sync, check_file_exist, request_file, next_round, end_sync, sync_round, stop_sync, start_sync,
}
use cosmos_pc.Sync.Steps.{Phase, idle, asked, receiving, received, FallsFrom, Inv}
use cosmos_pc.Sync.Invariant.{Phase-sys}

module _ (os : Os) (directory : List ℕ) where
  -- What the loop keeps until its test.
  record Turned (s : Sync os) : Type 0 where
    phase : Phase os directory s.i s.r_proc
    bounded : s.i ≤ 1000000
    falls : FallsFrom os directory s.i s.parsed

  pub FallsFrom-suc :
      (i : ℕ) (l : List ℕ) → FallsFrom os directory i l → FallsFrom os directory (i + 1) l
  FallsFrom-suc i [] h = tt
  FallsFrom-suc i (n ∷ rest) (less, h) = (omega arith, h)

  end_sync-Inv : (s : Sync os) → Turned s → Inv os directory (end_sync os directory s)
  unfolding end_sync
  end_sync-Inv s t = record {
    phase = idle refl;
    bounded = t.bounded;
    below_end = inl refl;
    falls = t.falls;
  }

  next_round-Inv : (s : Sync os) → Turned s → Inv os directory (next_round os directory s)
  unfolding next_round
  next_round-Inv s t =
      let sys' : Sys os = record s.r_proc.sys {
        progress = s.r_proc.rate ∷ s.r_proc.sys.progress;
      } in
      let shown : Sync os = record s { r_proc = record s.r_proc { sys = sys' } } in
      let phase = Phase-sys os directory s.i s.r_proc sys' t.phase in
      elim (Bool-cases (ltb s.i 1000000)) [
        | inl more ↦
            rw (more, next_round)
              (record {
                phase = phase;
                bounded = t.bounded;
                below_end = inr (ground arith);
                falls = t.falls;
              })
        | inr over ↦
            rw (over, next_round)
              (end_sync-Inv shown (record { phase = phase; bounded = t.bounded; falls = t.falls }))
      ]

  request_file-Turned :
      (c : ComIo) (s : Sync os)
      → s.r_proc.flag ≡ 0
      → s.i < 1000000
      → FallsFrom os directory s.i s.parsed
      → Turned (request_file os directory c s)
  unfolding request_file
  request_file-Turned c s flag less falls =
      elim (Bool-cases (check_file_exist os directory s.i s.r_proc.sys).0) [
        | inl there ↦
            rw (there, request_file)
              (record {
                phase = idle flag;
                bounded = omega arith;
                falls = FallsFrom-suc s.i s.parsed falls;
              })
        | inr missing ↦
            rw (missing, request_file)
              (record { phase = asked refl refl; bounded = omega arith; falls = falls })
      ]

  Inv-Turned : (s : Sync os) → Inv os directory s → Turned s
  Inv-Turned s inv = record { phase = inv.phase; bounded = inv.bounded; falls = inv.falls }

  running-Inv :
      (s : Sync os) (c : ComIo)
      → s.looping ≡ true
      → s.pcio ≡ some c
      → s.i < 1000000
      → Phase os directory s.i s.r_proc
      → Turned s
      → Inv os directory (sync_round os directory s)
  unfolding sync_round
  running-Inv s c on port less (idle flag) t =
      let test : (s.r_proc.flag == 0) ≡ true = ground arith in
      rw (on, port, test, sync_round) (next_round-Inv _ (request_file-Turned c s flag less t.falls))
  running-Inv s c on port less (asked flag name) t =
      let not0 : (s.r_proc.flag == 0) ≡ false = ground arith in
      let not2 : (s.r_proc.flag == 2) ≡ false = ground arith in
      let not3 : (s.r_proc.flag == 3) ≡ false = ground arith in
      rw (on, port, not0, not2, not3, sync_round) (end_sync-Inv s t)
  running-Inv s c on port less (receiving flag name file size counted) t =
      let not0 : (s.r_proc.flag == 0) ≡ false = ground arith in
      let is2 : (s.r_proc.flag == 2) ≡ true = ground arith in
      rw (on, port, not0, is2, sync_round) (next_round-Inv s t)
  running-Inv s c on port less (received flag file whole) t =
      let not0 : (s.r_proc.flag == 0) ≡ false = ground arith in
      let not2 : (s.r_proc.flag == 2) ≡ false = ground arith in
      let is3 : (s.r_proc.flag == 3) ≡ true = ground arith in
      rw (on, port, not0, not2, is3, sync_round)
        (next_round-Inv _
          (record { phase = idle refl; bounded = omega arith; falls = (omega arith, t.falls) }))

  pub sync_round-Inv :
      (s : Sync os) → Inv os directory s → Inv os directory (sync_round os directory s)
  unfolding sync_round
  sync_round-Inv s inv = elim (Bool-cases s.looping) [
    | inr left ↦ rw (left, sync_round) inv
    | inl on ↦ elim (Option-cases s.pcio) [
      | inl gone ↦ rw (on, gone, sync_round) (end_sync-Inv s (Inv-Turned s inv))
      | inr (c, port) ↦
          running-Inv s c on port (ground (arith, inv.below_end, on)) inv.phase (Inv-Turned s inv)
    ]
  ]

  pub stop_sync-Inv :
      (s : Sync os) → Inv os directory s → Inv os directory (stop_sync os directory s)
  unfolding stop_sync
  stop_sync-Inv s inv = elim (Option-cases s.pcio) [
    | inl gone ↦ rw (gone, stop_sync) inv
    | inr (c, port) ↦
        rw (port, stop_sync)
          (record {
            phase =
                Phase-sys os directory s.i s.r_proc (deinit_com_io os c s.r_proc.sys).1 inv.phase;
            bounded = inv.bounded;
            below_end = inv.below_end;
            falls = inv.falls;
          })
  ]

  pub start_sync-Inv :
      (port : List ℕ) (s : Sync os)
      → s.r_proc.flag ≡ 0
      → s.parsed ≡ []
      → Inv os directory (start_sync os directory port s)
  unfolding start_sync
  start_sync-Inv port s flag none_parsed =
      let falls = subst (FallsFrom os directory 1) (sym none_parsed) tt in
      elim (Option-cases s.pcio) [
        | inl gone ↦
            rw (gone, start_sync)
              (record {
                phase = idle flag;
                bounded = omega arith;
                below_end = inr (omega arith);
                falls = falls;
              })
        | inr (c, open_port) ↦
            rw (open_port, start_sync)
              (record {
                phase = idle flag;
                bounded = omega arith;
                below_end = inr (omega arith);
                falls = falls;
              })
      ]
