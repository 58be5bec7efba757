-- ===== src/Sync/Ends.antt =====
-- How many rounds the loop of `doSync` (MainProcFunc.cpp) takes when the watch does not answer.
use cosmos_pc.Prelude.{
  ℕ, zero, suc, ◌+◌, ◌≤◌, ◌<◌, ◌≡◌, ◌≢◌, refl, sym, Bool-cases, Option-cases, inl, inr, true, false,
  List, arith, ltb, ◌==◌,
}
use mathlib.Core.Path.{subst}
use cosmos_pc.Os.{Os}
use cosmos_pc.ComIo.{ComIo}
use cosmos_pc.Sync.{
  Sync, check_file_exist, request_file, next_round, end_sync, sync_round, sync_rounds,
}

module _ (os : Os) (directory : List ℕ) where
  -- What a round with the number `i` comes to.
  data Round (i : ℕ) (t : Sync os) : Type 0 where
    over : t.looping ≡ false → Round i t
    asks : t.looping ≡ true → t.r_proc.flag ≡ 1 → t.i ≡ i → Round i t
    moves : t.looping ≡ true → t.r_proc.flag ≡ 0 → t.i ≡ i + 1 → t.i < 1000000 → Round i t

  asked-Round :
      (i : ℕ) (s : Sync os)
      → s.looping ≡ true
      → s.r_proc.flag ≡ 1
      → s.i ≡ i
      → Round i (next_round os directory s)
  unfolding next_round
  asked-Round i s on flag same = elim (Bool-cases (ltb s.i 1000000)) [
    | inl more ↦ rw (more, next_round) (asks on flag same)
    | inr past ↦ rw (past, next_round) (over (unfold end_sync in refl))
  ]

  moved-Round :
      (i : ℕ) (s : Sync os)
      → s.looping ≡ true
      → s.r_proc.flag ≡ 0
      → s.i ≡ i + 1
      → Round i (next_round os directory s)
  unfolding next_round
  moved-Round i s on flag same = elim (Bool-cases (ltb s.i 1000000)) [
    | inl more ↦ rw (more, next_round) (moves on flag same (ground arith))
    | inr past ↦ rw (past, next_round) (over (unfold end_sync in refl))
  ]

  request_file-Round :
      (c : ComIo) (s : Sync os)
      → s.looping ≡ true
      → s.r_proc.flag ≡ 0
      → Round s.i (next_round os directory (request_file os directory c s))
  unfolding request_file
  request_file-Round c s on flag =
      elim (Bool-cases (check_file_exist os directory s.i s.r_proc.sys).0) [
        | inl there ↦ rw (there, request_file) (moved-Round s.i _ on flag refl)
        | inr missing ↦ rw (missing, request_file) (asked-Round s.i _ on refl refl)
      ]

  sync_round-Round :
      (s : Sync os) → s.looping ≡ true → s.r_proc.flag ≢ 2 → Round s.i (sync_round os directory s)
  unfolding sync_round
  sync_round-Round s on not2 =
      let is2 : (s.r_proc.flag == 2) ≡ false = ground (arith, not2) in
      elim (Option-cases s.pcio) [
        | inl gone ↦ rw (on, gone, sync_round) (over (unfold end_sync in refl))
        | inr (c, port) ↦ elim (Bool-cases (s.r_proc.flag == 0)) [
          | inl is0 ↦ rw (on, port, is0, sync_round) (request_file-Round c s on (ground arith))
          | inr not0 ↦ elim (Bool-cases (s.r_proc.flag == 3)) [
            | inl is3 ↦ rw (on, port, not0, is2, is3, sync_round) (moved-Round s.i _ on refl refl)
            | inr not3 ↦ rw (on, port, not0, is2, not3, sync_round) (over (unfold end_sync in refl))
          ]
        ]
      ]

  rounds-over : (s : Sync os) → s.looping ≡ false → sync_round os directory s ≡ s
  unfolding sync_round
  rounds-over s off = simp (off, sync_round)

  stays_over :
      (n : ℕ) (s : Sync os) → s.looping ≡ false → (sync_rounds os directory n s).looping ≡ false
  unfolding sync_rounds
  stays_over zero s off = off
  stays_over (suc n) s off =
      subst (λ t. (sync_rounds os directory n t).looping ≡ false) (sym (rounds-over s off))
        (stays_over n s off)

  asked-over :
      (s : Sync os)
      → s.looping ≡ true
      → s.r_proc.flag ≡ 1
      → (sync_round os directory s).looping ≡ false
  unfolding sync_round end_sync
  asked-over s on flag =
      let not0 : (s.r_proc.flag == 0) ≡ false = ground arith in
      let not2 : (s.r_proc.flag == 2) ≡ false = ground arith in
      let not3 : (s.r_proc.flag == 3) ≡ false = ground arith in
      elim (Option-cases s.pcio) [
        | inl gone ↦ rw (on, gone, sync_round) refl
        | inr (c, port) ↦ rw (on, port, not0, not2, not3, sync_round) refl
      ]

  -- From any state in which the flag is not 2 and the number is below 1000000: when the reading thread does
  -- not run between them, at most 1000001 rounds, less the number, end the loop of `doSync`.
  pub sync_ends :
      (n : ℕ) (s : Sync os)
      → s.r_proc.flag ≢ 2
      → s.i < 1000000
      → 1000001 ≤ n + s.i
      → (sync_rounds os directory n s).looping ≡ false
  unfolding sync_rounds
  sync_ends zero s not2 less enough = absurd (omega arith)
  sync_ends (suc zero) s not2 less enough = absurd (omega arith)
  sync_ends (suc (suc n)) s not2 less enough = elim (Bool-cases s.looping) [
    | inr off ↦ stays_over (suc (suc n)) s off
    | inl on ↦ elim (sync_round-Round s on not2) [
      | over off ↦ stays_over (suc n) (sync_round os directory s) off
      | asks on' flag same ↦ stays_over n _ (asked-over (sync_round os directory s) on' flag)
      | moves on' flag same less' ↦
          sync_ends (suc n) (sync_round os directory s) (λ two. absurd (omega arith)) less'
            (omega arith)
    ]
  ]
