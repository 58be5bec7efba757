-- ===== src/Sync/Accesses/Torn.antt =====
-- The end of `doSync` (MainProcFunc.cpp) between the two pieces of `proc` (CosmosReadCommProc.cpp), which the
-- reading thread runs without `main_cs`.
use cosmos_pc.Prelude.{
  ℕ, ◌<◌, ◌≡◌, refl, sym, ap, true, false, some, List, ◌∷◌, arith, length, ◌==◌,
}
use mathlib.Core.Path.{subst}
use cosmos_pc.Os.{Os}
use cosmos_pc.ComIo.{ComIo, read_com}
use cosmos_pc.Download.{read_told, message, tmp_path, deinit_file}
use cosmos_pc.Download.Pieces.{Rest, is_done, makes_file, closes_file, proc_rest}
use cosmos_pc.Sync.{Sync, start_sync}
use cosmos_pc.Sync.Steps.{IsAnswer, arriving}
use cosmos_pc.Sync.Accesses.{
  ends, deletes, stopped, Thread, Threads, proceed, proceeds, both, reads, finishes, Accesses, here,
  next,
}
use cosmos_pc.Os.{is_null}
use cosmos_pc.Download.{delete_last_file}
use cosmos_pc.Sync.{sync_round, next_round}
use cosmos_pc.Sync.Accesses.Runs.{proceeds-Accesses}
use cosmos_pc.Sync.Accesses.Late.{size_known, read_first-told}

module _ (os : Os) (directory : List ℕ) where
  abbrev at_end : Sync os → Thread os
  at_end s = record { place = ends; sync = s }

  -- The end while a file is being received.
  abbrev cut : Sync os → Sync os
  cut s = record s {
    r_proc = record (delete_last_file os directory s.r_proc) { flag = 0 };
    looping = false;
  }

  ends-cut :
      (s : Sync os)
      → s.r_proc.flag ≡ 2
      → proceeds os directory 3 (at_end s) ≡ record { place = stopped; sync = cut s }
  unfolding proceeds proceed
  ends-cut s flag =
      let is2 : (s.r_proc.flag == 2) ≡ true = ground (arith, flag) in
      let first : proceed os directory ends s ≡ record { place = deletes; sync = s } =
        rw (is2, proceed) refl in
      ap (proceeds os directory 2) first

  -- The three accesses of that end.
  cut_short :
      (t : Threads os) (s : Sync os) (rest : Rest)
      → s.r_proc.flag ≡ 2
      → Accesses os directory t (both os directory ends s rest)
      → Accesses os directory t (both os directory stopped (cut s) rest)
  cut_short t s rest flag path =
      subst (λ u. Accesses os directory t (record { do_sync = u; rest = rest })) (ends-cut s flag)
        (proceeds-Accesses os directory 3 rest path)

  abbrev begun : Sync os → Sync os
  begun s = record s { i = 1; looping = true }

  start_sync-open :
      (c : ComIo) (port : List ℕ) (s : Sync os)
      → s.pcio ≡ some c
      → start_sync os directory port s ≡ begun s
  unfolding start_sync
  start_sync-open c port s open_port = simp (open_port, start_sync)

  -- The first round of a `doSync` that starts with the flag 3.
  parses_first :
      (c : ComIo) (s : Sync os)
      → s.pcio ≡ some c
      → s.r_proc.flag ≡ 3
      → let u = sync_round os directory (begun s) in
        (u.parsed ≡ 1 ∷ s.parsed) × (u.i ≡ 2) × (u.looping ≡ true)
  unfolding sync_round next_round
  parses_first c s open_port flag =
      let not0 : (s.r_proc.flag == 0) ≡ false = ground (arith, flag) in
      let not2 : (s.r_proc.flag == 2) ≡ false = ground (arith, flag) in
      let is3 : (s.r_proc.flag == 3) ≡ true = ground (arith, flag) in
      rw (open_port, not0, not2, is3, sync_round, next_round) (refl, refl, refl)

  -- The loop of `doSync` is left with the flag 2 when all of the file is written, but before the reading thread
  -- has set the flag to 3. Then `doSync` may end, with the flag set to 0, before the reading thread sets it
  -- to 3; the next `doSync` on the open port starts `doParseFile(1)` in its first round, although no file
  -- was asked for, and goes on with the number 2.
  pub stale_flag :
      (s : Sync os) (c : ComIo) (port : List ℕ)
      → s.pcio ≡ some c
      → s.r_proc.flag ≡ 2
      → (t : Sync os) × Accesses os directory
          (both os directory ends s closes_file)
          (both os directory stopped t is_done)
        × (t.looping ≡ false)
        × (let u = sync_round os directory (start_sync os directory port t) in
            (u.parsed ≡ 1 ∷ s.parsed) × (u.i ≡ 2) × (u.looping ≡ true))
  unfolding proc_rest
  stale_flag s c port open_port flag =
      let left : Sync os = record (cut s) {
        r_proc = proc_rest os directory closes_file (cut s).r_proc;
      } in
      let path = cut_short (both os directory ends s closes_file) s closes_file flag here in
      let round =
        subst
          (λ v.
            let u = sync_round os directory v in
            (u.parsed ≡ 1 ∷ s.parsed) × (u.i ≡ 2) × (u.looping ≡ true))
          (sym (start_sync-open c port left open_port)) (parses_first c left open_port refl) in
      (left, next path (finishes stopped (cut s) closes_file), refl, round)

  -- The loop of `doSync` is left with the flag 1, and the file saved last, `j`, is closed. If an answer comes
  -- then that tells a size above 0 to read, `doSync` may end before the reading thread makes the new file:
  -- it takes the flag 2 for its own file, and deletes that of `j`.
  deletes_earlier :
      (s : Sync os) (c : ComIo) (j n : ℕ)
      → s.pcio ≡ some c
      → s.r_proc.flag ≡ 1
      → s.r_proc.last_file ≡ tmp_path directory j
      → is_null s.r_proc.hfile ≡ true
      → (length (arriving os directory c s.r_proc) == 0) ≡ false
      → message (arriving os directory c s.r_proc) ≡ read_told n
      → 0 < n
      → (t : Sync os) × Accesses os directory
          (both os directory ends s is_done)
          (both os directory stopped t makes_file)
        × (t.r_proc.sys.world
            ≡ os.delete_file (tmp_path directory j) (read_com os c 1024 s.r_proc.sys).1.world)
  unfolding delete_last_file deinit_file
  deletes_earlier s c j n port flag file shut some_read told more =
      let known = size_known os directory n c s.r_proc in
      let u : Sync os = record s { r_proc = known } in
      let answer = subst (λ m. IsAnswer m s.r_proc.flag) (sym told) flag in
      let came =
        reads ends s c makes_file known port answer
          (read_first-told os directory n c s.r_proc some_read told more) in
      (
        cut u,
        cut_short (both os directory ends s is_done) u makes_file refl (next here came),
        rw (shut, deinit_file)
            (ap (λ l. os.delete_file l (read_com os c 1024 s.r_proc.sys).1.world) file),
      )
