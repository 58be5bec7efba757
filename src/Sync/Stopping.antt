-- ===== src/Sync/Stopping.antt =====
-- `doSync` (MainProcFunc.cpp) during a transfer: without an end of it, and after `StopSync`.
use cosmos_pc.Prelude.{
  ℕ, zero, suc, ◌<◌, ◌≡◌, refl, sym, true, false, none, some, List, ◌∷◌, arith, ltb, ◌==◌,
}
use mathlib.Core.Path.{subst}
use cosmos_pc.Os.{Os, is_null, null_handle}
use cosmos_pc.ComIo.{ComIo, deinit_com_io}
use cosmos_pc.Download.{deinit_file, delete_last_file}
use cosmos_pc.Sync.{Sync, next_round, end_sync, sync_round, sync_rounds, stop_sync}

module _ (os : Os) (directory : List ℕ) where
  abbrev shown : Sync os → Sync os
  shown s = record s {
    r_proc = record s.r_proc {
      sys = record s.r_proc.sys { progress = s.r_proc.rate ∷ s.r_proc.sys.progress };
    };
  }

  waiting_round :
      (c : ComIo) (s : Sync os)
      → s.looping ≡ true
      → s.pcio ≡ some c
      → s.r_proc.flag ≡ 2
      → s.i < 1000000
      → sync_round os directory s ≡ shown s
  unfolding sync_round next_round
  waiting_round c s on port flag less =
      let not0 : (s.r_proc.flag == 0) ≡ false = ground arith in
      let is2 : (s.r_proc.flag == 2) ≡ true = ground arith in
      let more : ltb s.i 1000000 ≡ true = ground arith in
      simp (on, port, not0, is2, more, sync_round, next_round)

  abbrev closed : ComIo → Sync os → Sync os
  closed c s = record s {
    pcio = none;
    r_proc = record s.r_proc { sys = (deinit_com_io os c s.r_proc.sys).1 };
  }

  stop_sync-open :
      (c : ComIo) (s : Sync os) → s.pcio ≡ some c → stop_sync os directory s ≡ closed c s
  unfolding stop_sync
  stop_sync-open c s port = simp (port, stop_sync)

  closed_round :
      (c : ComIo) (s : Sync os)
      → s.looping ≡ true
      → sync_round os directory (closed c s) ≡ end_sync os directory (closed c s)
  unfolding sync_round
  closed_round c s on = simp (on, sync_round)

  -- While a file is being received, below the number 1000000 and with the port there, any number of rounds
  -- of `doSync` between which the reading thread does not run changes neither the number nor the flag
  -- and does not leave the loop: no time limit ends a transfer that the watch gave up.
  pub sync_waits :
      (n : ℕ) (c : ComIo) (s : Sync os)
      → s.looping ≡ true
      → s.pcio ≡ some c
      → s.r_proc.flag ≡ 2
      → s.i < 1000000
      → let t = sync_rounds os directory n s in
        (t.looping ≡ true) × (t.r_proc.flag ≡ 2) × (t.i ≡ s.i)
  unfolding sync_rounds
  sync_waits zero c s on port flag less = (on, flag, refl)
  sync_waits (suc n) c s on port flag less =
      subst
        (λ t'.
          let t = sync_rounds os directory n t' in
          (t.looping ≡ true) × (t.r_proc.flag ≡ 2) × (t.i ≡ s.i))
        (sym (waiting_round c s on port flag less)) (sync_waits n c (shown s) on port flag less)

  -- `StopSync` while a file is being received: it closes the port, and the next round of `doSync` leaves
  -- the loop with the flag 0, with the file closed and then deleted, and sends nothing.
  pub stopped_round :
      (c : ComIo) (s : Sync os)
      → s.looping ≡ true
      → s.pcio ≡ some c
      → s.r_proc.flag ≡ 2
      → is_null s.r_proc.hfile ≡ false
      → let t = sync_round os directory (stop_sync os directory s) in
        (t.looping ≡ false)
        × (t.pcio ≡ none)
        × (t.r_proc.flag ≡ 0)
        × (t.r_proc.hfile ≡ null_handle)
        × (t.r_proc.sys.wire ≡ s.r_proc.sys.wire)
        × (t.r_proc.sys.world
            ≡ os.delete_file s.r_proc.last_file
                (os.close_handle s.r_proc.hfile (os.close_handle c.h_com s.r_proc.sys.world)))
  unfolding end_sync delete_last_file deinit_file deinit_com_io
  stopped_round c s on port flag is_open =
      let is2 : (s.r_proc.flag == 2) ≡ true = ground arith in
      rw
        (
          stop_sync-open c s port,
          closed_round c s on,
          end_sync,
          is2,
          delete_last_file,
          deinit_file,
          is_open,
        )
        (refl, refl, refl, refl, refl, refl)
