-- ===== src/Sync/Accesses/Runs.antt =====
-- What holds in every interleaving of the accesses of `doSync` (MainProcFunc.cpp), the pieces of the reading
-- thread, and StopSync.
use cosmos_pc.Prelude.{ℕ, zero, suc, ◌≤◌, ◌≡◌, sym, Option-cases, inl, inr, List, [], arith}
use mathlib.Core.Path.{subst}
use cosmos_pc.Os.{Os, IsLawful}
use cosmos_pc.Download.Pieces.{Rest, is_done}
use cosmos_pc.Sync.{Sync, start_sync}
use cosmos_pc.Sync.Steps.{idle, FallsFrom}
use cosmos_pc.Sync.Accesses.{
  enters, parses, Thread, Threads, proceeds, both, Access, goes, reads, finishes, stops, Accesses,
  here, next,
}
use cosmos_pc.Sync.Accesses.Invariant.{limit-le, IsWhole, Safe, safe}
use cosmos_pc.Sync.Accesses.Steps.{AreSafe, proceed-Safe}
use cosmos_pc.Sync.Accesses.Holding.{stop_sync-Safe, read_first-Holds, proc_rest-Holds, When-done}

module _ (os : Os) (directory : List ℕ) where
  abbrev thread_of : Rest → Thread os → Threads os
  thread_of rest t = record { do_sync = t; rest = rest }

  pub proceeds-Accesses :
      (n : ℕ) (rest : Rest) {t : Threads os} {u : Thread os}
      → Accesses os directory t (thread_of rest u)
      → Accesses os directory t (thread_of rest (proceeds os directory n u))
  unfolding proceeds
  proceeds-Accesses zero rest path = path
  proceeds-Accesses (suc n) rest {t} {u} path =
      proceeds-Accesses n rest (next path (goes u.place u.sync rest))

  module _ (lawful : IsLawful os) where
    Access-AreSafe :
        {t u : Threads os}
        → Access os directory t u
        → AreSafe os directory t
        → AreSafe os directory u
    Access-AreSafe (goes p s rest) inv = proceed-Safe os directory p s rest inv
    Access-AreSafe (stops p s rest free) inv = stop_sync-Safe os directory p s rest inv
    Access-AreSafe (reads p s c rest r' port answer e) inv =
        safe os directory p _ rest
          (read_first-Holds os directory lawful s.i c s.r_proc r' rest e p answer inv.holds)
          inv.bounded inv.falls
    Access-AreSafe (finishes p s rest) inv =
        safe os directory p _ is_done (proc_rest-Holds os directory p rest s.i s.r_proc inv.holds)
          inv.bounded inv.falls

    Accesses-AreSafe :
        {t u : Threads os}
        → AreSafe os directory t
        → Accesses os directory t u
        → AreSafe os directory u
    Accesses-AreSafe inv here = inv
    Accesses-AreSafe inv (next path step) = Access-AreSafe step (Accesses-AreSafe inv path)

    start_sync-Safe :
        (port : List ℕ) (s : Sync os)
        → s.r_proc.flag ≡ 0
        → s.parsed ≡ []
        → Safe os directory enters (start_sync os directory port s) is_done
    unfolding start_sync
    start_sync-Safe port s flag none_parsed =
        let falls = subst (FallsFrom os directory 1) (sym none_parsed) tt in
        elim (Option-cases s.pcio) [
          | inl gone ↦
              rw (gone, start_sync)
                (safe os directory enters _ is_done (idle flag) (omega arith) falls)
          | inr (c, open_port) ↦
              rw (open_port, start_sync)
                (safe os directory enters _ is_done (idle flag) (omega arith) falls)
        ]

    module _ (port : List ℕ) (start : Sync os) (flag : start.r_proc.flag ≡ 0)
        (none_parsed : start.parsed ≡ []) where
      abbrev begun : Threads os
      begun = both os directory enters (start_sync os directory port start) is_done

      -- From a start of `doSync` with the flag 0, no file parsed, and the reading thread between two buffers, on
      -- a system whose reads and writes move no more than they are asked for, and with a watch that tells a
      -- size to read only when the request for a file was written and not answered yet, and no size else: however
      -- the accesses of `doSync`, the two pieces of the rounds of the reading thread, and StopSync outside
      -- `main_cs` follow each other, whenever `doSync` is about to start `doParseFile(i)`, the reading
      -- thread is between two buffers, the flag is 3, the file saved last has the path that belongs to `i`,
      -- and at least as many bytes of it were saved as the watch had told.
      pub parses-IsWhole :
          {s : Sync os} {rest : Rest}
          → Accesses os directory begun (both os directory parses s rest)
          → (rest ≡ is_done) × IsWhole os directory s.i s.r_proc
      parses-IsWhole {s} {rest} path =
          let inv = Accesses-AreSafe (start_sync-Safe port start flag none_parsed) path in
          When-done os directory rest inv.holds

      -- From a start of `doSync` with the flag 0, no file parsed, and the reading thread between two buffers, on
      -- a system whose reads and writes move no more than they are asked for, and with a watch that tells a
      -- size to read only when the request for a file was written and not answered yet, and no size else: however
      -- the accesses of `doSync`, the two pieces of the rounds of the reading thread, and StopSync outside
      -- `main_cs` follow each other, `doParseFile` was started for rising numbers, each at most once, all
      -- below the number that `doSync` has come to, which is not above 1000000.
      pub numbers_rising :
          {t : Threads os}
          → Accesses os directory begun t
          → let s = t.do_sync.sync in FallsFrom os directory s.i s.parsed × (s.i ≤ 1000000)
      numbers_rising {t} path =
          let inv = Accesses-AreSafe (start_sync-Safe port start flag none_parsed) path in
          (inv.falls, limit-le t.do_sync.place inv.bounded)
