-- ===== src/Sync/Runs.antt =====
-- What holds in every state that the threads of MainProcFunc.cpp and ComIO.cpp reach.
use cosmos_pc.Prelude.{ℕ, ◌≤◌, ◌≡◌, sym, ◌∙◌, Option, some, List, [], arith, length}
use mathlib.Core.Path.{subst}
use mathlib.Core.Option
use cosmos_pc.Os.{Os, IsLawful}
use cosmos_pc.ComIo.{ComIo}
use cosmos_pc.Download.{ReadProc, message, tmp_path}
use cosmos_pc.Sync.{Sync, read_round, start_sync}
use cosmos_pc.Sync.Steps.{
  IsAnswer, arriving, Step, turns, reads, stops, Reach, here, next, Phase, idle, asked, receiving,
  received, FallsFrom, Inv,
}
use cosmos_pc.Sync.Invariant.{read_round-Proceeds}
use cosmos_pc.Sync.Rounds.{sync_round-Inv, stop_sync-Inv, start_sync-Inv}

module _ (os : Os) (directory : List ℕ) (lawful : IsLawful os) where
  same-Phase :
      {i : ℕ} {r t : ReadProc os} {o : Option (ReadProc os)}
      → o ≡ some r
      → o ≡ some t
      → Phase os directory i r
      → Phase os directory i t
  same-Phase {i} {r} {t} e e' phase =
      subst (Phase os directory i) (Option.some-injective r t (sym e ∙ e')) phase

  Step-Inv : {s t : Sync os} → Step os directory s t → Inv os directory s → Inv os directory t
  Step-Inv (turns s) inv = sync_round-Inv os directory s inv
  Step-Inv (stops s) inv = stop_sync-Inv os directory s inv
  Step-Inv (reads s c r' port answer e) inv =
      let done = read_round-Proceeds os directory lawful s.i c s.r_proc answer inv.phase in
      record {
        phase = same-Phase done.returns e done.phase;
        bounded = inv.bounded;
        below_end = inv.below_end;
        falls = inv.falls;
      }

  pub Reach-Inv : {s t : Sync os} → Inv os directory s → Reach os directory s t → Inv os directory t
  Reach-Inv inv here = inv
  Reach-Inv inv (next r st) = Step-Inv st (Reach-Inv inv r)

  complete :
      (i : ℕ) (r : ReadProc os)
      → Phase os directory i r
      → r.flag ≡ 3
      → (r.last_file ≡ tmp_path directory i) × (r.file_size ≤ length r.saved)
  complete i r (idle e) flag = absurd (omega arith)
  complete i r (asked e name) flag = absurd (omega arith)
  complete i r (receiving e name file size counted) flag = absurd (omega arith)
  complete i r (received e file whole) flag = (file, whole)

  module _ (port : List ℕ) (start : Sync os) (flag : start.r_proc.flag ≡ 0)
      (none_parsed : start.parsed ≡ []) where
    -- From a start of `doSync` with the flag 0 and no file parsed, on a system whose reads and writes move
    -- no more than they are asked for, and with a watch that tells a size to read only when it was asked
    -- for a file, and no size else: in every state that is reached with the flag 3, in which `doSync` goes on
    -- to start `doParseFile(i)`, the file saved last has the path that belongs to `i`, and at least as many
    -- bytes of it were saved as the watch had told.
    received_complete :
        {s : Sync os}
        → Reach os directory (start_sync os directory port start) s
        → s.r_proc.flag ≡ 3
        → (s.r_proc.last_file ≡ tmp_path directory s.i)
          × (s.r_proc.file_size ≤ length s.r_proc.saved)
    received_complete {s} reach three =
        let inv = Reach-Inv (start_sync-Inv os directory port start flag none_parsed) reach in
        complete s.i s.r_proc inv.phase three

    -- From a start of `doSync` with the flag 0 and no file parsed, on a system whose reads and writes move
    -- no more than they are asked for, and with a watch that tells a size to read only when it was asked
    -- for a file, and no size else: in every state that is reached, `doParseFile` was started for rising
    -- numbers, each at most once, all below the number that `doSync` has come to, which is not above
    -- 1000000.
    parsed_rising :
        {s : Sync os}
        → Reach os directory (start_sync os directory port start) s
        → FallsFrom os directory s.i s.parsed × (s.i ≤ 1000000)
    parsed_rising {s} reach =
        let inv = Reach-Inv (start_sync-Inv os directory port start flag none_parsed) reach in
        (inv.falls, inv.bounded)

    -- From a start of `doSync` with the flag 0 and no file parsed, on a system whose reads and writes move
    -- no more than they are asked for, and with a watch that tells a size to read only when it was asked
    -- for a file, and no size else: in every state that is reached, the reading thread handles the next
    -- buffer without a division by zero, if that buffer too is such an answer.
    read_round-returns :
        {s : Sync os} (c : ComIo)
        → Reach os directory (start_sync os directory port start) s
        → IsAnswer (message (arriving os directory c s.r_proc)) s.r_proc.flag
        → (r' : ReadProc os) × (read_round os directory c s.r_proc ≡ some r')
    read_round-returns {s} c reach answer =
        let inv = Reach-Inv (start_sync-Inv os directory port start flag none_parsed) reach in
        let done = read_round-Proceeds os directory lawful s.i c s.r_proc answer inv.phase in
        (done.r', done.returns)
