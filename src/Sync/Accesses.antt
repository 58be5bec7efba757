-- ===== src/Sync/Accesses.antt =====
-- `doSync` (MainProcFunc.cpp) access by access: each step touches what it shares with the reading thread,
-- the flag first of all, at most once. `main_cs` keeps out StopSync, but not the reading thread, whose rounds
-- are in two pieces.
pub mod Invariant
pub mod Reader
pub mod Steps
pub mod Holding
pub mod Runs
pub mod Rounds
pub mod Late
pub mod Torn
pub mod Tests
use cosmos_pc.Prelude.{
  ℕ, zero, suc, ◌+◌, ◌≡◌, Bool, true, false, Option, length, none, some, List, ◌∷◌, ltb, ◌==◌,
  if◌then◌else◌,
}
use cosmos_pc.Os.{Os}
use cosmos_pc.ComIo.{ComIo, read_com, write_com}
use cosmos_pc.Download.{ReadProc, message, delete_last_file}
use cosmos_pc.Download.Pieces.{Rest, is_done, proc_first, proc_rest}
use cosmos_pc.Sync.{Sync, request, check_file_exist, stop_sync}
use cosmos_pc.Sync.Steps.{IsAnswer, arriving}

-- Where `doSync` stands: what it does next.
pub data Place : Type 0 where
  enters : Place  -- `EnterCriticalSection`, and the test of `pcio`
  tests_idle : ComIo → Place  -- `0 == rProc.flag`
  looks : ComIo → Place  -- `checkFileExist(i)`, and `rProc.flag = 1` or `i++`
  names : ComIo → Place  -- `rProc.dwName = i`
  asks : ComIo → Place  -- `pcio->WriteCom`
  tests_receiving : Place  -- `2 == rProc.flag`
  tests_received : Place  -- `3 == rProc.flag`
  parses : Place  -- `CreateThread` with `doParseFile`, and `i++`
  resets : Place  -- `rProc.flag = 0`
  tests_asked : Place  -- `1 == rProc.flag`
  leaves : Place  -- the progress bar, `LeaveCriticalSection`, and the test of the loop
  ends : Place  -- behind the loop, `2 == rProc.flag`
  deletes : Place  -- `rProc.DeleteLastFile()`
  rests : Place  -- `rProc.flag = 0`
  stopped : Place  -- the thread is over

-- Whether `main_cs` is held there.
abbrev pub locked : Place → Bool
locked enters = false
locked (tests_idle c) = true
locked (looks c) = true
locked (names c) = true
locked (asks c) = true
locked tests_receiving = true
locked tests_received = true
locked parses = true
locked resets = true
locked tests_asked = true
locked leaves = true
locked ends = false
locked deletes = false
locked rests = false
locked stopped = false

-- What the watch may go by: before the request is written, nothing was asked for yet.
abbrev pub asked_flag : Place → ℕ → ℕ
asked_flag enters flag = flag
asked_flag (tests_idle c) flag = flag
asked_flag (looks c) flag = flag
asked_flag (names c) flag = 0
asked_flag (asks c) flag = 0
asked_flag tests_receiving flag = flag
asked_flag tests_received flag = flag
asked_flag parses flag = flag
asked_flag resets flag = flag
asked_flag tests_asked flag = flag
asked_flag leaves flag = flag
asked_flag ends flag = flag
asked_flag deletes flag = flag
asked_flag rests flag = flag
asked_flag stopped flag = flag

pub record Thread (os : Os) : Type 0 where
  pub place : Place
  pub sync : Sync os

pub record Threads (os : Os) : Type 0 where
  pub do_sync : Thread os
  pub rest : Rest

module _ (os : Os) (directory : List ℕ) where
  abbrev at : Place → Sync os → Thread os
  at p s = record { place = p; sync = s }

  -- The next access from a place.
  unfoldable pub proceed : Place → Sync os → Thread os
  proceed enters s = elim s.pcio [ none ↦ at ends s | some c ↦ at (tests_idle c) s ]
  proceed (tests_idle c) s = if s.r_proc.flag == 0 then at (looks c) s else at tests_receiving s
  proceed (looks c) s =
      let (exists, sys') = check_file_exist os directory s.i s.r_proc.sys in
      if exists
      then at leaves (record s { i = s.i + 1; r_proc = record s.r_proc { sys = sys' } })
      else at (names c) (record s { r_proc = record s.r_proc { sys = sys'; flag = 1 } })
  proceed (names c) s = at (asks c) (record s { r_proc = record s.r_proc { dw_name = s.i } })
  proceed (asks c) s =
      let (written, sys') = write_com os c (request s.i) 0 19 s.r_proc.sys in
      at leaves (record s { r_proc = record s.r_proc { sys = sys' } })
  proceed tests_receiving s = if s.r_proc.flag == 2 then at leaves s else at tests_received s
  proceed tests_received s = if s.r_proc.flag == 3 then at parses s else at tests_asked s
  proceed parses s = at resets (record s { parsed = s.i ∷ s.parsed; i = s.i + 1 })
  proceed resets s = at leaves (record s { r_proc = record s.r_proc { flag = 0 } })
  proceed tests_asked s = at ends s
  proceed leaves s =
      let sys' = record s.r_proc.sys { progress = s.r_proc.rate ∷ s.r_proc.sys.progress } in
      let shown = record s { r_proc = record s.r_proc { sys = sys' } } in
      if ltb s.i 1000000 then at enters shown else at ends shown
  proceed ends s = if s.r_proc.flag == 2 then at deletes s else at rests s
  proceed deletes s = at rests (record s { r_proc = delete_last_file os directory s.r_proc })
  proceed rests s = at stopped (record s { r_proc = record s.r_proc { flag = 0 }; looping = false })
  proceed stopped s = at stopped s

  unfoldable pub proceeds : ℕ → Thread os → Thread os
  proceeds zero t = t
  proceeds (suc n) t = proceeds n (proceed t.place t.sync)

  -- A round of the reading thread, up to the end of the first piece of `proc`.
  unfoldable pub read_first : ComIo → ReadProc os → Option (Rest × ReadProc os)
  read_first c r =
      let (bytes, sys') = read_com os c 1024 r.sys in
      let r' = record r { sys = sys' } in
      elim (length bytes == 0) [
        | true ↦ some (is_done, r')
        | false ↦ proc_first os directory bytes r'
      ]

  -- Both threads: `rest` is what the reading thread still does with its buffer.
  abbrev pub both : Place → Sync os → Rest → Threads os
  both p s rest = record { do_sync = at p s; rest = rest }

  -- One access of `doSync`, the first or the second piece of the reading thread, or StopSync while `main_cs`
  -- is free.
  pub data Access : Threads os → Threads os → Type 0 where
    goes :
        (p : Place) (s : Sync os) (rest : Rest)
        → Access (both p s rest) (record { do_sync = proceed p s; rest = rest })
    reads :
        (p : Place) (s : Sync os) (c : ComIo) (rest : Rest) (r' : ReadProc os)
        → s.pcio ≡ some c
        → IsAnswer (message (arriving os directory c s.r_proc)) (asked_flag p s.r_proc.flag)
        → read_first c s.r_proc ≡ some (rest, r')
        → Access (both p s is_done) (both p (record s { r_proc = r' }) rest)
    finishes :
        (p : Place) (s : Sync os) (rest : Rest)
        → Access
            (both p s rest)
            (both p (record s { r_proc = proc_rest os directory rest s.r_proc }) is_done)
    stops :
        (p : Place) (s : Sync os) (rest : Rest)
        → locked p ≡ false
        → Access (both p s rest) (both p (stop_sync os directory s) rest)

  pub data Accesses (t : Threads os) : Threads os → Type 0 where
    here : Accesses t t
    next : {u v : Threads os} → Accesses t u → Access u v → Accesses t v
