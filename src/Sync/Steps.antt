-- ===== src/Sync/Steps.antt =====
-- The two threads of MainProcFunc.cpp and ComIO.cpp, and the button that stops them, as a step relation.
use cosmos_pc.Prelude.{ℕ, ◌≤◌, ◌<◌, ◌≡◌, ◌⊎◌, false, some, List, [], ◌∷◌, length, u32}
use cosmos_pc.Os.{Os}
use cosmos_pc.ComIo.{ComIo, read_com}
use cosmos_pc.Download.{
  ReadProc, Message, ignored, size_told, read_told, content, message, tmp_path,
}
use cosmos_pc.Sync.{Sync, sync_round, read_round, stop_sync}

-- The watch tells the size to read only when it was asked for a file, and no size else.
abbrev pub IsAnswer : Message → ℕ → Type 0
IsAnswer ignored flag = Unit
IsAnswer (size_told n) flag = ⊥
IsAnswer (read_told n) flag = flag ≡ 1
IsAnswer content flag = Unit

module _ (os : Os) (directory : List ℕ) where
  -- The buffer that the reading thread gets next.
  abbrev pub arriving : ComIo → ReadProc os → List ℕ
  arriving c r = (read_com os c 1024 r.sys).0

  pub data Step : Sync os → Sync os → Type 0 where
    turns : (s : Sync os) → Step s (sync_round os directory s)
    reads :
        (s : Sync os) (c : ComIo) (r' : ReadProc os)
        → s.pcio ≡ some c
        → IsAnswer (message (arriving c s.r_proc)) s.r_proc.flag
        → read_round os directory c s.r_proc ≡ some r'
        → Step s (record s { r_proc = r' })
    stops : (s : Sync os) → Step s (stop_sync os directory s)

  pub data Reach (s : Sync os) : Sync os → Type 0 where
    here : Reach s s
    next : {t u : Sync os} → Reach s t → Step t u → Reach s u

  -- What the flag means for the file `i`.
  pub data Phase (i : ℕ) (r : ReadProc os) : Type 0 where
    idle : r.flag ≡ 0 → Phase i r
    asked : r.flag ≡ 1 → r.dw_name ≡ i → Phase i r
    receiving :
        r.flag ≡ 2
        → r.dw_name ≡ i
        → r.last_file ≡ tmp_path directory i
        → 0 < r.file_size
        → r.total_recv ≡ u32 (length r.saved)
        → Phase i r
    received :
        r.flag ≡ 3 → r.last_file ≡ tmp_path directory i → r.file_size ≤ length r.saved → Phase i r

  -- The numbers of a list that falls from below `i`.
  abbrev pub FallsFrom : ℕ → List ℕ → Type 0
  FallsFrom i [] = Unit
  FallsFrom i (n ∷ rest) = (n < i) × FallsFrom n rest

  pub record Inv (s : Sync os) : Type 0 where
    pub phase : Phase s.i s.r_proc
    pub bounded : s.i ≤ 1000000
    pub below_end : (s.looping ≡ false) ⊎ (s.i < 1000000)
    pub falls : FallsFrom s.i s.parsed
