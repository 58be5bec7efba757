-- ===== src/Sync.antt =====
-- MainProcFunc.h and MainProcFunc.cpp: the thread that downloads the files of the watch (`doSync`), the
-- thread that reads the port (`ComIO::ReadThread` of ComIO.cpp), and `StopSync`. What `doSync` does under
-- `main_cs` is one step; so is a round of the reading thread, which that lock does not cover.
pub mod Steps
pub mod Invariant
pub mod Rounds
pub mod Runs
pub mod Requests
pub mod Ends
pub mod Cycle
pub mod Stopping
pub mod Accesses
pub mod Tests
use cosmos_pc.Prelude.{
  ℕ, zero, suc, ◌+◌, Bool, true, false, Option, none, some, List, [], ◌∷◌, ◌++◌, length, replicate,
  ltb, ◌==◌, if◌then◌else◌,
}
use cosmos_pc.Os.{is_invalid, null_handle, open_existing, Os, Sys}
use cosmos_pc.ComIo.{ComIo, init_com_io, deinit_com_io, read_com, write_com}
use cosmos_pc.Download.Text.{six_digits}
use cosmos_pc.Download.{ReadProc, folder_name, tmp_path, delete_last_file, proc}

-- The globals and the variables of `doSync`: `pcio` (`none` is `NULL`), `rProc`, `i`, whether the loop is
-- still running, and, for the statements, the numbers for which `doParseFile` was started, the last first.
pub record Sync (os : Os) : Type 0 where
  pub pcio : Option ComIo
  pub r_proc : ReadProc os
  pub i : ℕ
  pub looping : Bool
  pub parsed : List ℕ

-- "SPP+FREAD=", which is the start of `buffer`.
abbrev pub fread_command : List ℕ
fread_command = b'S' ∷ b'P' ∷ b'P' ∷ b'+' ∷ b'F' ∷ b'R' ∷ b'E' ∷ b'A' ∷ b'D' ∷ b'=' ∷ []

-- `buffer` after `sprintf_s(buffer + 10, 246, "%06d\r\0", i)`.
unfoldable pub request : ℕ → List ℕ
request i = (fread_command ++ (six_digits i ++ 13 ∷ [])) ++ replicate 239 0

module _ (os : Os) (directory : List ℕ) where
  -- `checkFileExist`
  unfoldable pub check_file_exist : ℕ → Sys os → Bool × Sys os
  check_file_exist sn s =
      let w = os.create_directory (directory ++ folder_name) s.world in
      let (h, w') = os.create_file (tmp_path directory sn) open_existing w in
      let exists = if is_invalid h then false else true in
      (exists, record s { world = os.close_handle h w' })

  -- The start of `doSync`, with `port` from `getCommPort`. `InitComIO` does not fail, and starts the
  -- reading thread; `RegReadClass` gives it `rProc`. The message to refresh the buttons is left out.
  unfoldable pub start_sync : List ℕ → Sync os → Sync os
  start_sync port s =
      let begun = record s { i = 1; looping = true } in
      elim s.pcio [
        | some c ↦ begun
        | none ↦
            let fresh : ComIo = record {
              sz_dev_name = port;
              h_com = null_handle;
              reading = false;
            } in
            let ((ok, c), sys') = init_com_io os fresh false s.r_proc.sys in
            record begun { pcio = some c; r_proc = record s.r_proc { sys = sys' } }
      ]

  -- What follows the loop.
  unfoldable pub end_sync : Sync os → Sync os
  end_sync s =
      let r = if s.r_proc.flag == 2 then delete_last_file os directory s.r_proc else s.r_proc in
      record s { r_proc = record r { flag = 0 }; looping = false }

  -- `SendDlgItemMessage(…, PBM_SETPOS, RATE, 0)` and the test of the loop.
  unfoldable pub next_round : Sync os → Sync os
  next_round s =
      let sys' = record s.r_proc.sys { progress = s.r_proc.rate ∷ s.r_proc.sys.progress } in
      let shown = record s { r_proc = record s.r_proc { sys = sys' } } in
      if ltb s.i 1000000 then shown else end_sync shown

  -- The case that the flag is 0: ask for the file, or pass over it.
  unfoldable pub request_file : ComIo → Sync os → Sync os
  request_file c s =
      let (exists, sys') = check_file_exist s.i s.r_proc.sys in
      if exists
      then record s { i = s.i + 1; r_proc = record s.r_proc { sys = sys' } }
      else let (written, sys2) = write_com os c (request s.i) 0 19 sys' in
        record s { r_proc = record s.r_proc { sys = sys2; flag = 1; dw_name = s.i } }

  -- One round of the loop of `doSync`.
  unfoldable pub sync_round : Sync os → Sync os
  sync_round s = elim s.looping [
    | false ↦ s
    | true ↦ elim s.pcio [
      | none ↦ end_sync s
      | some c ↦
          if s.r_proc.flag == 0
          then next_round (request_file c s)
          else if s.r_proc.flag == 2
          then next_round s
          else if s.r_proc.flag == 3
          then next_round (record s {
            parsed = s.i ∷ s.parsed;
            i = s.i + 1;
            r_proc = record s.r_proc { flag = 0 };
          })
          else end_sync s
    ]
  ]

  -- So many rounds of the loop of `doSync`, with nothing between them.
  unfoldable pub sync_rounds : ℕ → Sync os → Sync os
  sync_rounds zero s = s
  sync_rounds (suc n) s = sync_rounds n (sync_round s)

  -- One round of `ComIO::ReadThread` on the object with the registered class.
  unfoldable pub read_round : ComIo → ReadProc os → Option (ReadProc os)
  read_round c r =
      let (bytes, sys') = read_com os c 1024 r.sys in
      let r' = record r { sys = sys' } in
      elim (length bytes == 0) [ true ↦ some r' | false ↦ proc os directory bytes r' ]

  -- `StopSync`: the destructor closes the port.
  unfoldable pub stop_sync : Sync os → Sync os
  stop_sync s = elim s.pcio [
    | none ↦ s
    | some c ↦
        let (closed, sys') = deinit_com_io os c s.r_proc.sys in
        record s { pcio = none; r_proc = record s.r_proc { sys = sys' } }
  ]
