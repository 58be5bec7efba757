-- ===== src/App.antt =====
-- w10_pc_user.cpp: the two dialogs and what their buttons start; `Refresh` of MainProcFunc.cpp. The messages
-- for the debugger and the step of the first progress bar are left out.
pub mod Choice
pub mod Tests
use cosmos_pc.Prelude.{
  ℕ, zero, suc, ◌+◌, Bool, true, false, Option, none, some, List, [], ◌∷◌, ◌++◌, ◌==◌,
  if◌then◌else◌,
}
use cosmos_pc.Os.{Os}
use cosmos_pc.Ymodem.Packet.Decimal.{decimal}
use cosmos_pc.Sync.{Sync, stop_sync}
use cosmos_pc.Ports.{max_com, check_comm, check_all}

-- The threads that the dialogs start.
pub data Started : Type 0 where
  sync_started : Started
  stop_started : ℕ → Started
  update_started : List ℕ → Started
  check_started : Started

-- The messages that are handled, and the identifiers of the commands.
pub data Command : Type 0 where
  ok_id : Command
  cancel_id : Command
  sync_id : Command
  stop_sync_id : Command
  update_id : Command
  other_id : Command

pub data Event : Type 0 where
  init_dialog : Event
  command : Command → Event
  ui_refresh : Event
  other_event : Event

-- The globals and the controls: `result` is the `static` of `checkComm`, `started` lists the threads, the
-- last one first, `posted` counts the messages `WM_UI_REFRESH` that wait.
pub record App (os : Os) : Type 0 where
  pub sync : Sync os
  pub result : ℕ
  pub started : List Started
  pub posted : ℕ
  pub ended : Bool
  pub comm_list : List (List ℕ)
  pub comm_text : List ℕ
  pub sync_shown : Bool
  pub stop_shown : Bool

-- `wsprintf(temp, L"COM%d", i)`
unfoldable pub com_name : ℕ → List ℕ
com_name i = b'C' ∷ b'O' ∷ b'M' ∷ decimal 10 i

-- The names that the loop of `WM_INITDIALOG` inserts from `i` on.
unfoldable pub com_names : ℕ → ℕ → List (List ℕ)
com_names zero i = []
com_names (suc n) i = com_name i ∷ com_names n (i + 1)

module _ (os : Os) where
  abbrev pub start_thread : Started → App os → App os
  start_thread t a = record a { started = t ∷ a.started }

  -- `Refresh`
  unfoldable pub refresh : App os → App os
  refresh a = elim a.sync.pcio [
    | none ↦ record a { sync_shown = true; stop_shown = false }
    | some c ↦ record a { sync_shown = false; stop_shown = true }
  ]

  -- `dlgMainProc`: its result, and the state; `file_name` is what `GetOpenFileName` gives.
  unfoldable pub dlg_main_proc : Option (List ℕ) → Event → App os → Bool × App os
  dlg_main_proc file_name init_dialog a =
      let w = a.sync.r_proc.sys.world in
      let (found, w') = check_comm os max_com a.result w in
      let names = com_names 20 0 in
      (true, record a { comm_list = a.comm_list ++ names; comm_text = com_name found })
  dlg_main_proc file_name (command ok_id) a =
      (true, record (start_thread (stop_started 0) a) { ended = true })
  dlg_main_proc file_name (command cancel_id) a =
      (true, record (start_thread (stop_started 0) a) { ended = true })
  dlg_main_proc file_name (command sync_id) a = (true, start_thread sync_started a)
  dlg_main_proc file_name (command stop_sync_id) a = (true, start_thread (stop_started 1) a)
  dlg_main_proc file_name (command update_id) a = elim file_name [
    | none ↦ (true, a)
    | some name ↦ (true, start_thread (update_started name) a)
  ]
  dlg_main_proc file_name (command other_id) a = (false, a)
  dlg_main_proc file_name ui_refresh a = (true, refresh a)
  dlg_main_proc file_name other_event a = (false, a)

  -- `dlgBtInit`
  unfoldable pub dlg_bt_init : Event → App os → Bool × App os
  dlg_bt_init init_dialog a = (true, start_thread check_started a)
  dlg_bt_init (command ok_id) a = (true, record a { ended = true })
  dlg_bt_init (command cancel_id) a = (true, record a { ended = true })
  dlg_bt_init (command sync_id) a = (false, a)
  dlg_bt_init (command stop_sync_id) a = (false, a)
  dlg_bt_init (command update_id) a = (false, a)
  dlg_bt_init (command other_id) a = (false, a)
  dlg_bt_init ui_refresh a = (false, a)
  dlg_bt_init other_event a = (false, a)

  -- `StopThread`
  unfoldable pub stop_thread : List ℕ → ℕ → App os → App os
  stop_thread directory x a =
      let stopped = record a { sync = stop_sync os directory a.sync } in
      if x == 0 then stopped else record stopped { posted = a.posted + 1 }

  -- The thread of the first dialog, `CheckAll`, which closes it.
  unfoldable pub check_thread : App os → App os
  check_thread a =
      let (found, w) = check_all os a.result a.sync.r_proc.sys.world in
      let sys' = record a.sync.r_proc.sys { world = w } in
      record a {
        result = found;
        sync = record a.sync { r_proc = record a.sync.r_proc { sys = sys' } };
        ended = true;
      }
