-- ===== src/App/Tests.antt =====
-- Runs of the theorems on the dialogs of w10_pc_user.cpp.
use cosmos_pc.Prelude.{ℕ, ◌+◌, ◌<◌, ◌↔◌, refl, true, false, none, some, [], arith, length}
use cosmos_pc.Os.{Os, null_handle, open_handle}
use cosmos_pc.App.{App, init_dialog, dlg_main_proc}
use cosmos_pc.App.Choice.{IsListed, comm_text-IsListed}

abbrev quiet : Os
quiet = record {
  World = ℕ;
  create_file = λ name disposition w. (open_handle 1, w);
  close_handle = λ h w. w + 1;
  create_directory = λ name w. w;
  delete_file = λ name w. w;
  set_comm_timeouts = λ h w. (true, w);
  read_file = λ h n w. (true, [], w);
  write_file = λ h bs w. (true, length bs, w);
}

-- A download is running, and the watch is at port 23.
abbrev running : App quiet
running = record {
  sync = record {
    pcio = some (record { sz_dev_name = []; h_com = open_handle 1; reading = true });
    r_proc = record {
      sys = record { world = 0; wire = []; stray = 0; progress = [] };
      hfile = null_handle;
      file_size = 0;
      flag = 0;
      dw_name = 0;
      total_recv = 0;
      last_file = [];
      rate = 0;
      saved = [];
    };
    i = 1;
    looping = true;
    parsed = [];
  };
  result = 23;
  started = [];
  posted = 0;
  ended = false;
  comm_list = [];
  comm_text = [];
  sync_shown = false;
  stop_shown = true;
}

comm_text-IsListed_example :
    let t = (dlg_main_proc quiet none init_dialog running).1 in
    IsListed t.comm_text t.comm_list ↔ (23 < 20)
comm_text-IsListed_example = comm_text-IsListed quiet none running refl (omega arith)
