-- ===== src/ComIo/Tests.antt =====
-- Runs of the theorems on the port of the watch.
use cosmos_pc.Prelude.{
  ℕ, ◌≡◌, refl, true, false, Option, none, some, List, [], ◌∷◌, ◌++◌, length, take, drop, replicate,
}
use cosmos_pc.Os.{Os, null_handle, open_handle}
use cosmos_pc.ComIo.{read_com}
use cosmos_pc.ComIo.Device.{Device, com_io, cosmos_spp, deliver, read_thread}
use cosmos_pc.Download.Text.{starts_with, str_str}
use cosmos_pc.Download.{ReadProc, tag_index_from, get_tag_index, message, deinit_file, count, proc}
use cosmos_pc.Download.Transfer.{IsRoomy}

-- The world is what the port is going to give, a byte at a time.
abbrev line : Os
line = record {
  World = List ℕ;
  create_file = λ name disposition w. (open_handle 1, w);
  close_handle = λ h w. w;
  create_directory = λ name w. w;
  delete_file = λ name w. w;
  set_comm_timeouts = λ h w. (true, w);
  read_file = λ h n w. (true, take 1 w, drop 1 w);
  write_file = λ h bs w. (true, length bs, w);
}

line-IsRoomy : IsRoomy line
line-IsRoomy = record { writes_ok = λ h bs w. refl; writes_all = λ h bs w. refl }

abbrev waiting : ReadProc line
waiting = record {
  sys = record { world = 65 ∷ 66 ∷ []; wire = []; stray = 0; progress = [] };
  hfile = null_handle;
  file_size = 2;
  flag = 2;
  dw_name = 7;
  total_recv = 0;
  last_file = [];
  rate = 0;
  saved = [];
}

abbrev port_three : Device line
port_three = record {
  port = record { sz_dev_name = []; h_com = open_handle 1; reading = true };
  callback = none;
  objproc = true;
  ack_bytes = [];
}

abbrev saved_by : Option (ReadProc line) → List ℕ
saved_by none = []
saved_by (some r) = r.saved

-- The thread has handed the two bytes to the object, one by one, when the handle is gone.
both_saved :
    saved_by (read_thread line [] (replicate 3 true ++ (false ∷ [])) port_three waiting)
    ≡ 65 ∷ 66 ∷ []
unfolding read_thread deliver read_com message get_tag_index tag_index_from str_str starts_with proc
    count deinit_file
both_saved = refl

-- The acknowledgement of `CosmosSpp(DWORD)`, which nothing sends.
spp_ack :
    take 5 (cosmos_spp {os = line} 3 null_handle).ack_bytes ≡ 0xaa ∷ 0xbb ∷ 0xcc ∷ 0x03 ∷ 0 ∷ []
unfolding cosmos_spp com_io
spp_ack = refl
