-- ===== src/Sync/Tests.antt =====
-- Runs of the theorems on the threads of MainProcFunc.cpp, with a watch that sends a file of four bytes.
use cosmos_pc.Prelude.{
  ℕ, ◌≡◌, ◌≤◌, refl, Bool, true, false, none, some, List, [], ◌∷◌, ◌++◌, arith, length, take,
  length-take, ltb, if◌then◌else◌,
}
use cosmos_pc.Os.{
  Handle, Os, IsLawful, null_handle, invalid_handle, open_handle, Disposition, open_existing,
  create_always,
}
use cosmos_pc.ComIo.{ComIo}
use cosmos_pc.Ymodem.Packet.Decimal.{padded}
use cosmos_pc.Download.Text.{
  starts_with, str_str, digits_value, signed_value, after_space, strtol, six_digits,
}
use cosmos_pc.Download.{
  ReadProc, message, read_told, content, proc_all, tag_index_from, get_tag_index, tmp_path,
}
use cosmos_pc.Download.Transfer.{IsRoomy}
use cosmos_pc.Sync.{Sync, check_file_exist, start_sync, sync_round, sync_rounds, stop_sync}
use cosmos_pc.Sync.Requests.{requested, sent_request, request_sent}
use cosmos_pc.Sync.Ends.{sync_ends}
use cosmos_pc.Sync.Cycle.{IsTaken, sync_round-IsTaken}
use cosmos_pc.Sync.Stopping.{sync_waits, stopped_round}

-- The port has a short name; no file is there before it is made.
abbrev opened : List ℕ → Disposition → Handle
opened name open_existing = if ltb (length name) 9 then open_handle 1 else invalid_handle
opened name create_always = open_handle 2

abbrev received_piece : ℕ → List (List ℕ) → Bool × List ℕ × List (List ℕ)
received_piece n [] = (true, [], [])
received_piece n (buf ∷ bufs) = (true, take n buf, bufs)

-- The world is what the watch is going to send.
abbrev pub watch : Os
watch = record {
  World = List (List ℕ);
  create_file = λ name disposition w. (opened name disposition, w);
  close_handle = λ h w. w;
  create_directory = λ name w. w;
  delete_file = λ name w. w;
  set_comm_timeouts = λ h w. (true, w);
  read_file = λ h n w. received_piece n w;
  write_file = λ h bs w. (true, length bs, w);
}

received_piece-le : (n : ℕ) (w : List (List ℕ)) → length (received_piece n w).1 ≤ n
received_piece-le n [] = omega arith
received_piece-le n (buf ∷ bufs) = omega (arith, length-take n buf)

pub watch-IsLawful : IsLawful watch
watch-IsLawful = record {
  read_le = λ h n w. received_piece-le n w;
  write_le = λ h bs w. omega arith;
}

watch-IsRoomy : IsRoomy watch
watch-IsRoomy = record { writes_ok = λ h bs w. refl; writes_all = λ h bs w. refl }

-- "COM3"
abbrev pub com3 : List ℕ
com3 = b'C' ∷ b'O' ∷ b'M' ∷ b'3' ∷ []

-- "FREAD,4\r"
abbrev pub four_told : List ℕ
four_told = b'F' ∷ b'R' ∷ b'E' ∷ b'A' ∷ b'D' ∷ b',' ∷ b'4' ∷ 13 ∷ []

abbrev pub at_start : Sync watch
at_start = record {
  pcio = none;
  r_proc = record {
    sys = record {
      world = four_told ∷ (16 ∷ 200 ∷ 3 ∷ 9 ∷ []) ∷ [];
      wire = [];
      stray = 0;
      progress = [];
    };
    hfile = null_handle;
    file_size = 0;
    flag = 0;
    dw_name = 0;
    total_recv = 0;
    last_file = [];
    rate = 0;
    saved = [];
  };
  i = 0;
  looping = false;
  parsed = [];
}

abbrev pub port : ComIo
port = record { sz_dev_name = com3; h_com = open_handle 1; reading = true }

abbrev pub started : Sync watch
started = start_sync watch [] com3 at_start

abbrev on_line : Sync watch
on_line = record at_start { pcio = some port; i = 41; looping = true }

on_line-missing : (check_file_exist watch [] on_line.i on_line.r_proc.sys).0 ≡ false
unfolding check_file_exist tmp_path six_digits padded
on_line-missing = refl

request_sent_example :
    let t = sync_round watch [] on_line in
    (t.r_proc.sys.wire ≡ [] ++ sent_request 41)
    × (requested (sent_request 41) ≡ 41)
    × (t.r_proc.flag ≡ 1)
    × (t.r_proc.dw_name ≡ 41)
    × (t.i ≡ 41)
request_sent_example =
    request_sent watch [] watch-IsRoomy port on_line refl refl refl refl (omega arith)
      on_line-missing

abbrev in_transfer : Sync watch
in_transfer = record on_line { r_proc = record at_start.r_proc { flag = 2; hfile = open_handle 2 } }

sync_waits_example :
    let t = sync_rounds watch [] 100 in_transfer in
    (t.looping ≡ true) × (t.r_proc.flag ≡ 2) × (t.i ≡ 41)
sync_waits_example = sync_waits watch [] 100 port in_transfer refl refl refl (omega arith)

stopped_round_example :
    let t = sync_round watch [] (stop_sync watch [] in_transfer) in
    (t.looping ≡ false)
    × (t.pcio ≡ none)
    × (t.r_proc.flag ≡ 0)
    × (t.r_proc.hfile ≡ null_handle)
    × (t.r_proc.sys.wire ≡ [])
    × (t.r_proc.sys.world ≡ at_start.r_proc.sys.world)
stopped_round_example = stopped_round watch [] port in_transfer refl refl refl refl

sync_ends_example : (sync_rounds watch [] 999999 (record on_line { i = 2 })).looping ≡ false
sync_ends_example =
    sync_ends watch [] 999999 (record on_line { i = 2 }) (λ e. absurd (omega (arith, e)))
      (omega arith) (omega arith)

four_told-message : message four_told ≡ read_told 4
unfolding message get_tag_index tag_index_from str_str starts_with strtol signed_value after_space
    digits_value
four_told-message = refl

three-message : message (16 ∷ 200 ∷ 3 ∷ []) ≡ content
unfolding message str_str starts_with
three-message = refl

two-message : message (9 ∷ 8 ∷ []) ≡ content
unfolding message str_str starts_with
two-message = refl

sync_round-IsTaken_example :
    let t = sync_round watch [] on_line in
    (r : ReadProc watch) × (proc_all watch []
        (four_told ∷ ((16 ∷ 200 ∷ 3 ∷ []) ∷ (9 ∷ 8 ∷ []) ∷ []))
        t.r_proc
      ≡ some r)
    × IsTaken watch [] on_line
        (sync_round watch [] (record t { r_proc = r }))
        (16 ∷ 200 ∷ 3 ∷ 9 ∷ 8 ∷ [])
sync_round-IsTaken_example =
    sync_round-IsTaken watch [] port on_line four_told 4 ((16 ∷ 200 ∷ 3 ∷ []) ∷ []) (9 ∷ 8 ∷ [])
      watch-IsRoomy refl refl refl refl (omega arith) on_line-missing four_told-message
      (three-message, tt) two-message (omega arith) (omega arith) (omega arith) (omega arith)
      (omega arith)
