-- ===== src/Sync/Accesses/Tests.antt =====
-- Runs of the accesses of `doSync` (MainProcFunc.cpp) with a watch that sends a file of four bytes.
use cosmos_pc.Prelude.{
  ℕ, zero, suc, List, Bool, take, ltb, if◌then◌else◌, ◌≤◌, ◌≡◌, refl, true, false, none, some, [],
  ◌∷◌, length,
}
use cosmos_pc.ComIo.{read_com, write_com}
use cosmos_pc.Download.{ReadProc, message, tmp_path, deinit_file, init_file}
use cosmos_pc.Download.Pieces.{Rest, is_done, closes_file, count_first, proc_first, proc_rest}
use cosmos_pc.Sync.{Sync, request, check_file_exist, start_sync}
use cosmos_pc.Sync.Steps.{FallsFrom}
use cosmos_pc.Sync.Accesses.{
  enters, parses, ends, stopped, Thread, Threads, proceed, proceeds, read_first, both, reads,
  finishes, Accesses, here, next,
}
use cosmos_pc.Os.{
  Handle, null_handle, invalid_handle, open_handle, Disposition, open_existing, create_always, Os,
}
use cosmos_pc.ComIo.{init_com_io}
use cosmos_pc.Ymodem.Packet.Decimal.{padded}
use cosmos_pc.Download.Text.{
  starts_with, str_str, digits_value, signed_value, after_space, strtol, six_digits,
}
use cosmos_pc.Download.{tag_index_from, get_tag_index}
use cosmos_pc.Sync.{sync_round}
use cosmos_pc.Sync.Tests.{watch, watch-IsLawful, com3, four_told, at_start, port, started}
use cosmos_pc.Sync.Accesses.Invariant.{IsWhole}
use cosmos_pc.Sync.Accesses.Runs.{proceeds-Accesses, parses-IsWhole, numbers_rising}
use cosmos_pc.Sync.Accesses.Torn.{stale_flag}

abbrev begun : Threads watch
begun = both watch [] enters started is_done

-- The request is written, and the next round has begun.
abbrev requested : Thread watch
requested = proceeds watch [] 6 begun.do_sync

-- The reading thread after its first piece.
abbrev first : Sync watch → Rest × ReadProc watch
first s = elim (read_first watch [] port s.r_proc) [ none ↦ (is_done, s.r_proc) | some q ↦ q ]

-- The state after a round of the reading thread.
abbrev after : Sync watch → Sync watch
after s = record s { r_proc = proc_rest watch [] (first s).0 (first s).1 }

abbrev told : Sync watch
told = after requested.sync

abbrev filled : Sync watch
filled = after told

abbrev about_to_parse : Thread watch
about_to_parse = proceeds watch [] 4 (record { place = enters; sync = filled })

requested-Accesses : Accesses watch [] begun (record { do_sync = requested; rest = is_done })
requested-Accesses = proceeds-Accesses watch [] 6 is_done here

told-Accesses : Accesses watch [] begun (both watch [] enters told is_done)
unfolding start_sync proceeds proceed check_file_exist init_com_io write_com read_com request
    six_digits padded tmp_path message get_tag_index tag_index_from str_str starts_with strtol
    signed_value after_space digits_value read_first proc_first proc_rest init_file deinit_file
    count_first
told-Accesses =
    let s = requested.sync in
    next (next requested-Accesses (reads enters s port (first s).0 (first s).1 refl refl refl))
      (finishes enters (record s { r_proc = (first s).1 }) (first s).0)

filled-Accesses : Accesses watch [] begun (both watch [] enters filled is_done)
unfolding start_sync proceeds proceed check_file_exist init_com_io write_com read_com request
    six_digits padded tmp_path message get_tag_index tag_index_from str_str starts_with strtol
    signed_value after_space digits_value read_first proc_first proc_rest init_file deinit_file
    count_first
filled-Accesses =
    next (next told-Accesses (reads enters told port (first told).0 (first told).1 refl tt refl))
      (finishes enters (record told { r_proc = (first told).1 }) (first told).0)

abbrev parsing : Threads watch
parsing = both watch [] parses about_to_parse.sync is_done

parsing-Accesses : Accesses watch [] begun parsing
unfolding start_sync proceeds proceed check_file_exist init_com_io write_com read_com request
    six_digits padded tmp_path message get_tag_index tag_index_from str_str starts_with strtol
    signed_value after_space digits_value read_first proc_first proc_rest init_file deinit_file
    count_first
parsing-Accesses = proceeds-Accesses watch [] 4 is_done filled-Accesses

parses-IsWhole_example :
    (is_done ≡ is_done) × IsWhole watch [] about_to_parse.sync.i about_to_parse.sync.r_proc
parses-IsWhole_example =
    parses-IsWhole watch [] watch-IsLawful com3 at_start refl refl {s = about_to_parse.sync}
      {rest = is_done} parsing-Accesses

numbers_rising_example :
    let s = (proceeds watch [] 2 parsing.do_sync).sync in
    FallsFrom watch [] s.i s.parsed × (s.i ≤ 1000000)
numbers_rising_example =
    numbers_rising watch [] watch-IsLawful com3 at_start refl refl
      {t = record { do_sync = proceeds watch [] 2 parsing.do_sync; rest = is_done }}
      (proceeds-Accesses watch [] 2 is_done parsing-Accesses)

abbrev on_line : Sync watch
on_line = record at_start { pcio = some port; i = 41; looping = true }

-- A disk that keeps what was made on it, and the watch: the world is the number of files made, and what the
-- watch is going to send. The port has a short name.
abbrev disk_opened : List ℕ → Disposition → ℕ × List (List ℕ) → Handle × (ℕ × List (List ℕ))
disk_opened name open_existing (zero, bufs) =
    (if ltb (length name) 9 then open_handle 1 else invalid_handle, (zero, bufs))
disk_opened name open_existing (suc n, bufs) = (open_handle 1, (suc n, bufs))
disk_opened name create_always (n, bufs) = (open_handle 2, (suc n, bufs))

abbrev disk_read : ℕ → ℕ × List (List ℕ) → Bool × List ℕ × (ℕ × List (List ℕ))
disk_read size (n, []) = (true, [], (n, []))
disk_read size (n, buf ∷ bufs) = (true, take size buf, (n, bufs))

abbrev storing : Os
storing = record {
  World = ℕ × List (List ℕ);
  create_file = disk_opened;
  close_handle = λ h w. w;
  create_directory = λ name w. w;
  delete_file = λ name w. w;
  set_comm_timeouts = λ h w. (true, w);
  read_file = λ h n w. disk_read n w;
  write_file = λ h bs w. (true, length bs, w);
}

-- The file 41 was asked for in vain, and is not on the disk; its answer is about to come.
abbrev unanswered : Sync storing
unanswered = record {
  pcio = some port;
  r_proc = record {
    sys = record { world = (0, four_told ∷ []); wire = []; stray = 0; progress = [] };
    hfile = null_handle;
    file_size = 0;
    flag = 1;
    dw_name = 41;
    total_recv = 0;
    last_file = [];
    rate = 0;
    saved = [];
  };
  i = 41;
  looping = true;
  parsed = [];
}

unanswered-missing : (check_file_exist storing [] 41 unanswered.r_proc.sys).0 ≡ false
unfolding check_file_exist tmp_path six_digits padded
unanswered-missing = refl

abbrev all_written : Sync watch
all_written = record on_line { r_proc = record at_start.r_proc { flag = 2; hfile = open_handle 2 } }

stale_flag_example :
    (t : Sync watch) × Accesses watch []
      (both watch [] ends all_written closes_file)
      (both watch [] stopped t is_done)
    × (t.looping ≡ false)
    × (let u = sync_round watch [] (start_sync watch [] com3 t) in
        (u.parsed ≡ 1 ∷ []) × (u.i ≡ 2) × (u.looping ≡ true))
stale_flag_example = stale_flag watch [] all_written port com3 refl refl
