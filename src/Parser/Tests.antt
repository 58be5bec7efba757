-- ===== src/Parser/Tests.antt =====
-- Runs of the theorems on `doParseFile`, with small structures and a system whose world is what is left of
-- the downloaded file.
use cosmos_pc.Prelude.{
  ℕ, ◌≡◌, refl, true, some, List, [], ◌∷◌, ◌++◌, arith, length, take, drop, replicate, get_or, ◌==◌,
}
use cosmos_pc.Os.{Handle, open_handle, Os, Disposition, open_existing, create_always}
use cosmos_pc.Download.Transfer.{IsRoomy}
use cosmos_pc.Parser.Format.{Storage, IsStorage, print_int}
use cosmos_pc.Parser.Texts.{mode_letter, select_line, summary_line}
use cosmos_pc.Parser.{Parse, parse_body, parse_file}
use cosmos_pc.Parser.Tape.{IsTape}
use cosmos_pc.Parser.Ends.{parse_body-returns}
use cosmos_pc.Parser.Entries.{Entry, gps_entry, other_entry, encode_all, AreEntries, lines_of}
use cosmos_pc.Parser.Files.{HasWritten, parse_file_lines}

abbrev small : Storage
small = record {
  Real = ℕ;
  head_size = 2;
  gps_size = 2;
  heartbeat_size = 1;
  pedometer_size = 1;
  bike_size = 3;
  barometer_size = 1;
  temperature_size = 1;
  lap_size = 1;
  year = λ head. get_or head 0 0;
  month = λ head. 7;
  day = λ head. 2;
  mode = λ head. get_or head 1 0;
  total_tick = λ head. 5000;
  distance = λ head. 9;
  lat = λ gps. get_or gps 0 0;
  long = λ gps. get_or gps 1 0;
  is_zero = λ x. x == 0;
  print_real = λ x. print_int x;
  print_real_as_int = λ x. print_int x;
}

small-IsStorage : IsStorage small
small-IsStorage = record {
  some_gps = omega arith;
  some_heartbeat = omega arith;
  some_pedometer = omega arith;
  some_bike = omega arith;
  some_barometer = omega arith;
  some_temperature = omega arith;
  some_lap = omega arith;
  gps_fits = omega arith;
}

abbrev handle_for : Disposition → Handle
handle_for open_existing = open_handle 1
handle_for create_always = open_handle 2

abbrev reader : Os
reader = record {
  World = List ℕ;
  create_file = λ name disposition w. (handle_for disposition, w);
  close_handle = λ h w. w;
  create_directory = λ name w. w;
  delete_file = λ name w. w;
  set_comm_timeouts = λ h w. (true, w);
  read_file = λ h n w. (true, take n w, drop n w);
  write_file = λ h bs w. (true, length bs, w);
}

reader-IsRoomy : IsRoomy reader
reader-IsRoomy = record { writes_ok = λ h bs w. refl; writes_all = λ h bs w. refl }

abbrev reader_tape : IsTape reader (open_handle 1) (open_handle 2)
reader_tape = record {
  rest = λ w. w;
  reads_ok = λ n w. refl;
  reads = λ n w. refl;
  moves = λ n w. refl;
  stays = λ bs w. refl;
  makes = λ path w. refl;
}

-- A position, a bike record, an unknown byte, a position that is zero, a position.
abbrev ride : List Entry
ride =
    gps_entry (25 ∷ 121 ∷ [])
    ∷ other_entry 0x22 (1 ∷ 2 ∷ 3 ∷ [])
    ∷ other_entry 0x99 []
    ∷ gps_entry (0 ∷ 0 ∷ [])
    ∷ gps_entry (26 ∷ 0 ∷ [])
    ∷ []

ride-AreEntries : AreEntries small ride
ride-AreEntries = (
  refl,
  (
    (λ e. absurd (omega (arith, e)), refl),
    ((λ e. absurd (omega (arith, e)), refl), (refl, (refl, tt))),
  ),
)

abbrev reading : List ℕ → Parse reader
reading bytes = record { world = bytes; buffer = replicate 512 8; w = 0; out = [] }

abbrev head : List ℕ
head = 20 ∷ 2 ∷ []

parse_file_lines_example :
    HasWritten reader
      ((([] ++ select_line small 7 head) ++ summary_line small 7 head)
        ++ lines_of small 7 (mode_letter 2) ride)
      (parse_file reader small 6 [] 7 (reading (head ++ encode_all ride)))
parse_file_lines_example =
    parse_file_lines reader small (open_handle 1) (open_handle 2) reader_tape reader-IsRoomy
      small-IsStorage (omega arith) [] 7 (reading (head ++ encode_all ride)) head ride refl refl
      refl (λ path w. refl) refl refl (omega arith) refl 6 ride-AreEntries (omega arith)

parse_body-returns_example :
    (t : Parse reader) × (parse_body reader small 5 7 b'B'
        (open_handle 1)
        (open_handle 2)
        (reading (0x20 ∷ 1 ∷ 0x10 ∷ 4 ∷ []))
      ≡ some t)
parse_body-returns_example =
    parse_body-returns reader small (open_handle 1) (open_handle 2) reader_tape 5 7 b'B'
      (reading (0x20 ∷ 1 ∷ 0x10 ∷ 4 ∷ [])) (omega arith)
