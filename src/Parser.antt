-- ===== src/Parser.antt =====
-- CosmosParser.cpp: the thread that turns a downloaded file into a text file. `__DIRECTLY_SQL__` is not
-- defined (EnvSettings.h); the messages for the debugger are left out.
pub mod Format
pub mod Texts
pub mod Tape
pub mod Ends
pub mod Entries
pub mod Rounds
pub mod Files
pub mod Tests
use cosmos_pc.Prelude.{
  ℕ, zero, suc, Bool, true, false, ◌&&◌, ◌||◌, not, Option, none, some, List, [], ◌∷◌, ◌++◌, length,
  take, get_or, overlay, ltb, ◌==◌, if◌then◌else◌,
}
use cosmos_pc.Os.{Handle, null_handle, is_invalid, open_existing, create_always, Os}
use cosmos_pc.Download.{tmp_path}
use cosmos_pc.Parser.Format.{Storage}
use cosmos_pc.Parser.Texts.{mode_letter, cosmos_path, select_line, summary_line, gps_line}

-- The variables of `doParseFile`; `buffer` has 512 bytes, which nothing clears. `out` is a record for the
-- statements: what `WriteFile` took for the new file.
pub record Parse (os : Os) : Type 0 where
  pub world : os.World
  pub buffer : List ℕ
  pub w : ℕ
  pub out : List ℕ

module _ (os : Os) (f : Storage) where
  -- `ReadFile` of `n` bytes into `buffer`.
  unfoldable pub read_bytes : Handle → ℕ → Parse os → Bool × Parse os
  read_bytes h n s =
      let (ok, bytes, world') = os.read_file h n s.world in
      (ok, record s { world = world'; buffer = overlay bytes s.buffer; w = length bytes })

  -- `sprintf_s` into `wbuffer` and `WriteFile` of the text.
  unfoldable pub write_text : Handle → List ℕ → Parse os → Parse os
  write_text dest text s =
      let (ok, n, world') = os.write_file dest text s.world in
      record s { world = world'; w = n; out = s.out ++ take n text }

  -- The cases that read a structure and pass over it.
  unfoldable pub skip_data : Handle → ℕ → Parse os → Parse os
  skip_data h size s =
      let (ok, s1) = read_bytes h size s in if ltb s1.w size then record s1 { w = 0 } else s1

  -- The case 0x10.
  unfoldable pub gps_data : ℕ → ℕ → Handle → Handle → Parse os → Parse os
  gps_data i mode h dest s =
      let (ok, s1) = read_bytes h f.gps_size s in
      let gps = take f.gps_size s1.buffer in
      if ltb s1.w f.heartbeat_size
      then record s1 { w = 0 }
      else if not (f.is_zero (f.lat gps)) || not (f.is_zero (f.long gps))
      then write_text dest (gps_line f i mode gps) s1
      else s1

  -- The `switch`, on the byte just read.
  unfoldable pub parse_data : ℕ → ℕ → Handle → Handle → Parse os → Parse os
  parse_data i mode h dest s =
      let tag = get_or s.buffer 0 0 in
      if tag == 0x10
      then gps_data i mode h dest s
      else if tag == 0x20
      then skip_data h f.heartbeat_size s
      else if tag == 0x21
      then skip_data h f.pedometer_size s
      else if tag == 0x22
      then skip_data h f.bike_size s
      else if tag == 0x30
      then skip_data h f.barometer_size s
      else if tag == 0x31
      then skip_data h f.temperature_size s
      else if tag == 0x82
      then (read_bytes h f.lap_size s).1
      else s

  -- The loop over the body: `none` is the end of the fuel.
  unfoldable pub parse_body : ℕ → ℕ → ℕ → Handle → Handle → Parse os → Option (Parse os)
  parse_body zero i mode h dest s = none
  parse_body (suc fuel) i mode h dest s =
      let (ok, s1) = read_bytes h 1 s in
      let s2 = parse_data i mode h dest s1 in
      let rest = parse_body fuel i mode h dest s2 in
      if ok && ltb 0 s1.w then if s2.w == 0 then some s2 else rest else some s1

  abbrev pub close_both : Handle → Handle → Parse os → Parse os
  close_both h dest s = record s { world = os.close_handle dest (os.close_handle h s.world) }

  -- What follows once the new file is open: two lines, the body, and both files closed.
  unfoldable pub convert : ℕ → ℕ → Handle → Handle → Parse os → Option (Parse os)
  convert fuel i h dest s =
      let head = take f.head_size s.buffer in
      let selected = write_text dest (select_line f i head) s in
      let summed = write_text dest (summary_line f i head) selected in
      elim (parse_body fuel i (mode_letter (f.mode head)) h dest summed) [
        | none ↦ none
        | some s' ↦ some (close_both h dest s')
      ]

  -- `doParseFile`
  unfoldable pub parse_file : ℕ → List ℕ → ℕ → Parse os → Option (Parse os)
  parse_file fuel directory i s =
      let (h, world1) = os.create_file (tmp_path directory i) open_existing s.world in
      let opened = record s { world = world1 } in
      let close : Parse os → Parse os = λ t. record t { world = os.close_handle h t.world } in
      let (ok, s1) = read_bytes h f.head_size opened in
      let head = take f.head_size s1.buffer in
      let (dest, world2) = os.create_file (cosmos_path f directory i head) create_always s1.world in
      let created = record s1 { world = world2 } in
      if is_invalid h
      then some (close opened)
      else if ok
      then if ltb s1.w f.head_size
        then some (close s1)
        else if is_invalid dest
        then some (close created)
        else convert fuel i h dest created
      else some (close_both h null_handle s1)
