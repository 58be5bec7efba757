-- ===== src/Os.antt =====
-- Windows, as the program sees it: handles and the calls on them are parameters, and `Sys` is the
-- state that every part threads through. The source of Windows is not in the repository.
use cosmos_pc.Prelude.{ℕ, ◌≤◌, ◌<◌, Bool, true, false, List, length}

-- A `HANDLE`: `NULL`, `INVALID_HANDLE_VALUE` (what `CreateFile` returns when it fails), or an open one.
pub data Handle : Type 0 where
  null_handle : Handle
  invalid_handle : Handle
  open_handle : ℕ → Handle

abbrev pub is_null : Handle → Bool
is_null null_handle = true
is_null invalid_handle = false
is_null (open_handle n) = false

abbrev pub is_invalid : Handle → Bool
is_invalid null_handle = false
is_invalid invalid_handle = true
is_invalid (open_handle n) = false

-- `OPEN_EXISTING` and `CREATE_ALWAYS`
pub data Disposition : Type 0 where
  open_existing : Disposition
  create_always : Disposition

-- The calls: each takes the state of the world and gives the next one. `read_file` gives its result
-- and the bytes read, `write_file` its result and the number of bytes written.
pub record Os : Type 1 where
  pub World : Type 0
  pub create_file : List ℕ → Disposition → World → Handle × World
  pub close_handle : Handle → World → World
  pub create_directory : List ℕ → World → World
  pub delete_file : List ℕ → World → World
  pub set_comm_timeouts : Handle → World → Bool × World
  pub read_file : Handle → ℕ → World → Bool × List ℕ × World
  pub write_file : Handle → List ℕ → World → Bool × ℕ × World

-- The state: the world, and a record for the statements of what happened in it. `wire` is what
-- `WriteFile` accepted on the serial port, in order; `stray` counts the bytes that the program wrote
-- outside an object; `progress` holds the positions sent to the progress bar, the last one first.
pub record Sys (os : Os) : Type 0 where
  pub world : os.World
  pub wire : List ℕ
  pub stray : ℕ
  pub progress : List ℕ

-- What the documentation says of the two counts.
pub record IsLawful (os : Os) : Type 0 where
  pub read_le : (h : Handle) (n : ℕ) (w : os.World) → length (os.read_file h n w).1 ≤ n
  pub write_le : (h : Handle) (bs : List ℕ) (w : os.World) → (os.write_file h bs w).1 ≤ length bs

-- A line that takes at least one byte of what it is given.
pub record IsLive (os : Os) : Type 0 where
  pub write_some :
      (h : Handle) (bs : List ℕ) (w : os.World) → 0 < length bs → 0 < (os.write_file h bs w).1
