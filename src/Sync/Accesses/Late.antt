-- ===== src/Sync/Accesses/Late.antt =====
-- An answer of the watch at the very end of `doSync` (MainProcFunc.cpp).
use cosmos_pc.Prelude.{ℕ, ◌<◌, ◌≡◌, refl, true, false, some, List, [], arith, length, ◌==◌}
use cosmos_pc.Os.{Os, is_null, is_invalid, open_existing, create_always}
use cosmos_pc.ComIo.{ComIo, read_com}
use cosmos_pc.Download.{ReadProc, read_told, message, tmp_path}
use cosmos_pc.Download.Pieces.{makes_file, proc_first}
use cosmos_pc.Sync.{Sync, check_file_exist}
use cosmos_pc.Sync.Steps.{arriving}
use cosmos_pc.Sync.Accesses.{read_first, Accesses}

-- What the documentation says of `CreateFile` on a disk that takes the files of the download: one made with
-- CREATE_ALWAYS is open, and from then on it is found with OPEN_EXISTING by a call that wants no access, whether
-- or not it is still open, and whatever folder is made before.
pub record IsStoring (os : Os) (directory : List ℕ) : Type 0 where
  pub not_null :
      (name : List ℕ) (w : os.World) → is_null (os.create_file name create_always w).0 ≡ false
  pub not_invalid :
      (name : List ℕ) (w : os.World) → is_invalid (os.create_file name create_always w).0 ≡ false
  pub is_there :
      (i : ℕ) (folder : List ℕ) (w : os.World)
      → is_invalid
          (os.create_file (tmp_path directory i) open_existing (
            os.create_directory folder (os.create_file (tmp_path directory i) create_always w).1)).0
        ≡ false

module _ (os : Os) (directory : List ℕ) where
  -- The file `i` was begun: it is open, nothing of it is saved, and `checkFileExist` finds it.
  pub record IsBegun (i : ℕ) (r : ReadProc os) : Type 0 where
    pub file : r.last_file ≡ tmp_path directory i
    pub empty : r.saved ≡ []
    pub not_null : is_null r.hfile ≡ false
    pub not_invalid : is_invalid r.hfile ≡ false
    pub found : (check_file_exist os directory i r.sys).0 ≡ true

  -- The state when the answer was read.
  abbrev pub size_known : ℕ → ComIo → ReadProc os → ReadProc os
  size_known n c r = record r {
    sys = (read_com os c 1024 r.sys).1;
    total_recv = 0;
    file_size = n;
    flag = 2;
  }

  pub read_first-told :
      (n : ℕ) (c : ComIo) (r : ReadProc os)
      → (length (arriving os directory c r) == 0) ≡ false
      → message (arriving os directory c r) ≡ read_told n
      → 0 < n
      → read_first os directory c r ≡ some (makes_file, size_known n c r)
  unfolding read_first proc_first
  read_first-told n c r some_read told more =
      let divides : (n == 0) ≡ false = ground (arith, more) in
      rw (some_read, told, divides, read_first, proc_first) refl
