-- ===== src/Download.antt =====
-- CosmosReadCommProc.h and CosmosReadCommProc.cpp: what the reading thread does with the bytes of the
-- port. `__COSMOS_MIN_DOWNLOAD_PROC__` is not defined (EnvSettings.h), and `errorCount` is never read.
pub mod Text
pub mod Tags
pub mod Transfer
pub mod Pieces
pub mod Safety
pub mod Tests
use cosmos_pc.Prelude.{
  ℕ, ◌+◌, ◌*◌, ◌/◌, Bool, true, false, ◌&&◌, Option, none, some, List, [], ◌∷◌, ◌++◌, length, take,
  u32, ltb, leb, ◌==◌, if◌then◌else◌,
}
use cosmos_pc.Os.{Handle, null_handle, is_null, create_always, Os, Sys}
use cosmos_pc.Download.Text.{str_str, strtol, six_digits, c_string}

-- `cmdTag`
abbrev pub check_tag : List ℕ
check_tag = b'C' ∷ b'H' ∷ b'E' ∷ b'C' ∷ b'K' ∷ []

abbrev pub fcheck_tag : List ℕ
fcheck_tag = b'F' ∷ b'C' ∷ b'H' ∷ b'E' ∷ b'C' ∷ b'K' ∷ []

abbrev pub fsize_tag : List ℕ
fsize_tag = b'F' ∷ b'S' ∷ b'I' ∷ b'Z' ∷ b'E' ∷ []

abbrev pub fread_tag : List ℕ
fread_tag = b'F' ∷ b'R' ∷ b'E' ∷ b'A' ∷ b'D' ∷ []

abbrev pub cmd_tag : List (List ℕ)
cmd_tag = check_tag ∷ fcheck_tag ∷ fsize_tag ∷ fread_tag ∷ []

-- The loop of `getTagIndex` from `index` on.
unfoldable pub tag_index_from : ℕ → List (List ℕ) → List ℕ → ℕ
tag_index_from index [] buf = index
tag_index_from index (tag ∷ tags) buf = elim (str_str tag buf) [
  | some found ↦ index
  | none ↦ tag_index_from (index + 1) tags buf
]

unfoldable pub get_tag_index : List ℕ → ℕ
get_tag_index buf = tag_index_from 0 cmd_tag buf

-- The fields, and the global `RATE`. `saved` is a record for the statements: what `WriteFile` took
-- since the last `InitFile`.
pub record ReadProc (os : Os) : Type 0 where
  pub sys : Sys os
  pub hfile : Handle
  pub file_size : ℕ
  pub flag : ℕ
  pub dw_name : ℕ
  pub total_recv : ℕ
  pub last_file : List ℕ
  pub rate : ℕ
  pub saved : List ℕ

-- The constructor: `dwName`, `total_recv` and `RATE` are what they were.
unfoldable pub new_read_proc : {os : Os} → ReadProc os → ReadProc os
new_read_proc r = record r { hfile = null_handle; file_size = 0; flag = 0; last_file = [] }

-- `SZ_FOLDER_NAME`
abbrev pub folder_name : List ℕ
folder_name =
    b'\\' ∷ b'c' ∷ b'o' ∷ b's' ∷ b'm' ∷ b'o' ∷ b's' ∷ b'_' ∷ b's' ∷ b'p' ∷ b'p' ∷ b'_' ∷ b't' ∷ b'e'
    ∷ b'm' ∷ b'p' ∷ []

-- The path of a downloaded file, which several functions build: the current directory, the folder, and the
-- number with `%06d`.
unfoldable pub tmp_path : List ℕ → ℕ → List ℕ
tmp_path directory name =
    (directory ++ folder_name) ++ (b'\\' ∷ six_digits name) ++ (b'.' ∷ b't' ∷ b'm' ∷ b'p' ∷ [])

-- What a message means, by its tag and its comma: `proc` looks at nothing else of a command.
pub data Message : Type 0 where
  ignored : Message
  size_told : ℕ → Message
  read_told : ℕ → Message
  content : Message

unfoldable pub message : List ℕ → Message
message buf = elim (str_str (b',' ∷ []) (c_string buf)) [
  | none ↦ content
  | some p ↦
      let index = get_tag_index (c_string buf) in
      if index == 0
      then ignored
      else if index == 1
      then ignored
      else if index == 2
      then size_told (strtol p)
      else if index == 3
      then read_told (strtol p)
      else content
]

-- `directory` is what `GetCurrentDirectory` gives.
module _ (os : Os) (directory : List ℕ) where
  -- `DeinitFile`
  unfoldable pub deinit_file : ReadProc os → ReadProc os
  deinit_file r = if is_null r.hfile then r else record r {
    hfile = null_handle;
    sys = record r.sys { world = os.close_handle r.hfile r.sys.world };
  }

  -- `InitFile(DWORD)`: it closes the file first, as `DeinitFile` does.
  unfoldable pub init_file : ℕ → ReadProc os → ReadProc os
  init_file name r =
      let closed = deinit_file r in
      let folder = directory ++ folder_name in
      let w = os.create_directory folder closed.sys.world in
      let path = tmp_path directory name in
      let (h, w') = os.create_file path create_always w in
      record closed {
        sys = record closed.sys { world = w' };
        hfile = h;
        last_file = path;
        saved = [];
      }

  -- `DeleteLastFile`
  unfoldable pub delete_last_file : ReadProc os → ReadProc os
  delete_last_file r =
      let closed = deinit_file r in
      record closed {
        sys = record closed.sys { world = os.delete_file closed.last_file closed.sys.world };
      }

  -- `WriteFile` of a piece of the file took `w` bytes: `none` is the division by zero.
  unfoldable pub count : List ℕ → ℕ → ReadProc os → Option (ReadProc os)
  count buf w r =
      let total = u32 (r.total_recv + w) in
      if r.file_size == 0
      then none
      else let counted = record r {
        total_recv = total;
        rate = u32 (100 * total) / r.file_size;
        saved = r.saved ++ take w buf;
      } in
        if leb r.file_size total
        then some (record (deinit_file counted) { flag = 3 })
        else some counted

  -- `proc` on the `len` bytes of `buf`, of which `buf[len] = '\0'` makes a string.
  unfoldable pub proc : List ℕ → ReadProc os → Option (ReadProc os)
  proc buf r = elim (message buf) [
    | ignored ↦ some r
    | size_told n ↦ some (record r { file_size = n })
    | read_told n ↦
        let told = record r { total_recv = 0; file_size = n } in
        if n == 0
        then some (record told { flag = 1 })
        else some (init_file r.dw_name (record told { flag = 2 }))
    | content ↦ elim (r.flag == 2) [
      | false ↦ some r
      | true ↦
          let (ok, w, world') = os.write_file r.hfile buf r.sys.world in
          let written = record r { sys = record r.sys { world = world' } } in
          if ok then count buf w written else some written
    ]
  ]

  -- The reading thread hands over one buffer after the other.
  unfoldable pub proc_all : List (List ℕ) → ReadProc os → Option (ReadProc os)
  proc_all [] r = some r
  proc_all (buf ∷ bufs) r = elim (proc buf r) [ none ↦ none | some r' ↦ proc_all bufs r' ]
