-- ===== src/Download/Tests.antt =====
-- Runs of the theorems on a disk that takes all it is given.
use cosmos_pc.Prelude.{
  ℕ, ◌≡◌, ◌≢◌, refl, sym, ap, ◌∙◌, inr, true, none, List, [], ◌∷◌, ◌++◌, arith, length,
}
use cosmos_pc.Os.{null_handle, open_handle, Os}
use cosmos_pc.Download.Text.{starts_with, str_str, digits_value, signed_value, after_space, strtol}
use cosmos_pc.Download.{
  ReadProc, Message, ignored, size_told, read_told, content, message, tag_index_from, get_tag_index,
  proc, proc_all,
}
use cosmos_pc.Download.Transfer.{IsRoomy, IsDownloaded, download, proc_all_divides_by_zero}
use cosmos_pc.Download.Safety.{HasSize, IsSafe, proc-IsSafe}

abbrev disk : Os
disk = record {
  World = ℕ;
  create_file = λ name disposition w. (open_handle 1, w);
  close_handle = λ h w. w;
  create_directory = λ name w. w;
  delete_file = λ name w. w;
  set_comm_timeouts = λ h w. (true, w);
  read_file = λ h n w. (true, [], w);
  write_file = λ h bs w. (true, length bs, w);
}

disk-IsRoomy : IsRoomy disk
disk-IsRoomy = record { writes_ok = λ h bs w. refl; writes_all = λ h bs w. refl }

abbrev at_rest : ReadProc disk
at_rest = record {
  sys = record { world = 0; wire = []; stray = 0; progress = [] };
  hfile = null_handle;
  file_size = 0;
  flag = 0;
  dw_name = 7;
  total_recv = 0;
  last_file = [];
  rate = 0;
  saved = [];
}

abbrev transferring : ReadProc disk
transferring = record at_rest { hfile = open_handle 1; file_size = 5; flag = 2 }

-- "FREAD,4\r"
abbrev fread_four : List ℕ
fread_four = b'F' ∷ b'R' ∷ b'E' ∷ b'A' ∷ b'D' ∷ b',' ∷ b'4' ∷ 13 ∷ []

-- "FSIZE,0\r"
abbrev fsize_zero : List ℕ
fsize_zero = b'F' ∷ b'S' ∷ b'I' ∷ b'Z' ∷ b'E' ∷ b',' ∷ b'0' ∷ 13 ∷ []

abbrev piece : List ℕ
piece = 16 ∷ 200 ∷ 3 ∷ []

fread_four-message : message fread_four ≡ read_told 4
unfolding message get_tag_index tag_index_from str_str starts_with strtol signed_value after_space
    digits_value
fread_four-message = refl

fsize_zero-message : message fsize_zero ≡ size_told 0
unfolding message get_tag_index tag_index_from str_str starts_with strtol signed_value after_space
    digits_value
fsize_zero-message = refl

piece-message : message piece ≡ content
unfolding message str_str starts_with
piece-message = refl

nine-message : message (9 ∷ []) ≡ content
unfolding message str_str starts_with
nine-message = refl

abbrev kind : Message → ℕ
kind ignored = 0
kind (size_told n) = 1
kind (read_told n) = 2
kind content = 3

piece-differs : message piece ≢ size_told 0
piece-differs e =
    let wrong : ◌≡◌ {A = ℕ} 3 1 = ap kind (sym piece-message ∙ e) in absurd (omega (arith, wrong))

download_example :
    IsDownloaded disk []
      (piece ++ (9 ∷ []))
      (proc_all disk [] (fread_four ∷ piece ∷ (9 ∷ []) ∷ []) at_rest)
download_example =
    download disk [] disk-IsRoomy fread_four 4 (piece ∷ []) (9 ∷ []) at_rest fread_four-message
      (piece-message, tt) nine-message (omega arith) (omega arith) (omega arith) (omega arith)
      (omega arith)

proc_all_divides_by_zero_example : proc_all disk [] (fsize_zero ∷ piece ∷ []) transferring ≡ none
proc_all_divides_by_zero_example =
    proc_all_divides_by_zero disk [] disk-IsRoomy fsize_zero piece transferring fsize_zero-message
      piece-message refl

transferring-HasSize : HasSize transferring
unfolding HasSize
transferring-HasSize = inr (omega arith)

proc-IsSafe_example : IsSafe disk (proc disk [] piece transferring)
proc-IsSafe_example = proc-IsSafe disk [] piece transferring transferring-HasSize piece-differs
