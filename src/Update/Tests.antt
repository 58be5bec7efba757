-- ===== src/Update/Tests.antt =====
-- Runs of the theorems on a port and a file that give what is asked for.
use cosmos_pc.Prelude.{
  ℕ, refl, true, none, List, [], ◌∷◌, ◌++◌, arith, length, replicate, length-replicate,
}
use cosmos_pc.Os.{Handle, open_handle, Os, Sys, IsLawful}
use cosmos_pc.Ymodem.Uart.{Bcb2win}
use cosmos_pc.Update.{load_image, do_update}
use cosmos_pc.Update.Closing.{IsClosed, do_update-IsClosed}
use cosmos_pc.Download.Transfer.{IsRoomy}
use cosmos_pc.Update.Sending.{IsUpdated, do_update-IsUpdated}

abbrev generous : Os
generous = record {
  World = ℕ;
  create_file = λ name disposition w. (open_handle 1, w);
  close_handle = λ h w. w;
  create_directory = λ name w. w;
  delete_file = λ name w. w;
  set_comm_timeouts = λ h w. (true, w);
  read_file = λ h n w. (true, replicate n 6, w);
  write_file = λ h bs w. (true, length bs, w);
}

generous-IsLawful : IsLawful generous
generous-IsLawful = record {
  read_le = λ h n w. omega (arith, length-replicate n (let z : ℕ = 6 in z));
  write_le = λ h bs w. omega arith;
}

generous-IsRoomy : IsRoomy generous
generous-IsRoomy = record { writes_ok = λ h bs w. refl; writes_all = λ h bs w. refl }

abbrev start : Sys generous
start = record { world = 0; wire = []; stray = 0; progress = [] }

abbrev no_port : Bcb2win
no_port = record { updateio = none }

abbrev three : Handle → ℕ → ℕ
three h w = 3

abbrev buffer : List ℕ
buffer = replicate 1029 0

abbrev name : List ℕ
name = b'f' ∷ 0 ∷ []

do_update-IsClosed_example :
    IsClosed generous (do_update generous three [] name buffer 0 1030 name no_port start)
do_update-IsClosed_example =
    do_update-IsClosed generous three [] name buffer 0 1030 name no_port start refl

do_update-IsUpdated_example :
    IsUpdated generous
      (name ++ 0 ∷ [])
      3
      (load_image generous three [] name buffer 0 1030 4 (open_handle 1) 3 [] start).0
      start
      (do_update generous three [] name buffer 0 1030 name no_port start)
do_update-IsUpdated_example =
    do_update-IsUpdated generous three [] name buffer 0 1030 generous-IsRoomy generous-IsLawful
      (omega arith) (length-replicate {A = ℕ} 1029 0) (λ w. refl) name no_port start refl
