-- ===== src/Ports/Tests.antt =====
-- Runs of the search for the port of the watch, on a computer in which the ports 0 and 3 are there and only
-- port 3 answers, and of `getCommPort`.
use cosmos_pc.Prelude.{
  ℕ, suc, ◌≡◌, refl, true, some, List, [], ◌∷◌, ◌++◌, arith, length, ◌==◌, if◌then◌else◌,
}
use cosmos_pc.Os.{Os, Handle, null_handle, invalid_handle, open_handle}
use cosmos_pc.Ymodem.Packet.Decimal.{decimal, padded}
use cosmos_pc.Download.Text.{starts_with, str_str}
use cosmos_pc.Ports.{
  check_ack, device_prefix, device_name, ask_port, probe, check_comm, check_from, check_all,
  before_colon, comm_port_calls,
}
use cosmos_pc.Ports.Search.{or_zero, first_answer, check_all-first_answer}
use cosmos_pc.Ports.Names.{repeated, comm_port_calls-repeated}

-- The last digit of a name.
abbrev last_digit : List ℕ → ℕ
last_digit [] = 0
last_digit (c ∷ []) = c
last_digit (c ∷ d ∷ rest) = last_digit (d ∷ rest)

abbrev port_named : List ℕ → Handle
port_named name =
    if last_digit name == b'3'
    then open_handle 3
    else if last_digit name == b'0'
    then open_handle 0
    else invalid_handle

abbrev said : Handle → List ℕ
said null_handle = []
said invalid_handle = []
said (open_handle n) = if n == 3 then check_ack else []

-- The world counts the handles that were closed.
abbrev machine : Os
machine = record {
  World = ℕ;
  create_file = λ name disposition w. (port_named name, w);
  close_handle = λ h w. suc w;
  create_directory = λ name w. w;
  delete_file = λ name w. w;
  set_comm_timeouts = λ h w. (true, w);
  read_file = λ h n w. (true, said h, w);
  write_file = λ h bs w. (true, length bs, w);
}

-- Port 3 is found, and the ports behind it are not opened.
finds_three : check_all machine 0 0 ≡ (3, 4)
unfolding check_all check_from check_comm probe ask_port device_name decimal padded str_str
    starts_with
finds_three = refl

check_all-first_answer_example :
    let w1 = (probe machine 0 0).1 in
    check_all machine 0 0
    ≡ (or_zero (first_answer machine 99 1 w1).0, (first_answer machine 99 1 w1).1)
check_all-first_answer_example = check_all-first_answer machine 0

-- "COM3"
abbrev com3 : List ℕ
com3 = b'C' ∷ b'O' ∷ b'M' ∷ b'3' ∷ []

com3-before_colon : before_colon com3 ≡ com3
unfolding before_colon
com3-before_colon = refl

comm_port_calls-repeated_example : comm_port_calls 2 com3 ≡ some (device_prefix ++ repeated 2 com3)
comm_port_calls-repeated_example =
    comm_port_calls-repeated 2 com3 com3-before_colon (omega arith) (omega arith)
