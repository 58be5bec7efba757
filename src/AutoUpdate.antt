-- ===== src/AutoUpdate.antt =====
-- sql_api/0_PC.cxx: a program that installs a new image on the computer and restarts it. What it prints on
-- the console is left out.
pub mod Texts
pub mod Main
pub mod Runs
pub mod Tests
use cosmos_pc.Prelude.{ℕ, Bool, true, Option, some, List, ◌∷◌, ◌++◌, if◌then◌else◌}
use cosmos_pc.Ymodem.Packet.Decimal.{decimal, padded}
use cosmos_pc.AutoUpdate.Texts.{
  server_success, access_denied_said, already_assigned_said, bad_dev_type_said, bad_device_said,
  bad_net_name_said, bad_profile_said, bad_provider_said, busy_said, cancelled_said,
  cannot_open_profile_said, already_remembered_said, last_error_failed, failed_with_code,
  invalid_password_said, no_net_said, no_network_said, other_error_said,
}

-- `SYSTEMTIME`
pub record SystemTime : Type 0 where
  pub year : ℕ
  pub month : ℕ
  pub day : ℕ
  pub hour : ℕ
  pub minute : ℕ
  pub second : ℕ

-- The results of `WNetAddConnection2` that are told apart.
pub data Connection : Type 0 where
  no_error : Connection
  access_denied : Connection
  already_assigned : Connection
  bad_dev_type : Connection
  bad_device : Connection
  bad_net_name : Connection
  bad_profile : Connection
  bad_provider : Connection
  busy : Connection
  cancelled : Connection
  cannot_open_profile : Connection
  device_already_remembered : Connection
  extended_error : Connection
  invalid_password : Connection
  no_net_or_bad_path : Connection
  no_network : Connection
  other_result : Connection

-- The result of `MessageBox`; the timer can close the box.
pub data Answer : Type 0 where
  id_no : Answer
  id_yes : Answer
  id_closed : Answer

-- What the program does to the computer.
pub data Action : Type 0 where
  timer_set : Action
  timer_killed : Action
  connection_added : Action
  queried : List ℕ → Action
  copied : List ℕ → Action
  installed : Action
  shutdown_ordered : Action
  shutdown_aborted : Action
  faulted : Action

-- What the calls give: the time, the two boxes, the network, the database, and the copy; `log_opens` says whether
-- `fopen` gives a file. `fields` gives the fields of all records of a query, in order, as the connected library
-- does. When `Connect` fails it has closed the handle (sql_api/zlb_mysql.cpp), and the queries are made on it all the
-- same: `closed_fields` is what they give then, which no documentation tells; `none` is a fault.
pub record Computer : Type 0 where
  pub time : SystemTime
  pub first_answer : Answer
  pub second_answer : Answer
  pub connection : Connection
  pub last_error_works : Bool
  pub database_connects : Bool
  pub fields : List ℕ → List (List ℕ)
  pub closed_fields : List ℕ → Option (List (List ℕ))
  pub copy_works : Bool
  pub log_opens : Bool

-- The lines of the log and the actions, each with the last one first.
pub record Course : Type 0 where
  pub log : List (List ℕ)
  pub actions : List Action

module _ (x : Computer) where
  -- `WriteLogFile`
  unfoldable pub write_log_file : List ℕ → Course → Course
  write_log_file s c = if x.log_opens then record c { log = s ∷ c.log } else c

  abbrev pub act : Action → Course → Course
  act a c = record c { actions = a ∷ c.actions }

  -- `ExecuteSQL`, on the handle of `GetMysql`.
  unfoldable pub execute_sql : List ℕ → Option (List (List ℕ))
  execute_sql query = if x.database_connects then some (x.fields query) else x.closed_fields query

  -- `sprintf` of three numbers behind a word, the last two with `%02d`.
  unfoldable pub three_numbers : List ℕ → ℕ → ℕ → ℕ → List ℕ
  three_numbers word a b c = word ++ decimal 10 a ++ 32 ∷ padded 2 b ++ 32 ∷ padded 2 c

  -- The line of the log for a result of the connection.
  unfoldable pub connection_said : Connection → List ℕ
  connection_said no_error = server_success
  connection_said access_denied = access_denied_said
  connection_said already_assigned = already_assigned_said
  connection_said bad_dev_type = bad_dev_type_said
  connection_said bad_device = bad_device_said
  connection_said bad_net_name = bad_net_name_said
  connection_said bad_profile = bad_profile_said
  connection_said bad_provider = bad_provider_said
  connection_said busy = busy_said
  connection_said cancelled = cancelled_said
  connection_said cannot_open_profile = cannot_open_profile_said
  connection_said device_already_remembered = already_remembered_said
  connection_said extended_error =
      if x.last_error_works then failed_with_code else last_error_failed
  connection_said invalid_password = invalid_password_said
  connection_said no_net_or_bad_path = no_net_said
  connection_said no_network = no_network_said
  connection_said other_result = other_error_said

  -- Whether the `switch` goes on behind itself.
  unfoldable pub goes_behind : Connection → Bool
  goes_behind extended_error = x.last_error_works
  goes_behind _ = true
