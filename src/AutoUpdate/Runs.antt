-- ===== src/AutoUpdate/Runs.antt =====
-- When `_tmain` of sql_api/0_PC.cxx installs and restarts.
use cosmos_pc.Prelude.{
  ℕ, suc, Option, none, some, Bool, true, false, ◌&&◌, List, [], ◌∷◌, ltb, if◌then◌else◌,
}
use cosmos_pc.AutoUpdate.{
  Computer, Connection, extended_error, Answer, id_no, id_yes, id_closed, Action, timer_set,
  timer_killed, connection_added, queried, copied, installed, shutdown_ordered, shutdown_aborted,
  faulted,
}
use cosmos_pc.AutoUpdate.Texts.{select_machine, select_build, delete_user}

-- How often the image is installed and the restart ordered.
abbrev pub installs : List Action → ℕ × ℕ
installs [] = (0, 0)
installs (installed ∷ rest) = (suc (installs rest).0, (installs rest).1)
installs (shutdown_ordered ∷ rest) = ((installs rest).0, suc (installs rest).1)
installs (timer_set ∷ rest) = installs rest
installs (timer_killed ∷ rest) = installs rest
installs (connection_added ∷ rest) = installs rest
installs (queried text ∷ rest) = installs rest
installs (copied path ∷ rest) = installs rest
installs (shutdown_aborted ∷ rest) = installs rest
installs (faulted ∷ rest) = installs rest

abbrev is_refused : Answer → Bool
is_refused id_no = true
is_refused id_yes = false
is_refused id_closed = false

-- An extended error that WNetGetLastError fails to describe.
abbrev is_unexplained : Connection → Bool → Bool
is_unexplained extended_error false = true
is_unexplained _ _ = false

abbrev gives : Option (List (List ℕ)) → Bool
gives none = false
gives (some records) = true

-- Whether all three queries come back: they do on a connection, and may not on the closed handle.
abbrev all_answered : Computer → Bool
all_answered x =
    if x.database_connects
    then true
    else gives (x.closed_fields select_machine)
      && (gives (x.closed_fields select_build) && gives (x.closed_fields delete_user))

-- Whether the program goes on to install, by the time, the first box, the connection and the queries alone.
abbrev pub goes_on : Computer → Bool
goes_on x =
    if ltb 9 x.time.hour && ltb x.time.hour 18
    then false
    else if is_refused x.first_answer
    then false
    else if is_unexplained x.connection x.last_error_works
    then false
    else all_answered x
