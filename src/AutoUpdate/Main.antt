-- ===== src/AutoUpdate/Main.antt =====
-- `_tmain` and `TimerProc` of sql_api/0_PC.cxx.
use cosmos_pc.Prelude.{
  ℕ, ◌-◌, Bool, true, false, ◌&&◌, none, some, List, [], ◌∷◌, ◌++◌, ltb, ◌==◌, if◌then◌else◌,
}
use cosmos_pc.AutoUpdate.{
  Computer, Course, Answer, id_no, id_yes, id_closed, timer_set, timer_killed, connection_added,
  queried, copied, installed, shutdown_ordered, shutdown_aborted, faulted, execute_sql,
  write_log_file, act, three_numbers, connection_said, goes_behind,
}
use cosmos_pc.AutoUpdate.Texts.{
  date_start, time_start, work_time, execute_said, database_failed, database_success,
  select_machine, select_build, share_path, retail_build, retail_image, ship_build, ship_image,
  debug_image, copy_success, copy_failed, delete_user,
}

-- The loops that append the fields of the records to a string.
unfoldable pub appended : List (List ℕ) → List ℕ
appended [] = []
appended (field ∷ more) = field ++ appended more

unfoldable pub same_text : List ℕ → List ℕ → Bool
same_text [] [] = true
same_text [] (d ∷ t) = false
same_text (c ∷ s) [] = false
same_text (c ∷ s) (d ∷ t) = c == d && same_text s t

-- `s2`
unfoldable pub image_name : List ℕ → List ℕ
image_name build =
    if same_text build retail_build
    then retail_image
    else if same_text build ship_build
    then ship_image
    else debug_image

-- `TimerProc` on `g_index`: whether the box is closed and the timer killed.
unfoldable pub timer_proc : ℕ → Bool × ℕ
timer_proc index = if ltb 0 index then (false, index - 1) else (true, index)

-- `s3`, of the fields that the two queries gave.
unfoldable pub image_path : List (List ℕ) → List (List ℕ) → List ℕ
image_path machine build = (share_path ++ appended machine) ++ image_name (appended build)

module _ (x : Computer) where
  -- The last box, behind the order to restart.
  unfoldable pub last_box : Answer → Course → Course
  last_box id_no c = act x shutdown_aborted c
  last_box id_yes c = c
  last_box id_closed c = c

  -- What follows the copy.
  unfoldable pub install : Course → Course
  install c =
      let asked = act x (queried delete_user) c in
      elim (execute_sql x delete_user) [
        | none ↦ act x faulted asked
        | some deleted ↦ last_box x.second_answer (act x shutdown_ordered (act x installed asked))
      ]

  -- The copy.
  unfoldable pub copy_image : List ℕ → Course → Course
  copy_image path c =
      let fetched = act x (copied path) (write_log_file x path c) in
      install (write_log_file x (if x.copy_works then copy_success else copy_failed) fetched)

  -- From the query for the build on, with the fields of that for the machine.
  unfoldable pub fetch_build : List (List ℕ) → Course → Course
  fetch_build machine c =
      let asked = act x (queried select_build) c in
      elim (execute_sql x select_build) [
        | none ↦ act x faulted asked
        | some build ↦ copy_image (image_path machine build) asked
      ]

  -- From the connection to the database on.
  unfoldable pub fetch : Course → Course
  fetch c =
      let connected =
        write_log_file x (if x.database_connects then database_success else database_failed) c in
      let asked = act x (queried select_machine) connected in
      elim (execute_sql x select_machine) [
        | none ↦ act x faulted asked
        | some machine ↦ fetch_build machine asked
      ]

  -- From `WNetAddConnection2` on.
  unfoldable pub connect : Course → Course
  connect c =
      let said = write_log_file x (connection_said x x.connection) (act x connection_added c) in
      if goes_behind x x.connection then fetch said else said

  -- The first box.
  unfoldable pub first_box : Answer → Course → Course
  first_box id_no c = c
  first_box id_yes c = connect (act x timer_killed c)
  first_box id_closed c = connect c

  -- `_tmain`
  unfoldable pub tmain : Course → Course
  tmain c =
      let begun = write_log_file x [] c in
      let dated =
        write_log_file x (three_numbers x date_start x.time.year x.time.month x.time.day) begun in
      let timed =
        write_log_file x (three_numbers x time_start x.time.hour x.time.minute x.time.second)
          dated in
      let offered = act x timer_set (write_log_file x execute_said timed) in
      if ltb 9 x.time.hour && ltb x.time.hour 18
      then write_log_file x work_time timed
      else first_box x.first_answer offered
