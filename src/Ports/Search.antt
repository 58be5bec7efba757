-- ===== src/Ports/Search.antt =====
-- The search for the port of the watch, which is `CheckAll` (w10_pc_user.cpp) over `checkComm`
-- (MainProcFunc.cpp).
use cosmos_pc.Prelude.{
  ℕ, zero, suc, ◌+◌, ◌≤◌, ◌<◌, ◌≡◌, refl, Bool-cases, inl, inr, true, false, Option, none, some,
  arith, ltb, ◌==◌, if◌then◌else◌,
}
use cosmos_pc.Os.{is_invalid, open_existing, Os}
use cosmos_pc.Ports.{check_cmd, device_name, ask_port, probe, check_comm, check_from, check_all}

abbrev pub or_zero : Option ℕ → ℕ
or_zero none = 0
or_zero (some port) = port

module _ (os : Os) where
  -- The reference: look at `n` ports in their order from `i` on, and stop at the first that answers.
  abbrev pub first_answer : ℕ → ℕ → os.World → Option ℕ × os.World
  first_answer zero i w = (none, w)
  first_answer (suc n) i w =
      let (found, w') = probe os i w in
      elim found [ true ↦ (some i, w') | false ↦ first_answer n (i + 1) w' ]

  check_comm-found : (i r : ℕ) (w : os.World) → check_comm os i (r + 1) w ≡ (r + 1, w)
  unfolding check_comm
  check_comm-found i r w =
      let off : (0 == r + 1) ≡ false = ground arith in
      elim (Bool-cases (ltb i 100)) [ inl e ↦ rw (e, off) refl | inr e ↦ rw e refl ]

  check_from-found : (n i r : ℕ) (w : os.World) → check_from os n i (r + 1) w ≡ (r + 1, w)
  unfolding check_from
  check_from-found zero i r w = refl
  check_from-found (suc n) i r w = rw (check_comm-found i r w) (check_from-found n (i + 1) r w)

  check_comm-first :
      (i : ℕ) (w : os.World)
      → i < 100
      → check_comm os i 0 w ≡ (if (probe os i w).0 then i else 0, (probe os i w).1)
  unfolding check_comm
  check_comm-first i w less = let on : ltb i 100 ≡ true = ground arith in rw on refl

  check_from-search :
      (n i : ℕ) (w : os.World)
      → i + 1 + n ≤ 100
      → check_from os n (i + 1) 0 w
        ≡ (or_zero (first_answer n (i + 1) w).0, (first_answer n (i + 1) w).1)
  unfolding check_from
  check_from-search zero i w h = refl
  check_from-search (suc n) i w h =
      let one = check_comm-first (i + 1) w (omega arith) in
      elim (Bool-cases (probe os (i + 1) w).0) [
        | inl found ↦
            rw (one, found, first_answer) (check_from-found n (i + 1 + 1) i (probe os (i + 1) w).1)
        | inr none_found ↦
            rw (one, none_found, first_answer)
              (check_from-search n (i + 1) (probe os (i + 1) w).1 (omega arith))
      ]

  -- `CheckAll`, run for the first time, finds the port that the reference finds among 1 to 99 after a look at
  -- port 0, and 0 when none of them answers; so an answer of port 0 is not told from none, and no other port
  -- is opened once one has answered.
  pub check_all-first_answer :
      (w : os.World)
      → let w1 = (probe os 0 w).1 in
        check_all os 0 w ≡ (or_zero (first_answer 99 1 w1).0, (first_answer 99 1 w1).1)
  unfolding check_all check_from
  check_all-first_answer w =
      let zeroth = check_comm-first 0 w (omega arith) in
      elim (Bool-cases (probe os 0 w).0) [
        | inl found ↦ rw (zeroth, found) (check_from-search 99 0 (probe os 0 w).1 (omega arith))
        | inr none_found ↦
            rw (zeroth, none_found) (check_from-search 99 0 (probe os 0 w).1 (omega arith))
      ]

  -- Whatever the calls of a look at a port give, the last of them closes what `CreateFile` gave.
  probe_closes :
      (port : ℕ) (w : os.World)
      → (w' : os.World) × ((probe os port w).1
          ≡ os.close_handle (os.create_file (device_name port) open_existing w).0 w')
  unfolding probe ask_port
  probe_closes port w =
      let (h, w1) = os.create_file (device_name port) open_existing w in
      let (is_set, w2) = os.set_comm_timeouts h w1 in
      let (sent, n, w3) = os.write_file h check_cmd w2 in
      let (got, bytes, w4) = os.read_file h 32 w3 in
      elim (Bool-cases (is_invalid h)) [
        | inl e ↦ (w1, rw (e, probe) refl)
        | inr e ↦ elim (Bool-cases is_set) [
          | inr e' ↦ (w2, rw (e, probe, e', ask_port) refl)
          | inl e' ↦ elim (Bool-cases sent) [
            | inr e2 ↦ (w3, rw (e, probe, e', e2, ask_port) refl)
            | inl e2 ↦ elim (Bool-cases got) [
              | inl e3 ↦ (w4, rw (e, probe, e', e2, e3, ask_port) refl)
              | inr e3 ↦ (w4, rw (e, probe, e', e2, e3, ask_port) refl)
            ]
          ]
        ]
      ]
