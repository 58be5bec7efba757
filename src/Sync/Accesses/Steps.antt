-- ===== src/Sync/Accesses/Steps.antt =====
-- Every access of `doSync` (MainProcFunc.cpp) leads to what holds behind it.
use cosmos_pc.Prelude.{
  ℕ, ◌+◌, refl, Bool-cases, Option-cases, inl, inr, List, ◌∷◌, arith, ltb, ◌==◌,
}
use cosmos_pc.Os.{Os}
use cosmos_pc.ComIo.{write_com}
use cosmos_pc.Download.{ReadProc}
use cosmos_pc.Download.Pieces.{Rest}
use cosmos_pc.Sync.{Sync, request, check_file_exist}
use cosmos_pc.Sync.Steps.{idle, asked}
use cosmos_pc.Sync.Rounds.{FallsFrom-suc}
use cosmos_pc.Sync.Accesses.{
  Place, enters, tests_idle, looks, names, asks, tests_receiving, tests_received, parses, resets,
  tests_asked, leaves, ends, deletes, rests, stopped, Threads, proceed,
}
use cosmos_pc.Sync.Accesses.Invariant.{
  Safe, safe, When-map, When-Going, Going-sys, Going-idle, Going-IsWhole,
}

module _ (os : Os) (directory : List ℕ) where
  -- What a step comes to.
  abbrev pub AreSafe : Threads os → Type 0
  AreSafe t = Safe os directory t.do_sync.place t.do_sync.sync t.rest

  pub proceed-Safe :
      (p : Place) (s : Sync os) (rest : Rest)
      → Safe os directory p s rest
      → AreSafe (record { do_sync = proceed os directory p s; rest = rest })
  unfolding proceed
  proceed-Safe enters s rest inv = elim (Option-cases s.pcio) [
    | inl gone ↦
        rw (gone, proceed)
          (safe os directory ends s rest inv.holds (omega (arith, inv.bounded)) inv.falls)
    | inr (c, port) ↦
        rw (port, proceed) (safe os directory (tests_idle c) s rest inv.holds inv.bounded inv.falls)
  ]
  proceed-Safe (tests_idle c) s rest inv = elim (Bool-cases (s.r_proc.flag == 0)) [
    | inl is0 ↦
        rw (is0, proceed)
          (safe os directory (looks c) s rest
            (Going-idle os directory rest s.i s.r_proc inv.holds (ground (arith, is0))) inv.bounded
            inv.falls)
    | inr not0 ↦
        rw (not0, proceed)
          (safe os directory tests_receiving s rest inv.holds inv.bounded inv.falls)
  ]
  proceed-Safe (looks c) s rest inv =
      let looked = check_file_exist os directory s.i s.r_proc.sys in
      let passed : ReadProc os = record s.r_proc { sys = looked.1 } in
      elim (Bool-cases looked.0) [
        | inl there ↦
            rw (there, proceed)
              (safe os directory leaves _ rest
                (When-Going os directory rest (s.i + 1) passed
                  (When-map os directory rest (λ e. idle e) inv.holds))
                (omega (arith, inv.bounded)) (FallsFrom-suc os directory s.i s.parsed inv.falls))
        | inr missing ↦
            rw (missing, proceed)
              (safe os directory (names c) _ rest (When-map os directory rest (λ e. refl) inv.holds)
                inv.bounded inv.falls)
      ]
  proceed-Safe (names c) s rest inv =
      safe os directory (asks c) _ rest (When-map os directory rest (λ e. (e, refl)) inv.holds)
        inv.bounded inv.falls
  proceed-Safe (asks c) s rest inv =
      let sent : ReadProc os = record s.r_proc {
        sys = (write_com os c (request s.i) 0 19 s.r_proc.sys).1;
      } in
      safe os directory leaves _ rest
        (When-Going os directory rest s.i sent
          (When-map os directory rest (λ e. asked e.0 e.1) inv.holds))
        (omega (arith, inv.bounded)) inv.falls
  proceed-Safe tests_receiving s rest inv = elim (Bool-cases (s.r_proc.flag == 2)) [
    | inl is2 ↦
        rw (is2, proceed)
          (safe os directory leaves s rest inv.holds (omega (arith, inv.bounded)) inv.falls)
    | inr not2 ↦
        rw (not2, proceed) (safe os directory tests_received s rest inv.holds inv.bounded inv.falls)
  ]
  proceed-Safe tests_received s rest inv = elim (Bool-cases (s.r_proc.flag == 3)) [
    | inl is3 ↦
        rw (is3, proceed)
          (safe os directory parses s rest
            (Going-IsWhole os directory rest s.i s.r_proc inv.holds (ground (arith, is3)))
            inv.bounded inv.falls)
    | inr not3 ↦
        rw (not3, proceed) (safe os directory tests_asked s rest inv.holds inv.bounded inv.falls)
  ]
  proceed-Safe parses s rest inv =
      safe os directory resets _ rest (When-map os directory rest (λ whole. whole.flag) inv.holds)
        (omega (arith, inv.bounded)) (omega arith, inv.falls)
  proceed-Safe resets s rest inv =
      let reset : ReadProc os = record s.r_proc { flag = 0 } in
      safe os directory leaves _ rest
        (When-Going os directory rest s.i reset
          (When-map os directory rest (λ e. idle refl) inv.holds))
        inv.bounded inv.falls
  proceed-Safe tests_asked s rest inv =
      safe os directory ends s rest inv.holds (omega (arith, inv.bounded)) inv.falls
  proceed-Safe leaves s rest inv =
      let going =
        Going-sys os directory rest s.i s.r_proc
          (record s.r_proc.sys { progress = s.r_proc.rate ∷ s.r_proc.sys.progress }) inv.holds in
      elim (Bool-cases (ltb s.i 1000000)) [
        | inl more ↦
            rw (more, proceed)
              (safe os directory enters _ rest going (ground (arith, more)) inv.falls)
        | inr over ↦ rw (over, proceed) (safe os directory ends _ rest going inv.bounded inv.falls)
      ]
  proceed-Safe ends s rest inv = elim (Bool-cases (s.r_proc.flag == 2)) [
    | inl is2 ↦ rw (is2, proceed) (safe os directory deletes s rest tt inv.bounded inv.falls)
    | inr not2 ↦ rw (not2, proceed) (safe os directory rests s rest tt inv.bounded inv.falls)
  ]
  proceed-Safe deletes s rest inv = safe os directory rests _ rest tt inv.bounded inv.falls
  proceed-Safe rests s rest inv = safe os directory stopped _ rest tt inv.bounded inv.falls
  proceed-Safe stopped s rest inv = inv
