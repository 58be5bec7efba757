-- ===== src/App/Choice.antt =====
-- The name that `dlgMainProc` (w10_pc_user.cpp) shows in the box of the ports.
use cosmos_pc.Prelude.{
  ℕ, zero, suc, ◌+◌, ◌^◌, ◌≤◌, ◌<◌, ◌≡◌, ◌↔◌, refl, sym, ap, ◌∙◌, Bool-cases, inl, inr, Option,
  none, some, List, [], arith, drop, get_elem?, ltb,
}
use mathlib.Core.Option
use cosmos_pc.Os.{Os}
use cosmos_pc.Ymodem.Packet.Decimal.{parse_decimal, parse_decimal-decimal}
use cosmos_pc.Ports.{max_com, check_comm}
use cosmos_pc.App.{App, init_dialog, com_name, com_names, dlg_main_proc}

-- A name stands in a list.
abbrev pub IsListed : List ℕ → List (List ℕ) → Type 0
IsListed name names = (k : ℕ) × (get_elem? names k ≡ some name)

com_name-injective : (i j : ℕ) → i < 10 ^ 10 → j < 10 ^ 10 → com_name i ≡ com_name j → i ≡ j
unfolding com_name
com_name-injective i j hi hj e =
    sym (parse_decimal-decimal 10 i hi)
    ∙ ap (λ l. parse_decimal (drop 3 l)) e
    ∙ parse_decimal-decimal 10 j hj

com_names-get : (n i k : ℕ) → k < n → get_elem? (com_names n i) k ≡ some (com_name (i + k))
unfolding com_names
com_names-get zero i k less = absurd (omega arith)
com_names-get (suc n) i zero less =
    let same : i ≡ i + 0 = omega arith in ap (λ m. some (com_name m)) same
com_names-get (suc n) i (suc k) less =
    let same : i + 1 + k ≡ i + suc k = omega arith in
    com_names-get n (i + 1) k (omega arith) ∙ ap (λ m. some (com_name m)) same

com_names-end : (n i k : ℕ) → n ≤ k → get_elem? (com_names n i) k ≡ none
unfolding com_names
com_names-end zero i k past = refl
com_names-end (suc n) i zero past = absurd (omega arith)
com_names-end (suc n) i (suc k) past = com_names-end n (i + 1) k (omega arith)

check_comm-kept :
    (os : Os) (result : ℕ) (w : os.World) → check_comm os max_com result w ≡ (result, w)
unfolding check_comm
check_comm-kept os result w = refl

module _ (os : Os) where
  -- When the main dialog opens with an empty list, after a search that found a port number below 100: the
  -- name that is shown is one of the list just if the number is below 20, although ports up to 99 are
  -- looked for.
  pub comm_text-IsListed :
      (file_name : Option (List ℕ)) (a : App os)
      → a.comm_list ≡ []
      → a.result < 100
      → let t = (dlg_main_proc os file_name init_dialog a).1 in
        IsListed t.comm_text t.comm_list ↔ (a.result < 20)
  unfolding dlg_main_proc
  comm_text-IsListed file_name a empty small =
      let kept = check_comm-kept os a.result a.sync.r_proc.sys.world in
      rw (kept, empty)
        (
          (λ listed. elim (Bool-cases (ltb listed.0 20)) [
            | inl less ↦
                let k : listed.0 < 20 = ground arith in
                let same =
                  Option.some-injective (com_name (0 + listed.0)) (com_name a.result)
                    (sym (com_names-get 20 0 listed.0 k) ∙ listed.1) in
                let number =
                  com_name-injective (0 + listed.0) a.result (omega (arith, k))
                    (omega (arith, small)) same in
                omega (arith, number, k)
            | inr past ↦
                let k : 20 ≤ listed.0 = ground arith in
                let wrong = sym (com_names-end 20 0 listed.0 k) ∙ listed.1 in cc
          ]),
          λ less.
              let same : 0 + a.result ≡ a.result = omega arith in
              (a.result, com_names-get 20 0 a.result less ∙ ap (λ m. some (com_name m)) same),
        )
