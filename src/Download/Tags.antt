-- ===== src/Download/Tags.antt =====
-- The tags of `getTagIndex` (CosmosReadCommProc.cpp).
use cosmos_pc.Prelude.{
  ℕ, ◌≡◌, ◌≢◌, refl, sym, ap, ◌∙◌, Bool-cases, Option-cases, inl, inr, Bool, true, false, Option,
  none, some, List, [], ◌∷◌, ◌&&◌, ◌==◌, arith,
}
use cosmos_pc.Download.Text.{starts_with, str_str}
use cosmos_pc.Download.{check_tag, fcheck_tag, fsize_tag, fread_tag, tag_index_from, get_tag_index}

mark : Option (List ℕ) → ℕ
mark none = 0
mark (some text) = 1

some-none : (text : List ℕ) (o : Option (List ℕ)) → o ≡ some text → o ≢ none
unfolding mark
some-none text o e e' =
    let wrong : ◌≡◌ {A = ℕ} 1 0 = ap mark (sym e ∙ e') in absurd (omega (arith, wrong))

-- A needle that is nowhere is not here, and not behind.
str_str-none :
    (needle : List ℕ) (c : ℕ) (text : List ℕ)
    → str_str needle (c ∷ text) ≡ none
    → (starts_with needle (c ∷ text) ≡ false) × (str_str needle text ≡ none)
unfolding str_str
str_str-none needle c text e = elim (Bool-cases (starts_with needle (c ∷ text))) [
  | inl here ↦ absurd (some-none (c ∷ text) (str_str needle (c ∷ text)) (rw (here, str_str)) e)
  | inr not_here ↦ (not_here, sym (rw (not_here, str_str)) ∙ e)
]

starts_with-none :
    (needle text : List ℕ) → str_str needle text ≡ none → starts_with needle text ≡ false
unfolding str_str
starts_with-none needle [] e = elim (Bool-cases (starts_with needle [])) [
  | inl here ↦ absurd (some-none [] (str_str needle []) (rw (here, str_str)) e)
  | inr not_here ↦ not_here
]
starts_with-none needle (c ∷ text) e = (str_str-none needle c text e).0

and-false : (a b : Bool) → b ≡ false → (a && b) ≡ false
and-false true b e = e
and-false false b e = refl

fcheck-none : (text : List ℕ) → str_str check_tag text ≡ none → str_str fcheck_tag text ≡ none
unfolding str_str starts_with
fcheck-none [] e = refl
fcheck-none (c ∷ text) e =
    let behind = (str_str-none check_tag c text e).1 in
    let not_check = starts_with-none check_tag text behind in
    let not_fcheck : starts_with fcheck_tag (c ∷ text) ≡ false =
      and-false (b'F' == c) (starts_with check_tag text) not_check in
    rw (not_fcheck, str_str) (fcheck-none text behind)

-- The tag "FCHECK" is never reported: every text that holds it holds "CHECK", which is tried first.
get_tag_index-never_one : (buf : List ℕ) → get_tag_index buf ≢ 1
unfolding get_tag_index tag_index_from
get_tag_index-never_one buf e = elim (Option-cases (str_str check_tag buf)) [
  | inr (text, found) ↦
      let index : get_tag_index buf ≡ 0 = rw (found, tag_index_from) in
      absurd (omega (arith, index, e))
  | inl no_check ↦
      let no_fcheck = fcheck-none buf no_check in
      elim (Option-cases (str_str fsize_tag buf)) [
        | inr (text, found) ↦
            let index : get_tag_index buf ≡ 2 = rw (no_check, no_fcheck, found, tag_index_from) in
            absurd (omega (arith, index, e))
        | inl no_size ↦ elim (Option-cases (str_str fread_tag buf)) [
          | inr (text, found) ↦
              let index : get_tag_index buf ≡ 3 =
                rw (no_check, no_fcheck, no_size, found, tag_index_from) in
              absurd (omega (arith, index, e))
          | inl no_read ↦
              let index : get_tag_index buf ≡ 4 =
                rw (no_check, no_fcheck, no_size, no_read, tag_index_from) in
              absurd (omega (arith, index, e))
        ]
      ]
]
