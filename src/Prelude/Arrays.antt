-- ===== src/Prelude/Arrays.antt =====
-- Writing a run of values into an array. A write outside the array changes nothing, as for `set`.
use Prim.Native.Nat.{ℕ, zero, suc, ◌+◌, ◌-◌, ◌≤◌}
use mathlib.Core.Path.{◌≡◌, refl, sym, ap, ◌∙◌}
use mathlib.Core.List.{List, [], ◌∷◌, ◌++◌}
use native.Mathlib.Omega.{arith}
use cosmos_pc.Prelude.Lists.{length, set, take, drop}

module _ {ℓ} {A : Type ℓ} where
  abbrev pub overlay : List A → List A → List A
  overlay [] a = a
  overlay (x ∷ xs) [] = []
  overlay (x ∷ xs) (y ∷ a) = x ∷ overlay xs a

  abbrev pub write_at : ℕ → List A → List A → List A
  write_at zero xs a = overlay xs a
  write_at (suc i) xs [] = []
  write_at (suc i) xs (y ∷ a) = y ∷ write_at i xs a

module _ {ℓ} {A : Type ℓ} where
  pub set-eq-write_at : (i : ℕ) (v : A) (a : List A) → set a i v ≡ write_at i (v ∷ []) a
  set-eq-write_at zero v [] = refl
  set-eq-write_at zero v (y ∷ a) = refl
  set-eq-write_at (suc i) v [] = refl
  set-eq-write_at (suc i) v (y ∷ a) = ap (◌∷◌ y) (set-eq-write_at i v a)

  overlay-nil : (a : List A) → overlay [] a ≡ a
  overlay-nil a = refl

  write_at-nil : (i : ℕ) (a : List A) → write_at i [] a ≡ a
  write_at-nil zero a = refl
  write_at-nil (suc i) [] = refl
  write_at-nil (suc i) (y ∷ a) = ap (◌∷◌ y) (write_at-nil i a)

  write_at_after :
      (xs ys a : List A) (k : ℕ)
      → k ≡ length xs
      → write_at k ys (overlay xs a) ≡ overlay (xs ++ ys) a
  write_at_after [] ys a zero e = refl
  write_at_after [] ys a (suc k) e = absurd (omega arith)
  write_at_after (x ∷ xs) ys a zero e = absurd (omega arith)
  write_at_after (x ∷ xs) ys [] (suc k) e = refl
  write_at_after (x ∷ xs) ys (y ∷ a) (suc k) e = ap (◌∷◌ x) (write_at_after xs ys a k (omega arith))

  -- Two runs, the second right behind the first, are one run.
  pub write_at-write_at :
      (i k : ℕ) (xs ys a : List A)
      → k ≡ i + length xs
      → write_at k ys (write_at i xs a) ≡ write_at i (xs ++ ys) a
  write_at-write_at zero k xs ys a e = write_at_after xs ys a k (omega arith)
  write_at-write_at (suc i) zero xs ys a e = absurd (omega arith)
  write_at-write_at (suc i) (suc k) xs ys [] e = refl
  write_at-write_at (suc i) (suc k) xs ys (y ∷ a) e =
      ap (◌∷◌ y) (write_at-write_at i k xs ys a (omega arith))

  -- One more value behind a run.
  pub set-write_at :
      (i k : ℕ) (xs : List A) (v : A) (a : List A)
      → k ≡ i + length xs
      → set (write_at i xs a) k v ≡ write_at i (xs ++ v ∷ []) a
  set-write_at i k xs v a e =
      set-eq-write_at k v (write_at i xs a) ∙ write_at-write_at i k xs (v ∷ []) a e

  pub length-write_at : (i : ℕ) (xs a : List A) → length (write_at i xs a) ≡ length a
  length-write_at zero [] a = refl
  length-write_at zero (x ∷ xs) [] = refl
  length-write_at zero (x ∷ xs) (y ∷ a) = ap suc (length-write_at zero xs a)
  length-write_at (suc i) xs [] = refl
  length-write_at (suc i) xs (y ∷ a) = ap suc (length-write_at i xs a)

  -- A run at the start of a large enough array is what stands there.
  pub overlay-append :
      (xs a : List A) → length xs ≤ length a → overlay xs a ≡ xs ++ drop (length xs) a
  overlay-append [] a h = refl
  overlay-append (x ∷ xs) [] h = absurd (omega arith)
  overlay-append (x ∷ xs) (y ∷ a) h = ap (◌∷◌ x) (overlay-append xs a (omega arith))

  pub take-append_self : (xs ys : List A) → take (length xs) (xs ++ ys) ≡ xs
  take-append_self [] ys = refl
  take-append_self (x ∷ xs) ys = ap (◌∷◌ x) (take-append_self xs ys)

  pub take-overlay_le :
      (n : ℕ) (xs a : List A) → n ≤ length xs → n ≤ length a → take n (overlay xs a) ≡ take n xs
  take-overlay_le zero xs a e h = refl
  take-overlay_le (suc n) [] a e h = absurd (omega arith)
  take-overlay_le (suc n) (x ∷ xs) [] e h = absurd (omega arith)
  take-overlay_le (suc n) (x ∷ xs) (y ∷ a) e h =
      ap (◌∷◌ x) (take-overlay_le n xs a (omega arith) (omega arith))

  pub take_all : (n : ℕ) (xs : List A) → length xs ≤ n → take n xs ≡ xs
  take_all zero [] h = refl
  take_all zero (x ∷ xs) h = absurd (omega arith)
  take_all (suc n) [] h = refl
  take_all (suc n) (x ∷ xs) h = ap (◌∷◌ x) (take_all n xs (omega arith))

  pub take-append_le : (n : ℕ) (xs ys : List A) → n ≤ length xs → take n (xs ++ ys) ≡ take n xs
  take-append_le zero xs ys h = refl
  take-append_le (suc n) [] ys h = absurd (omega arith)
  take-append_le (suc n) (x ∷ xs) ys h = ap (◌∷◌ x) (take-append_le n xs ys (omega arith))

  pub take-append_past :
      (n k : ℕ) (xs ys : List A) → n ≡ length xs + k → take n (xs ++ ys) ≡ xs ++ take k ys
  take-append_past n k [] ys e = let e' : n ≡ k = omega arith in ap (λ m. take m ys) e'
  take-append_past zero k (x ∷ xs) ys e = absurd (omega arith)
  take-append_past (suc n) k (x ∷ xs) ys e = ap (◌∷◌ x) (take-append_past n k xs ys (omega arith))

  pub drop-append_length : (xs ys : List A) (k : ℕ) → k ≡ length xs → drop k (xs ++ ys) ≡ ys
  drop-append_length [] ys zero e = refl
  drop-append_length [] ys (suc k) e = absurd (omega arith)
  drop-append_length (x ∷ xs) ys zero e = absurd (omega arith)
  drop-append_length (x ∷ xs) ys (suc k) e = drop-append_length xs ys k (omega arith)

  pub take-set_self : (n : ℕ) (a : List A) (v : A) → take n (set a n v) ≡ take n a
  take-set_self zero a v = refl
  take-set_self (suc n) [] v = refl
  take-set_self (suc n) (x ∷ a) v = ap (◌∷◌ x) (take-set_self n a v)

  drop_nil : (k : ℕ) → drop {A = A} k [] ≡ []
  drop_nil zero = refl
  drop_nil (suc k) = refl

  take_nil : (k : ℕ) → take {A = A} k [] ≡ []
  take_nil zero = refl
  take_nil (suc k) = refl

  -- The bytes from `i` up to `n`, cut in either order.
  pub take-drop : (n i m : ℕ) (a : List A) → m ≡ n - i → take m (drop i a) ≡ drop i (take n a)
  take-drop n zero m a e = let e' : m ≡ n = omega arith in ap (λ k. take k a) e'
  take-drop zero (suc i) zero a e = refl
  take-drop zero (suc i) (suc m) a e = absurd (omega arith)
  take-drop (suc n) (suc i) m [] e = take_nil m
  take-drop (suc n) (suc i) m (x ∷ a) e = take-drop n i m a (omega arith)

  pub drop-add : (i k n : ℕ) (a : List A) → n ≡ i + k → drop n a ≡ drop k (drop i a)
  drop-add zero k n a e = let e' : n ≡ k = omega arith in ap (λ m. drop m a) e'
  drop-add (suc i) k zero a e = absurd (omega arith)
  drop-add (suc i) k (suc n) [] e = sym (drop_nil k)
  drop-add (suc i) k (suc n) (x ∷ a) e = drop-add i k n a (omega arith)

  pub drop_all : (n : ℕ) (a : List A) → length a ≤ n → drop n a ≡ []
  drop_all zero [] h = refl
  drop_all zero (x ∷ a) h = absurd (omega arith)
  drop_all (suc n) [] h = refl
  drop_all (suc n) (x ∷ a) h = drop_all n a (omega arith)
