-- ===== src/Base/Slices.antt =====
-- Overwriting a range of a list, and how `take` and `drop` see it.
use Prim.Native.Nat.{ℕ, zero, suc, ◌+◌, ◌≤◌, ◌<◌}
use mathlib.Core.Path.{◌≡◌, refl, ap}
use mathlib.Core.Logic.{◌≢◌}
use mathlib.Core.List.{List, [], ◌∷◌, ◌++◌}
use native.Mathlib.Omega.{arith}
use yatwb.Base.Lists.{length, take, drop, length-take}

module _ {ℓ} {A : Type ℓ} where
  -- `std::copy` of `ys` over the elements of `xs` from index `i` on.
  abbrev pub overwrite : List A → ℕ → List A → List A
  overwrite xs zero [] = xs
  overwrite [] zero (y ∷ ys) = []
  overwrite (x ∷ xs) zero (y ∷ ys) = y ∷ overwrite xs zero ys
  overwrite [] (suc i) ys = []
  overwrite (x ∷ xs) (suc i) ys = x ∷ overwrite xs i ys

module _ {ℓ} {A : Type ℓ} where
  pub take-append-drop : (n : ℕ) (xs : List A) → take n xs ++ drop n xs ≡ xs
  take-append-drop zero xs = refl
  take-append-drop (suc n) [] = refl
  take-append-drop (suc n) (x ∷ xs) = rw (take-append-drop n xs)

  pub take-length_le : (n : ℕ) (xs : List A) → length xs ≤ n → take n xs ≡ xs
  take-length_le zero [] h = refl
  take-length_le zero (x ∷ xs) h = absurd (omega arith)
  take-length_le (suc n) [] h = refl
  take-length_le (suc n) (x ∷ xs) h = ap (◌∷◌ x) (take-length_le n xs (omega arith))

  pub drop-append_le :
      (n : ℕ) (xs ys : List A) → n ≤ length xs → drop n (xs ++ ys) ≡ drop n xs ++ ys
  drop-append_le zero xs ys h = refl
  drop-append_le (suc n) [] ys h = absurd (omega arith)
  drop-append_le (suc n) (x ∷ xs) ys h = drop-append_le n xs ys (omega arith)

  pub take-append_le : (n : ℕ) (xs ys : List A) → n ≤ length xs → take n (xs ++ ys) ≡ take n xs
  take-append_le zero xs ys h = refl
  take-append_le (suc n) [] ys h = absurd (omega arith)
  take-append_le (suc n) (x ∷ xs) ys h = ap (◌∷◌ x) (take-append_le n xs ys (omega arith))

  pub drop-append_length : (n : ℕ) (xs ys : List A) → n ≡ length xs → drop n (xs ++ ys) ≡ ys
  drop-append_length zero [] ys h = refl
  drop-append_length zero (x ∷ xs) ys h = absurd (omega arith)
  drop-append_length (suc n) [] ys h = absurd (omega arith)
  drop-append_length (suc n) (x ∷ xs) ys h = drop-append_length n xs ys (omega arith)

  pub drop-drop : (m n k : ℕ) (xs : List A) → k ≡ m + n → drop n (drop m xs) ≡ drop k xs
  drop-drop zero n k xs h = ap (λ j. drop j xs) (omega arith)
  drop-drop (suc m) zero zero xs h = absurd (omega arith)
  drop-drop (suc m) zero (suc k) [] h = refl
  drop-drop (suc m) (suc n) zero xs h = absurd (omega arith)
  drop-drop (suc m) (suc n) (suc k) [] h = refl
  drop-drop (suc m) zero (suc k) (x ∷ xs) h = drop-drop m zero k xs (omega arith)
  drop-drop (suc m) (suc n) (suc k) (x ∷ xs) h = drop-drop m (suc n) k xs (omega arith)

  pub length-overwrite :
      (xs : List A) (i : ℕ) (ys : List A) → length (overwrite xs i ys) ≡ length xs
  length-overwrite xs zero [] = refl
  length-overwrite [] zero (y ∷ ys) = refl
  length-overwrite (x ∷ xs) zero (y ∷ ys) = ap suc (length-overwrite xs zero ys)
  length-overwrite [] (suc i) ys = refl
  length-overwrite (x ∷ xs) (suc i) ys = ap suc (length-overwrite xs i ys)

  -- Up to the end of the new elements: what stood before them, and they.
  pub take-overwrite :
      (xs : List A) (i : ℕ) (ys : List A) (k : ℕ)
      → k ≡ i + length ys
      → k ≤ length xs
      → take k (overwrite xs i ys) ≡ take i xs ++ ys
  take-overwrite xs zero [] zero e h = refl
  take-overwrite xs zero [] (suc k) e h = absurd (omega arith)
  take-overwrite xs zero (y ∷ ys) zero e h = absurd (omega arith)
  take-overwrite [] zero (y ∷ ys) (suc k) e h = absurd (omega arith)
  take-overwrite (x ∷ xs) zero (y ∷ ys) (suc k) e h =
      ap (◌∷◌ y) (take-overwrite xs zero ys k (omega arith) (omega arith))
  take-overwrite xs (suc i) ys zero e h = absurd (omega arith)
  take-overwrite [] (suc i) ys (suc k) e h = absurd (omega arith)
  take-overwrite (x ∷ xs) (suc i) ys (suc k) e h =
      ap (◌∷◌ x) (take-overwrite xs i ys k (omega arith) (omega arith))

  -- Beyond the new elements nothing changes.
  pub drop-overwrite :
      (xs : List A) (i : ℕ) (ys : List A) (k : ℕ)
      → i + length ys ≤ k
      → drop k (overwrite xs i ys) ≡ drop k xs
  drop-overwrite xs zero [] k h = refl
  drop-overwrite [] zero (y ∷ ys) k h = refl
  drop-overwrite (x ∷ xs) zero (y ∷ ys) zero h = absurd (omega arith)
  drop-overwrite (x ∷ xs) zero (y ∷ ys) (suc k) h = drop-overwrite xs zero ys k (omega arith)
  drop-overwrite [] (suc i) ys k h = refl
  drop-overwrite (x ∷ xs) (suc i) ys zero h = absurd (omega arith)
  drop-overwrite (x ∷ xs) (suc i) ys (suc k) h = drop-overwrite xs i ys k (omega arith)

  -- The new elements are read back, alone and behind what stood before them.
  pub slice-overwrite :
      (xs : List A) (i r : ℕ) (ys : List A) (k : ℕ)
      → k ≡ i + length ys
      → k ≤ length xs
      → r ≤ i
      → drop r (take k (overwrite xs i ys)) ≡ drop r (take i xs) ++ ys
  slice-overwrite xs i r ys k e h le =
      rw (take-overwrite xs i ys k e h)
        (drop-append_le r (take i xs) ys (omega (arith, length-take i xs)))

  pub slice-overwrite_self :
      (xs : List A) (i : ℕ) (ys : List A) (k : ℕ)
      → k ≡ i + length ys
      → k ≤ length xs
      → drop i (take k (overwrite xs i ys)) ≡ ys
  slice-overwrite_self xs i ys k e h =
      rw (take-overwrite xs i ys k e h)
        (drop-append_length i (take i xs) ys (omega (arith, length-take i xs)))

  -- Elements beyond the new ones are kept, and so are those between.
  pub slice-overwrite_after :
      (xs : List A) (i : ℕ) (ys : List A) (r w : ℕ)
      → r ≡ i + length ys
      → r ≤ w
      → w ≤ length xs
      → drop i (take w (overwrite xs i ys)) ≡ ys ++ drop r (take w xs)
  slice-overwrite_after xs zero [] zero w e h k = refl
  slice-overwrite_after xs zero [] (suc r) w e h k = absurd (omega arith)
  slice-overwrite_after xs zero (y ∷ ys) zero w e h k = absurd (omega arith)
  slice-overwrite_after [] zero (y ∷ ys) (suc r) w e h k = absurd (omega arith)
  slice-overwrite_after (x ∷ xs) zero (y ∷ ys) (suc r) zero e h k = absurd (omega arith)
  slice-overwrite_after (x ∷ xs) zero (y ∷ ys) (suc r) (suc w) e h k =
      ap (◌∷◌ y) (slice-overwrite_after xs zero ys r w (omega arith) (omega arith) (omega arith))
  slice-overwrite_after xs (suc i) ys zero w e h k = absurd (omega arith)
  slice-overwrite_after xs (suc i) ys (suc r) zero e h k = absurd (omega arith)
  slice-overwrite_after [] (suc i) ys (suc r) (suc w) e h k = absurd (omega arith)
  slice-overwrite_after (x ∷ xs) (suc i) ys (suc r) (suc w) e h k =
      slice-overwrite_after xs i ys r w (omega arith) (omega arith) (omega arith)

  pub drop-take_self : (n : ℕ) (xs : List A) → drop n (take n xs) ≡ []
  drop-take_self zero xs = refl
  drop-take_self (suc n) [] = refl
  drop-take_self (suc n) (x ∷ xs) = drop-take_self n xs

  pub append-ne_nil : (xs ys : List A) → ys ≢ [] → xs ++ ys ≢ []
  append-ne_nil [] ys h e = h e
  append-ne_nil (x ∷ xs) ys h e = cc

  pub drop-ne_nil : (n : ℕ) (xs : List A) → n < length xs → drop n xs ≢ []
  drop-ne_nil n [] h e = absurd (omega arith)
  drop-ne_nil zero (x ∷ xs) h e = cc
  drop-ne_nil (suc n) (x ∷ xs) h e = drop-ne_nil n xs (omega arith) e

  pub drop-length_le : (n : ℕ) (xs : List A) → length xs ≤ n → drop n xs ≡ []
  drop-length_le zero [] h = refl
  drop-length_le zero (x ∷ xs) h = absurd (omega arith)
  drop-length_le (suc n) [] h = refl
  drop-length_le (suc n) (x ∷ xs) h = drop-length_le n xs (omega arith)
