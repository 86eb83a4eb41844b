-- ===== src/Base/Text.antt =====
-- C strings: the bytes of an array up to its NUL, and what `snprintf` leaves in an array.
use Prim.Native.Nat.{ℕ, zero, suc, ◌-◌, ◌≤◌, ◌<◌}
use mathlib.Core.Path.{◌≡◌, refl, ap, ◌∙◌}
use mathlib.Core.List.{List, [], ◌∷◌, ◌++◌}
use native.Mathlib.Omega.{arith}
use yatwb.Base.Lists.{length, take}
use yatwb.Base.Slices.{take-length_le}

-- Up to the NUL, as a `const char*` is read.
abbrev pub c_string : List ℕ → List ℕ
c_string [] = []
c_string (zero ∷ bytes) = []
c_string (suc b ∷ bytes) = suc b ∷ c_string bytes

-- `snprintf(buf, size, "%s", text)`, with a size that is not 0.
abbrev pub snprintf : ℕ → List ℕ → List ℕ
snprintf size text = take (size - 1) text ++ 0 ∷ []

-- A C string: no byte of it is 0.
abbrev pub HasNoNul : List ℕ → Type 0
HasNoNul [] = Unit {0}
HasNoNul (b ∷ bytes) = (0 < b) × HasNoNul bytes

pub c_string_self : (bytes : List ℕ) → HasNoNul bytes → c_string bytes ≡ bytes
c_string_self [] h = refl
c_string_self (zero ∷ bytes) h = absurd (omega (arith, h.0))
c_string_self (suc b ∷ bytes) h = ap (◌∷◌ (suc b)) (c_string_self bytes h.1)

c_string_nul : (bytes : List ℕ) → HasNoNul bytes → c_string (bytes ++ 0 ∷ []) ≡ bytes
c_string_nul [] h = refl
c_string_nul (zero ∷ bytes) h = absurd (omega (arith, h.0))
c_string_nul (suc b ∷ bytes) h = ap (◌∷◌ (suc b)) (c_string_nul bytes h.1)

pub c_string-snprintf :
    (size : ℕ) (text : List ℕ)
    → length text ≤ size - 1
    → HasNoNul text
    → c_string (snprintf size text) ≡ text
c_string-snprintf size text fits h =
    ap (λ bytes. c_string (bytes ++ 0 ∷ [])) (take-length_le (size - 1) text fits)
    ∙ c_string_nul text h

pub append-HasNoNul : (xs ys : List ℕ) → HasNoNul xs → HasNoNul ys → HasNoNul (xs ++ ys)
append-HasNoNul [] ys h k = k
append-HasNoNul (x ∷ xs) ys h k = (h.0, append-HasNoNul xs ys h.1 k)
