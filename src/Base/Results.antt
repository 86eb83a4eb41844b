-- ===== src/Base/Results.antt =====
-- What a call returns: a value, or the way in which the process stops.
use mathlib.Core.Bool.{Bool, true, false}
use mathlib.Core.Path.{◌≡◌, refl, subst}

pub data Fault : Type 0 where
  -- a failed `assert`
  assert_failed : Fault
  -- an access outside an object, or through a null or dangling pointer
  bad_access : Fault
  -- `std::length_error`
  length_error : Fault
  -- `EventLoop::abortNotInLoopThread`
  not_in_loop_thread : Fault
  -- a thread locks a `std::mutex` that it holds
  deadlock : Fault
  -- an `int` that is counted past its last value, which is undefined
  int_overflow : Fault

pub data Result {ℓ} (A : Type ℓ) : Type ℓ where
  ok : A → Result A
  fault : Fault → Result A

infixl 5 ◌>>=◌ ◌>>◌
abbrev pub ◌>>=◌ {ℓ κ} : {A : Type ℓ} {B : Type κ} → Result A → (A → Result B) → Result B
ok a >>= f = f a
fault e >>= f = fault e

abbrev pub ◌>>◌ {ℓ} : {B : Type ℓ} → Result (Unit {0}) → Result B → Result B
m >> k = m >>= λ _. k

-- Stop with the fault unless the test holds.
abbrev pub require : Bool → Fault → Result (Unit {0})
require true e = ok tt
require false e = fault e

-- `assert(b)` in a build that keeps assertions.
abbrev pub assert : Bool → Result (Unit {0})
assert b = require b assert_failed

-- The call returns, with a value that satisfies the predicate.
abbrev pub Ensures {ℓ} : {A : Type ℓ} → Result A → (A → Type 0) → Type 0
Ensures (ok a) P = P a
Ensures (fault e) P = ⊥

pub Ensures-bind {ℓ κ} :
    {A : Type ℓ} {B : Type κ} (P : A → Type 0) (Q : B → Type 0) (m : Result A) (f : A → Result B)
    → Ensures m P
    → ((a : A) → P a → Ensures (f a) Q)
    → Ensures (m >>= f) Q
Ensures-bind P Q (ok a) f h k = k a h
Ensures-bind P Q (fault e) f h k = absurd h

pub Ensures-mono {ℓ} :
    {A : Type ℓ} (P Q : A → Type 0) (m : Result A)
    → Ensures m P
    → ((a : A) → P a → Q a)
    → Ensures m Q
Ensures-mono P Q (ok a) h k = k a h
Ensures-mono P Q (fault e) h k = absurd h

pub bind_assoc :
    {A B C : Type 0} (m : Result A) (f : A → Result B) (g : B → Result C)
    → ((m >>= f) >>= g) ≡ (m >>= λ a. f a >>= g)
bind_assoc (ok a) f g = refl
bind_assoc (fault e) f g = refl

pub bind_cong :
    {A B : Type 0} (m : Result A) (f g : A → Result B)
    → ((a : A) → f a ≡ g a)
    → (m >>= f) ≡ (m >>= g)
bind_cong (ok a) f g h = h a
bind_cong (fault e) f g h = refl

-- Whatever the call returns satisfies the predicate.
abbrev pub Holds : {A : Type 0} → Result A → (A → Type 0) → Type 0
Holds (ok a) P = P a
Holds (fault e) P = Unit {0}

pub Holds-bind :
    {A B : Type 0} (P : A → Type 0) (Q : B → Type 0) (m : Result A) (f : A → Result B)
    → Holds m P
    → ((a : A) → P a → Holds (f a) Q)
    → Holds (m >>= f) Q
Holds-bind P Q (ok a) f h k = k a h
Holds-bind P Q (fault e) f h k = tt

pub Holds-any : {A : Type 0} (m : Result A) → Holds m (λ (a : A). Unit {0})
Holds-any (ok a) = tt
Holds-any (fault e) = tt

-- What returns, and what holds of whatever is returned.
pub Ensures-Holds :
    {A : Type 0} (P Q : A → Type 0) (m : Result A)
    → Ensures m P
    → Holds m Q
    → Ensures m (λ a. P a × Q a)
Ensures-Holds P Q (ok a) p q = (p, q)
Ensures-Holds P Q (fault e) p q = p

pub Holds-ok : {A : Type 0} (P : A → Type 0) (m : Result A) (a : A) → m ≡ ok a → Holds m P → P a
Holds-ok P m a e h = subst (λ r. Holds r P) e h

pub bind_ok : {A : Type 0} (m : Result A) → (m >>= ok) ≡ m
bind_ok (ok a) = refl
bind_ok (fault e) = refl

pub Ensures-ok {ℓ} :
    {A : Type ℓ} (P : A → Type 0) (m : Result A) (a : A) → m ≡ ok a → Ensures m P → P a
Ensures-ok P m a e h = subst (λ r. Ensures r P) e h

-- The other way round than `Ensures-bind`.
pub Ensures-split {ℓ κ} :
    {A : Type ℓ} {B : Type κ} (Q : B → Type 0) (m : Result A) (f : A → Result B)
    → Ensures (m >>= f) Q
    → Ensures m (λ a. Ensures (f a) Q)
Ensures-split Q (ok a) f h = h
Ensures-split Q (fault e) f h = h

pub Holds-mono :
    {A : Type 0} (P Q : A → Type 0) (m : Result A) → Holds m P → ((a : A) → P a → Q a) → Holds m Q
Holds-mono P Q (ok a) h k = k a h
Holds-mono P Q (fault e) h k = tt

pub Ensures-both {ℓ} :
    {A : Type ℓ} (P Q : A → Type 0) (m : Result A)
    → Ensures m P
    → Ensures m Q
    → Ensures m (λ a. P a × Q a)
Ensures-both P Q (ok a) h k = (h, k)
Ensures-both P Q (fault e) h k = absurd h
