-- ===== src/Poller/Distinct.antt =====
-- The channels whose slots have events are different ones.
use yatwb.Base.{
  ℕ, suc, ◌+◌, ◌≤◌, ◌≡◌, refl, ap, ◌∙◌, inl, inr, true, Bool-cases, Option, none, some, List, [],
  ◌∷◌, map, drop, get_elem?, arith,
}
use yatwb.Base.Int.{ℤ, pos}
use yatwb.Channel.{Channel, some_event}
use yatwb.Poller.{PollFd}
use yatwb.Poller.Fill.{ready, AreDistinct, DiffersFrom}

-- The channels at `o` or a later index.
abbrev pub AreFrom : (ℕ → Channel) → ℕ → List ℕ → Type 0
AreFrom channels o [] = Unit {0}
AreFrom channels o (c ∷ cs) =
    ((j : ℕ) × ((channels c).index ≡ pos j) × (o ≤ j)) × AreFrom channels o cs

AreFrom-mono :
    (channels : ℕ → Channel) (o o' : ℕ) (cs : List ℕ)
    → o ≤ o'
    → AreFrom channels o' cs
    → AreFrom channels o cs
AreFrom-mono channels o o' [] h all = tt
AreFrom-mono channels o o' (c ∷ cs) h ((j, at, le), all) =
    ((j, at, omega (arith, le, h)), AreFrom-mono channels o o' cs h all)

differs_of :
    (channels : ℕ → Channel) (o c : ℕ) (cs : List ℕ)
    → (channels c).index ≡ pos o
    → AreFrom channels (suc o) cs
    → DiffersFrom c cs
differs_of channels o c [] at all = tt
differs_of channels o c (d ∷ ds) at ((j, there, le), all) =
    (λ e. ground (arith, ap (λ x. (channels x).index) e), differs_of channels o c ds at all)

-- The slots with events are those of mapped channels that hold their indices, from `o` on.
abbrev pub AreIndexed : (ℤ → Option ℕ) → (ℕ → Channel) → ℕ → List PollFd → Type 0
AreIndexed m channels o fds =
    (i : ℕ) (pfd : PollFd)
    → get_elem? fds i ≡ some pfd
    → some_event pfd.revents ≡ true
    → (c : ℕ) × (m pfd.fd ≡ some c) × ((channels c).index ≡ pos (o + i))

AreIndexed-tail :
    (m : ℤ → Option ℕ) (channels : ℕ → Channel) (o : ℕ) (x : PollFd) (fds : List PollFd)
    → AreIndexed m channels o (x ∷ fds)
    → AreIndexed m channels (suc o) fds
AreIndexed-tail m channels o x fds h i pfd at t =
    let (c, e, ix) = h (suc i) pfd at t in (c, e, ix ∙ ap pos (omega arith))

head_of : List (Option ℕ) → Option ℕ
head_of [] = none
head_of (x ∷ xs) = x

-- Channels of different slots are different.
pub distinct_lem :
    (m : ℤ → Option ℕ) (channels : ℕ → Channel) (fds : List PollFd) (o : ℕ) (cs : List ℕ)
    → AreIndexed m channels o fds
    → map some cs ≡ map (λ (pfd : PollFd). m pfd.fd) (ready fds)
    → AreDistinct cs × AreFrom channels o cs
unfolding head_of
distinct_lem m channels fds o [] h e = (tt, tt)
distinct_lem m channels [] o (c ∷ cs) h e = cc
distinct_lem m channels (pfd ∷ fds) o (c ∷ cs) h e = elim (Bool-cases (some_event pfd.revents)) [
  | inl t ↦
      let e' : map some (c ∷ cs) ≡ m pfd.fd ∷ map (λ (pfd : PollFd). m pfd.fd) (ready fds) =
        rw t at e in
      let (d, entry, ix) = h 0 pfd refl t in
      let own : some c ≡ some d = ap head_of e' ∙ entry in
      let is : c ≡ d = ground (arith, own) in
      let at : (channels c).index ≡ pos o =
        ap (λ x. (channels x).index) is ∙ ix ∙ ap pos (omega arith) in
      let (distinct, from) =
        distinct_lem m channels fds (suc o) cs (AreIndexed-tail m channels o pfd fds h)
          (ap (drop 1) e') in
      (
        (differs_of channels o c cs at from, distinct),
        ((o, at, omega arith), AreFrom-mono channels o (suc o) cs (omega arith) from),
      )
  | inr f ↦
      let (distinct, from) =
        distinct_lem m channels fds (suc o) (c ∷ cs) (AreIndexed-tail m channels o pfd fds h)
          (rw f at e) in
      (distinct, AreFrom-mono channels o (suc o) (c ∷ cs) (omega arith) from)
]
