-- ===== src/Poller/Invariant.antt =====
-- The array, the map and the indices of the channels agree, and every operation keeps it so.
use yatwb.Base.{
  ℕ, suc, zero, ◌+◌, ◌<◌, ◌≡◌, refl, true, ◌||◌, none, some, List, [], ◌∷◌, ◌++◌, length, get_elem?,
  ◌==◌, if◌then◌else◌, arith,
}
use yatwb.Base.Results.{ok}
use yatwb.Base.Int.{ℤ, pos, negsuc, ltb_ℤ, ◌==ℤ◌}
use yatwb.Poller.{Poller, PollFd, maps_to, checked_index}

-- The number n of an fd `n` and of an ignored fd `-n - 1`.
abbrev pub key : ℤ → ℕ
key (pos n) = n
key (negsuc n) = n

-- The channel `c` has its `pollfd` at the index that it holds.
abbrev pub HasSlot : Poller → ℕ → Type 0
HasSlot p c =
    (i : ℕ) × (pfd : PollFd) × ((p.channels c).index ≡ pos i)
    × (get_elem? p.poll_fds i ≡ some pfd)
    × ((p.channels c).fd ≡ pos (key pfd.fd))

pub record IsConsistent (p : Poller) : Type 0 where
  -- A mapped channel has the key for its fd, and a slot.
  pub mapped : (k : ℤ) (c : ℕ) → p.channel_map k ≡ some c → ((p.channels c).fd ≡ k) × HasSlot p c
  -- Each slot belongs to the mapped channel that holds its index.
  pub occupied :
      (i : ℕ) (pfd : PollFd)
      → get_elem? p.poll_fds i ≡ some pfd
      → (c : ℕ) × (p.channel_map (pos (key pfd.fd)) ≡ some c) × ((p.channels c).index ≡ pos i)

-- Two mapped channels with one index are one.
pub same_index :
    {p : Poller} (v : IsConsistent p) (k l : ℤ) (c d i : ℕ)
    → p.channel_map k ≡ some c
    → p.channel_map l ≡ some d
    → (p.channels c).index ≡ pos i
    → (p.channels d).index ≡ pos i
    → (k ≡ l) × (c ≡ d)
same_index {p} v k l c d i mc md ic id = ground (arith, v.mapped k c mc, v.mapped l d md)

pub get_elem?-push :
    (xs : List PollFd) (x : PollFd) (i : ℕ)
    → get_elem? (xs ++ x ∷ []) i ≡ (if i == length xs then some x else get_elem? xs i)
get_elem?-push [] x zero = refl
get_elem?-push [] x (suc i) = ground arith
get_elem?-push (y ∷ xs) x zero = ground arith
get_elem?-push (y ∷ xs) x (suc i) = ground (arith, get_elem?-push xs x i)

pub get_elem?-lt : (xs : List PollFd) (i : ℕ) (x : PollFd) → get_elem? xs i ≡ some x → i < length xs
get_elem?-lt [] i x e = cc
get_elem?-lt (y ∷ xs) zero x e = omega arith
get_elem?-lt (y ∷ xs) (suc i) x e = omega (arith, get_elem?-lt xs i x e)

pub length-push : (xs : List PollFd) (x : PollFd) → length (xs ++ x ∷ []) ≡ length xs + 1
length-push [] x = refl
length-push (y ∷ xs) x = omega (arith, length-push xs x)

-- A new channel: no index, and an fd that is not mapped.
pub record IsNew (p : Poller) (c n : ℕ) : Type 0 where
  pub unplaced : ltb_ℤ (p.channels c).index (pos 0) ≡ true
  pub numbered : (p.channels c).fd ≡ pos n
  pub free : p.channel_map (pos n) ≡ none

-- A channel that is in the map.
pub record IsMapped (p : Poller) (c n : ℕ) : Type 0 where
  pub numbered : (p.channels c).fd ≡ pos n
  pub entry : p.channel_map (pos n) ≡ some c

-- The tests that `updateChannel` and `removeChannel` share.
pub maps_to_self : (c : ℕ) → maps_to (some c) c ≡ true
maps_to_self c = ground arith

pub checked_index_lem :
    (fds : List PollFd) (i : ℕ) (x : PollFd)
    → get_elem? fds i ≡ some x
    → checked_index (pos i) fds ≡ ok i
checked_index_lem fds i x e = ground (arith, get_elem?-lt fds i x)

pub fd_or_flip : (x : ℤ) (n : ℕ) → pos n ≡ pos (key x) → (x ==ℤ pos n || x ==ℤ negsuc n) ≡ true
fd_or_flip x n e = ground arith

pub flip_or_fd : (x : ℤ) (n : ℕ) → pos n ≡ pos (key x) → (x ==ℤ negsuc n || x ==ℤ pos n) ≡ true
flip_or_fd x n e = ground arith
