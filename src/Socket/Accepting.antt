-- ===== src/Socket/Accepting.antt =====
-- What `accept` does to the peer's address and to `errno`.
use yatwb.Base.{
  List, [], ◌∷◌, ◌++◌, length, length-append, ◌+◌, ℕ, ◌≡◌, refl, Bool-cases, inl, inr,
  if◌then◌else◌, arith,
}
use yatwb.Base.Int.{ℤ, pos, negsuc}
use yatwb.Buffer.{failed, count}
use yatwb.InetAddress.{SockaddrIn}
use yatwb.Socket.{
  LogLine, Host, is_expected, is_unexpected, socket_accept, accept_fd, checked, classify,
}

two_more : (xs : List LogLine) (a b : LogLine) → length (xs ++ a ∷ [] ++ b ∷ []) ≡ length xs + 2
two_more xs a b = omega (arith, length-append (xs ++ a ∷ []) (b ∷ []), length-append xs (a ∷ []))

-- For every answer of `accept4`: `accept` returns the descriptor and sets the peer's address, and
-- `errno` and the log are as before; or it returns -1 and leaves the address as it was, and then
-- `errno` is that of `accept4` and one line is logged for an expected error, and for any other two
-- lines are logged and `errno` is what they make of it.
pub socket_accept_lem :
    (touch : ℕ → ℕ) (fd : ℤ) (from peer : SockaddrIn) (h : Host) (n e : ℕ)
    → let took = socket_accept touch fd (count n) from peer h in
      let none = socket_accept touch fd (failed e) from peer h in
      ((took.0 ≡ pos n) × (took.1 ≡ from) × (took.2.errno ≡ h.errno) × (took.2.lines ≡ h.lines))
      × ((none.0 ≡ negsuc 0)
          × (none.1 ≡ peer)
          × (none.2.errno ≡ (if is_expected e then e else touch (touch e)))
          × (length none.2.lines ≡ length h.lines + (if is_expected e then 1 else 2)))
unfolding socket_accept accept_fd checked classify
socket_accept_lem touch fd from peer h n e = (
  (refl, refl, refl, refl),
  elim (Bool-cases (is_expected e)) [
    | inl expected ↦ rw expected (refl, refl, refl, length-append h.lines _)
    | inr other ↦ elim (Bool-cases (is_unexpected e)) [
      | inl u ↦ rw (other, u) (refl, refl, refl, two_more h.lines _ _)
      | inr u ↦ rw (other, u) (refl, refl, refl, two_more h.lines _ _)
    ]
  ],
)
