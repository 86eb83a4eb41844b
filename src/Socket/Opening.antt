-- ===== src/Socket/Opening.antt =====
-- An acceptor goes on whatever the kernel answers.
use yatwb.Base.{ℕ, ◌≡◌, refl, true, List, [], ◌∷◌, ◌++◌, append-nil, sym, ap, ◌∙◌}
use yatwb.Base.Int.{ℤ, pos, negsuc}
use yatwb.Buffer.{SysCount, failed, count}
use yatwb.InetAddress.{SockaddrIn}
use yatwb.Socket.{
  SocketCall, socket_call, bind_call, listen_call, option_call, reuse_addr, LogLine, call_failed,
  Host, open_acceptor, create_nonblocking_or_die, bind_or_die, listen_or_die, set_option, checked,
}

-- What the kernel returned as a descriptor.
abbrev pub fd_of : SysCount → ℤ
fd_of (failed e) = negsuc 0
fd_of (count n) = pos n

-- The line for a call that failed.
abbrev pub lines_of : SocketCall → SysCount → List LogLine
lines_of call (failed e) = call_failed call ∷ []
lines_of call (count n) = []

checked-fd :
    (touch : ℕ → ℕ) (call : SocketCall) (outcome : SysCount) (h : Host)
    → (checked touch call outcome h).0 ≡ fd_of outcome
unfolding checked
checked-fd touch call (failed e) h = refl
checked-fd touch call (count n) h = refl

-- The records after a call.
checked_lem :
    (touch : ℕ → ℕ) (call : SocketCall) (outcome : SysCount) (h : Host)
    → ((checked touch call outcome h).1.calls ≡ h.calls ++ call ∷ [])
      × ((checked touch call outcome h).1.lines ≡ h.lines ++ lines_of call outcome)
unfolding checked
checked_lem touch call (failed e) h = (refl, refl)
checked_lem touch call (count n) h = (refl, sym (append-nil h.lines))

set_option_lem :
    (touch : ℕ → ℕ) (fd : ℤ) (outcome : SysCount) (h : Host)
    → ((set_option touch fd reuse_addr true outcome h).calls
        ≡ h.calls ++ option_call fd reuse_addr true ∷ [])
      × ((set_option touch fd reuse_addr true outcome h).lines ≡ h.lines)
unfolding set_option
set_option_lem touch fd (failed e) h = (refl, refl)
set_option_lem touch fd (count n) h = (refl, refl)

-- For every answer of the kernel to each of the calls: the constructor of an acceptor and then
-- `listen` of its socket return, after exactly the calls of `socket`, `setsockopt` with
-- `SO_REUSEADDR` on, `bind` to the address and `listen`, in this order, all on the descriptor that
-- `socket` returned, which is -1 where it failed; each of them but `setsockopt` that fails is logged.
pub open_acceptor-calls :
    (touch : ℕ → ℕ) (addr : SockaddrIn) (made reused bound listened : SysCount) (errno : ℕ)
    → let h0 : Host = record { errno = errno; calls = []; lines = [] } in
      let opened = open_acceptor touch addr made reused bound h0 in
      let h = listen_or_die touch opened.0 listened opened.1 in
      (opened.0 ≡ fd_of made)
      × (h.calls
          ≡ socket_call
            ∷ option_call (fd_of made) reuse_addr true
            ∷ bind_call (fd_of made) addr
            ∷ listen_call (fd_of made)
            ∷ [])
      × (h.lines
          ≡ lines_of socket_call made
            ++ lines_of (bind_call (fd_of made) addr) bound
            ++ lines_of (listen_call (fd_of made)) listened)
unfolding open_acceptor create_nonblocking_or_die bind_or_die listen_or_die
open_acceptor-calls touch addr made reused bound listened errno =
    let h0 : Host = record { errno = errno; calls = []; lines = [] } in
    let first = checked touch socket_call made h0 in
    let h2 = set_option touch first.0 reuse_addr true reused first.1 in
    let h3 = (checked touch (bind_call first.0 addr) bound h2).1 in
    let is = checked-fd touch socket_call made h0 in
    let (calls1, lines1) = checked_lem touch socket_call made h0 in
    let (calls2, lines2) = set_option_lem touch first.0 reused first.1 in
    let (calls3, lines3) = checked_lem touch (bind_call first.0 addr) bound h2 in
    let (calls4, lines4) = checked_lem touch (listen_call first.0) listened h3 in
    (
      is,
      calls4
          ∙ ap (λ l. l ++ listen_call first.0 ∷ [])
              (calls3
                ∙ ap (λ l. l ++ bind_call first.0 addr ∷ [])
                    (calls2 ∙ ap (λ l. l ++ option_call first.0 reuse_addr true ∷ []) calls1))
          ∙ ap
              (λ fd.
                socket_call
                ∷ option_call fd reuse_addr true
                ∷ bind_call fd addr
                ∷ listen_call fd
                ∷ [])
              is,
      lines4
          ∙ ap (λ l. l ++ lines_of (listen_call first.0) listened)
              (lines3 ∙ ap (λ l. l ++ lines_of (bind_call first.0 addr) bound) (lines2 ∙ lines1))
          ∙ ap
              (λ fd.
                lines_of socket_call made
                ++ lines_of (bind_call fd addr) bound
                ++ lines_of (listen_call fd) listened)
              is,
    )
