-- ===== src/Socket.antt =====
-- src/include/socket.h, src/socket.cpp, of src/sockets_options.cpp the calls on descriptors, and of
-- src/acceptor.cpp the constructor. What the kernel answers to a call is given to the model, which
-- records the calls and the lines that are logged; `VALGRIND` is not set. What logging makes of
-- `errno` is a parameter. The numbers of errors are those of Linux.
pub mod Opening
pub mod Accepting
mod Tests
use yatwb.Base.{ℕ, Bool, true, false, ◌||◌, List, [], ◌∷◌, ◌++◌, ◌==◌, if◌then◌else◌}
use yatwb.Base.Int.{ℤ, pos, negsuc}
use yatwb.Buffer.{SysCount, failed, count}
use yatwb.InetAddress.{SockaddrIn, zero_addr}

pub data SocketOption : Type 0 where
  reuse_addr tcp_no_delay keep_alive : SocketOption

pub data SocketCall : Type 0 where
  socket_call : SocketCall
  bind_call : (fd : ℤ) (addr : SockaddrIn) → SocketCall
  listen_call accept_call close_call shutdown_call : (fd : ℤ) → SocketCall
  option_call : (fd : ℤ) (option : SocketOption) (on : Bool) → SocketCall

pub data LogLine : Type 0 where
  call_failed : (call : SocketCall) → LogLine
  unexpected_error unknown_error : (error : ℕ) → LogLine

pub record Host : Type 0 where
  pub errno : ℕ
  pub calls : List SocketCall
  pub lines : List LogLine

-- `EAGAIN`, `ECONNABORTED`, `EINTR`, `EPROTO`, `EPERM` and `EMFILE`.
abbrev pub is_expected : ℕ → Bool
is_expected e = e == 11 || e == 103 || e == 4 || e == 71 || e == 1 || e == 24

-- `EBADF`, `EFAULT`, `EINVAL`, `ENFILE`, `ENOBUFS`, `ENOMEM`, `ENOTSOCK` and `EOPNOTSUPP`.
abbrev pub is_unexpected : ℕ → Bool
is_unexpected e =
    e == 9 || e == 14 || e == 22 || e == 23 || e == 105 || e == 12 || e == 88 || e == 95

-- `sockets::getSocketError`, with the option's value.
unfoldable pub get_socket_error : SysCount → ℕ
get_socket_error (failed e) = e
get_socket_error (count optval) = optval

-- `sockets::getLocalAddr`, with the address that `getsockname` writes.
unfoldable pub get_local_addr : SysCount → SockaddrIn → SockaddrIn
get_local_addr (failed e) addr = zero_addr
get_local_addr (count n) addr = addr

module _ (touch : ℕ → ℕ) where
  abbrev pub log : LogLine → Host → Host
  log line h = record h { errno = touch h.errno; lines = h.lines ++ line ∷ [] }

  -- A system call, with what is logged where it fails.
  unfoldable pub checked : SocketCall → SysCount → Host → ℤ × Host
  checked call (failed e) h =
      (negsuc 0, log (call_failed call) (record h { errno = e; calls = h.calls ++ call ∷ [] }))
  checked call (count n) h = (pos n, record h { calls = h.calls ++ call ∷ [] })

  unfoldable pub create_nonblocking_or_die : SysCount → Host → ℤ × Host
  unfolding checked
  create_nonblocking_or_die outcome h = checked socket_call outcome h

  unfoldable pub bind_or_die : ℤ → SockaddrIn → SysCount → Host → Host
  unfolding checked
  bind_or_die fd addr outcome h = (checked (bind_call fd addr) outcome h).1

  unfoldable pub listen_or_die : ℤ → SysCount → Host → Host
  unfolding checked
  listen_or_die fd outcome h = (checked (listen_call fd) outcome h).1

  unfoldable pub close : ℤ → SysCount → Host → Host
  unfolding checked
  close fd outcome h = (checked (close_call fd) outcome h).1

  unfoldable pub shutdown_write : ℤ → SysCount → Host → Host
  unfolding checked
  shutdown_write fd outcome h = (checked (shutdown_call fd) outcome h).1

  -- The `switch` of `sockets::accept` over the saved error.
  unfoldable pub classify : ℕ → Host → Host
  classify e h =
      if is_expected e
      then record h { errno = e }
      else if is_unexpected e
      then log (unexpected_error e) h
      else log (unknown_error e) h

  -- `sockets::accept`, with the address that `accept4` writes.
  unfoldable pub accept_fd : ℤ → SysCount → SockaddrIn → SockaddrIn → Host → ℤ × SockaddrIn × Host
  unfolding checked classify
  accept_fd fd (failed e) from addr h =
      let (connfd, h') = checked (accept_call fd) (failed e) h in (connfd, addr, classify e h')
  accept_fd fd (count n) from addr h =
      let (connfd, h') = checked (accept_call fd) (count n) h in (connfd, from, h')

  -- `Socket::accept`: `peeraddr` is set where the descriptor is not negative.
  abbrev pub set_peer : SockaddrIn → ℤ × SockaddrIn × Host → ℤ × SockaddrIn × Host
  set_peer peer (pos n, addr, h) = (pos n, addr, h)
  set_peer peer (negsuc n, addr, h) = (negsuc n, peer, h)

  unfoldable pub socket_accept :
      ℤ → SysCount → SockaddrIn → SockaddrIn → Host → ℤ × SockaddrIn × Host
  unfolding accept_fd
  socket_accept fd outcome from peer h = set_peer peer (accept_fd fd outcome from zero_addr h)

  -- `Socket::setReuseAddr` and its likes do not look at what `setsockopt` returns.
  unfoldable pub set_option : ℤ → SocketOption → Bool → SysCount → Host → Host
  set_option fd option on (failed e) h = record h {
    errno = e;
    calls = h.calls ++ option_call fd option on ∷ [];
  }
  set_option fd option on (count n) h = record h {
    calls = h.calls ++ option_call fd option on ∷ [];
  }

  -- The constructor of `Acceptor`, as far as its socket goes.
  unfoldable pub open_acceptor : SockaddrIn → SysCount → SysCount → SysCount → Host → ℤ × Host
  unfolding create_nonblocking_or_die set_option bind_or_die
  open_acceptor addr made reused bound h =
      let (fd, h1) = create_nonblocking_or_die made h in
      (fd, bind_or_die fd addr bound (set_option fd reuse_addr true reused h1))
