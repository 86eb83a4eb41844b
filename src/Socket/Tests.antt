-- ===== src/Socket/Tests.antt =====
-- Sockets at concrete answers of the kernel.
use yatwb.Base.{◌≡◌, refl, true, [], ◌∷◌}
use yatwb.Base.Int.{negsuc}
use yatwb.Buffer.{failed, count}
use yatwb.InetAddress.{SockaddrIn, zero_addr}
use yatwb.Socket.{
  socket_call, bind_call, listen_call, option_call, reuse_addr, call_failed, open_acceptor,
  listen_or_die, get_socket_error, get_local_addr,
}
use yatwb.Socket.Opening.{open_acceptor-calls}

abbrev wildcard : SockaddrIn
wildcard = record { sin_family = 2; sin_port = 20480; s_addr = 0 }

error_read : get_socket_error (count 104) ≡ 104
unfolding get_socket_error
error_read = refl

local_unknown : get_local_addr (failed 9) wildcard ≡ zero_addr
unfolding get_local_addr
local_unknown = refl

-- No descriptor is left (24), and the calls on -1 fail (9).
open_acceptor-calls_example :
    let opened =
      open_acceptor
        (λ e. e)
        wildcard
        (failed 24)
        (failed 9)
        (failed 9)
        (record { errno = 0; calls = []; lines = [] }) in
    let h = listen_or_die (λ e. e) opened.0 (failed 9) opened.1 in
    (opened.0 ≡ negsuc 0)
    × (h.calls
        ≡ socket_call
          ∷ option_call (negsuc 0) reuse_addr true
          ∷ bind_call (negsuc 0) wildcard
          ∷ listen_call (negsuc 0)
          ∷ [])
    × (h.lines
        ≡ call_failed socket_call
          ∷ call_failed (bind_call (negsuc 0) wildcard)
          ∷ call_failed (listen_call (negsuc 0))
          ∷ [])
open_acceptor-calls_example =
    open_acceptor-calls (λ e. e) wildcard (failed 24) (failed 9) (failed 9) (failed 9) 0
