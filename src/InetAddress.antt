-- ===== src/InetAddress.antt =====
-- src/include/inet_addr.h, src/inet_addr.cpp, and of src/sockets_options.cpp the functions on
-- addresses. A C string is the list of its bytes without the NUL; a `char` array that holds one has
-- the NUL in it. The functions of the C library that they call are a parameter.
pub mod HostPort
mod Tests
use yatwb.Base.{
  ℕ, zero, suc, ◌+◌, ◌-◌, Bool, Option, none, some, List, [], ◌∷◌, ◌++◌, length, take, leb,
  if◌then◌else◌,
}
use yatwb.Base.Decimal.{decimal}
use yatwb.Base.Text.{c_string, snprintf}

-- What the C library does with addresses: `inet_pton` where it returns 1, and the text that
-- `inet_ntop` writes where there is room; the byte order.
pub record NetLibrary : Type 0 where
  pub af_inet : ℕ
  pub inaddr_any : ℕ
  pub inet_pton : List ℕ → Option ℕ
  pub inet_ntop : ℕ → List ℕ
  pub htons : ℕ → ℕ
  pub ntohs : ℕ → ℕ
  pub htonl : ℕ → ℕ

-- `struct sockaddr_in`
pub record SockaddrIn : Type 0 where
  pub sin_family : ℕ
  pub sin_port : ℕ
  pub s_addr : ℕ

-- After `bzero`.
abbrev pub zero_addr : SockaddrIn
zero_addr = record { sin_family = 0; sin_port = 0; s_addr = 0 }

abbrev pub inet_addrstrlen : ℕ
inet_addrstrlen = 16

-- `"INVALID"`
abbrev pub invalid_host : List ℕ
invalid_host = 73 ∷ 78 ∷ 86 ∷ 65 ∷ 76 ∷ 73 ∷ 68 ∷ []

-- Where `inet_pton` fails, the address is left alone.
abbrev pub set_ip : Option ℕ → SockaddrIn → SockaddrIn
set_ip none addr = addr
set_ip (some a) addr = record addr { s_addr = a }

module _ (lib : NetLibrary) where
  open lib use {inet_pton, inet_ntop, htons, ntohs, htonl, af_inet, inaddr_any}

  -- `inet_ntop` into `host`, which it leaves alone where the text and its NUL do not fit.
  unfoldable pub host_of : SockaddrIn → List ℕ
  host_of addr =
      let text = inet_ntop addr.s_addr in
      if leb (length text + 1) inet_addrstrlen then text else invalid_host

  -- `sockets::toHostPort`, the array that it fills.
  unfoldable pub to_host_port_array : ℕ → SockaddrIn → List ℕ
  unfolding host_of
  to_host_port_array size addr = snprintf size (host_of addr ++ 58 ∷ decimal (ntohs addr.sin_port))

  -- `sockets::fromHostPort`, which only logs where `inet_pton` fails.
  unfoldable pub from_host_port : List ℕ → ℕ → SockaddrIn → SockaddrIn
  from_host_port ip port addr =
      set_ip (inet_pton (c_string ip)) (record addr { sin_family = af_inet; sin_port = htons port })

  -- `InetAddress(uint16_t port)`
  unfoldable pub any_address : ℕ → SockaddrIn
  any_address port = record {
    sin_family = af_inet;
    sin_port = htons port;
    s_addr = htonl inaddr_any;
  }

  -- `InetAddress(const std::string& ip, uint16_t port)`
  unfoldable pub inet_address : List ℕ → ℕ → SockaddrIn
  unfolding from_host_port
  inet_address ip port = from_host_port ip port zero_addr

  -- `InetAddress::toHostPort`
  unfoldable pub to_host_port : SockaddrIn → List ℕ
  unfolding to_host_port_array
  to_host_port addr = c_string (to_host_port_array 32 addr)
