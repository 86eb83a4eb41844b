-- ===== src/InetAddress/HostPort.antt =====
-- An address made from its text and its port prints as them.
use yatwb.Base.{
  ℕ, ◌+◌, ◌^◌, ◌<◌, ◌≤◌, ◌≡◌, refl, ap, ◌∙◌, true, some, ◌∷◌, ◌++◌, length, leb, arith,
  length-append,
}
use yatwb.InetAddress.{
  NetLibrary, SockaddrIn, inet_addrstrlen, host_of, to_host_port_array, from_host_port,
  inet_address, to_host_port,
}
use yatwb.Base.Decimal.{decimal, decimal-AreDigits, digits-HasNoNul, length-decimal}
use yatwb.Base.Text.{HasNoNul, c_string_self, c_string-snprintf, append-HasNoNul}

-- As documented: an address is at most 15 characters of text, which `inet_pton` reads back; a
-- `uint16_t` survives both changes of its byte order.
pub record IsNetLibrary (lib : NetLibrary) : Type 0 where
  pub short : (a : ℕ) → a < 2 ^ 32 → length (lib.inet_ntop a) + 1 ≤ inet_addrstrlen
  pub text : (a : ℕ) → a < 2 ^ 32 → HasNoNul (lib.inet_ntop a)
  pub pton-ntop : (a : ℕ) → a < 2 ^ 32 → lib.inet_pton (lib.inet_ntop a) ≡ some a
  pub ntohs-htons : (n : ℕ) → n < 2 ^ 16 → lib.ntohs (lib.htons n) ≡ n

abbrev address_of : NetLibrary → ℕ → ℕ → SockaddrIn
address_of lib a port = record { sin_family = lib.af_inet; sin_port = lib.htons port; s_addr = a }

inet_address_lem :
    (lib : NetLibrary) (a port : ℕ)
    → IsNetLibrary lib
    → a < 2 ^ 32
    → inet_address lib (lib.inet_ntop a) port ≡ address_of lib a port
unfolding inet_address from_host_port
inet_address_lem lib a port v ha =
    rw (c_string_self (lib.inet_ntop a) (v.text a ha), v.pton-ntop a ha) refl

-- All of the text fits the array of 32 bytes.
printed :
    (lib : NetLibrary) (a port : ℕ)
    → IsNetLibrary lib
    → a < 2 ^ 32
    → port < 2 ^ 16
    → to_host_port lib (address_of lib a port) ≡ lib.inet_ntop a ++ 58 ∷ decimal port
unfolding to_host_port to_host_port_array host_of
printed lib a port v ha hp =
    let fits : leb (length (lib.inet_ntop a) + 1) inet_addrstrlen ≡ true =
      ground (arith, v.short a ha) in
    let text = lib.inet_ntop a ++ 58 ∷ decimal port in
    let room : length text ≤ 31 = omega (
      arith,
      v.short a ha,
      length-decimal 4 port (omega (arith, hp)),
      length-append (lib.inet_ntop a) (58 ∷ decimal port),
    ) in
    rw (fits, v.ntohs-htons port hp)
      (c_string-snprintf 32 text room (
        append-HasNoNul (lib.inet_ntop a) (58 ∷ decimal port) (v.text a ha)
          (omega arith, digits-HasNoNul (decimal port) (decimal-AreDigits port))))

-- With a library as documented, for every IPv4 address and every port of 16 bits: the `InetAddress`
-- made from the address's text and the port has the address and the port, and `toHostPort` prints it
-- as the text, a colon and the port's decimals, all of which fit its array.
pub to_host_port-inet_address :
    (lib : NetLibrary) (a port : ℕ)
    → IsNetLibrary lib
    → a < 2 ^ 32
    → port < 2 ^ 16
    → let addr = inet_address lib (lib.inet_ntop a) port in
      (addr.s_addr ≡ a)
      × (lib.ntohs addr.sin_port ≡ port)
      × (to_host_port lib addr ≡ lib.inet_ntop a ++ 58 ∷ decimal port)
unfolding inet_address to_host_port
to_host_port-inet_address lib a port v ha hp =
    let made = inet_address_lem lib a port v ha in
    (
      ap (λ addr. addr.s_addr) made,
      ap (λ addr. lib.ntohs addr.sin_port) made ∙ v.ntohs-htons port hp,
      ap (to_host_port lib) made ∙ printed lib a port v ha hp,
    )
