-- ===== src/InetAddress/Tests.antt =====
-- Addresses at concrete inputs, over a library that writes three digits for
-- each part of an address.
use yatwb.Base.{
  ℕ, ◌+◌, ◌-◌, ◌*◌, ◌/◌, ◌%◌, ◌<◌, ◌≡◌, refl, Option, none, some, List, [], ◌∷◌, ◌++◌, arith,
}
use yatwb.Base.Decimal.{decimal, digits_onto}
use yatwb.InetAddress.{NetLibrary, inet_address, to_host_port}
use yatwb.InetAddress.HostPort.{IsNetLibrary, to_host_port-inet_address}

-- Three digits for each part.
abbrev digit : ℕ → ℕ
digit n = 48 + n % 10

abbrev three : ℕ → List ℕ → List ℕ
three n rest = digit (n / 100) ∷ digit (n / 10) ∷ digit n ∷ rest

abbrev dotted : ℕ → List ℕ
dotted a =
    three (a / 16777216 % 256)
      (46 ∷ three (a / 65536 % 256) (46 ∷ three (a / 256 % 256) (46 ∷ three (a % 256) [])))

abbrev value : ℕ → ℕ → ℕ → ℕ
value a b c = (a - 48) * 100 + (b - 48) * 10 + (c - 48)

abbrev read_dotted : List ℕ → Option ℕ
read_dotted (a ∷ b ∷ c ∷ d1 ∷ d ∷ e ∷ f ∷ d2 ∷ g ∷ h ∷ i ∷ d3 ∷ j ∷ k ∷ l ∷ []) =
    some (value a b c * 16777216 + value d e f * 65536 + value g h i * 256 + value j k l)
read_dotted _ = none

abbrev swapped : ℕ → ℕ
swapped n = n % 256 * 256 + n / 256

abbrev padded : NetLibrary
padded = record {
  af_inet = 2;
  inaddr_any = 0;
  inet_pton = read_dotted;
  inet_ntop = dotted;
  htons = swapped;
  ntohs = swapped;
  htonl = λ n. n;
}

value-digits : (n : ℕ) → n < 256 → value (digit (n / 100)) (digit (n / 10)) (digit n) ≡ n
value-digits n h = omega arith

parts :
    (a : ℕ)
    → a < 4294967296
    → (a / 16777216 % 256) * 16777216 + (a / 65536 % 256) * 65536 + (a / 256 % 256) * 256 + a % 256
      ≡ a
parts a h = omega arith

padded-IsNetLibrary : IsNetLibrary padded
padded-IsNetLibrary = record {
  short = λ a h. omega arith;
  text = λ a h. ground arith;
  pton-ntop = λ a h.
      rw
        (
          value-digits (a / 16777216 % 256) (omega arith),
          value-digits (a / 65536 % 256) (omega arith),
          value-digits (a / 256 % 256) (omega arith),
          value-digits (a % 256) (omega arith),
          parts a h,
        )
        refl;
  ntohs-htons = λ n h. omega arith;
}

loopback_printed :
    to_host_port padded (inet_address padded (dotted 2130706433) 80)
    ≡ dotted 2130706433 ++ 58 ∷ decimal 80
unfolding inet_address to_host_port digits_onto
loopback_printed = refl

to_host_port-inet_address_example :
    let addr = inet_address padded (dotted 2130706433) 80 in
    (addr.s_addr ≡ 2130706433)
    × (swapped addr.sin_port ≡ 80)
    × (to_host_port padded addr ≡ dotted 2130706433 ++ 58 ∷ decimal 80)
to_host_port-inet_address_example =
    to_host_port-inet_address padded 2130706433 80 padded-IsNetLibrary (omega arith) (omega arith)
