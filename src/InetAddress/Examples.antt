-- ===== src/InetAddress/Examples.antt =====
-- The address on which the server listens, over a C library that knows no other.
use adl_server.Base.{
  ℕ, zero, suc, ◌+◌, ◌*◌, ◌/◌, ◌%◌, ◌≤◌, [], ◌∷◌, ◌++◌, Bytes, codes, length, length-append, ltb,
  bytes_eq, if◌then◌else◌, Bool-cases, inl, inr, none, some, ok, ◌≡◌, refl, arith,
}
use adl_server.InetAddress.{Libc, new_address, to_ip, to_ip_port, to_port, to_port_string}
use adl_server.InetAddress.RoundTrip.{IsDocumented, address_texts}

-- The last digits of a number, as many as the first argument says at most.
abbrev pub digits : ℕ → ℕ → Bytes
digits zero p = []
digits (suc n) p =
    let front = digits n (p / 10) in
    if ltb p 10 then (48 + p) ∷ [] else front ++ ((48 + p % 10) ∷ [])

length-digits : (n p : ℕ) → length (digits n p) ≤ n
length-digits zero p = omega arith
length-digits (suc n) p = elim (Bool-cases (ltb p 10)) [
  | inl y ↦ rw y (omega arith)
  | inr m ↦
      let r = length-digits n (p / 10) in
      let s = length-append (digits n (p / 10)) ((48 + p % 10) ∷ []) in rw m (omega (arith, r, s))
]

abbrev pub swap : ℕ → ℕ
swap p = p % 256 * 256 + p / 256

abbrev pub host : Bytes
host = codes "127.0.0.1"

abbrev pub libc : Libc
libc = record {
  inet_pton = λ s. if bytes_eq s host then some 16777343 else none;
  inet_ntop = λ a. host;
  htons = swap;
  ntohs = swap;
  decimal = digits 5;
}

pub libc-IsDocumented : IsDocumented libc
libc-IsDocumented = record {
  swaps = λ p h. omega arith;
  digits = λ p h. length-digits 5 p;
  dotted = λ a. omega arith;
}

address_texts_example :
    (to_ip libc (new_address libc host 9017) ≡ ok host)
    × (to_ip_port libc (new_address libc host 9017) ≡ ok (codes "127.0.0.1:9017"))
    × (to_port libc (new_address libc host 9017) ≡ 9017)
    × (to_port_string libc (new_address libc host 9017) ≡ ok (codes "9017"))
unfolding bytes_eq
address_texts_example =
    address_texts libc libc-IsDocumented host 16777343 9017 (omega arith) refl refl
