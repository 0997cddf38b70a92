-- ===== src/InetAddress.antt =====
-- src/net/InetAddress.cpp with the conversions of src/net/Socket.cpp: addresses and their texts. The
-- functions of the C library are the fields of `Libc`; a buffer of chars is the text before its NUL,
-- with its size beside it. An IPv4 address is a number, and so is a port in the order of the network.
pub mod RoundTrip
pub mod Examples
use adl_server.Base.{
  ℕ, ◌+◌, ◌-◌, [], ◌∷◌, ◌++◌, Bytes, codes, length, take, leb, ltb, ◌==◌, if◌then◌else◌, Option,
  none, some, Result, ok, check, assert_failed, ◌>>=◌, ◌>>◌,
}

-- `inet_pton` gives `none` for a text that is no address; `decimal` is the output of "%u".
pub record Libc : Type 0 where
  pub inet_pton : Bytes → Option ℕ
  pub inet_ntop : ℕ → Bytes
  pub htons : ℕ → ℕ
  pub ntohs : ℕ → ℕ
  pub decimal : ℕ → Bytes

pub record SockAddr : Type 0 where
  pub family : ℕ
  pub addr : ℕ
  pub port : ℕ

-- AF_INET and INET_ADDRSTRLEN.
abbrev pub af_inet : ℕ
af_inet = 2

abbrev pub inet_addrstrlen : ℕ
inet_addrstrlen = 16

abbrev pub zeroed : SockAddr
zeroed = record { family = 0; addr = 0; port = 0 }

-- A text that is no address leaves the field as it was.
unfoldable pub parsed_or : Option ℕ → ℕ → ℕ
parsed_or none old = old
parsed_or (some a) old = a

-- What `snprintf(buf + end, size - end, ...)` leaves of a text.
unfoldable pub print_behind : ℕ → Bytes → Bytes → Result Bytes
print_behind size text buf = do
  check (ltb (length buf) size) assert_failed
  ok (buf ++ take (size - length buf - 1) text)

module _ (c : Libc) where
  unfoldable pub from_ip_port : Bytes → ℕ → SockAddr → SockAddr
  from_ip_port ip port a = record {
    family = af_inet;
    addr = parsed_or (c.inet_pton ip) a.addr;
    port = c.htons port;
  }

  -- The two constructors.
  unfoldable pub any_address : SockAddr
  any_address = record { family = af_inet; addr = 0; port = c.htons 0 }

  unfoldable pub new_address : Bytes → ℕ → SockAddr
  new_address ip port = from_ip_port ip port zeroed

  unfoldable pub sock_to_ip : ℕ → SockAddr → Bytes → Result Bytes
  sock_to_ip size a buf =
      if a.family == af_inet
      then (do check (leb inet_addrstrlen size) assert_failed; ok (c.inet_ntop a.addr))
      else ok buf

  unfoldable pub sock_to_ip_port : ℕ → SockAddr → Bytes → Result Bytes
  sock_to_ip_port size a buf = do
    b ← sock_to_ip size a buf
    print_behind size (codes ":" ++ c.decimal (c.ntohs a.port)) b

  unfoldable pub sock_to_port_string : ℕ → SockAddr → Bytes → Result Bytes
  sock_to_port_string size a buf = print_behind size (c.decimal (c.ntohs a.port)) buf

  -- The methods, with the sizes of their buffers, which are empty.
  unfoldable pub to_ip : SockAddr → Result Bytes
  to_ip a = sock_to_ip 64 a []

  unfoldable pub to_ip_port : SockAddr → Result Bytes
  to_ip_port a = sock_to_ip_port 64 a []

  unfoldable pub to_port : SockAddr → ℕ
  to_port a = c.ntohs a.port

  unfoldable pub to_port_string : SockAddr → Result Bytes
  to_port_string a = sock_to_port_string 6 a []
