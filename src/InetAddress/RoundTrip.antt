-- ===== src/InetAddress/RoundTrip.antt =====
-- An address and its texts.
use adl_server.Base.{
  ℕ, ◌+◌, ◌-◌, ◌^◌, ◌≤◌, ◌<◌, [], ◌++◌, Bytes, codes, length, take_all, lt→ltb, some, ok, ◌≡◌, refl,
  sym, ap, subst, arith,
}
use adl_server.InetAddress.{
  Libc, SockAddr, inet_addrstrlen, parsed_or, print_behind, from_ip_port, new_address, sock_to_ip,
  sock_to_ip_port, sock_to_port_string, to_ip, to_ip_port, to_port, to_port_string,
}

-- What the manuals say: `ntohs` undoes `htons`, a number below 2^16 has five digits at most, and the
-- text of an address is shorter than INET_ADDRSTRLEN.
pub record IsDocumented (c : Libc) : Type 0 where
  pub swaps : (p : ℕ) → p < 2 ^ 16 → c.ntohs (c.htons p) ≡ p
  pub digits : (p : ℕ) → p < 2 ^ 16 → length (c.decimal p) ≤ 5
  pub dotted : (a : ℕ) → length (c.inet_ntop a) < inet_addrstrlen

printed :
    (size : ℕ) (text buf : Bytes)
    → length buf + length text < size
    → print_behind size text buf ≡ ok (buf ++ text)
unfolding print_behind
printed size text buf fits =
    let inside = lt→ltb (length buf) size (omega (arith, fits)) in
    let all = take_all (size - length buf - 1) text (omega (arith, fits)) in rw (inside, all) refl

-- The texts of an address, whatever its number, with a port that was turned round.
module _ (c : Libc) (doc : IsDocumented c) (ip : Bytes) (a port : ℕ) (small : port < 2 ^ 16)
    (known : c.inet_pton ip ≡ some a) (canonical : c.inet_ntop a ≡ ip) where
  built : new_address c ip port ≡ record { family = 2; addr = a; port = c.htons port }
  unfolding new_address from_ip_port parsed_or
  built = rw known refl

  abbrev made : SockAddr
  made = record { family = 2; addr = a; port = c.htons port }

  made_texts :
      (to_ip c made ≡ ok ip)
      × (to_ip_port c made ≡ ok (ip ++ (codes ":" ++ c.decimal port)))
      × (to_port c made ≡ port)
      × (to_port_string c made ≡ ok (c.decimal port))
  unfolding to_ip to_ip_port to_port to_port_string sock_to_ip sock_to_ip_port sock_to_port_string
  made_texts =
      let back = doc.swaps port small in
      let few = doc.digits port small in
      let short = subst (λ (t : Bytes). length t < inet_addrstrlen) canonical (doc.dotted a) in
      (
        ap (λ (t : Bytes). ok t) canonical,
        rw (back, canonical)
            (printed 64 (codes ":" ++ c.decimal port) ip (omega (arith, few, short))),
        back,
        rw back (printed 6 (c.decimal port) [] (omega (arith, few))),
      )

  -- An address that is made of the text of an IPv4 address, in the form in which it is printed, and a
  -- port: the address gives this text and this port back, the text of both, and the text of the port;
  -- no assertion fails and no text is cut off in its buffer of 64 or 6 bytes.
  pub address_texts :
      (to_ip c (new_address c ip port) ≡ ok ip)
      × (to_ip_port c (new_address c ip port) ≡ ok (ip ++ (codes ":" ++ c.decimal port)))
      × (to_port c (new_address c ip port) ≡ port)
      × (to_port_string c (new_address c ip port) ≡ ok (c.decimal port))
  address_texts =
      subst
        (λ (s : SockAddr).
          (to_ip c s ≡ ok ip)
          × (to_ip_port c s ≡ ok (ip ++ (codes ":" ++ c.decimal port)))
          × (to_port c s ≡ port)
          × (to_port_string c s ≡ ok (c.decimal port)))
        (sym built) made_texts
