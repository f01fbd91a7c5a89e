-- ===== src/Net/Socket/HostPort.antt =====
-- Addresses as texts.
use libcpp.Prelude.{
  ℕ, ◌≤◌, ◌<◌, ◌^◌, ◌≡◌, none, some, Option, ◌++◌, length, length-append, take_of_le, arith,
  Option-cases, inl, inr,
}
use libcpp.Prelude.Bytes.{Bytes, codes}
use libcpp.Prelude.Decimal.{decimal, length-decimal}
use libcpp.Net.Socket.{Inet, from_host_port, to_host_port, inet_address, inet_to_host_port}

-- What the C library documents of its conversions, for the ports of 16 bits: ntohs undoes htons, and
-- inet_ntop gives at most the 15 bytes of a dotted address.
pub record IsInet (inet : Inet) : Type 0 where
  pub ntohs-htons : (port : ℕ) → port < 2 ^ 16 → inet.ntohs (inet.htons port) ≡ port
  pub short : (s_addr : ℕ) → length (inet.inet_ntop s_addr) ≤ 15

module _ (inet : Inet) where
  -- The address that a text is taken for.
  abbrev pub host : Option ℕ → ℕ
  host none = 0
  host (some s_addr) = s_addr

  to_host_port_lem :
      (port s_addr : ℕ)
      → IsInet inet
      → port < 2 ^ 16
      → inet_to_host_port inet
          (record { sin_family = 2; sin_port = inet.htons port; s_addr = s_addr })
        ≡ inet.inet_ntop s_addr ++ (codes ":" ++ decimal port)
  unfolding inet_to_host_port to_host_port
  to_host_port_lem port s_addr i h = rw (i.ntohs-htons port h) (
      take_of_le 31 (inet.inet_ntop s_addr ++ (codes ":" ++ decimal port)) (
        omega (
          arith,
          i.short s_addr,
          length-append (inet.inet_ntop s_addr) (codes ":" ++ decimal port),
          length-decimal 4 port (omega arith),
        )))

  -- If the C library's conversions are as documented, the text of an address that is made of a text and a port
  -- of 16 bits is not cut: it is the address in the form that inet_ntop gives it, a colon and the port. A
  -- text that is no address counts as the address 0.
  pub to_host_port-inet_address :
      (ip : Bytes) (port : ℕ)
      → IsInet inet
      → port < 2 ^ 16
      → inet_to_host_port inet (inet_address inet ip port).0
        ≡ inet.inet_ntop (host (inet.inet_pton ip)) ++ (codes ":" ++ decimal port)
  unfolding inet_address from_host_port
  to_host_port-inet_address ip port i h = elim (Option-cases (inet.inet_pton ip)) [
    | inl e ↦ rw e (to_host_port_lem port 0 i h)
    | inr (s_addr, e) ↦ rw e (to_host_port_lem port s_addr i h)
  ]
