-- ===== src/Net/Socket/Tests.antt =====
-- The address 127.0.0.1:9981, with the port's bytes swapped.
use libcpp.Prelude.{ℕ, ◌+◌, ◌*◌, ◌/◌, ◌%◌, ◌≡◌, refl, none, some, [], ◌∷◌, if◌then◌else◌, arith}
use libcpp.Prelude.Bytes.{Bytes, codes, bytes_eq}
use libcpp.Prelude.Decimal.{decimal, digits}
use libcpp.Logging.Logger.{error}
use libcpp.Net.Socket.{Inet, inet_address, inet_to_host_port, accept, refused, zeroed}
use libcpp.Net.Socket.HostPort.{IsInet, to_host_port-inet_address}

abbrev swap : ℕ → ℕ
swap n = (n % 256) * 256 + n / 256

abbrev home : Bytes
home = codes "127.0.0.1"

abbrev inet : Inet
inet = record {
  htons = swap;
  ntohs = swap;
  htonl = λ a. a;
  inet_pton = λ ip. if bytes_eq ip home then some 16777343 else none;
  inet_ntop = λ a. home;
}

inet-IsInet : IsInet inet
inet-IsInet = record { ntohs-htons = λ port h. omega arith; short = λ a. omega arith }

to_host_port-inet_address_example :
    inet_to_host_port inet (inet_address inet home 9981).0 ≡ codes "127.0.0.1:9981"
unfolding bytes_eq decimal digits
to_host_port-inet_address_example =
    to_host_port-inet_address inet home 9981 inet-IsInet (omega arith)

-- EMFILE is expected.
accept_runs : (accept (refused 24) zeroed).2 ≡ (error, codes "sockets::accept") ∷ []
unfolding accept
accept_runs = refl
