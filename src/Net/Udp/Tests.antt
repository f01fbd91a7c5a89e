-- ===== src/Net/Udp/Tests.antt =====
-- Two datagrams and an error.
use libcpp.Prelude.{List, [], ◌∷◌, replicate}
use libcpp.Net.Udp.{Udp, Datagram, datagram, failed}

-- A vector of ten bytes.
abbrev small : Udp
small = record {
  input_buffer = record { bytes = replicate 10 0; reader_index = 8; writer_index = 8 };
  sent = [];
}

abbrev datagrams : List Datagram
datagrams = datagram 5 (1 ∷ []) ∷ failed ∷ datagram 6 (2 ∷ 3 ∷ []) ∷ []
