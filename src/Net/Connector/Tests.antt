-- ===== src/Net/Connector/Tests.antt =====
-- The theorems on class Connector at small inputs.
use libcpp.Prelude.{refl, true, some}
use libcpp.Net.Connector.{Connector, init, connecting}
use libcpp.Net.Connector.Backoff.{refused, Refused, refused-Refused}

-- Descriptor 7 is connecting.
abbrev trying : Connector
trying = record init {
  connect_flag = true;
  state = connecting;
  channel = some 7;
  polled = true;
  opened = 1;
}

refused-Refused_example : Refused 8 trying (refused 8 trying)
refused-Refused_example = refused-Refused 8 trying refl refl
