-- ===== src/Datetime/TimeStamp/Tests.antt =====
-- The text of 12.000345 seconds.
use libcpp.Prelude.{◌≡◌, refl, some, arith}
use libcpp.Prelude.Bytes.{codes}
use libcpp.Prelude.Decimal.{padded, decimal, digits}
use libcpp.Datetime.TimeStamp.{pos, negsuc, to_string}
use libcpp.Datetime.TimeStamp.Text.{parse, parse-to_string}

parse-to_string_example : parse (to_string (pos 12000345)) ≡ some 12000345
parse-to_string_example = parse-to_string 12000345 (omega arith)

-- Half a second before the epoch.
below_epoch : to_string (negsuc 499999) ≡ codes "0.-500000"
unfolding to_string padded decimal digits
below_epoch = refl
