-- ===== src/Kcp/KcpUtils.antt =====
-- src/kcp/KcpUtils.h, and the number at the end of a handshake's answer.
use libcpp.Prelude.{
  ℕ, ◌^◌, ◌<◌, ◌≡◌, ◌≢◌, refl, Bool, true, false, Option, none, some, [], ◌∷◌, ◌++◌, arith,
  if◌then◌else◌, ltb,
}
use libcpp.Prelude.Bytes.{Bytes, codes, starts_with, starts_with-append}
use libcpp.Prelude.Decimal.{
  decimal, is_digit, all_digits, read_digits, read_digits-decimal, all_digits-decimal,
  decimal-ne-nil,
}

abbrev pub handshake_syn : Bytes
handshake_syn = codes "This is a kcp handshake syn"

abbrev pub close_msg : Bytes
close_msg = codes "I want to close the connection"

abbrev pub handshake_ack : Bytes
handshake_ack = codes "Your conv is "

unfoldable pub is_handshake_syn : Bytes → Bool
is_handshake_syn msg = starts_with handshake_syn msg

unfoldable pub is_handshake_ack : Bytes → Bool
is_handshake_ack msg = starts_with handshake_ack msg

unfoldable pub is_close_packet : Bytes → Bool
is_close_packet msg = starts_with close_msg msg

-- The answer to a handshake.
abbrev pub ack : ℕ → Bytes
ack conv = handshake_ack ++ decimal conv

-- `payload.substr(payload.find_last_not_of("0123456789") + 1)`
unfoldable pub last_digits : Bytes → Bytes
last_digits [] = []
last_digits (c ∷ s) = let rest = last_digits s in if all_digits (c ∷ s) then c ∷ s else rest

-- `std::stoul` of digits: it throws if there are none, or if the number does not fit.
unfoldable pub stoul : Bytes → Option ℕ
stoul [] = none
stoul (c ∷ s) = let n = read_digits 0 (c ∷ s) in if ltb n (2 ^ 64) then some n else none

last_digits-digits : (s : Bytes) → all_digits s ≡ true → last_digits s ≡ s
unfolding last_digits
last_digits-digits [] h = refl
last_digits-digits (c ∷ s) h = rw h refl

last_digits-append :
    (p : Bytes) (c : ℕ) (s : Bytes)
    → is_digit c ≡ false
    → all_digits s ≡ true
    → last_digits (p ++ (c ∷ s)) ≡ s
unfolding last_digits all_digits
last_digits-append [] c s h d = rw h (last_digits-digits s d)
last_digits-append (x ∷ p) c s h d = rw (other (x ∷ p)) (last_digits-append p c s h d)
  where
    other : (p : Bytes) → all_digits (p ++ (c ∷ s)) ≡ false
    other [] = rw h refl
    other (x ∷ p) = ground (arith, other p)

stoul-digits : (s : Bytes) (n : ℕ) → s ≢ [] → read_digits 0 s ≡ n → n < 2 ^ 64 → stoul s ≡ some n
unfolding stoul
stoul-digits [] n h e b = absurd (h refl)
stoul-digits (c ∷ s) n h e b = rw e (ground arith)

-- The number that an answer ends in.
abbrev pub conv_in : Bytes → Option ℕ
conv_in payload = stoul (last_digits payload)

pub conv_in-ack : (conv : ℕ) → conv < 2 ^ 32 → conv_in (ack conv) ≡ some conv
conv_in-ack conv h =
    rw (last_digits-append (codes "Your conv is") 32 (decimal conv) refl (all_digits-decimal conv))
      (stoul-digits (decimal conv) conv (decimal-ne-nil conv) (read_digits-decimal conv)
        (omega arith))

pub is_handshake_ack-ack : (conv : ℕ) → is_handshake_ack (ack conv) ≡ true
unfolding is_handshake_ack
is_handshake_ack-ack conv = starts_with-append handshake_ack (decimal conv)

pub is_handshake_syn-ack : (conv : ℕ) → is_handshake_syn (ack conv) ≡ false
unfolding is_handshake_syn starts_with
is_handshake_syn-ack conv = refl
