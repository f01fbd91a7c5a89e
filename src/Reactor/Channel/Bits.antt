-- ===== src/Reactor/Channel/Bits.antt =====
-- `events_` of class Channel as two flags: only four values ever occur.
use Prim.Native.Nat.{bit_or}
use libcpp.Prelude.{ℕ, ◌≡◌, refl, Bool, true, false, not, ◌||◌, ◌==◌, if◌then◌else◌, []}
use libcpp.Reactor.Channel.{
  Channel, Callbacks, read_event, write_event, has, clear, enable_reading, enable_writing,
  disable_reading, disable_writing, is_writing, is_none_event, handle_event,
}

-- The value of `events_` that stands for an interest in reading and in writing.
abbrev pub interest : Bool → Bool → ℕ
interest r w = bit_or (if r then read_event else 0) (if w then write_event else 0)

abbrev pub Wants : Bool → Bool → Channel → Type 0
Wants r w c = c.events ≡ interest r w

-- A fact about two flags holds if it holds of the four values.
by_flags :
    (P : Bool → Bool → Type 0)
    → P true true
    → P true false
    → P false true
    → P false false
    → (r w : Bool) → P r w
by_flags P tt' tf ft ff true true = tt'
by_flags P tt' tf ft ff true false = tf
by_flags P tt' tf ft ff false true = ft
by_flags P tt' tf ft ff false false = ff

module _ (r w : Bool) (c : Channel) (h : Wants r w c) where
  pub enable_reading-Wants : Wants true w (enable_reading c)
  unfolding enable_reading
  enable_reading-Wants =
      rw h (
        by_flags (λ r w. bit_or (interest r w) read_event ≡ interest true w) refl refl refl refl r
          w)

  pub enable_writing-Wants : Wants r true (enable_writing c)
  unfolding enable_writing
  enable_writing-Wants = rw h (
      by_flags (λ r w. bit_or (interest r w) write_event ≡ interest r true) refl refl refl refl r w)

  pub disable_reading-Wants : Wants false w (disable_reading c)
  unfolding disable_reading
  disable_reading-Wants =
      rw h (
        by_flags (λ r w. clear (interest r w) read_event ≡ interest false w) refl refl refl refl r
          w)

  pub disable_writing-Wants : Wants r false (disable_writing c)
  unfolding disable_writing
  disable_writing-Wants = rw h (
      by_flags (λ r w. clear (interest r w) write_event ≡ interest r false) refl refl refl refl r w)

  pub is_writing-Wants : is_writing c ≡ w
  unfolding is_writing
  is_writing-Wants =
      rw h (by_flags (λ r w. has (interest r w) write_event ≡ w) refl refl refl refl r w)

  pub is_none_event-Wants : is_none_event c ≡ not (r || w)
  unfolding is_none_event
  is_none_event-Wants =
      rw h (by_flags (λ r w. (interest r w == 0) ≡ not (r || w)) refl refl refl refl r w)

abbrev pub pollhup : ℕ
pollhup = 0x10

-- A hang-up that comes alone calls nothing, whatever callbacks are set: the close callback of a
-- channel is stored and never looked at.
pub handle_event-pollhup :
    (set : Callbacks) (c : Channel) → c.revents ≡ pollhup → handle_event set c ≡ []
unfolding handle_event
handle_event-pollhup set c h = rw h refl
