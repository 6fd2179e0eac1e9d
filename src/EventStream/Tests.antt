-- ===== src/EventStream/Tests.antt =====
-- Events that are numbers below ten, each written as one digit.
use euphony.Prelude.{
  ℕ, ◌-◌, ◌≡◌, refl, true, false, Option, some, none, List, [], ◌∷◌, ◌++◌, leb, ◌&&◌, if◌then◌else◌,
}
use euphony.EventStream.{Text, is_blank, subscribe_events}
use euphony.EventStream.Chunks.{joined, subscribe_events-joined}
use euphony.EventStream.Sending.{IsLine, stream, subscribe_events-stream}

-- A digit stands for its number; other texts are malformed.
parse_digit : Text → Option ℕ
parse_digit [] = none
parse_digit (c ∷ []) = if leb b'0' c && leb c b'9' then some (c - b'0') else none
parse_digit (c ∷ d ∷ rest) = none

abbrev chunks : List Text
chunks = (b'1' ∷ 10 ∷ b'2' ∷ []) ∷ (10 ∷ 10 ∷ []) ∷ []

delivered : (subscribe_events parse_digit chunks (b'3' ∷ [])).events ≡ 1 ∷ 2 ∷ 3 ∷ []
unfolding subscribe_events parse_digit
delivered = refl

-- A malformed line ends the subscription; the events in front of it were delivered.
malformed :
    subscribe_events parse_digit chunks (b'x' ∷ 10 ∷ b'4' ∷ [])
    ≡ record { events = 1 ∷ 2 ∷ []; failed = true }
unfolding subscribe_events parse_digit
malformed = refl

subscribe_events-joined_example :
    subscribe_events parse_digit chunks (b'x' ∷ [])
    ≡ subscribe_events parse_digit [] (b'1' ∷ 10 ∷ b'2' ∷ 10 ∷ 10 ∷ b'x' ∷ [])
subscribe_events-joined_example = subscribe_events-joined parse_digit chunks (b'x' ∷ [])

data Bit : Type 0 where
  low high : Bit

print_bit : Bit → Text
print_bit low = b'0' ∷ []
print_bit high = b'1' ∷ []

parse_bit : Text → Option Bit
parse_bit [] = none
parse_bit (c ∷ rest) = if leb c b'0' then some low else some high

parse_bit-print_bit : (b : Bit) → parse_bit (print_bit b) ≡ some b
unfolding parse_bit print_bit
parse_bit-print_bit low = refl
parse_bit-print_bit high = refl

print_bit-IsLine : (b : Bit) → IsLine (print_bit b)
unfolding print_bit
print_bit-IsLine low = (refl, tt)
print_bit-IsLine high = (refl, tt)

print_bit_visible : (b : Bit) → is_blank (print_bit b) ≡ false
unfolding print_bit
print_bit_visible low = refl
print_bit_visible high = refl

sent_in_chunks :
    joined ((b'0' ∷ []) ∷ (10 ∷ b'1' ∷ []) ∷ []) ++ 10 ∷ []
    ≡ stream parse_bit print_bit (low ∷ high ∷ [])
unfolding print_bit
sent_in_chunks = refl

subscribe_events-stream_example :
    subscribe_events parse_bit ((b'0' ∷ []) ∷ (10 ∷ b'1' ∷ []) ∷ []) (10 ∷ [])
    ≡ record { events = low ∷ high ∷ []; failed = false }
subscribe_events-stream_example =
    subscribe_events-stream parse_bit print_bit parse_bit-print_bit print_bit-IsLine
      print_bit_visible (low ∷ high ∷ []) ((b'0' ∷ []) ∷ (10 ∷ b'1' ∷ []) ∷ []) (10 ∷ [])
      sent_in_chunks
