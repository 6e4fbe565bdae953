-- ===== src/Prelude/Utf8.antt =====
-- Bytes and texts as lists of numbers, and `std::str::from_utf8` as an automaton over the bytes.
use Prim.Native.Nat.{ℕ, zero, suc, ◌/◌, ◌%◌}
use mathlib.Core.Bool.{Bool, true, false, ◌&&◌}
use mathlib.Core.List.{List, [], ◌∷◌}
use mathlib.Core.Option.{Option, none, some}
use lumen_mq.Prelude.Tests.{leb, ltb, eqb, if◌then◌else◌}

abbrev pub Bytes : Type 0
Bytes = List ℕ

-- A text is its UTF-8 bytes.
abbrev pub Str : Type 0
Str = List ℕ

abbrev pub bit : Bool → ℕ
bit true = 1
bit false = 0

-- `n & k != 0` for a power of two k.
unfoldable pub has_bit : ℕ → ℕ → Bool
has_bit n k = eqb (n / k % 2) 1

-- The continuation bytes that are still due, and the range of the next one.
pub record Utf8State : Type 0 where
  pub due : ℕ
  pub low : ℕ
  pub high : ℕ

abbrev due_next : ℕ → Utf8State
due_next n = record { due = n; low = 0x80; high = 0xbf }

-- The state after the first byte of a character (the table of RFC 3629).
utf8_lead : ℕ → Option Utf8State
utf8_lead b =
    if ltb b 0x80
    then some (due_next 0)
    else if ltb b 0xc2
    then none
    else if leb b 0xdf
    then some (due_next 1)
    else if eqb b 0xe0
    then some (record { due = 2; low = 0xa0; high = 0xbf })
    else if eqb b 0xed
    then some (record { due = 2; low = 0x80; high = 0x9f })
    else if leb b 0xef
    then some (due_next 2)
    else if eqb b 0xf0
    then some (record { due = 3; low = 0x90; high = 0xbf })
    else if leb b 0xf3
    then some (due_next 3)
    else if eqb b 0xf4
    then some (record { due = 3; low = 0x80; high = 0x8f })
    else none

utf8_step : ℕ → ℕ → ℕ → ℕ → Option Utf8State
utf8_step zero lo hi b = utf8_lead b
utf8_step (suc n) lo hi b = if leb lo b && leb b hi then some (due_next n) else none

utf8_from : Bytes → Utf8State → Bool
utf8_from [] st = eqb st.due 0
utf8_from (b ∷ bs) st = elim (utf8_step st.due st.low st.high b) [
  | none ↦ false
  | some next ↦ utf8_from bs next
]

unfoldable pub is_utf8 : Bytes → Bool
unfolding utf8_lead utf8_step utf8_from
is_utf8 bs = utf8_from bs (due_next 0)
