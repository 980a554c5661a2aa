-- ===== src/Automerge/Utf8.antt =====
-- Python's strict decoders, as src/runtime/automerge.py calls them: bytes.decode("ascii") and
-- bytes.decode("utf-8"). `none` is UnicodeDecodeError.
use myndaix_runtime.Prelude.{
  ℕ, ◌+◌, ◌-◌, ◌*◌, ◌&&◌, Option, none, some, [], ◌∷◌, leb, ltb, ◌==◌, if◌then◌else◌,
}
use myndaix_runtime.Contracts.{Text}

abbrev pub prepend : Option ℕ → Option Text → Option Text
prepend c none = none
prepend none (some s) = some s
prepend (some c) (some s) = some (c ∷ s)

unfoldable pub decode_ascii : Text → Option Text
decode_ascii [] = some []
decode_ascii (b ∷ bs) =
    let rest = decode_ascii bs in if ltb b 0x80 then prepend (some b) rest else none

-- Where the decoder stands: at a first byte, or before `missing` continuation bytes of which the next
-- lies between `low` and `high`.
pub data Utf8 : Type 0 where
  at_start : Utf8
  before : (missing value low high : ℕ) → Utf8

-- The state after a byte, and the code point that it ends.
unfoldable pub first_byte : ℕ → Option (Utf8 × Option ℕ)
first_byte b =
    if ltb b 0x80
    then some (at_start, some b)
    else if leb 0xc2 b && leb b 0xdf
    then some (before 1 (b - 0xc0) 0x80 0xbf, none)
    else if b == 0xe0
    then some (before 2 0 0xa0 0xbf, none)
    else if b == 0xed
    then some (before 2 0xd 0x80 0x9f, none)
    else if leb 0xe1 b && leb b 0xef
    then some (before 2 (b - 0xe0) 0x80 0xbf, none)
    else if b == 0xf0
    then some (before 3 0 0x90 0xbf, none)
    else if leb 0xf1 b && leb b 0xf3
    then some (before 3 (b - 0xf0) 0x80 0xbf, none)
    else if b == 0xf4
    then some (before 3 4 0x80 0x8f, none)
    else none

unfoldable pub next_byte : Utf8 → ℕ → Option (Utf8 × Option ℕ)
unfolding first_byte
next_byte at_start b = first_byte b
next_byte (before missing value low high) b =
    let value' = value * 64 + (b - 0x80) in
    if leb low b && leb b high
    then (if leb missing 1
        then some (at_start, some value')
        else some (before (missing - 1) value' 0x80 0xbf, none))
    else none

unfoldable pub decode_from : Utf8 → Text → Option Text
unfolding next_byte
decode_from at_start [] = some []
decode_from (before _ _ _ _) [] = none
decode_from s (b ∷ bs) = elim (next_byte s b) [
  | none ↦ none
  | some (s', out) ↦ prepend out (decode_from s' bs)
]

unfoldable pub decode_utf8 : Text → Option Text
unfolding decode_from
decode_utf8 bytes = decode_from at_start bytes
