-- ===== src/Text/Utf.antt =====
-- kernel/text/utf.cpp: names in UTF-16 and in UTF-8, where a surrogate without its other half is encoded
-- by itself. Units and bytes are numbers below 2 ^ 16 and 2 ^ 8; a text in UTF-8 is the list of its bytes
-- before the null. A mask is % and /, and | of disjoint bits is +.
pub mod Points
pub mod RoundTrip
mod Tests
use shirleys_os.Prelude.{
  ℕ, zero, suc, ◌+◌, ◌-◌, ◌*◌, ◌/◌, ◌%◌, Bool, true, false, not, ◌&&◌, ◌==◌, ltb, leb,
  if◌then◌else◌, List, [], ◌∷◌, ◌++◌, length, Option, none, some,
}

unfoldable pub high_surrogate : ℕ → Bool
high_surrogate unit = leb 0xd800 unit && leb unit 0xdbff

unfoldable pub low_surrogate : ℕ → Bool
low_surrogate unit = leb 0xdc00 unit && leb unit 0xdfff

-- The loop of `put` from the last byte to the second: those bytes and what is left of the point.
unfoldable pub continuations : ℕ → ℕ → List ℕ → List ℕ × ℕ
continuations zero point behind = (behind, point)
continuations (suc left) point behind =
    continuations left (point / 64) ((0x80 + point % 64) ∷ behind)

-- `lead[bytes]`
unfoldable pub lead_bits : ℕ → ℕ
lead_bits bytes =
    if bytes == 2 then 0xc0 else if bytes == 3 then 0xe0 else if bytes == 4 then 0xf0 else 0

unfoldable pub width : ℕ → ℕ
width point =
    if ltb point 0x80 then 1 else if ltb point 0x800 then 2 else if ltb point 0x10000 then 3 else 4

unfoldable pub encoded : ℕ → ℕ → List ℕ
unfolding continuations lead_bits
encoded bytes point =
    let (behind, top) = continuations (bytes - 1) point [] in (lead_bits bytes + top) ∷ behind

-- The bytes that `put` writes where `left` is `capacity - used`, and one of them is for the null.
unfoldable pub put : ℕ → ℕ → Option (List ℕ)
unfolding encoded width
put left point = if leb left (width point) then none else some (encoded (width point) point)

unfoldable pub pair_point : ℕ → ℕ → ℕ
pair_point high low = 0x10000 + (high - 0xd800) * 1024 + (low - 0xdc00)

unfoldable pub joined : List ℕ → Option (List ℕ) → Option (List ℕ)
joined bytes none = none
joined bytes (some rest) = some (bytes ++ rest)

-- The loop of `utf16_to_utf8`.
unfoldable pub encode_from : List ℕ → ℕ → Option (List ℕ)
unfolding high_surrogate low_surrogate put width pair_point joined
encode_from [] left = some []
encode_from (u ∷ []) left = if u == 0 then none else put left u
encode_from (u ∷ v ∷ rest) left = elim (u == 0) [
  | true ↦ none
  | false ↦ elim (high_surrogate u && low_surrogate v) [
    | true ↦ elim (put left (pair_point u v)) [
      | none ↦ none
      | some bytes ↦ joined bytes (encode_from rest (left - width (pair_point u v)))
    ]
    | false ↦ elim (put left u) [
      | none ↦ none
      | some bytes ↦ joined bytes (encode_from (v ∷ rest) (left - width u))
    ]
  ]
]

-- The destination is left as the empty text where the answer is false; `there` and `room` are whether the
-- source and the destination are not null.
unfoldable pub utf16_to_utf8 : Bool → List ℕ → Bool → ℕ → Bool × List ℕ
unfolding encode_from
utf16_to_utf8 there units room capacity =
    if not room
    then (false, [])
    else if capacity == 0
    then (false, [])
    else if not (length units == 0) && not there
    then (false, [])
    else elim (encode_from units capacity) [ none ↦ (false, []) | some bytes ↦ (true, bytes) ]

-- What the first byte says: how many bytes follow, its bits of the point, and the least point.
unfoldable pub lead_of : ℕ → Option (ℕ × ℕ × ℕ)
lead_of lead =
    if ltb lead 0x80
    then some (0, lead, 0)
    else if lead / 32 == 6
    then some (1, lead % 32, 0x80)
    else if lead / 16 == 14
    then some (2, lead % 16, 0x800)
    else if lead / 8 == 30
    then some (3, lead % 8, 0x10000)
    else none

-- The loop over the bytes that follow, and the bytes behind them. The null that ends the text is no such
-- byte.
unfoldable pub follow : ℕ → ℕ → List ℕ → Option (ℕ × List ℕ)
follow zero point bytes = some (point, bytes)
follow (suc left) point [] = none
follow (suc left) point (b ∷ bytes) = elim (b / 64 == 2) [
  | false ↦ none
  | true ↦ follow left (point * 64 + b % 64) bytes
]

unfoldable pub in_range : ℕ → Option (ℕ × List ℕ) → Option (ℕ × List ℕ)
in_range minimum none = none
in_range minimum (some (point, bytes)) =
    if ltb point minimum then none else if ltb 0x10ffff point then none else some (point, bytes)

unfoldable pub next_point : ℕ → List ℕ → Option (ℕ × List ℕ)
unfolding lead_of follow in_range
next_point lead bytes = elim (lead_of lead) [
  | none ↦ none
  | some (behind, point, minimum) ↦ in_range minimum (follow behind point bytes)
]

-- The units of a point.
unfoldable pub units_of : ℕ → List ℕ
units_of point =
    if leb 0x10000 point
    then (0xd800 + (point - 0x10000) / 1024) ∷ (0xdc00 + (point - 0x10000) % 1024) ∷ []
    else point ∷ []

unfoldable pub behind_units : List ℕ → Bool × List ℕ → Bool × List ℕ
behind_units units (ok, rest) = (ok, units ++ rest)

-- The loop of `utf8_to_utf16`: `left` is `capacity - count`, and the answer has the units written. A round
-- takes a byte at least, so as many rounds as the text has bytes are enough.
unfoldable pub decode_from : ℕ → Bool → ℕ → List ℕ → Bool × List ℕ
unfolding next_point units_of behind_units low_surrogate high_surrogate
decode_from zero after_lone_high left bytes = (true, [])
decode_from (suc rounds) after_lone_high left [] = (true, [])
decode_from (suc rounds) after_lone_high left (b ∷ bytes) = elim (next_point b bytes) [
  | none ↦ (false, [])
  | some (point, rest) ↦ elim (after_lone_high && low_surrogate point) [
    | true ↦ (false, [])
    | false ↦ elim (ltb left (length (units_of point))) [
      | true ↦ (false, [])
      | false ↦
          behind_units (units_of point)
            (decode_from rounds (high_surrogate point) (left - length (units_of point)) rest)
    ]
  ]
]

unfoldable pub utf8_to_utf16 : Option (List ℕ) → Bool → ℕ → Bool × List ℕ
unfolding decode_from
utf8_to_utf16 none room capacity = (false, [])
utf8_to_utf16 (some bytes) room capacity =
    if not (capacity == 0) && not room
    then (false, [])
    else decode_from (length bytes) false capacity bytes
