-- ===== src/Binary/Utf8.antt =====
-- `String::from_utf8` of the standard library: whether bytes are UTF-8. Surrogates, overlong forms
-- and code points above U+10FFFF are none.
use delta_stream.Common.{
  ℕ, zero, suc, Bool, true, false, ◌&&◌, List, [], ◌∷◌, ltb, leb, if◌then◌else◌,
}

unfoldable pub within : ℕ → ℕ → ℕ → Bool
within lo hi b = leb lo b && leb b hi

-- What may follow: nothing pending, or so many continuation bytes, of which the next one has the
-- given range.
pub data Pending : Type 0 where
  start broken : Pending
  more : ℕ → ℕ → ℕ → Pending

unfoldable pub first_byte : ℕ → Pending
unfolding within
first_byte b =
    if ltb b 0x80
    then start
    else if within 0xc2 0xdf b
    then more 0 0x80 0xbf
    else if within 0xe0 0xe0 b
    then more 1 0xa0 0xbf
    else if within 0xed 0xed b
    then more 1 0x80 0x9f
    else if within 0xe1 0xef b
    then more 1 0x80 0xbf
    else if within 0xf0 0xf0 b
    then more 2 0x90 0xbf
    else if within 0xf1 0xf3 b
    then more 2 0x80 0xbf
    else if within 0xf4 0xf4 b
    then more 2 0x80 0x8f
    else broken

unfoldable pub next_byte : Pending → ℕ → Pending
unfolding first_byte
next_byte start b = first_byte b
next_byte broken b = broken
next_byte (more left lo hi) b =
    if within lo hi b then elim left [ zero ↦ start | suc n ↦ more n 0x80 0xbf ] else broken

unfoldable pub is_utf8_from : Pending → List ℕ → Bool
unfolding next_byte
is_utf8_from start [] = true
is_utf8_from broken [] = false
is_utf8_from (more left lo hi) [] = false
is_utf8_from p (b ∷ bytes) = is_utf8_from (next_byte p b) bytes

unfoldable pub is_utf8 : List ℕ → Bool
unfolding is_utf8_from
is_utf8 bytes = is_utf8_from start bytes
