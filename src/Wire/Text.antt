-- ===== src/Wire/Text.antt =====
-- Strings of chitchat/src/serialize.rs, and the check of the standard library's `from_utf8`.
use scuttlebutt.Prelude.{
  ℕ, ◌+◌, ◌%◌, ◌^◌, ◌<◌, ◌≡◌, Bool, true, false, Option, none, some, List, [], ◌∷◌, ◌++◌, length,
  take, drop, length-append, take-append, drop-append, if◌then◌else◌, ltb, leb, ◌&&◌, arith, le→ltb,
}
use mathlib.Core.List.{append_assoc}
use native.Mathlib.Nat.{mod-eq_of_lt}
use scuttlebutt.Ids.{Str}
use scuttlebutt.Wire.{Parser, ◌>>=◌, feed}
use scuttlebutt.Wire.Ints.{
  serialize_u16, deserialize_u16, deserialize_u16_lem, length-serialize_u16,
}

-- The ranges of the bytes that must follow a first byte; `none` if no character begins with it.
abbrev between : ℕ → ℕ → ℕ → Bool
between lo hi b = leb lo b && leb b hi

unfoldable pub continuation : ℕ → Option (List (ℕ × ℕ))
continuation b =
    if leb b 0x7f
    then some []
    else if between 0xc2 0xdf b
    then some ((0x80, 0xbf) ∷ [])
    else if between 0xe0 0xe0 b
    then some ((0xa0, 0xbf) ∷ (0x80, 0xbf) ∷ [])
    else if between 0xed 0xed b
    then some ((0x80, 0x9f) ∷ (0x80, 0xbf) ∷ [])
    else if between 0xe1 0xef b
    then some ((0x80, 0xbf) ∷ (0x80, 0xbf) ∷ [])
    else if between 0xf0 0xf0 b
    then some ((0x90, 0xbf) ∷ (0x80, 0xbf) ∷ (0x80, 0xbf) ∷ [])
    else if between 0xf1 0xf3 b
    then some ((0x80, 0xbf) ∷ (0x80, 0xbf) ∷ (0x80, 0xbf) ∷ [])
    else if between 0xf4 0xf4 b
    then some ((0x80, 0x8f) ∷ (0x80, 0xbf) ∷ (0x80, 0xbf) ∷ [])
    else none

abbrev enter : Option (List (ℕ × ℕ)) → (List (ℕ × ℕ) → Bool) → Bool
enter none run = false
enter (some ranges) run = run ranges

-- The ranges are those of the bytes that the current character still needs.
unfoldable pub utf8_run : List ℕ → List (ℕ × ℕ) → Bool
unfolding continuation
utf8_run [] [] = true
utf8_run [] (r ∷ rs) = false
utf8_run (b ∷ bs) [] = enter (continuation b) (utf8_run bs)
utf8_run (b ∷ bs) ((lo, hi) ∷ rs) = between lo hi b && utf8_run bs rs

unfoldable pub is_utf8 : List ℕ → Bool
unfolding utf8_run
is_utf8 bytes = utf8_run bytes []

unfoldable pub serialize_str : Str → List ℕ
serialize_str s = serialize_u16 (length s % 2 ^ 16) ++ s

abbrev pub serialized_len_str : Str → ℕ
serialized_len_str s = 2 + length s

-- `buf.get(..len)`, `from_utf8` and `buf.consume(len)`
unfoldable pub take_str : ℕ → Parser Str
unfolding is_utf8
take_str len buf =
    if ltb (length buf) len
    then none
    else if is_utf8 (take len buf)
    then some (take len buf, drop len buf)
    else none

unfoldable pub deserialize_str : Parser Str
deserialize_str = do len ← deserialize_u16; take_str len

-- A string as the type guarantees it, no longer than its length prefix can say.
abbrev pub IsStr : Str → Type 0
IsStr s = (is_utf8 s ≡ true) × (length s < 2 ^ 16)

pub length-serialize_str : (s : Str) → length (serialize_str s) ≡ serialized_len_str s
unfolding serialize_str
length-serialize_str s = omega (
  arith,
  length-append {0} (serialize_u16 (length s % 2 ^ 16)) s,
  length-serialize_u16 (length s % 2 ^ 16),
)

take_str_lem : (s rest : Str) → is_utf8 s ≡ true → take_str (length s) (s ++ rest) ≡ some (s, rest)
unfolding take_str
take_str_lem s rest h = rw (
  le→ltb (length s) (length (s ++ rest)) (omega (arith, length-append {0} s rest)),
  take-append,
  drop-append,
  h,
)

-- A string of at most 65535 bytes of valid UTF-8 is read back, whatever follows it.
pub deserialize_str_lem :
    (s : Str)
    → IsStr s
    → (rest : List ℕ) → deserialize_str (serialize_str s ++ rest) ≡ some (s, rest)
unfolding deserialize_str serialize_str
deserialize_str_lem s (valid, short) rest =
    let len = length s % 2 ^ 16 in
    rw (append_assoc, deserialize_u16_lem len (omega arith) (s ++ rest), feed)
      (rw (mod-eq_of_lt short) (take_str_lem s rest valid))
