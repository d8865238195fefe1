-- ===== src/Wire/Ints.antt =====
-- The integers, `bool` and byte arrays of chitchat/src/serialize.rs, least significant byte first.
use scuttlebutt.Prelude.{
  ℕ, zero, suc, ◌+◌, ◌*◌, ◌/◌, ◌%◌, ◌^◌, ◌<◌, ◌≡◌, refl, ap, Bool, none, some, List, [], ◌∷◌, ◌++◌,
  length, take, drop, take-append, drop-append, length-append, if◌then◌else◌, ltb, ◌==◌, not, arith,
  le→ltb,
}
use scuttlebutt.Wire.{Parser, ◌>>=◌, pure, fail, feed}

-- `to_le_bytes` of an integer of `n` bytes
unfoldable pub to_le_bytes : ℕ → ℕ → List ℕ
to_le_bytes zero x = []
to_le_bytes (suc n) x = (x % 256) ∷ to_le_bytes n (x / 256)

unfoldable pub from_le_bytes : List ℕ → ℕ
from_le_bytes [] = 0
from_le_bytes (b ∷ bs) = b + 256 * from_le_bytes bs

-- `[u8; N]`
unfoldable pub deserialize_array : ℕ → Parser (List ℕ)
deserialize_array n buf = if ltb (length buf) n then none else some (take n buf, drop n buf)

unfoldable pub deserialize_int : ℕ → Parser ℕ
unfolding deserialize_array from_le_bytes
deserialize_int n = do bytes ← deserialize_array n; pure (from_le_bytes bytes)

pub length-to_le_bytes : (n x : ℕ) → length (to_le_bytes n x) ≡ n
unfolding to_le_bytes
length-to_le_bytes zero x = refl
length-to_le_bytes (suc n) x = ap suc (length-to_le_bytes n (x / 256))

pub from_le_bytes-to_le_bytes : (n x : ℕ) → x < 256 ^ n → from_le_bytes (to_le_bytes n x) ≡ x
unfolding to_le_bytes from_le_bytes
from_le_bytes-to_le_bytes zero x h = omega arith
from_le_bytes-to_le_bytes (suc n) x h =
    omega (arith, from_le_bytes-to_le_bytes n (x / 256) (omega arith))

pub deserialize_array_lem :
    (n : ℕ) (bytes rest : List ℕ)
    → length bytes ≡ n
    → deserialize_array n (bytes ++ rest) ≡ some (bytes, rest)
unfolding deserialize_array
deserialize_array_lem n bytes rest h = rw (
  ← h,
  le→ltb (length bytes) (length (bytes ++ rest)) (omega (arith, length-append {0} bytes rest)),
  take-append,
  drop-append,
)

pub deserialize_int_lem :
    (n x : ℕ) (rest : List ℕ)
    → x < 256 ^ n
    → deserialize_int n (to_le_bytes n x ++ rest) ≡ some (x, rest)
unfolding deserialize_int
deserialize_int_lem n x rest h =
    rw (deserialize_array_lem n (to_le_bytes n x) rest (length-to_le_bytes n x), feed)
      (ap (λ (y : ℕ). some (y, rest)) (from_le_bytes-to_le_bytes n x h))

unfoldable pub serialize_u8 : ℕ → List ℕ
serialize_u8 x = x ∷ []

-- `byte[0]`; an array of one byte is never empty
abbrev pub first_byte : List ℕ → Parser ℕ
first_byte [] = fail
first_byte (b ∷ bs) = pure b

unfoldable pub deserialize_u8 : Parser ℕ
unfolding deserialize_array
deserialize_u8 = do byte ← deserialize_array 1; first_byte byte

unfoldable pub serialize_u16 : ℕ → List ℕ
unfolding to_le_bytes
serialize_u16 x = to_le_bytes 2 x

unfoldable pub deserialize_u16 : Parser ℕ
unfolding deserialize_int
deserialize_u16 = deserialize_int 2

unfoldable pub serialize_u32 : ℕ → List ℕ
unfolding to_le_bytes
serialize_u32 x = to_le_bytes 4 x

unfoldable pub deserialize_u32 : Parser ℕ
unfolding deserialize_int
deserialize_u32 = deserialize_int 4

unfoldable pub serialize_u64 : ℕ → List ℕ
unfolding to_le_bytes
serialize_u64 x = to_le_bytes 8 x

unfoldable pub deserialize_u64 : Parser ℕ
unfolding deserialize_int
deserialize_u64 = deserialize_int 8

unfoldable pub serialize_bool : Bool → List ℕ
serialize_bool b = (if b then 1 else 0) ∷ []

unfoldable pub deserialize_bool : Parser Bool
unfolding deserialize_u8
deserialize_bool = do byte ← deserialize_u8; pure (not (byte == 0))

-- The laws, one pair for each type.
abbrev pub IsU8 : ℕ → Type 0
IsU8 x = x < 256

abbrev pub IsU16 : ℕ → Type 0
IsU16 x = x < 256 ^ 2

abbrev pub IsU64 : ℕ → Type 0
IsU64 x = x < 256 ^ 8

pub deserialize_u8_lem : (b : ℕ) (rest : List ℕ) → deserialize_u8 (b ∷ rest) ≡ some (b, rest)
unfolding deserialize_u8
deserialize_u8_lem b rest = rw (deserialize_array_lem 1 (b ∷ []) rest refl, feed)

pub deserialize_u16_lem :
    (x : ℕ) → IsU16 x → (rest : List ℕ) → deserialize_u16 (serialize_u16 x ++ rest) ≡ some (x, rest)
unfolding deserialize_u16 serialize_u16
deserialize_u16_lem x h rest = deserialize_int_lem 2 x rest h

pub deserialize_u64_lem :
    (x : ℕ) → IsU64 x → (rest : List ℕ) → deserialize_u64 (serialize_u64 x ++ rest) ≡ some (x, rest)
unfolding deserialize_u64 serialize_u64
deserialize_u64_lem x h rest = deserialize_int_lem 8 x rest h

pub length-serialize_u16 : (x : ℕ) → length (serialize_u16 x) ≡ 2
unfolding serialize_u16
length-serialize_u16 x = length-to_le_bytes 2 x

pub length-serialize_u64 : (x : ℕ) → length (serialize_u64 x) ≡ 8
unfolding serialize_u64
length-serialize_u64 x = length-to_le_bytes 8 x
