-- ===== src/Stream/Read.antt =====
-- `deserialize_stream` of chitchat/src/serialize.rs. Each round of either loop takes a byte at least,
-- so the number of bytes is fuel enough; running out of it is `none`.
use scuttlebutt.Prelude.{
  ℕ, zero, suc, Option, none, some, List, [], ◌∷◌, ◌++◌, length, take, drop, if◌then◌else◌, ltb,
}
use scuttlebutt.Wire.{Parser, ◌>>=◌, pure, fail, lift, feed, Serde}
use scuttlebutt.Wire.Ints.{deserialize_u16}
use scuttlebutt.Stream.{Compressor, BlockType, deserialize_block_type}

-- `buf.get(..len)` and `buf.advance(len)`
unfoldable pub take_bytes : ℕ → Parser (List ℕ)
take_bytes len buf = if ltb (length buf) len then none else some (take len buf, drop len buf)

unfoldable pub sized_bytes : Parser (List ℕ)
sized_bytes = do len ← deserialize_u16; take_bytes len

module _ (z : Compressor) where
  unfoldable pub read_blocks : ℕ → List ℕ → Parser (List ℕ)
  read_blocks zero read = fail
  read_blocks (suc fuel) read = do
    block_type ← deserialize_block_type
    elim block_type [
      | BlockType.compressed ↦ do
        packed ← sized_bytes
        block ← lift (z.decompress packed)
        read_blocks fuel (read ++ block)
      | BlockType.uncompressed ↦ do block ← sized_bytes; read_blocks fuel (read ++ block)
      | BlockType.no_more_blocks ↦ pure read
    ]

-- `while !decompressed_cursor.is_empty()`, with the items so far
unfoldable pub read_items : {A : Type 0} → Serde A → ℕ → List A → List ℕ → Option (List A)
read_items S fuel items [] = some items
read_items S zero items (b ∷ bs) = none
read_items S (suc fuel) items (b ∷ bs) = elim (S.deserialize (b ∷ bs)) [
  | none ↦ none
  | some (item, rest) ↦ read_items S fuel (items ++ (item ∷ [])) rest
]

unfoldable pub deserialize_stream : {A : Type 0} → Compressor → Serde A → Parser (List A)
deserialize_stream z S buf =
    feed (λ bytes. lift (read_items S (length bytes) [] bytes)) (read_blocks z (length buf) [] buf)
