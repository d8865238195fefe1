-- ===== src/Stream.antt =====
-- The compressed stream of chitchat/src/serialize.rs: `CompressedStreamWriter`, `deserialize_stream`
-- and `BlockType`. `zstd` is a parameter. A failed `assert!` is `none`. The scratch buffer
-- `compressed_block` holds nothing between calls and is left out.
pub mod Bound
pub mod Done
pub mod Exceeded
pub mod ReadBlock
pub mod Read
pub mod RoundTrip
pub mod Items
use scuttlebutt.Prelude.{
  ℕ, zero, suc, ◌+◌, ◌≤◌, ◌≡◌, Bool, Option, none, some, List, [], ◌∷◌, ◌++◌, length, take, drop,
  if◌then◌else◌, ltb, leb, ◌==◌, min,
}
use scuttlebutt.Wire.{Parser, ◌>>=◌, pure, fail, Serde}
use scuttlebutt.Wire.Ints.{serialize_u16, deserialize_u8}

-- `zstd::bulk::compress_to_buffer` into a buffer of the length of its input, and
-- `decompress_to_buffer` into a buffer of 65535 bytes; `none` is an error.
pub record Compressor : Type 0 where
  pub compress : List ℕ → Option (List ℕ)
  pub decompress : List ℕ → Option (List ℕ)
  pub compress_fits :
      (block packed : List ℕ) → compress block ≡ some packed → length packed ≤ length block
  pub decompress-compress :
      (block packed : List ℕ)
      → length block ≤ 65535
      → compress block ≡ some packed
      → decompress packed ≡ some block

pub data BlockType : Type 0 where
  no_more_blocks compressed uncompressed : BlockType

unfoldable pub serialize_block_type : BlockType → List ℕ
serialize_block_type BlockType.no_more_blocks = 0 ∷ []
serialize_block_type BlockType.compressed = 1 ∷ []
serialize_block_type BlockType.uncompressed = 2 ∷ []

abbrev pub block_type_of : ℕ → Parser BlockType
block_type_of b =
    if b == 0
    then pure BlockType.no_more_blocks
    else if b == 1
    then pure BlockType.compressed
    else if b == 2
    then pure BlockType.uncompressed
    else fail

unfoldable pub deserialize_block_type : Parser BlockType
deserialize_block_type = do byte ← deserialize_u8; block_type_of byte

pub record CompressedStreamWriter : Type 0 where
  pub output : List ℕ
  pub uncompressed_block : List ℕ
  pub block_threshold : ℕ

unfoldable pub with_block_threshold : ℕ → CompressedStreamWriter
with_block_threshold n = record { output = []; uncompressed_block = []; block_threshold = n }

abbrev block_meta_len : ℕ
block_meta_len = 3

-- `serialized_len_upperbound_after`, for an item of the given length
unfoldable pub upperbound_after : ℕ → CompressedStreamWriter → Option ℕ
upperbound_after item_len w =
    if item_len == 0
    then none
    else some (
        if ltb w.block_threshold (length w.uncompressed_block + item_len)
        then block_meta_len
          + length w.output
          + length w.uncompressed_block
          + block_meta_len
          + item_len
          + 1
        else block_meta_len + length w.output + length w.uncompressed_block + item_len + 1)

module _ (z : Compressor) where
  -- A block as it is written: its type, its length and its bytes.
  abbrev pub packed_block : List ℕ → Option (List ℕ) → List ℕ
  packed_block block (some packed) =
      serialize_block_type BlockType.compressed ++ (serialize_u16 (length packed) ++ packed)
  packed_block block none =
      serialize_block_type BlockType.uncompressed ++ (serialize_u16 (length block) ++ block)

  unfoldable pub flush_block : CompressedStreamWriter → CompressedStreamWriter
  flush_block w =
      let n = min (length w.uncompressed_block) w.block_threshold in
      let block = take n w.uncompressed_block in
      if length w.uncompressed_block == 0 then w else record w {
        output = w.output ++ packed_block block (z.compress block);
        uncompressed_block = drop n w.uncompressed_block;
      }

  -- `while self.uncompressed_block.len() > self.block_threshold`
  unfoldable pub flush_while : ℕ → CompressedStreamWriter → CompressedStreamWriter
  unfolding flush_block
  flush_while zero w = w
  flush_while (suc fuel) w =
      let rest = flush_while fuel (flush_block w) in
      if ltb w.block_threshold (length w.uncompressed_block) then rest else w

  -- `append`, of an item with the given bytes. Each round of the loop takes a byte at least.
  unfoldable pub append_bytes : List ℕ → CompressedStreamWriter → CompressedStreamWriter
  unfolding flush_while
  append_bytes bytes w =
      let w' = record w { uncompressed_block = w.uncompressed_block ++ bytes } in
      flush_while (length w'.uncompressed_block) w'

  unfoldable pub append :
      {A : Type 0} → Serde A → A → CompressedStreamWriter → Option CompressedStreamWriter
  unfolding append_bytes
  append S item w =
      if leb (S.serialized_len item) 65535 then some (append_bytes (S.serialize item) w) else none

  unfoldable pub finish : CompressedStreamWriter → List ℕ
  unfolding flush_block
  finish w = (flush_block w).output ++ serialize_block_type BlockType.no_more_blocks
