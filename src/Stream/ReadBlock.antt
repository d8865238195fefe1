-- ===== src/Stream/ReadBlock.antt =====
-- What the reading loop makes of one written block: chitchat/src/serialize.rs.
use scuttlebutt.Prelude.{
  ℕ, suc, ◌≤◌, ◌<◌, ◌≡◌, some, inl, inr, Option-cases, List, ◌++◌, length, length-append,
  take-append, drop-append, le→ltb, arith,
}
use mathlib.Core.List.{append_assoc}
use scuttlebutt.Wire.{feed}
use scuttlebutt.Wire.Ints.{serialize_u16, deserialize_u16_lem, deserialize_u8_lem}
use scuttlebutt.Stream.{
  Compressor, BlockType, serialize_block_type, deserialize_block_type, packed_block,
}
use scuttlebutt.Stream.Read.{take_bytes, sized_bytes, read_blocks}

take_bytes_lem :
    (bytes rest : List ℕ) → take_bytes (length bytes) (bytes ++ rest) ≡ some (bytes, rest)
unfolding take_bytes
take_bytes_lem bytes rest = rw (
  le→ltb (length bytes) (length (bytes ++ rest)) (omega (arith, length-append {0} bytes rest)),
  take-append,
  drop-append,
)

sized_bytes_lem :
    (bytes rest : List ℕ)
    → length bytes < 65536
    → sized_bytes (serialize_u16 (length bytes) ++ (bytes ++ rest)) ≡ some (bytes, rest)
unfolding sized_bytes
sized_bytes_lem bytes rest h =
    rw (deserialize_u16_lem (length bytes) h (bytes ++ rest), feed) (take_bytes_lem bytes rest)

pub deserialize_block_type_lem :
    (t : BlockType) (rest : List ℕ)
    → deserialize_block_type (serialize_block_type t ++ rest) ≡ some (t, rest)
unfolding deserialize_block_type serialize_block_type
deserialize_block_type_lem BlockType.no_more_blocks rest = rw (deserialize_u8_lem 0 rest, feed)
deserialize_block_type_lem BlockType.compressed rest = rw (deserialize_u8_lem 1 rest, feed)
deserialize_block_type_lem BlockType.uncompressed rest = rw (deserialize_u8_lem 2 rest, feed)

module _ (z : Compressor) where
  -- One written block is one round of the loop.
  pub read_block_lem :
      (fuel : ℕ) (read block rest : List ℕ)
      → length block ≤ 65535
      → read_blocks z (suc fuel) read (packed_block z block (z.compress block) ++ rest)
        ≡ read_blocks z fuel (read ++ block) rest
  unfolding read_blocks
  read_block_lem fuel read block rest h = elim (Option-cases (z.compress block)) [
    | inl e ↦
        rw (e, packed_block)
          (simp (
            append_assoc,
            deserialize_block_type_lem BlockType.uncompressed,
            sized_bytes_lem block rest (omega arith),
          ))
    | inr (packed, e) ↦
        rw (e, packed_block)
          (simp (
            append_assoc,
            deserialize_block_type_lem BlockType.compressed,
            sized_bytes_lem packed rest (omega (arith, z.compress_fits block packed e)),
            z.decompress-compress block packed h e,
          ))
  ]
