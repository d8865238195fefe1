-- ===== src/Stream/Done.antt =====
-- The loop of `CompressedStreamWriter::append`: chitchat/src/serialize.rs.
use scuttlebutt.Prelude.{ℕ, zero, suc, ◌+◌, ◌≤◌, ◌<◌, ◌≡◌, List, ◌++◌, length, refl, arith}
use scuttlebutt.Stream.{Compressor, CompressedStreamWriter, flush_block, flush_while, append_bytes}
use scuttlebutt.Stream.Bound.{flush_cost}

module _ (z : Compressor) where
  flush_block_threshold :
      (w : CompressedStreamWriter) → (flush_block z w).block_threshold ≡ w.block_threshold
  unfolding flush_block
  flush_block_threshold w = ground arith

  pub flush_while_done :
      (fuel : ℕ) (w : CompressedStreamWriter)
      → 0 < w.block_threshold
      → length w.uncompressed_block ≤ fuel + w.block_threshold
      → length (flush_while z fuel w).uncompressed_block ≤ w.block_threshold
  unfolding flush_while
  flush_while_done zero w pos h = omega arith
  flush_while_done (suc fuel) w pos h =
      ground (arith, flush_cost z w pos, flush_while_done fuel (flush_block z w))

  -- With a positive threshold the loop of `append` ends by its test, whatever the length of the item:
  -- at most a block is left waiting.
  pub append_bytes_done :
      (bytes : List ℕ) (w : CompressedStreamWriter)
      → 0 < w.block_threshold
      → length (append_bytes z bytes w).uncompressed_block ≤ w.block_threshold
  unfolding append_bytes
  append_bytes_done bytes w pos =
      let w' = record w { uncompressed_block = w.uncompressed_block ++ bytes } in
      flush_while_done (length (w.uncompressed_block ++ bytes)) w' pos (omega arith)

  flush_while_threshold :
      (fuel : ℕ) (w : CompressedStreamWriter)
      → (flush_while z fuel w).block_threshold ≡ w.block_threshold
  unfolding flush_while
  flush_while_threshold zero w = refl
  flush_while_threshold (suc fuel) w =
      ground (arith, flush_block_threshold w, flush_while_threshold fuel (flush_block z w))

  pub append_bytes_threshold :
      (bytes : List ℕ) (w : CompressedStreamWriter)
      → (append_bytes z bytes w).block_threshold ≡ w.block_threshold
  unfolding append_bytes
  append_bytes_threshold bytes w =
      flush_while_threshold (length (w.uncompressed_block ++ bytes))
        (record w { uncompressed_block = w.uncompressed_block ++ bytes })
