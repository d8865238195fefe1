-- ===== src/Stream/Bound.antt =====
-- The length of a stream: chitchat/src/serialize.rs.
use scuttlebutt.Prelude.{
  ℕ, zero, suc, ◌+◌, ◌-◌, ◌*◌, ◌≤◌, ◌<◌, ◌≡◌, some, inl, inr, Option-cases, Bool-cases, List, ◌++◌,
  length, take, length-append, length-take, length-drop, min, ltb, lt→ltb, refl, [], ◌∷◌,
  if◌then◌else◌, ◌==◌, arith,
}
use scuttlebutt.Wire.Ints.{serialize_u16, length-serialize_u16}
use scuttlebutt.Stream.{
  Compressor, CompressedStreamWriter, serialize_block_type, packed_block, flush_block, flush_while,
  append_bytes, finish, upperbound_after,
}

module _ (z : Compressor) where
  packed_block_len :
      (block : List ℕ) → length (packed_block z block (z.compress block)) ≤ 3 + length block
  packed_block_len block = elim (Option-cases (z.compress block)) [
    | inl e ↦ rw e (
        unfold serialize_block_type in
        omega (
          arith,
          length-append {0} (serialize_u16 (length block)) block,
          length-serialize_u16 (length block),
        ))
    | inr (packed, e) ↦ rw e (
        unfold serialize_block_type in
        omega (
          arith,
          length-append {0} (serialize_u16 (length packed)) packed,
          length-serialize_u16 (length packed),
          z.compress_fits block packed e,
        ))
  ]

  -- The bytes that are waiting cost their number and one block header, if there are any.
  abbrev pub pending : ℕ → ℕ
  pending n = if n == 0 then 0 else 3 + n

  pub flush_cost :
      (w : CompressedStreamWriter)
      → 0 < w.block_threshold
      → (length (flush_block z w).output
          ≤ length w.output + pending (min (length w.uncompressed_block) w.block_threshold))
        × (length (flush_block z w).uncompressed_block
            ≡ length w.uncompressed_block - min (length w.uncompressed_block) w.block_threshold)
        × ((flush_block z w).block_threshold ≡ w.block_threshold)
  unfolding flush_block
  flush_cost w pos =
      let n = min (length w.uncompressed_block) w.block_threshold in
      let block = take n w.uncompressed_block in
      ground (
        arith,
        packed_block_len block,
        length-append {0} w.output (packed_block z block (z.compress block)),
        length-take {0} n w.uncompressed_block (ground arith),
        length-drop {0} n w.uncompressed_block,
      )

  -- The length of the stream if it ended now is at most this.
  abbrev pub cost : CompressedStreamWriter → ℕ
  cost w = length w.output + pending (length w.uncompressed_block) + 1

  flush_while_small :
      (fuel : ℕ) (w : CompressedStreamWriter)
      → length w.uncompressed_block ≤ w.block_threshold
      → flush_while z fuel w ≡ w
  unfolding flush_while
  flush_while_small zero w h = refl
  flush_while_small (suc fuel) w h = ground arith

  flush_while_once :
      (fuel : ℕ) (w : CompressedStreamWriter)
      → 0 < fuel
      → 0 < w.block_threshold
      → w.block_threshold < length w.uncompressed_block
      → length w.uncompressed_block ≤ 2 * w.block_threshold
      → flush_while z fuel w ≡ flush_block z w
  unfolding flush_while
  flush_while_once zero w f pos h k = absurd (omega arith)
  flush_while_once (suc fuel) w f pos h k =
      rw (lt→ltb w.block_threshold (length w.uncompressed_block) h, flush_while)
        (flush_while_small fuel (flush_block z w) (ground (arith, flush_cost w pos)))

  -- `finish` writes at most what the stream costs.
  pub length-finish :
      (w : CompressedStreamWriter)
      → 0 < w.block_threshold
      → length w.uncompressed_block ≤ w.block_threshold
      → length (finish z w) ≤ cost w
  unfolding finish serialize_block_type
  length-finish w pos h =
      ground (arith, flush_cost w pos, length-append {0} (flush_block z w).output (0 ∷ []))

  -- With a positive threshold and at most two blocks waiting after an append, the length that the
  -- stream would end with is at most the announced upper bound, the threshold is kept, and at most a
  -- block is left waiting.
  pub append_bytes_bound :
      (bytes : List ℕ) (w : CompressedStreamWriter) (bound : ℕ)
      → 0 < w.block_threshold
      → length w.uncompressed_block + length bytes ≤ 2 * w.block_threshold
      → upperbound_after (length bytes) w ≡ some bound
      → (cost (append_bytes z bytes w) ≤ bound)
        × (length (append_bytes z bytes w).uncompressed_block ≤ w.block_threshold)
        × ((append_bytes z bytes w).block_threshold ≡ w.block_threshold)
  unfolding append_bytes upperbound_after
  append_bytes_bound bytes w bound pos small e =
      let w' = record w { uncompressed_block = w.uncompressed_block ++ bytes } in
      let total = length-append {0} w.uncompressed_block bytes in
      elim (Bool-cases (ltb w.block_threshold (length w.uncompressed_block + length bytes))) [
        | inl big ↦
            rw
              (flush_while_once (length (w.uncompressed_block ++ bytes)) w' (ground (arith, total))
                pos (ground (arith, total)) (ground (arith, total)))
              (ground (arith, total, flush_cost w' pos))
        | inr fits ↦
            rw
              (flush_while_small (length (w.uncompressed_block ++ bytes)) w'
                (ground (arith, total)))
              (ground (arith, total))
      ]
