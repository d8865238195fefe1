-- ===== src/Stream/Exceeded.antt =====
-- The length of a stream of blocks that do not compress: chitchat/src/serialize.rs.
use scuttlebutt.Prelude.{
  ℕ, zero, suc, Bool-cases, inl, inr, ltb, ◌==◌, drop, ◌+◌, ◌-◌, ◌*◌, ◌≤◌, ◌<◌, ◌≡◌, none, some,
  List, ◌++◌, length, take, length-append, length-take, length-drop, min, [], ◌∷◌, arith,
}
use mathlib.Core.Path.{subst}
use scuttlebutt.Wire.Ints.{serialize_u16, length-serialize_u16}
use scuttlebutt.Stream.{
  Compressor, CompressedStreamWriter, serialize_block_type, packed_block, flush_block, flush_while,
  append_bytes, finish, upperbound_after,
}
use scuttlebutt.Stream.Bound.{flush_cost}
use scuttlebutt.Stream.Done.{flush_while_done}

module _ (z : Compressor) where
  -- What is written and what is waiting, together.
  abbrev total : CompressedStreamWriter → ℕ
  total w = length w.output + length w.uncompressed_block

  -- None of the next blocks that are not empty compresses, for the given number of blocks of at most
  -- `threshold` bytes.
  unfoldable pub NoneCompresses : ℕ → ℕ → List ℕ → Type 0
  NoneCompresses threshold zero bytes = Unit
  NoneCompresses threshold (suc blocks) bytes =
      let n = min (length bytes) threshold in
      (0 < length bytes → z.compress (take n bytes) ≡ none)
      × NoneCompresses threshold blocks (drop n bytes)

  -- The same of what is waiting.
  abbrev Hopeless : ℕ → CompressedStreamWriter → Type 0
  Hopeless blocks w = NoneCompresses w.block_threshold blocks w.uncompressed_block

  flush_block-Hopeless :
      (blocks : ℕ) (w : CompressedStreamWriter)
      → 0 < length w.uncompressed_block
      → Hopeless (suc blocks) w
      → Hopeless blocks (flush_block z w)
  unfolding flush_block NoneCompresses
  flush_block-Hopeless blocks w some_bytes h =
      elim (Bool-cases (length w.uncompressed_block == 0)) [
        | inl empty ↦ absurd (ground (arith, empty))
        | inr waiting ↦ rw (waiting, flush_block) h.1
      ]

  total-flush_block :
      (blocks : ℕ) (w : CompressedStreamWriter)
      → Hopeless (suc blocks) w
      → 0 < w.block_threshold
      → 0 < length w.uncompressed_block
      → total (flush_block z w) ≡ total w + 3
  unfolding flush_block serialize_block_type NoneCompresses
  total-flush_block blocks w hopeless pos some_bytes =
      let n = min (length w.uncompressed_block) w.block_threshold in
      let block = take n w.uncompressed_block in
      ground (
        arith,
        hopeless.0 some_bytes,
        length-append {0} w.output (packed_block z block none),
        length-append {0} (serialize_u16 (length block)) block,
        length-serialize_u16 (length block),
        length-take {0} n w.uncompressed_block (ground arith),
        length-drop {0} n w.uncompressed_block,
      )

  total-flush_while :
      (fuel : ℕ) (w : CompressedStreamWriter)
      → Hopeless (suc fuel) w
      → 0 < w.block_threshold
      → 0 < length w.uncompressed_block
      → (total w ≤ total (flush_while z fuel w))
        × (0 < length (flush_while z fuel w).uncompressed_block)
        × ((flush_while z fuel w).block_threshold ≡ w.block_threshold)
  unfolding flush_while
  total-flush_while zero w hopeless pos h = omega arith
  total-flush_while (suc fuel) w hopeless pos h = ground (
    arith,
    flush_cost z w pos,
    total-flush_block (suc fuel) w hopeless pos h,
    total-flush_while fuel (flush_block z w) (flush_block-Hopeless (suc fuel) w h hopeless),
  )

  flush_while-Hopeless :
      (fuel : ℕ) (w : CompressedStreamWriter)
      → Hopeless (suc fuel) w
      → 0 < w.block_threshold
      → 0 < length w.uncompressed_block
      → Hopeless 1 (flush_while z fuel w)
  unfolding flush_while NoneCompresses
  flush_while-Hopeless zero w hopeless pos h = hopeless
  flush_while-Hopeless (suc fuel) w hopeless pos h =
      elim (Bool-cases (ltb w.block_threshold (length w.uncompressed_block))) [
        | inl more ↦
            rw (more, flush_while)
              (flush_while-Hopeless fuel (flush_block z w)
                (flush_block-Hopeless (suc fuel) w h hopeless) (omega (arith, flush_cost z w pos))
                (ground (arith, more, flush_cost z w pos)))
        | inr less ↦ rw (less, flush_while) (hopeless.0, tt)
      ]

  -- With more than two blocks waiting at least two are written.
  flush_while_twice :
      (fuel : ℕ) (w : CompressedStreamWriter)
      → Hopeless (suc (suc (suc fuel))) w
      → 0 < w.block_threshold
      → 2 * w.block_threshold < length w.uncompressed_block
      → (total w + 6 ≤ total (flush_while z (suc (suc fuel)) w))
        × (0 < length (flush_while z (suc (suc fuel)) w).uncompressed_block)
        × ((flush_while z (suc (suc fuel)) w).block_threshold ≡ w.block_threshold)
  unfolding flush_while
  flush_while_twice fuel w hopeless pos h =
      let w' = flush_block z w in
      let once = flush_block-Hopeless (suc (suc fuel)) w (omega arith) hopeless in
      let cost = flush_cost z w pos in
      let twice = flush_block-Hopeless (suc fuel) w' (ground (arith, cost)) once in
      ground (
        arith,
        cost,
        total-flush_block (suc (suc fuel)) w hopeless pos (omega arith),
        flush_cost z w' (omega (arith, cost)),
        total-flush_block (suc fuel) w' once,
        total-flush_while fuel (flush_block z w') twice,
      )

  total-finish :
      (w : CompressedStreamWriter)
      → Hopeless 1 w
      → 0 < w.block_threshold
      → 0 < length w.uncompressed_block
      → total w + 4 ≤ length (finish z w) + (length w.uncompressed_block - w.block_threshold)
  unfolding finish serialize_block_type
  total-finish w hopeless pos h = ground (
    arith,
    flush_cost z w pos,
    total-flush_block 0 w hopeless pos h,
    length-append {0} (flush_block z w).output (0 ∷ []),
  )

  -- Where the threshold is positive, at most a block is waiting, and more than two blocks are waiting
  -- after an append, and where none of the blocks that these bytes are cut into compresses, the finished
  -- stream is longer than the bound that `serialized_len_upperbound_after` has announced.
  pub upperbound_exceeded :
      (bytes : List ℕ) (w : CompressedStreamWriter) (bound : ℕ)
      → NoneCompresses w.block_threshold
          (suc (length (w.uncompressed_block ++ bytes)))
          (w.uncompressed_block ++ bytes)
      → 0 < w.block_threshold
      → length w.uncompressed_block ≤ w.block_threshold
      → 2 * w.block_threshold < length w.uncompressed_block + length bytes
      → upperbound_after (length bytes) w ≡ some bound
      → bound < length (finish z (append_bytes z bytes w))
  unfolding append_bytes upperbound_after
  upperbound_exceeded bytes w bound hopeless pos room big e =
      let w' = record w { uncompressed_block = w.uncompressed_block ++ bytes } in
      let n = length (w.uncompressed_block ++ bytes) in
      let len = length-append {0} w.uncompressed_block bytes in
      let fuel : n ≡ suc (suc (n - 2)) = omega (arith, len) in
      let t =
        flush_while_twice (n - 2) w' (subst (λ m. Hopeless (suc m) w') fuel hopeless) pos
          (omega (arith, len)) in
      let done = flush_while_done z n w' pos (omega arith) in
      let last = flush_while-Hopeless n w' hopeless pos (omega (arith, len)) in
      ground (arith, len, fuel, t, done, total-finish (flush_while z n w') last)
