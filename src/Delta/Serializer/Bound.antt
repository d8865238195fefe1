-- ===== src/Delta/Serializer/Bound.antt =====
-- The length of the payload of a delta: chitchat/src/delta.rs.
use scuttlebutt.Prelude.{
  ℕ, ◌≤◌, ◌<◌, ◌≡◌, Bool, some, Option-cases, Bool-cases, inl, inr, ltb, false, ap, ◌∙◌, min,
  length, arith,
}
use scuttlebutt.Stream.{
  Compressor, CompressedStreamWriter, upperbound_after, append_bytes, append, with_block_threshold,
}
use scuttlebutt.Stream.Items.{append_fits}
use scuttlebutt.Stream.Bound.{cost, append_bytes_bound, length-finish}
use scuttlebutt.Delta
use scuttlebutt.Delta.{DeltaOp, DeltaBuilder, apply_op}
use scuttlebutt.Delta.Ops.{op_serde, serialize_op, serialized_len_op, IsOp, length-serialize_op}
use scuttlebutt.Delta.Serializer.{DeltaSerializer, with_mtu, try_add_op, finish, block_threshold}

module _ (z : Compressor) where
  -- The stream would end within the `mtu` now, and less than a block is waiting.
  pub record Fits (s : DeltaSerializer) : Type 0 where
    pub cost_fits : cost z s.compressed_stream_writer ≤ s.mtu
    pub waiting :
        length s.compressed_stream_writer.uncompressed_block
        ≤ s.compressed_stream_writer.block_threshold
    pub threshold : s.compressed_stream_writer.block_threshold ≡ min block_threshold s.mtu
    pub large : 100 ≤ s.mtu

  pub with_mtu-Fits :
      (mtu : ℕ) (s : DeltaSerializer) → with_mtu mtu ≡ some s → Fits s × (s.mtu ≡ mtu)
  unfolding with_mtu with_block_threshold
  with_mtu-Fits mtu s e = ground arith

  upperbound_ge :
      (len : ℕ) (w : CompressedStreamWriter) (bound : ℕ)
      → upperbound_after len w ≡ some bound
      → len ≤ bound
  unfolding upperbound_after
  upperbound_ge len w bound e = ground arith

  -- An operation that is taken is no longer than a block.
  within_block :
      (op : DeltaOp) (s : DeltaSerializer) (bound : ℕ)
      → serialized_len_op op ≤ block_threshold
      → Fits s
      → upperbound_after (serialized_len_op op) s.compressed_stream_writer ≡ some bound
      → ltb s.mtu bound ≡ false
      → (serialized_len_op op ≤ s.compressed_stream_writer.block_threshold)
        × (0 < s.compressed_stream_writer.block_threshold)
  within_block op s bound small h e under = ground (
    arith,
    upperbound_ge (serialized_len_op op) s.compressed_stream_writer bound e,
    h.threshold,
    h.large,
  )

  appended :
      (op : DeltaOp) (w : CompressedStreamWriter)
      → serialized_len_op op ≤ block_threshold
      → append z op_serde op w ≡ some (append_bytes z (serialize_op op) w)
  unfolding op_serde
  appended op w small = append_fits z op_serde op w (omega arith)

  step :
      (op : DeltaOp) (w : CompressedStreamWriter) (bound : ℕ)
      → IsOp op
      → serialized_len_op op ≤ block_threshold
      → length w.uncompressed_block ≤ w.block_threshold
      → (serialized_len_op op ≤ w.block_threshold) × (0 < w.block_threshold)
      → upperbound_after (serialized_len_op op) w ≡ some bound
      → (cost z (append_bytes z (serialize_op op) w) ≤ bound)
        × (length (append_bytes z (serialize_op op) w).uncompressed_block ≤ w.block_threshold)
        × ((append_bytes z (serialize_op op) w).block_threshold ≡ w.block_threshold)
  step op w bound ok small waiting block e =
      let len = length-serialize_op op ok in
      append_bytes_bound z (serialize_op op) w bound block.1 (omega (arith, len))
        (ap (λ (n : ℕ). upperbound_after n w) len ∙ e)

  -- Where an operation that the format can carry has at most 16384 bytes and adding it fails no check,
  -- the serializer stays within its `mtu` and keeps it, whether the operation is taken or not.
  pub try_add_op-Fits :
      (op : DeltaOp) (s t : DeltaSerializer) (taken : Bool)
      → IsOp op
      → serialized_len_op op ≤ block_threshold
      → Fits s
      → try_add_op z op s ≡ some (t, taken)
      → Fits t × (t.mtu ≡ s.mtu)
  unfolding try_add_op
  try_add_op-Fits op s t taken ok small h e =
      let w = s.compressed_stream_writer in
      elim (Option-cases (upperbound_after (serialized_len_op op) w)) [
        | inl none_left ↦ cc (none_left, e)
        | inr (bound, announced) ↦ elim (Bool-cases (ltb s.mtu bound)) [
          | inl over ↦ ground (arith, announced, over)
          | inr under ↦ ground (
            arith,
            announced,
            under,
            appended op w small,
            step op w bound ok small h.waiting (within_block op s bound small h announced under)
                announced,
          )
        ]
      ]

  -- A finished delta announces a length within the `mtu`.
  pub finish-le-mtu : (s : DeltaSerializer) → Fits s → (finish z s).serialized_len ≤ s.mtu
  unfolding finish Delta.finish
  finish-le-mtu s h = ground (
    arith,
    length-finish z s.compressed_stream_writer,
    h.threshold,
    h.waiting,
    h.cost_fits,
    h.large,
  )
