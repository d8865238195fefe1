-- ===== src/Delta/Serializer/Taken.antt =====
-- What `try_add_op` of chitchat/src/delta.rs leaves in the builder.
use scuttlebutt.Prelude.{
  ◌≡◌, ◌≤◌, ◌<◌, ◌⊎◌, refl, Bool, true, false, Bool-cases, Option, none, some, Option-cases, inl,
  inr, ltb, arith,
}
use scuttlebutt.Stream.Items.{append_fits}
use scuttlebutt.Stream.{Compressor, append_bytes, append, upperbound_after}
use scuttlebutt.Delta.{DeltaOp, DeltaBuilder, apply_op}
use scuttlebutt.Delta.Ops.{op_serde, serialize_op, serialized_len_op}
use scuttlebutt.Delta.Serializer.{DeltaSerializer, try_add_op}

-- The three outcomes of an operation on the serializer.
abbrev pub Three : Option (DeltaSerializer × Bool) → Type 0
Three o =
    (o ≡ none)
    ⊎ ((t : DeltaSerializer) × (o ≡ some (t, true)))
    ⊎ ((t : DeltaSerializer) × (o ≡ some (t, false)))

pub outcomes : (o : Option (DeltaSerializer × Bool)) → Three o
outcomes none = inl refl
outcomes (some (t, true)) = inr (inl (t, refl))
outcomes (some (t, false)) = inr (inr (t, refl))

module _ (z : Compressor) (op : DeltaOp) (s t : DeltaSerializer) where
  -- An operation that is taken has been applied to the builder.
  pub try_add_op-taken :
      try_add_op z op s ≡ some (t, true) → apply_op op s.delta_builder ≡ some t.delta_builder
  unfolding try_add_op
  try_add_op-taken e = ground arith

  -- An operation that is refused changes nothing.
  pub try_add_op-refused : try_add_op z op s ≡ some (t, false) → t ≡ s
  unfolding try_add_op
  try_add_op-refused e = ground arith

pub op-positive : (op : DeltaOp) → 0 < serialized_len_op op
unfolding serialized_len_op
op-positive (DeltaOp.node id gc from) = omega arith
op-positive (DeltaOp.key_value kv) = omega arith
op-positive (DeltaOp.set_max_version v) = omega arith

-- An operation of at most 65535 bytes that the builder accepts is taken or refused without a panic.
pub try_add_op-returns :
    (z : Compressor) (op : DeltaOp) (s : DeltaSerializer) (b : DeltaBuilder)
    → serialized_len_op op ≤ 65535
    → apply_op op s.delta_builder ≡ some b
    → (t : DeltaSerializer) × (taken : Bool) × (try_add_op z op s ≡ some (t, taken))
unfolding try_add_op op_serde
try_add_op-returns z op s b small e =
    let w = s.compressed_stream_writer in
    elim (Option-cases (upperbound_after (serialized_len_op op) w)) [
      | inl empty ↦ absurd (unfold upperbound_after in ground (arith, empty, op-positive op))
      | inr (bound, announced) ↦ elim (Bool-cases (ltb s.mtu bound)) [
        | inl over ↦ (s, false, ground (arith, announced, over))
        | inr under ↦ (
          record s {
            delta_builder = b;
            compressed_stream_writer = append_bytes z (serialize_op op) w;
          },
          true,
          ground (arith, announced, under, e, append_fits z op_serde op w small),
        )
      ]
    ]

-- An operation that is taken has been appended to the stream.
pub try_add_op-written :
    (z : Compressor) (op : DeltaOp) (s t : DeltaSerializer)
    → try_add_op z op s ≡ some (t, true)
    → (t.mtu ≡ s.mtu)
      × (append z op_serde op s.compressed_stream_writer ≡ some t.compressed_stream_writer)
unfolding try_add_op
try_add_op-written z op s t e = ground arith
