-- ===== src/Delta/Codec.antt =====
-- `Serializable` and `Deserializable` of `Delta`: chitchat/src/delta.rs.
use scuttlebutt.Prelude.{
  ℕ, ◌-◌, ◌≡◌, ap, Option, none, some, List, [], ◌++◌, length, length-append, All, if◌then◌else◌,
  ◌==◌, arith,
}
use scuttlebutt.NodeDelta.{NodeDelta}
use scuttlebutt.Wire.{Parser, feed}
use scuttlebutt.Stream.{Compressor, CompressedStreamWriter, with_block_threshold}
use scuttlebutt.Stream
use scuttlebutt.Stream.Read.{deserialize_stream}
use scuttlebutt.Stream.Items.{append_all, IsItem, ReadsBack, deserialize_stream-append_all}
use scuttlebutt.Delta.{Delta, DeltaBuilder, operations, new_builder, apply_ops, finish}
use scuttlebutt.Delta.Ops.{op_serde}
use scuttlebutt.Delta.Rebuild.{Distinct, AllAscending, Rebuilt, rebuild}

module _ (z : Compressor) where
  -- `assert_eq!(payload.len(), self.serialized_len)`
  abbrev checked : ℕ → List ℕ → Option (List ℕ)
  checked len payload = if length payload == len then some payload else none

  unfoldable pub serialize_delta : Delta → Option (List ℕ)
  serialize_delta d =
      elim (append_all z op_serde (operations d.node_deltas) (with_block_threshold 16384)) [
        | none ↦ none
        | some w ↦ checked d.serialized_len (Stream.finish z w)
      ]

  abbrev built : ℕ → Option DeltaBuilder → Option Delta
  built len none = none
  built len (some b) = some (finish len b)

  abbrev with_rest : List ℕ → Option Delta → Option (Delta × List ℕ)
  with_rest rest none = none
  with_rest rest (some d) = some (d, rest)

  unfoldable pub deserialize_delta : Parser Delta
  deserialize_delta buf =
      feed
        (λ ops rest. with_rest rest (built (length buf - length rest) (apply_ops ops new_builder)))
        (deserialize_stream z op_serde buf)

  -- The deltas that the format can carry: distinct nodes, growing versions, and operations of at
  -- most 65535 bytes.
  pub record IsDelta (d : Delta) : Type 0 where
    pub distinct : Distinct [] d.node_deltas
    pub ascending : AllAscending d.node_deltas
    pub items : All (IsItem z op_serde) (operations d.node_deltas)

  build_back :
      (ds : List NodeDelta) (len : ℕ)
      → Distinct [] ds
      → AllAscending ds
      → built len (apply_ops (operations ds) new_builder)
        ≡ some (record { node_deltas = ds; serialized_len = len })
  build_back ds len distinct ascending =
      pick (apply_ops (operations ds) new_builder) (rebuild ds len distinct ascending)
    where
      pick :
          (o : Option DeltaBuilder)
          → Rebuilt ds len o
          → built len o ≡ some (record { node_deltas = ds; serialized_len = len })
      pick none h = absurd h
      pick (some b) h = ap some h

  read_stream :
      (d : Delta) (payload rest : List ℕ)
      → IsDelta d
      → serialize_delta d ≡ some payload
      → (length payload ≡ d.serialized_len)
        × (deserialize_stream z op_serde (payload ++ rest) ≡ some (operations d.node_deltas, rest))
  unfolding serialize_delta
  read_stream d payload rest h e =
      pick (append_all z op_serde (operations d.node_deltas) (with_block_threshold 16384))
        (deserialize_stream-append_all z op_serde (operations d.node_deltas) 16384 rest h.items
          (omega arith) (omega arith))
        e
    where
      pick :
          (o : Option CompressedStreamWriter)
          → ReadsBack z op_serde (operations d.node_deltas) rest o
          → (elim o [ none ↦ none | some w ↦ checked d.serialized_len (Stream.finish z w) ])
            ≡ some payload
          → (length payload ≡ d.serialized_len)
            × (deserialize_stream z op_serde (payload ++ rest)
                ≡ some (operations d.node_deltas, rest))
      pick none r e = absurd r
      pick (some w) r e = ground (arith, r)

  -- Whenever a delta that the format can carry is serialized at all, the same delta is read back,
  -- whatever follows it, with the length that it announced.
  pub deserialize_delta_lem :
      (d : Delta) (payload rest : List ℕ)
      → IsDelta d
      → serialize_delta d ≡ some payload
      → deserialize_delta (payload ++ rest) ≡ some (d, rest)
  unfolding deserialize_delta
  deserialize_delta_lem d payload rest h e =
      let r = read_stream d payload rest h e in
      let len : length (payload ++ rest) - length rest ≡ d.serialized_len =
        omega (arith, length-append {0} payload rest, r.0) in
      rw (r.1, feed) (rw (len, build_back d.node_deltas d.serialized_len h.distinct h.ascending))
