-- ===== src/Stream/Items.antt =====
-- Items appended to a stream and read from it: chitchat/src/serialize.rs.
use scuttlebutt.Prelude.{
  ℕ, zero, suc, ◌≤◌, ◌<◌, ◌≡◌, refl, sym, ap, ◌∙◌, Option, none, some, List, [], ◌∷◌, ◌++◌, length,
  length-append, le→leb, All, arith,
}
use mathlib.Core.List.{append_assoc, append-nil}
use native.Mathlib.Nat.{le_refl}
use scuttlebutt.Wire.{Serde, feed}
use scuttlebutt.Stream.{
  Compressor, CompressedStreamWriter, with_block_threshold, append_bytes, append, finish,
}
use scuttlebutt.Stream.Read.{read_items, deserialize_stream}
use scuttlebutt.Stream.Done.{append_bytes_done, append_bytes_threshold}
use scuttlebutt.Stream.RoundTrip.{
  Holds, append_bytes-Holds, with_block_threshold-Holds, read_blocks-finish,
}

module _ (z : Compressor) {A : Type 0} (S : Serde A) where
  -- `append` of each item in turn
  unfoldable pub append_all : List A → CompressedStreamWriter → Option CompressedStreamWriter
  append_all [] w = some w
  append_all (item ∷ items) w = elim (append z S item w) [
    | none ↦ none
    | some w' ↦ append_all items w'
  ]

  abbrev all_bytes : List A → List ℕ
  all_bytes [] = []
  all_bytes (item ∷ items) = S.serialize item ++ all_bytes items

  -- An item that the stream can carry.
  abbrev pub IsItem : A → Type 0
  IsItem item = S.IsWire item × (0 < S.serialized_len item) × (S.serialized_len item ≤ 65535)

  read_items_nil : (before : List A) (fuel : ℕ) → read_items S fuel before [] ≡ some before
  unfolding read_items
  read_items_nil before zero = refl
  read_items_nil before (suc fuel) = refl

  read_items_step :
      (bytes rest : List ℕ) (before : List A) (item : A) (fuel : ℕ)
      → 0 < length bytes
      → S.deserialize bytes ≡ some (item, rest)
      → read_items S (suc fuel) before bytes ≡ read_items S fuel (before ++ (item ∷ [])) rest
  unfolding read_items
  read_items_step [] rest before item fuel h e = absurd (omega arith)
  read_items_step (b ∷ bs) rest before item fuel h e = rw (e, read_items)

  item_len :
      (item : A) (more : List ℕ) → IsItem item → length more < length (S.serialize item ++ more)
  item_len item more h =
      omega (arith, length-append {0} (S.serialize item) more, S.length-serialize item h.0, h.1)

  read_items_lem :
      (items before : List A) (fuel : ℕ)
      → All IsItem items
      → length (all_bytes items) ≤ fuel
      → read_items S fuel before (all_bytes items) ≡ some (before ++ items)
  read_items_lem [] before fuel h f = rw append-nil (read_items_nil before fuel)
  read_items_lem (item ∷ items) before zero h f =
      absurd (omega (arith, item_len item (all_bytes items) h.0))
  read_items_lem (item ∷ items) before (suc fuel) h f =
      let shorter = item_len item (all_bytes items) h.0 in
      read_items_step (S.serialize item ++ all_bytes items) (all_bytes items) before item fuel
        (omega arith) (S.deserialize-serialize item h.0.0 (all_bytes items))
      ∙ read_items_lem items (before ++ (item ∷ [])) fuel h.1 (omega arith)
      ∙ ap some (append_assoc before (item ∷ []) items)

  -- The stream that a writer leaves reads back as the list of items.
  abbrev pub ReadsBack : List A → List ℕ → Option CompressedStreamWriter → Type 0
  ReadsBack items rest none = ⊥
  ReadsBack items rest (some w) = deserialize_stream z S (finish z w ++ rest) ≡ some (items, rest)

  all_bytes-snoc :
      (items : List A) (item : A)
      → all_bytes (items ++ (item ∷ [])) ≡ all_bytes items ++ S.serialize item
  all_bytes-snoc [] item = append-nil (S.serialize item)
  all_bytes-snoc (x ∷ items) item =
      ap (λ bytes. S.serialize x ++ bytes) (all_bytes-snoc items item)
      ∙ sym (append_assoc (S.serialize x) (all_bytes items) (S.serialize item))

  stream_end :
      (items : List A) (rest : List ℕ) (w : CompressedStreamWriter)
      → All IsItem items
      → Holds z w (all_bytes items)
      → length w.uncompressed_block ≤ w.block_threshold
      → deserialize_stream z S (finish z w ++ rest) ≡ some (items, rest)
  unfolding deserialize_stream
  stream_end items rest w h holds small =
      rw (read_blocks-finish z w (all_bytes items) rest holds small, feed)
        (rw (read_items_lem items [] (length (all_bytes items)) h (le_refl _)))

  pub append_fits :
      (item : A) (w : CompressedStreamWriter)
      → S.serialized_len item ≤ 65535
      → append z S item w ≡ some (append_bytes z (S.serialize item) w)
  unfolding append
  append_fits item w h = ground (arith, le→leb (S.serialized_len item) 65535 h)

  append_all_lem :
      (items before : List A) (rest : List ℕ) (w : CompressedStreamWriter)
      → All IsItem (before ++ items)
      → All IsItem items
      → Holds z w (all_bytes before)
      → 0 < w.block_threshold
      → length w.uncompressed_block ≤ w.block_threshold
      → ReadsBack (before ++ items) rest (append_all items w)
  unfolding append_all
  append_all_lem [] before rest w ok h holds pos small =
      rw append-nil (stream_end before rest w (rw append-nil at ok) holds small)
  append_all_lem (item ∷ items) before rest w ok h holds pos small =
      let w' = append_bytes z (S.serialize item) w in
      let regroup = append_assoc before (item ∷ []) items in
      rw (append_fits item w h.0.2, append_all)
        (rw (← regroup) (
          append_all_lem items (before ++ (item ∷ [])) rest w' (rw regroup ok) h.1
            (rw all_bytes-snoc (append_bytes-Holds z (S.serialize item) w (all_bytes before) holds))
            (rw append_bytes_threshold pos)
            (rw append_bytes_threshold (append_bytes_done z (S.serialize item) w pos))))

  pub deserialize_stream-append_all :
      (items : List A) (threshold : ℕ) (rest : List ℕ)
      → All IsItem items
      → 0 < threshold
      → threshold ≤ 65535
      → ReadsBack items rest (append_all items (with_block_threshold threshold))
  deserialize_stream-append_all items threshold rest h pos small =
      append_all_lem items [] rest (with_block_threshold threshold) h h
        (with_block_threshold-Holds z threshold small) (unfold with_block_threshold in pos)
        (unfold with_block_threshold in omega arith)
