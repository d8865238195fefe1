-- ===== src/Stream/RoundTrip.antt =====
-- What `deserialize_stream` makes of a written stream: chitchat/src/serialize.rs.
use scuttlebutt.Prelude.{
  ℕ, zero, suc, ◌+◌, ◌-◌, ◌≤◌, ◌<◌, ◌≡◌, refl, sym, ap, ◌∙◌, Option, none, some, inl, inr,
  Bool-cases, List, [], ◌∷◌, ◌++◌, length, take, drop, length-append, length-take, length-drop,
  take-append-drop, min, ◌==◌, arith,
}
use mathlib.Core.List.{append_assoc, append-nil}
use native.Mathlib.Nat.{zero-add}
use scuttlebutt.Wire.{feed}
use scuttlebutt.Stream.{
  Compressor, CompressedStreamWriter, BlockType, serialize_block_type, deserialize_block_type,
  packed_block, flush_block, flush_while, append_bytes, finish, with_block_threshold,
}
use scuttlebutt.Stream.Read.{read_blocks}
use scuttlebutt.Stream.ReadBlock.{deserialize_block_type_lem, read_block_lem}

nil_of_length : (xs : List ℕ) → length xs ≡ 0 → xs ≡ []
nil_of_length [] h = refl
nil_of_length (x ∷ xs) h = absurd (omega arith)

module _ (z : Compressor) where
  -- The loop reads `read` off `out`, in `count` rounds.
  pub record HasBlocks (out read : List ℕ) : Type 0 where
    count : ℕ
    fits : count ≤ length out
    reads :
        (fuel : ℕ) (before rest : List ℕ)
        → read_blocks z (count + fuel) before (out ++ rest)
          ≡ read_blocks z fuel (before ++ read) rest

  one_more : (n fuel : ℕ) → n + 1 + fuel ≡ n + suc fuel
  one_more n fuel = omega arith

  packed_block_pos : (block : List ℕ) (o : Option (List ℕ)) → 1 ≤ length (packed_block z block o)
  unfolding serialize_block_type
  packed_block_pos block none = omega arith
  packed_block_pos block (some packed) = omega arith

  add_block :
      (out read block : List ℕ)
      → HasBlocks out read
      → length block ≤ 65535
      → HasBlocks (out ++ packed_block z block (z.compress block)) (read ++ block)
  add_block out read block h short = record {
    count = h.count + 1;
    fits = omega (
      arith,
      h.fits,
      packed_block_pos block (z.compress block),
      length-append {0} out (packed_block z block (z.compress block)),
    );
    reads = λ fuel before rest.
        let after = packed_block z block (z.compress block) ++ rest in
        ap (λ bytes. read_blocks z (h.count + 1 + fuel) before bytes) (append_assoc out _ rest)
        ∙ ap (λ n. read_blocks z n before (out ++ after)) (one_more h.count fuel)
        ∙ h.reads (suc fuel) before after
        ∙ read_block_lem z fuel (before ++ read) block rest short
        ∙ ap (λ bytes. read_blocks z fuel bytes rest) (append_assoc before read block);
  }

  -- The stream so far holds `written`: read off its output, or waiting.
  pub record Holds (w : CompressedStreamWriter) (written : List ℕ) : Type 0 where
    front : List ℕ
    blocks : HasBlocks w.output front
    all : front ++ w.uncompressed_block ≡ written
    small : w.block_threshold ≤ 65535

  flush_block-Holds :
      (w : CompressedStreamWriter) (written : List ℕ)
      → Holds w written
      → Holds (flush_block z w) written
  unfolding flush_block
  flush_block-Holds w written h = elim (Bool-cases (length w.uncompressed_block == 0)) [
    | inl done ↦ rw (done, flush_block) h
    | inr more ↦
        let n = min (length w.uncompressed_block) w.block_threshold in
        let block = take n w.uncompressed_block in
        rw (more, flush_block)
          (record {
            front = h.front ++ block;
            blocks =
                add_block w.output h.front block h.blocks
                  (ground (arith, h.small, length-take {0} n w.uncompressed_block (ground arith)));
            all =
                append_assoc h.front block (drop n w.uncompressed_block)
                ∙ ap (λ bytes. h.front ++ bytes) (take-append-drop n w.uncompressed_block)
                ∙ h.all;
            small = h.small;
          })
  ]

  flush_while-Holds :
      (fuel : ℕ) (w : CompressedStreamWriter) (written : List ℕ)
      → Holds w written
      → Holds (flush_while z fuel w) written
  unfolding flush_while
  flush_while-Holds zero w written h = h
  flush_while-Holds (suc fuel) w written h =
      ground
        (arith, flush_while-Holds fuel (flush_block z w) written (flush_block-Holds w written h))

  pub append_bytes-Holds :
      (bytes : List ℕ) (w : CompressedStreamWriter) (written : List ℕ)
      → Holds w written
      → Holds (append_bytes z bytes w) (written ++ bytes)
  unfolding append_bytes
  append_bytes-Holds bytes w written h =
      let w' = record w { uncompressed_block = w.uncompressed_block ++ bytes } in
      flush_while-Holds (length (w.uncompressed_block ++ bytes)) w' (written ++ bytes) (record {
        front = h.front;
        blocks = h.blocks;
        all = sym (append_assoc h.front w.uncompressed_block bytes) ∙ ap (λ x. x ++ bytes) h.all;
        small = h.small;
      })

  pub with_block_threshold-Holds : (n : ℕ) → n ≤ 65535 → Holds (with_block_threshold n) []
  unfolding with_block_threshold
  with_block_threshold-Holds n h = record {
    front = [];
    blocks = record {
      count = 0;
      fits = omega arith;
      reads = λ fuel before rest. simp (append-nil, zero-add);
    };
    all = refl;
    small = h;
  }

  flush_last :
      (w : CompressedStreamWriter)
      → length w.uncompressed_block ≤ w.block_threshold
      → length (flush_block z w).uncompressed_block ≡ 0
  unfolding flush_block
  flush_last w h =
      let n = min (length w.uncompressed_block) w.block_threshold in
      ground (arith, length-drop {0} n w.uncompressed_block)

  read_end :
      (fuel : ℕ) (before rest : List ℕ)
      → 0 < fuel
      → read_blocks z fuel before (0 ∷ rest) ≡ some (before, rest)
  unfolding read_blocks
  read_end zero before rest h = elim h [ ]
  read_end (suc fuel) before rest h =
      let e : deserialize_block_type (0 ∷ rest) ≡ some (BlockType.no_more_blocks, rest) =
        unfold serialize_block_type in deserialize_block_type_lem BlockType.no_more_blocks rest in
      rw (e, feed)

  read_output :
      (out read rest : List ℕ) (n : ℕ)
      → HasBlocks out read
      → length out < n
      → read_blocks z n [] (out ++ (0 ∷ rest)) ≡ some (read, rest)
  read_output out read rest n h long =
      let left = n - h.count in
      let e : n ≡ h.count + left = omega (arith, h.fits) in
      ap (λ (k : ℕ). read_blocks z k [] (out ++ (0 ∷ rest))) e
      ∙ h.reads left [] (0 ∷ rest)
      ∙ read_end left read rest (omega (arith, h.fits))

  -- A finished stream gives back its bytes, whatever follows it.
  pub read_blocks-finish :
      (w : CompressedStreamWriter) (written rest : List ℕ)
      → Holds w written
      → length w.uncompressed_block ≤ w.block_threshold
      → read_blocks z (length (finish z w ++ rest)) [] (finish z w ++ rest) ≡ some (written, rest)
  unfolding finish
  read_blocks-finish w written rest h small =
      let f = flush_block-Holds w written h in
      let w' = flush_block z w in
      let none_left : w'.uncompressed_block ≡ [] =
        nil_of_length w'.uncompressed_block (flush_last w small) in
      let whole : f.front ≡ written =
        sym (append-nil f.front) ∙ ap (λ x. f.front ++ x) (sym none_left) ∙ f.all in
      unfold serialize_block_type in
      rw append_assoc (
        read_output w'.output f.front rest (length (w'.output ++ (0 ∷ rest))) f.blocks
          (omega (arith, length-append {0} w'.output (0 ∷ rest)))
        ∙ ap (λ x. some (x, rest)) whole)
