-- ===== src/Buffer/Compaction.antt =====
-- The compacting branch of `makeSpace`, which sets `writerIndex_ += len - readable`.
use native.Mathlib.Decide.{dec_le}
use moduo.Prelude.{
  ℕ, ◌+◌, ◌-◌, ◌≤◌, ◌<◌, ◌≡◌, ap, ◌∙◌, List, ◌++◌, ok, undefined, arith, length, take, drop,
  length-append, add_size, sub_size, take-drop-overwrite, ◌⊎◌, inl, inr, ◌↔◌,
}
use moduo.Buffer.{Buffer, compact, ensure_writable_bytes, append}
use moduo.Buffer.Bounds.{
  IsValid, Compacts, read_at_ok, write_at_ok, write_at_undefined, length-write_at,
  ensure_writable_bytes-compact,
}
use moduo.Buffer.Contents.{
  readable, contents, length-contents, after_append, after_append-IsValid, append-after_append,
  readable_bytes-eq-readable, contents-after_append,
}

-- The buffer that `makeSpace n` leaves when it compacts.
abbrev pub compacted : ℕ → Buffer → Buffer
compacted n b = record {
  buffer = take 8 b.buffer ++ (contents b ++ drop (8 + length (contents b)) b.buffer);
  reader_index = 8;
  writer_index = b.reader_index + n;
}

pub compact_lem : (n : ℕ) (b : Buffer) → IsValid b → Compacts n b → compact n b ≡ ok (compacted n b)
unfolding compact
compact_lem n b v c =
    rw
      (
        readable_bytes-eq-readable b v,
        read_at_ok b.buffer b.reader_index (readable b) (omega arith),
        write_at_ok b.buffer 8 (contents b) (omega (arith, length-contents b v)),
      )
      (ap (λ w. ok (record (compacted n b) { writer_index = w })) advance)
  where
    advance : add_size b.writer_index (sub_size n (readable b)) ≡ b.reader_index + n
    advance = omega arith

module _ (n : ℕ) (b : Buffer) (v : IsValid b) (c : Compacts n b) where
  length-compacted : length (compacted n b).buffer ≡ length b.buffer
  length-compacted = length-write_at b.buffer 8 (contents b) (omega (arith, length-contents b v))

  compacted-IsValid : b.reader_index + n ≤ length b.buffer → IsValid (compacted n b)
  compacted-IsValid h = omega (arith, length-compacted)

  -- The bytes that were readable stand at the front again; the writer index need not follow them.
  contents-compacted : b.reader_index + n ≡ readable b + 8 → contents (compacted n b) ≡ contents b
  contents-compacted e =
      ap (λ k. take k (drop 8 (compacted n b).buffer)) width
      ∙ take-drop-overwrite b.buffer (contents b) 8 8 (omega arith) (omega arith)
    where
      width : b.reader_index + n - 8 ≡ 8 - 8 + length (contents b)
      width = omega (arith, length-contents b v)

module _ (bytes : List ℕ) (b : Buffer) (v : IsValid b) (c : Compacts (length bytes) b) where
  ensure_writable_bytes-compacted :
      ensure_writable_bytes (length bytes) b ≡ ok (compacted (length bytes) b)
  ensure_writable_bytes-compacted =
      ensure_writable_bytes-compact (length bytes) b v c ∙ compact_lem (length bytes) b v c

  append_past_end :
      length b.buffer < b.reader_index + length bytes + length bytes → append bytes b ≡ undefined
  unfolding append
  append_past_end h = rw (
    ensure_writable_bytes-compacted,
    write_at_undefined (compacted (length bytes) b).buffer (b.reader_index + length bytes) bytes
        (omega (arith, length-compacted (length bytes) b v c)),
  )

  contents_only_if :
      b.reader_index + length bytes + length bytes ≤ length b.buffer
      → contents (after_append bytes (compacted (length bytes) b)) ≡ contents b ++ bytes
      → b.reader_index + length bytes ≡ readable b + 8
  contents_only_if h e = omega (
    arith,
    ap length e,
    length-append {0} (contents b) bytes,
    length-contents b v,
    length-contents (after_append bytes (compacted (length bytes) b)) (
        after_append-IsValid bytes (compacted (length bytes) b)
          (compacted-IsValid (length bytes) b v c (omega arith))
          (omega (arith, length-compacted (length bytes) b v c))),
  )

  contents_if :
      b.reader_index + length bytes + length bytes ≤ length b.buffer
      → b.reader_index + length bytes ≡ readable b + 8
      → contents (after_append bytes (compacted (length bytes) b)) ≡ contents b ++ bytes
  contents_if h e =
      contents-after_append bytes (compacted (length bytes) b)
        (compacted-IsValid (length bytes) b v c (omega arith))
        (omega (arith, length-compacted (length bytes) b v c))
      ∙ ap (λ l. l ++ bytes) (contents-compacted (length bytes) b v c e)

-- Where a valid buffer compacts for `bytes`, `append` writes past the end of the vector if the
-- vector is shorter than `reader + 2 * length bytes`; otherwise it returns, and the contents are the
-- old ones with `bytes` at the end exactly when `reader + length bytes = readable + 8`.
pub append_compacting :
    (bytes : List ℕ) (b : Buffer)
    → IsValid b
    → Compacts (length bytes) b
    → ((length b.buffer < b.reader_index + length bytes + length bytes)
        × (append bytes b ≡ undefined))
      ⊎ ((b' : Buffer) × (append bytes b ≡ ok b')
          × (b.reader_index + length bytes + length bytes ≤ length b.buffer)
          × ((contents b' ≡ contents b ++ bytes)
              ↔ (b.reader_index + length bytes ≡ readable b + 8)))
append_compacting bytes b v c =
    elim (dec_le (b.reader_index + length bytes + length bytes) (length b.buffer)) [
      | no h ↦ inl (omega arith, append_past_end bytes b v c (omega arith))
      | yes h ↦ inr (
        after_append bytes (compacted (length bytes) b),
        append-after_append bytes b (compacted (length bytes) b)
            (ensure_writable_bytes-compacted bytes b v c)
            (omega (arith, length-compacted (length bytes) b v c)),
        h,
        (contents_only_if bytes b v c h, contents_if bytes b v c h),
      )
    ]
