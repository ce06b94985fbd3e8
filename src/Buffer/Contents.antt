-- ===== src/Buffer/Contents.antt =====
-- What a buffer holds, as a queue of bytes: `retrieve` drops from its front and `append` adds to its
-- end, unless `makeSpace` compacts (module Compaction).
use native.Mathlib.Decide.{dec_lt}
use moduo.Prelude.{
  ℕ, ◌+◌, ◌-◌, ◌%◌, ◌^◌, ◌≤◌, ◌<◌, ◌≡◌, sym, ap, ap₂, ◌∙◌, ◌⊎◌, List, ◌++◌, ok, arith, length, take,
  drop, replicate, length-drop, drop-drop, drop_all, drop-take, take_all, take-append_le,
  drop-append_le, take-drop-overwrite, lt→ltb, ge→ltb, add_size,
}
use moduo.Buffer.{
  Buffer, readable_bytes, slice, resize, retrieve_all, retrieve, grow, ensure_writable_bytes,
  append,
}
use moduo.Buffer.Bounds.{
  IsValid, retrieve-IsValid, length-slice, write_at_ok, length-write_at, length-resize,
}

abbrev pub readable : Buffer → ℕ
readable b = b.writer_index - b.reader_index

pub readable_bytes-eq-readable : (b : Buffer) → IsValid b → readable_bytes b ≡ readable b
readable_bytes-eq-readable b v = omega arith

-- The readable bytes, oldest first.
abbrev pub contents : Buffer → List ℕ
contents b = slice b.buffer b.reader_index (readable b)

pub length-contents : (b : Buffer) → IsValid b → length (contents b) ≡ readable b
length-contents b v = length-slice b.buffer b.reader_index (readable b) (omega arith)

-- `n` bytes fit without a compaction: behind the writer index, or in a grown vector.
abbrev pub Fits : ℕ → Buffer → Type 0
Fits n b =
    (b.writer_index + n ≤ length b.buffer)
    ⊎ (length b.buffer + b.reader_index < b.writer_index + n + 8)

retrieve_some :
    (n : ℕ) (b : Buffer)
    → IsValid b
    → n < readable b
    → contents (retrieve n b) ≡ drop n (contents b)
unfolding retrieve
retrieve_some n b v h =
    rw (lt→ltb n (readable_bytes b) (omega arith), advance)
      (ap₂ take shorter (sym (drop-drop b.reader_index n b.buffer))
        ∙ sym (drop-take n (readable b) (drop b.reader_index b.buffer)))
  where
    advance : (b.reader_index + n) % 2 ^ 64 ≡ b.reader_index + n
    advance = omega arith

    shorter : b.writer_index - (b.reader_index + n) ≡ readable b - n
    shorter = omega arith

retrieve_rest :
    (n : ℕ) (b : Buffer)
    → IsValid b
    → readable b ≤ n
    → contents (retrieve n b) ≡ drop n (contents b)
unfolding retrieve retrieve_all
retrieve_rest n b v h =
    rw (ge→ltb n (readable_bytes b) (omega arith))
      (sym (drop_all n (contents b) (omega (arith, length-contents b v))))

-- From a valid buffer `retrieve` removes the given number of the oldest bytes, or all if there are fewer.
pub contents-retrieve :
    (n : ℕ) (b : Buffer) → IsValid b → contents (retrieve n b) ≡ drop n (contents b)
contents-retrieve n b v = elim (dec_lt n (readable b)) [
  | yes h ↦ retrieve_some n b v h
  | no h ↦ retrieve_rest n b v (omega arith)
]

-- The buffer after `bytes` are copied behind the writer index.
abbrev pub after_append : List ℕ → Buffer → Buffer
after_append bytes b = record b {
  buffer = take b.writer_index b.buffer ++ (bytes ++ drop (b.writer_index + length bytes) b.buffer);
  writer_index = add_size b.writer_index (length bytes);
}

pub contents-after_append :
    (bytes : List ℕ) (b : Buffer)
    → IsValid b
    → b.writer_index + length bytes ≤ length b.buffer
    → contents (after_append bytes b) ≡ contents b ++ bytes
contents-after_append bytes b v h =
    ap (λ n. take n (drop b.reader_index (after_append bytes b).buffer)) longer
    ∙ take-drop-overwrite b.buffer bytes b.reader_index b.writer_index v.ordered v.in_bounds
  where
    longer :
        add_size b.writer_index (length bytes) - b.reader_index
        ≡ b.writer_index - b.reader_index + length bytes
    longer = omega arith

pub after_append-IsValid :
    (bytes : List ℕ) (b : Buffer)
    → IsValid b
    → b.writer_index + length bytes ≤ length b.buffer
    → IsValid (after_append bytes b)
after_append-IsValid bytes b v h = omega (arith, length-write_at b.buffer b.writer_index bytes h)

-- The grown vector keeps the bytes.
pub contents-grow :
    (n : ℕ) (b : Buffer)
    → IsValid b
    → n < 2 ^ 63
    → length b.buffer ≤ b.writer_index + n
    → contents (grow n b) ≡ contents b
unfolding grow resize
contents-grow n b v s h =
    rw
      (
        take_all (add_size b.writer_index n) b.buffer (omega arith),
        drop-append_le b.reader_index b.buffer padding (omega arith),
      )
      (take-append_le (readable b) (drop b.reader_index b.buffer) padding
        (omega (arith, length-drop {0} b.reader_index b.buffer)))
  where
    padding : List ℕ
    padding = replicate (add_size b.writer_index n - length b.buffer) 0

pub grow-IsValid :
    (n : ℕ) (b : Buffer)
    → IsValid b
    → b.writer_index + n < 2 ^ 63
    → length b.buffer ≤ b.writer_index + n
    → IsValid (grow n b) × (length (grow n b).buffer ≡ b.writer_index + n)
unfolding grow
grow-IsValid n b v s h =
    omega (arith, length-resize b.buffer (add_size b.writer_index n) (omega arith))

-- `append` once the space is there.
pub append-after_append :
    (bytes : List ℕ) (b b' : Buffer)
    → ensure_writable_bytes (length bytes) b ≡ ok b'
    → b'.writer_index + length bytes ≤ length b'.buffer
    → append bytes b ≡ ok (after_append bytes b')
unfolding append
append-after_append bytes b b' e h = rw (e, write_at_ok b'.buffer b'.writer_index bytes h)

pub readable_bytes-retrieve :
    (n : ℕ) (b : Buffer) → IsValid b → readable_bytes (retrieve n b) ≡ readable b - n
readable_bytes-retrieve n b v =
    let valid = retrieve-IsValid n b v in
    omega (
      arith,
      readable_bytes-eq-readable (retrieve n b) valid,
      length-contents (retrieve n b) valid,
      ap length (contents-retrieve n b v),
      length-drop {0} n (contents b),
      length-contents b v,
    )
