-- ===== src/Buffer/Append.antt =====
-- `append` against a queue of bytes, where `makeSpace` does not compact.
use moduo.Prelude.{
  ℕ, ◌+◌, ◌^◌, ◌≤◌, ◌<◌, ◌≡◌, refl, ap, ◌∙◌, List, [], ◌++◌, ok, arith, length, drop_all,
}
use native.Mathlib.Decide.{dec_le}
use moduo.Buffer.{
  Buffer, readable_bytes, retrieve, retrieve_as_string, retrieve_all_as_string, grow, append,
}
use moduo.Buffer.Bounds.{
  IsValid, read_at_ok, retrieve-IsValid, ensure_writable_bytes_room, ensure_writable_bytes-grow,
}
use moduo.Buffer.Contents.{
  readable, contents, Fits, after_append, contents-after_append, after_append-IsValid,
  contents-grow, grow-IsValid, append-after_append, contents-retrieve, readable_bytes-eq-readable,
  length-contents,
}

append_in_place :
    (bytes : List ℕ) (b : Buffer)
    → IsValid b
    → b.writer_index + length bytes ≤ length b.buffer
    → (b' : Buffer) × (append bytes b ≡ ok b')
      × (contents b' ≡ contents b ++ bytes)
      × (b'.reader_index ≡ b.reader_index)
      × IsValid b'
append_in_place bytes b v h = (
  after_append bytes b,
  append-after_append bytes b b (ensure_writable_bytes_room (length bytes) b v h) h,
  contents-after_append bytes b v h,
  refl,
  after_append-IsValid bytes b v h,
)

append_grown :
    (bytes : List ℕ) (b : Buffer)
    → IsValid b
    → b.writer_index + length bytes < 2 ^ 63
    → length b.buffer < b.writer_index + length bytes
    → length b.buffer + b.reader_index < b.writer_index + length bytes + 8
    → (b' : Buffer) × (append bytes b ≡ ok b')
      × (contents b' ≡ contents b ++ bytes)
      × (b'.reader_index ≡ b.reader_index)
      × IsValid b'
unfolding grow
append_grown bytes b v s h k =
    let n = length bytes in
    let (v', len) = grow-IsValid n b v s (omega arith) in
    (
      after_append bytes (grow n b),
      append-after_append bytes b (grow n b) (ensure_writable_bytes-grow n b v (omega arith) h k)
          (omega (arith, len)),
      contents-after_append bytes (grow n b) v' (omega (arith, len))
          ∙ ap (λ l. l ++ bytes) (contents-grow n b v (omega arith) (omega arith)),
      refl,
      after_append-IsValid bytes (grow n b) v' (omega (arith, len)),
    )

-- Where the bytes fit without a compaction and the vector stays below 2 ^ 63 bytes, `append`
-- returns a valid buffer with the bytes added at the end of the contents.
pub append_refines :
    (bytes : List ℕ) (b : Buffer)
    → IsValid b
    → b.writer_index + length bytes < 2 ^ 63
    → Fits (length bytes) b
    → (b' : Buffer) × (append bytes b ≡ ok b')
      × (contents b' ≡ contents b ++ bytes)
      × (b'.reader_index ≡ b.reader_index)
      × IsValid b'
append_refines bytes b v s f = elim (dec_le (b.writer_index + length bytes) (length b.buffer)) [
  | yes h ↦ append_in_place bytes b v h
  | no h ↦ append_grown bytes b v s (omega arith) (omega arith)
]

-- `retrieveAllAsString` hands out the contents and leaves a valid buffer that holds nothing.
pub retrieve_all_as_string_lem :
    (b : Buffer)
    → IsValid b
    → (b' : Buffer) × (retrieve_all_as_string b ≡ ok (contents b, b'))
      × (contents b' ≡ [])
      × IsValid b'
unfolding retrieve_all_as_string retrieve_as_string
retrieve_all_as_string_lem b v = (
  retrieve (readable_bytes b) b,
  rw (
    readable_bytes-eq-readable b v,
    read_at_ok b.buffer b.reader_index (readable b) (omega arith),
  ),
  contents-retrieve (readable_bytes b) b v
      ∙ drop_all (readable_bytes b) (contents b) (omega (arith, length-contents b v)),
  retrieve-IsValid (readable_bytes b) b v,
)

-- What is appended to a valid buffer, where it fits without a compaction and the writer index stays
-- below 2 ^ 63, comes out behind what was there, and then the buffer holds nothing.
pub append-retrieve_all_as_string :
    (bytes : List ℕ) (b : Buffer)
    → IsValid b
    → b.writer_index + length bytes < 2 ^ 63
    → Fits (length bytes) b
    → (b₁ b₂ : Buffer) × (append bytes b ≡ ok b₁)
      × (retrieve_all_as_string b₁ ≡ ok (contents b ++ bytes, b₂))
      × (contents b₂ ≡ [])
append-retrieve_all_as_string bytes b v s f =
    let (b₁, appended, held, _, v₁) = append_refines bytes b v s f in
    let (b₂, read, left, _) = retrieve_all_as_string_lem b₁ v₁ in
    (b₁, b₂, appended, read ∙ ap (λ l. ok (l, b₂)) held, left)
