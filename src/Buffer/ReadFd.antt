-- ===== src/Buffer/ReadFd.antt =====
-- src/Buffer.cc, `readFd`: a scattered read into the vector and 64 KB on the stack.
use native.Mathlib.Decide.{dec_le}
use mathlib.Core.List.{append_assoc}
use moduo.Prelude.{
  ℕ, ◌+◌, ◌-◌, ◌^◌, ◌≤◌, ◌<◌, ◌≡◌, ap, ◌∙◌, inr, List, ◌∷◌, ◌++◌, ok, arith, length, take, drop,
  length-take, length-drop, take-append-drop, le→leb, gt→leb, add_size,
}
use moduo.Os.{Kernel, Calls, ReadvFits, returns, delivers, readv, sum}
use moduo.Buffer.{
  Buffer, writable_bytes, append, extra_size, read_lengths, store_fitting, store_overflowing,
  store_input, read_fd,
}
use moduo.Buffer.Bounds.{IsValid, write_at_ok, length-write_at}
use moduo.Buffer.Contents.{
  contents, Fits, after_append, contents-after_append, after_append-IsValid,
}
use moduo.Buffer.Append.{append_refines}

writable_bytes-eq : (b : Buffer) → IsValid b → writable_bytes b ≡ length b.buffer - b.writer_index
writable_bytes-eq b v = omega arith

sum-read_lengths : (b : Buffer) → sum (read_lengths b) ≤ writable_bytes b + extra_size
sum-read_lengths b = ground arith

store_fitting_lem :
    (bytes : List ℕ) (b : Buffer)
    → IsValid b
    → b.writer_index + length bytes ≤ length b.buffer
    → (b' : Buffer) × (store_fitting bytes b ≡ ok b')
      × (contents b' ≡ contents b ++ bytes)
      × IsValid b'
unfolding store_fitting
store_fitting_lem bytes b v h = (
  after_append bytes b,
  rw (write_at_ok b.buffer b.writer_index bytes h),
  contents-after_append bytes b v h,
  after_append-IsValid bytes b v h,
)

module _ (bytes : List ℕ) (b : Buffer) (v : IsValid b)
    (h : length b.buffer < b.writer_index + length bytes) where
  front : List ℕ
  front = take (writable_bytes b) bytes

  back : List ℕ
  back = drop (writable_bytes b) bytes

  length-front : b.writer_index + length front ≡ length b.buffer
  unfolding front
  length-front = omega (arith, length-take {0} (writable_bytes b) bytes)

  -- The vector is full when `append` is called for the rest.
  store_overflowing-append : store_overflowing bytes b ≡ append back (after_append front b)
  unfolding store_overflowing front back
  store_overflowing-append =
      rw (write_at_ok b.buffer b.writer_index front (omega (arith, length-front)))
        (ap (λ w. append back (record (after_append front b) { writer_index = w })) full)
    where
      full : length b.buffer ≡ add_size b.writer_index (length front)
      full = omega (arith, length-front)

  store_overflowing_lem :
      b.writer_index + length bytes < 2 ^ 63
      → length b.buffer + b.reader_index < b.writer_index + length bytes + 8
      → (b' : Buffer) × (store_overflowing bytes b ≡ ok b')
        × (contents b' ≡ contents b ++ bytes)
        × IsValid b'
  unfolding front back
  store_overflowing_lem s f =
      let sizes = length-drop {0} (writable_bytes b) bytes in
      let kept = length-write_at b.buffer b.writer_index front (omega (arith, length-front)) in
      let stored = after_append-IsValid front b v (omega (arith, length-front)) in
      let (b', appended, held, _, valid) =
        append_refines back (after_append front b) stored (omega (arith, length-front, sizes))
          (inr (omega (arith, length-front, sizes, kept))) in
      (
        b',
        store_overflowing-append ∙ appended,
        held
            ∙ ap (λ l. l ++ back) (contents-after_append front b v (omega (arith, length-front)))
            ∙ append_assoc (contents b) front back
            ∙ ap (λ l. contents b ++ l) (take-append-drop (writable_bytes b) bytes),
        valid,
      )

pub store_input_refines :
    (bytes : List ℕ) (b : Buffer)
    → IsValid b
    → b.writer_index + length bytes < 2 ^ 63
    → Fits (length bytes) b
    → (b' : Buffer) × (store_input bytes b ≡ ok b')
      × (contents b' ≡ contents b ++ bytes)
      × IsValid b'
unfolding store_input
store_input_refines bytes b v s f =
    elim (dec_le (b.writer_index + length bytes) (length b.buffer)) [
      | yes h ↦
          rw (le→leb (length bytes) (writable_bytes b) (omega arith))
            (store_fitting_lem bytes b v h)
      | no h ↦
          rw (gt→leb (length bytes) (writable_bytes b) (omega arith))
            (store_overflowing_lem bytes b v (omega arith) s (omega arith))
    ]

read_fd_delivers :
    (k : Kernel) (fd : ℕ) (calls : Calls) (b b' : Buffer) (bytes : List ℕ)
    → k.input calls (readv fd (read_lengths b)) ≡ delivers bytes
    → store_input bytes b ≡ ok b'
    → read_fd k fd calls b ≡ ok (b', readv fd (read_lengths b) ∷ calls, returns (length bytes))
unfolding read_fd
read_fd_delivers k fd calls b b' bytes e stored = rw (e, read_fd) (rw stored)

-- Where the kernel keeps to the buffers that it is given, the vector is below 2 ^ 62 bytes and the
-- bytes received fit without a compaction, `readFd` returns their number and leaves a valid buffer
-- with them at the end of its contents, whether they came into the vector or on the stack too.
pub read_fd_refines :
    (k : Kernel) (fd : ℕ) (calls : Calls) (b : Buffer) (bytes : List ℕ)
    → ReadvFits k
    → IsValid b
    → length b.buffer < 2 ^ 62
    → k.input calls (readv fd (read_lengths b)) ≡ delivers bytes
    → Fits (length bytes) b
    → (b' : Buffer) × (read_fd k fd calls b
        ≡ ok (b', readv fd (read_lengths b) ∷ calls, returns (length bytes)))
      × (contents b' ≡ contents b ++ bytes)
      × IsValid b'
read_fd_refines k fd calls b bytes fits v small e f =
    let bound = fits calls fd (read_lengths b) bytes e in
    let (b', stored, held, valid) =
      store_input_refines bytes b v (omega (arith, bound, sum-read_lengths b)) f in
    (b', read_fd_delivers k fd calls b b' bytes e stored, held, valid)
