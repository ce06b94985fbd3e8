-- ===== src/Buffer/Bounds.antt =====
-- The indices of a buffer: src/Buffer.h keeps 8 <= reader <= writer <= size.
use moduo.Prelude.{
  ℕ, ◌+◌, ◌-◌, ◌^◌, ◌≤◌, ◌<◌, ◌≡◌, List, ◌++◌, ok, undefined, arith, length, take, drop, replicate,
  length-append, length-take, length-drop, length-replicate, lt→ltb, ge→ltb, le→leb, gt→leb,
  add_size,
}
use moduo.Buffer.{
  Buffer, new, writable_bytes, slice, read_at, write_at, resize, retrieve, grow, compact,
  make_space, ensure_writable_bytes,
}

-- `std::vector<char>` holds fewer than 2 ^ 63 bytes.
pub record IsValid (b : Buffer) : Type 0 where
  pub prepend : 8 ≤ b.reader_index
  pub ordered : b.reader_index ≤ b.writer_index
  pub in_bounds : b.writer_index ≤ length b.buffer
  pub small : length b.buffer < 2 ^ 63

-- `makeSpace (n)` is called and moves the readable bytes to the front.
pub record Compacts (n : ℕ) (b : Buffer) : Type 0 where
  pub short : length b.buffer < b.writer_index + n
  pub reusable : b.writer_index + n + 8 ≤ length b.buffer + b.reader_index

pub new-IsValid : (n : ℕ) → n < 2 ^ 62 → IsValid (new n)
unfolding new
new-IsValid n h = record {
  prepend = omega arith;
  ordered = omega arith;
  in_bounds = omega (arith, length-replicate {0} {A = ℕ} (add_size 8 n) 0);
  small = omega (arith, length-replicate {0} {A = ℕ} (add_size 8 n) 0);
}

pub length-slice : (xs : List ℕ) (i n : ℕ) → i + n ≤ length xs → length (slice xs i n) ≡ n
length-slice xs i n h = omega (arith, length-take {0} n (drop i xs), length-drop {0} i xs)

pub read_at_ok : (xs : List ℕ) (i n : ℕ) → i + n ≤ length xs → read_at xs i n ≡ ok (slice xs i n)
unfolding read_at
read_at_ok xs i n h = rw (le→leb (i + n) (length xs) h)

pub write_at_ok :
    (xs : List ℕ) (i : ℕ) (src : List ℕ)
    → i + length src ≤ length xs
    → write_at xs i src ≡ ok (take i xs ++ (src ++ drop (i + length src) xs))
unfolding write_at
write_at_ok xs i src h = rw (le→leb (i + length src) (length xs) h)

pub write_at_undefined :
    (xs : List ℕ) (i : ℕ) (src : List ℕ)
    → length xs < i + length src
    → write_at xs i src ≡ undefined
unfolding write_at
write_at_undefined xs i src h = rw (gt→leb (i + length src) (length xs) h)

pub length-write_at :
    (xs : List ℕ) (i : ℕ) (src : List ℕ)
    → i + length src ≤ length xs
    → length (take i xs ++ (src ++ drop (i + length src) xs)) ≡ length xs
length-write_at xs i src h = omega (
  arith,
  length-append {0} (take i xs) (src ++ drop (i + length src) xs),
  length-append {0} src (drop (i + length src) xs),
  length-take {0} i xs,
  length-drop {0} (i + length src) xs,
)

pub length-resize : (xs : List ℕ) (n : ℕ) → length xs ≤ n → length (resize xs n) ≡ n
unfolding resize
length-resize xs n h = omega (
  arith,
  length-append {0} (take n xs) (replicate (n - length xs) 0),
  length-take {0} n xs,
  length-replicate {0} {A = ℕ} (n - length xs) 0,
)

-- The indices stay in order whatever number of bytes is retrieved.
pub retrieve-IsValid : (n : ℕ) (b : Buffer) → IsValid b → IsValid (retrieve n b)
unfolding retrieve
retrieve-IsValid n b v = ground arith

-- The three ways of `ensureWritableBytes`.
pub ensure_writable_bytes_room :
    (n : ℕ) (b : Buffer)
    → IsValid b
    → b.writer_index + n ≤ length b.buffer
    → ensure_writable_bytes n b ≡ ok b
unfolding ensure_writable_bytes
ensure_writable_bytes_room n b v h = rw (ge→ltb (writable_bytes b) n (omega arith))

pub ensure_writable_bytes-grow :
    (n : ℕ) (b : Buffer)
    → IsValid b
    → n < 2 ^ 63
    → length b.buffer < b.writer_index + n
    → length b.buffer + b.reader_index < b.writer_index + n + 8
    → ensure_writable_bytes n b ≡ ok (grow n b)
unfolding ensure_writable_bytes make_space
ensure_writable_bytes-grow n b v s h k = rw (
  lt→ltb (writable_bytes b) n (omega arith),
  lt→ltb (add_size (writable_bytes b) b.reader_index) (add_size n 8) (omega arith),
)

pub ensure_writable_bytes-compact :
    (n : ℕ) (b : Buffer) → IsValid b → Compacts n b → ensure_writable_bytes n b ≡ compact n b
unfolding ensure_writable_bytes make_space
ensure_writable_bytes-compact n b v c = rw (
  lt→ltb (writable_bytes b) n (omega arith),
  ge→ltb (add_size (writable_bytes b) b.reader_index) (add_size n 8) (omega arith),
)
