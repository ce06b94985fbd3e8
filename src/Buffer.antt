-- ===== src/Buffer.antt =====
-- src/Buffer.h and src/Buffer.cc: the byte buffer of a connection. `size_t` wraps at 2 ^ 64; an
-- access outside the vector is `undefined`. `std::vector::resize` does not fail.
pub mod Bounds
pub mod Contents
pub mod Append
pub mod Compaction
pub mod ReadFd
use moduo.Prelude.{
  ℕ, suc, ◌+◌, ◌-◌, ◌%◌, ◌^◌, List, [], ◌∷◌, ◌++◌, Outcome, ok, undefined, ◌>>=◌, length, take,
  drop, replicate, ltb, leb, if◌then◌else◌, add_size, sub_size,
}
use moduo.Os.{Kernel, Calls, Reply, returns, fails, Input, delivers, refuses, readv, write}

abbrev pub cheap_prepend : ℕ
cheap_prepend = 8

abbrev pub initial_size : ℕ
initial_size = 1024

pub record Buffer : Type 0 where
  pub buffer : List ℕ
  pub reader_index : ℕ
  pub writer_index : ℕ

unfoldable pub new : ℕ → Buffer
new size = record {
  buffer = replicate (add_size cheap_prepend size) 0;
  reader_index = cheap_prepend;
  writer_index = cheap_prepend;
}

abbrev pub readable_bytes : Buffer → ℕ
readable_bytes b = sub_size b.writer_index b.reader_index

abbrev pub writable_bytes : Buffer → ℕ
writable_bytes b = sub_size (length b.buffer) b.writer_index

abbrev pub prependable_bytes : Buffer → ℕ
prependable_bytes b = b.reader_index

-- `n` bytes from index `i` on, and the vector with `src` copied to index `i`.
abbrev pub slice : List ℕ → ℕ → ℕ → List ℕ
slice xs i n = take n (drop i xs)

unfoldable pub read_at : List ℕ → ℕ → ℕ → Outcome (List ℕ)
read_at xs i n = if leb (i + n) (length xs) then ok (slice xs i n) else undefined

unfoldable pub write_at : List ℕ → ℕ → List ℕ → Outcome (List ℕ)
write_at xs i src =
    if leb (i + length src) (length xs)
    then ok (take i xs ++ (src ++ drop (i + length src) xs))
    else undefined

-- `std::vector<char>::resize`.
unfoldable pub resize : List ℕ → ℕ → List ℕ
resize xs n = take n xs ++ replicate (n - length xs) 0

unfoldable pub retrieve_all : Buffer → Buffer
retrieve_all b = record b { reader_index = cheap_prepend; writer_index = cheap_prepend }

unfoldable pub retrieve : ℕ → Buffer → Buffer
unfolding retrieve_all
retrieve len b =
    if ltb len (readable_bytes b)
    then record b { reader_index = add_size b.reader_index len }
    else retrieve_all b

unfoldable pub retrieve_as_string : ℕ → Buffer → Outcome (List ℕ × Buffer)
retrieve_as_string len b = do
  result ← read_at b.buffer b.reader_index len
  ok (result, retrieve len b)

unfoldable pub retrieve_all_as_string : Buffer → Outcome (List ℕ × Buffer)
retrieve_all_as_string b = retrieve_as_string (readable_bytes b) b

-- The two branches of `makeSpace`.
unfoldable pub grow : ℕ → Buffer → Buffer
grow len b = record b { buffer = resize b.buffer (add_size b.writer_index len) }

unfoldable pub compact : ℕ → Buffer → Outcome Buffer
compact len b = do
  moved ← read_at b.buffer b.reader_index (readable_bytes b)
  bytes ← write_at b.buffer cheap_prepend moved
  ok (record {
    buffer = bytes;
    reader_index = cheap_prepend;
    writer_index = add_size b.writer_index (sub_size len (readable_bytes b));
  })

unfoldable pub make_space : ℕ → Buffer → Outcome Buffer
make_space len b =
    if ltb (add_size (writable_bytes b) (prependable_bytes b)) (add_size len cheap_prepend)
    then ok (grow len b)
    else compact len b

unfoldable pub ensure_writable_bytes : ℕ → Buffer → Outcome Buffer
ensure_writable_bytes len b = if ltb (writable_bytes b) len then make_space len b else ok b

unfoldable pub append : List ℕ → Buffer → Outcome Buffer
append bytes b = do
  b' ← ensure_writable_bytes (length bytes) b
  written ← write_at b'.buffer b'.writer_index bytes
  ok (record b' { buffer = written; writer_index = add_size b'.writer_index (length bytes) })

abbrev pub extra_size : ℕ
extra_size = 65536

-- The lengths of the `iovec`s that `readFd` passes.
abbrev pub read_lengths : Buffer → List ℕ
read_lengths b =
    if ltb (writable_bytes b) extra_size
    then writable_bytes b ∷ extra_size ∷ []
    else writable_bytes b ∷ []

-- What `readFd` does with the bytes received: as many as fit lie behind the writer index, the
-- others in `extrabuf`.
unfoldable pub store_fitting : List ℕ → Buffer → Outcome Buffer
store_fitting bytes b = do
  filled ← write_at b.buffer b.writer_index bytes
  ok (record b { buffer = filled; writer_index = add_size b.writer_index (length bytes) })

unfoldable pub store_overflowing : List ℕ → Buffer → Outcome Buffer
store_overflowing bytes b = do
  filled ← write_at b.buffer b.writer_index (take (writable_bytes b) bytes)
  append (drop (writable_bytes b) bytes)
      (record b { buffer = filled; writer_index = length b.buffer })

unfoldable pub store_input : List ℕ → Buffer → Outcome Buffer
store_input bytes b =
    if leb (length bytes) (writable_bytes b)
    then store_fitting bytes b
    else store_overflowing bytes b

unfoldable pub read_fd : Kernel → ℕ → Calls → Buffer → Outcome (Buffer × Calls × Reply)
read_fd k fd calls b =
    let call = readv fd (read_lengths b) in
    elim (k.input calls call) [
      | refuses errno ↦ ok (b, call ∷ calls, fails errno)
      | delivers bytes ↦ do b' ← store_input bytes b; ok (b', call ∷ calls, returns (length bytes))
    ]

unfoldable pub write_fd : Kernel → ℕ → Calls → Buffer → Outcome (Calls × Reply)
write_fd k fd calls b = do
  bytes ← read_at b.buffer b.reader_index (readable_bytes b)
  ok (write fd bytes ∷ calls, k.reply calls (write fd bytes))
