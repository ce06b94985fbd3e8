-- ===== src/Examples/Buffers.antt =====
-- Buffers.
use moduo.Prelude.{
  ◌+◌, ◌≤◌, ◌<◌, ◌≡◌, refl, ◌>>=◌, ◌⊎◌, inl, ◌↔◌, [], ◌∷◌, ◌++◌, ok, undefined, arith, replicate,
}
use moduo.Os.{readv, returns}
use moduo.Buffer.{
  Buffer, retrieve_all_as_string, append, ensure_writable_bytes, make_space, compact, read_at,
  write_at, read_fd, read_lengths,
}
use moduo.Buffer.Bounds.{IsValid}
use moduo.Buffer.Contents.{readable, contents}
use moduo.Buffer.Append.{append_refines, append-retrieve_all_as_string}
use moduo.Buffer.Compaction.{append_compacting}
use moduo.Buffer.ReadFd.{read_fd_refines}
use moduo.Examples.Kernels.{kernel, kernel-ReadvFits}

-- Twenty bytes, of which the indices 8 to 10 are readable.
abbrev small : Buffer
small = record {
  buffer = replicate 8 0 ++ (1 ∷ 2 ∷ 3 ∷ []) ++ replicate 9 0;
  reader_index = 8;
  writer_index = 11;
}

small-IsValid : IsValid small
small-IsValid = omega arith

-- The same after a partial read, with the free bytes in front.
abbrev moved : Buffer
moved = record {
  buffer = replicate 16 0 ++ (1 ∷ 2 ∷ 3 ∷ []) ++ (0 ∷ []);
  reader_index = 16;
  writer_index = 19;
}

moved-IsValid : IsValid moved
moved-IsValid = omega arith

append_refines_example :
    (b' : Buffer) × (append (4 ∷ 5 ∷ []) small ≡ ok b')
    × (contents b' ≡ 1 ∷ 2 ∷ 3 ∷ 4 ∷ 5 ∷ [])
    × (b'.reader_index ≡ 8)
    × IsValid b'
append_refines_example =
    append_refines (4 ∷ 5 ∷ []) small small-IsValid (omega arith) (inl (omega arith))

append-retrieve_all_as_string_example :
    (b₁ b₂ : Buffer) × (append (4 ∷ 5 ∷ []) small ≡ ok b₁)
    × (retrieve_all_as_string b₁ ≡ ok (1 ∷ 2 ∷ 3 ∷ 4 ∷ 5 ∷ [], b₂))
    × (contents b₂ ≡ [])
append-retrieve_all_as_string_example =
    append-retrieve_all_as_string (4 ∷ 5 ∷ []) small small-IsValid (omega arith) (inl (omega arith))

append_compacting_example :
    ((20 < 16 + 4 + 4) × (append (4 ∷ 5 ∷ 6 ∷ 7 ∷ []) moved ≡ undefined))
    ⊎ ((b' : Buffer) × (append (4 ∷ 5 ∷ 6 ∷ 7 ∷ []) moved ≡ ok b')
        × (16 + 4 + 4 ≤ 20)
        × ((contents b' ≡ 1 ∷ 2 ∷ 3 ∷ 4 ∷ 5 ∷ 6 ∷ 7 ∷ []) ↔ (16 + 4 ≡ readable moved + 8)))
append_compacting_example = append_compacting (4 ∷ 5 ∷ 6 ∷ 7 ∷ []) moved moved-IsValid (omega arith)

-- Two bytes appended behind three: the readers get old bytes in between.
compacted_stream :
    (append (8 ∷ 9 ∷ []) moved >>= λ b. ok (contents b))
    ≡ ok (1 ∷ 2 ∷ 3 ∷ 0 ∷ 0 ∷ 0 ∷ 0 ∷ 0 ∷ 1 ∷ 2 ∷ 8 ∷ 9 ∷ [])
unfolding append ensure_writable_bytes make_space compact read_at write_at
compacted_stream = refl

read_fd_refines_example :
    (b' : Buffer) × (read_fd (kernel 0 (4 ∷ 5 ∷ [])) 7 [] small
      ≡ ok (b', readv 7 (read_lengths small) ∷ [], returns 2))
    × (contents b' ≡ 1 ∷ 2 ∷ 3 ∷ 4 ∷ 5 ∷ [])
    × IsValid b'
read_fd_refines_example =
    read_fd_refines (kernel 0 (4 ∷ 5 ∷ [])) 7 [] small (4 ∷ 5 ∷ [])
      (kernel-ReadvFits 0 (4 ∷ 5 ∷ [])) small-IsValid (omega arith) refl (inl (omega arith))
