-- ===== src/Io/Pipe.antt =====
-- kernel/src/io/pipe.rs: a pipe as its bytes, the position of the reader and the number of writers.
-- `none` is a slice out of bounds. Memory is a function from addresses to bytes; a read copies to it
-- after it has let the lock go. The two ends are objects of ob/mod.rs that share the buffer.
pub mod Stream
mod Tests
use nanokrnl.Base.{
  ℕ, zero, suc, ◌+◌, ◌-◌, ◌%◌, ◌^◌, min, Bool, true, false, Option, none, some, List, [], ◌∷◌, ◌++◌,
  ◌==◌, leb, if◌then◌else◌, ◌>>=◌, length, take, drop,
}

abbrev pub Memory : Type 0
Memory = ℕ → ℕ

pub record PipeBuffer : Type 0 where
  pub buf : List ℕ
  pub pos : ℕ
  pub writers : ℕ

-- A new pipe has the write end that its creator holds.
abbrev pub create : PipeBuffer
create = record { buf = []; pos = 0; writers = 1 }

abbrev pub writer_referenced : PipeBuffer → PipeBuffer
writer_referenced pb = record pb { writers = (pb.writers + 1) % 2 ^ 64 }

abbrev pub writer_dereferenced : PipeBuffer → PipeBuffer
writer_dereferenced pb = record pb { writers = (pb.writers + 2 ^ 64 - 1) % 2 ^ 64 }

-- `from_raw_parts(src, len)`
unfoldable pub bytes_at : Memory → (src len : ℕ) → List ℕ
bytes_at m src zero = []
bytes_at m src (suc len) = m src ∷ bytes_at m (src + 1) len

-- `copy_nonoverlapping`
unfoldable pub copy_to : (dst : ℕ) → List ℕ → Memory → Memory
copy_to dst [] m = m
copy_to dst (b ∷ bs) m = copy_to (dst + 1) bs (λ a. if a == dst then b else m a)

unfoldable pub write : (src len : ℕ) → Memory → PipeBuffer → PipeBuffer × ℕ
unfolding bytes_at
write src len m pb = (record pb { buf = pb.buf ++ bytes_at m src len }, len)

-- `xs[from..from + n]`
pub slice : List ℕ → (from n : ℕ) → Option (List ℕ)
slice xs from n = if leb (from + n) (length xs) then some (take n (drop from xs)) else none

-- What is drained under the lock, and the end of file.
pub drain : (max : ℕ) → PipeBuffer → Option (PipeBuffer × List ℕ × Bool)
unfolding slice
drain limit pb =
    if length pb.buf - pb.pos == 0
    then some (pb, [], pb.writers == 0)
    else let n = min (length pb.buf - pb.pos) limit in
      slice pb.buf pb.pos n >>= λ chunk. some (record pb { pos = pb.pos + n }, chunk, false)

pub deliver : (dst : ℕ) → Memory → PipeBuffer × List ℕ × Bool → Memory × PipeBuffer × ℕ × Bool
unfolding copy_to
deliver dst m (pb, chunk, eof) = (copy_to dst chunk m, pb, length chunk, eof)

pub try_read : (dst max : ℕ) → Memory → PipeBuffer → Option (Memory × PipeBuffer × ℕ × Bool)
unfolding drain deliver
try_read dst limit m pb = drain limit pb >>= λ r. some (deliver dst m r)
