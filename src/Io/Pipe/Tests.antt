-- ===== src/Io/Pipe/Tests.antt =====
-- kernel/src/io/pipe.rs: a pipe with bytes on their way.
use nanokrnl.Base.{ℕ, ◌+◌, ◌≡◌, some, List, [], ◌∷◌, ◌++◌, arith}
use nanokrnl.Io.Pipe.{Memory, PipeBuffer}
use nanokrnl.Io.Pipe.Stream.{
  IsValid, unread, PipeCall, wrote, reads, referenced, dereferenced, sent, run, run-Passes,
}

-- One byte of four has been read.
abbrev pipe : PipeBuffer
pipe = record { buf = 104 ∷ 101 ∷ 108 ∷ 111 ∷ []; pos = 1; writers = 1 }

abbrev memory : Memory
memory = λ a. a + 7

abbrev calls : List PipeCall
calls =
    referenced
    ∷ wrote memory 10 3
    ∷ reads memory 0x4000 2
    ∷ dereferenced
    ∷ reads memory 0x4000 100
    ∷ reads memory 0x4000 1
    ∷ []

run-Passes_example :
    (r : PipeBuffer × List ℕ) × (run calls pipe ≡ some r)
    × IsValid r.0
    × (r.1 ++ unread r.0 ≡ unread pipe ++ sent calls)
run-Passes_example = run-Passes calls pipe (omega arith)
