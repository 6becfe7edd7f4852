-- ===== src/Io/Pipe/Stream.antt =====
-- kernel/src/io/pipe.rs: the bytes that are yet to be read, and what goes through the pipe.
use nanokrnl.Base.{
  ℕ, zero, suc, ◌+◌, ◌-◌, ◌<◌, ◌≤◌, ◌≡◌, refl, sym, ap, ◌∙◌, min, Bool, true, ◌&&◌, Option, some,
  List, [], ◌∷◌, ◌++◌, ◌==◌, leb, if◌then◌else◌, ◌>>=◌, length, length-append, take, drop,
  Bool-cases, inl, inr, arith,
}
use mathlib.Core.List.{append_assoc, append-nil}
use nanokrnl.Io.Pipe.{
  Memory, PipeBuffer, writer_referenced, writer_dereferenced, bytes_at, copy_to, write, slice,
  drain, deliver, try_read,
}

-- The position of the reader lies in the buffer.
abbrev pub IsValid : PipeBuffer → Type 0
IsValid pb = pb.pos ≤ length pb.buf

-- The bytes that are yet to be read.
abbrev pub unread : PipeBuffer → List ℕ
unread pb = drop pb.pos pb.buf

drop-append : (n : ℕ) (xs ys : List ℕ) → n ≤ length xs → drop n (xs ++ ys) ≡ drop n xs ++ ys
drop-append zero xs ys le = refl
drop-append (suc n) [] ys le = absurd (omega arith)
drop-append (suc n) (x ∷ xs) ys le = drop-append n xs ys (omega arith)

drop-nil : (n : ℕ) → drop {A = ℕ} n [] ≡ []
drop-nil zero = refl
drop-nil (suc n) = refl

drop-drop : (m n : ℕ) (xs : List ℕ) → drop (m + n) xs ≡ drop n (drop m xs)
drop-drop zero n xs = ap (λ k. drop k xs) (omega arith)
drop-drop (suc m) n [] = drop-nil (suc m + n) ∙ sym (drop-nil n)
drop-drop (suc m) n (x ∷ xs) =
    let next : suc m + n ≡ suc (m + n) = omega arith in rw next (drop-drop m n xs)

append-take : (n : ℕ) (xs : List ℕ) → take n xs ++ drop n xs ≡ xs
append-take zero xs = refl
append-take (suc n) [] = refl
append-take (suc n) (x ∷ xs) = ap (λ l. x ∷ l) (append-take n xs)

length-drop : (n : ℕ) (xs : List ℕ) → length (drop n xs) ≡ length xs - n
length-drop zero xs = omega arith
length-drop (suc n) [] = omega arith
length-drop (suc n) (x ∷ xs) = omega (arith, length-drop n xs)

length-take : (n : ℕ) (xs : List ℕ) → n ≤ length xs → length (take n xs) ≡ n
length-take zero xs le = refl
length-take (suc n) [] le = absurd (omega arith)
length-take (suc n) (x ∷ xs) le = ap suc (length-take n xs (omega arith))

copy_to-before : (dst : ℕ) (bs : List ℕ) (m : Memory) (a : ℕ) → a < dst → copy_to dst bs m a ≡ m a
unfolding copy_to
copy_to-before dst [] m a lt = refl
copy_to-before dst (b ∷ bs) m a lt =
    copy_to-before (dst + 1) bs (λ x. if x == dst then b else m x) a (omega arith) ∙ ground arith

copy_to-behind :
    (dst : ℕ) (bs : List ℕ) (m : Memory) (a : ℕ) → dst + length bs ≤ a → copy_to dst bs m a ≡ m a
unfolding copy_to
copy_to-behind dst [] m a le = refl
copy_to-behind dst (b ∷ bs) m a le =
    copy_to-behind (dst + 1) bs (λ x. if x == dst then b else m x) a (omega (arith, le))
    ∙ ground (arith, le)

-- What is copied is there.
bytes_at-copy_to :
    (dst : ℕ) (bs : List ℕ) (m : Memory) → bytes_at (copy_to dst bs m) dst (length bs) ≡ bs
unfolding copy_to bytes_at
bytes_at-copy_to dst [] m = refl
bytes_at-copy_to dst (b ∷ bs) m =
    let first : copy_to (dst + 1) bs (λ x. if x == dst then b else m x) dst ≡ b =
      copy_to-before (dst + 1) bs (λ x. if x == dst then b else m x) dst (omega arith)
      ∙ ground arith in
    rw (first, bytes_at-copy_to (dst + 1) bs (λ x. if x == dst then b else m x)) refl

-- What `try_read` promises of its result.
pub record Reads (dst limit : ℕ) (m : Memory) (pb : PipeBuffer) (r : Memory × PipeBuffer × ℕ × Bool)
    : Type 0 where
  pub valid : IsValid (r.1)
  pub number : r.2 ≡ min (length (unread pb)) limit
  pub bytes : bytes_at (r.0) dst (r.2) ≡ take (r.2) (unread pb)
  pub before : (a : ℕ) → a < dst → r.0 a ≡ m a
  pub behind : (a : ℕ) → dst + r.2 ≤ a → r.0 a ≡ m a
  pub rest : unread (r.1) ≡ drop (r.2) (unread pb)
  pub writers : (r.1).writers ≡ pb.writers
  pub eof : r.3 ≡ ((length (unread pb) == 0) && (pb.writers == 0))

drain_lem :
    (limit : ℕ) (pb : PipeBuffer)
    → IsValid pb
    → drain limit pb
      ≡ some (
        record pb { pos = pb.pos + min (length (unread pb)) limit },
        take (min (length (unread pb)) limit) (unread pb),
        (length (unread pb) == 0) && (pb.writers == 0),
      )
unfolding drain slice
drain_lem limit pb valid =
    rw (length-drop pb.pos pb.buf) (elim (Bool-cases (length pb.buf - pb.pos == 0)) [
      | inl done ↦
          let none_left : min (length pb.buf - pb.pos) limit ≡ 0 = ground (arith, done) in
          let still : pb.pos + 0 ≡ pb.pos = omega arith in rw (done, none_left, still) refl
      | inr more ↦
          let fits : leb (pb.pos + min (length pb.buf - pb.pos) limit) (length pb.buf) ≡ true =
            ground (arith, valid) in
          rw (more, fits) refl
    ])

-- `try_read` of a valid pipe does not panic. It delivers the oldest unread bytes, as many as there
-- are up to the limit, changes no other memory, and reports the end of file
-- exactly when nothing is unread and no writer is left.
pub try_read-Reads :
    (dst limit : ℕ) (m : Memory) (pb : PipeBuffer)
    → IsValid pb
    → (r : Memory × PipeBuffer × ℕ × Bool) × (try_read dst limit m pb ≡ some r)
      × Reads dst limit m pb r
unfolding try_read deliver
try_read-Reads dst limit m pb valid =
    let n = min (length (unread pb)) limit in
    let chunk = take n (unread pb) in
    let len : length chunk ≡ n = length-take n (unread pb) (omega arith) in
    let avail = length-drop pb.pos pb.buf in
    rw (drain_lem limit pb valid, ◌>>=◌, len)
      (
        (
          copy_to dst chunk m,
          record pb { pos = pb.pos + n },
          n,
          (length (unread pb) == 0) && (pb.writers == 0),
        ),
        refl,
        record {
          valid = omega (arith, avail, valid);
          number = refl;
          bytes = ap (bytes_at (copy_to dst chunk m) dst) (sym len) ∙ bytes_at-copy_to dst chunk m;
          before = λ a lt. copy_to-before dst chunk m a lt;
          behind = λ a le. copy_to-behind dst chunk m a (omega (arith, len, le));
          rest = drop-drop pb.pos n pb.buf;
          writers = refl;
          eof = refl;
        },
      )

-- A call on a pipe. Memory may change between calls.
pub data PipeCall : Type 0 where
  wrote : (m : Memory) (src len : ℕ) → PipeCall
  reads : (m : Memory) (dst limit : ℕ) → PipeCall
  referenced : PipeCall
  dereferenced : PipeCall

-- The bytes that a call writes.
abbrev sent_by : PipeCall → List ℕ
sent_by (wrote m src len) = bytes_at m src len
sent_by (reads m dst limit) = []
sent_by referenced = []
sent_by dereferenced = []

-- The bytes that the calls write, in order.
pub sent : List PipeCall → List ℕ
sent [] = []
sent (c ∷ cs) = sent_by c ++ sent cs

-- The bytes that a reader finds in memory.
abbrev received : (dst : ℕ) → Memory × PipeBuffer × ℕ × Bool → PipeBuffer × List ℕ
received dst r = (r.1, bytes_at (r.0) dst (r.2))

step : PipeCall → PipeBuffer → Option (PipeBuffer × List ℕ)
unfolding write try_read
step (wrote m src len) pb = some ((write src len m pb).0, [])
step (reads m dst limit) pb = try_read dst limit m pb >>= λ r. some (received dst r)
step referenced pb = some (writer_referenced pb, [])
step dereferenced pb = some (writer_dereferenced pb, [])

-- The pipe after the calls and the bytes that were read, in order.
pub run : List PipeCall → PipeBuffer → Option (PipeBuffer × List ℕ)
unfolding step
run [] pb = some (pb, [])
run (c ∷ cs) pb = step c pb >>= λ r. run cs r.0 >>= λ r'. some (r'.0, r.1 ++ r'.1)

-- What one call does to the bytes on their way.
abbrev Passes : PipeBuffer → List ℕ → PipeBuffer × List ℕ → Type 0
Passes pb more r = IsValid r.0 × (r.1 ++ unread r.0 ≡ unread pb ++ more)

step-Passes :
    (c : PipeCall) (pb : PipeBuffer)
    → IsValid pb
    → (r : PipeBuffer × List ℕ) × (step c pb ≡ some r) × Passes pb (sent_by c) r
unfolding step write
step-Passes (wrote m src len) pb valid = (
  (record pb { buf = pb.buf ++ bytes_at m src len }, []),
  refl,
  (
    omega (arith, valid, length-append pb.buf (bytes_at m src len)),
    drop-append pb.pos pb.buf (bytes_at m src len) valid,
  ),
)
step-Passes (reads m dst limit) pb valid =
    let (r, call, has) = try_read-Reads dst limit m pb valid in
    rw (call, ◌>>=◌)
      (
        received dst r,
        refl,
        (
          has.valid,
          ap (λ l. l ++ unread (r.1)) has.bytes
              ∙ ap (λ l. take (r.2) (unread pb) ++ l) has.rest
              ∙ append-take (r.2) (unread pb)
              ∙ sym (append-nil (unread pb)),
        ),
      )
step-Passes referenced pb valid =
    ((writer_referenced pb, []), refl, (valid, sym (append-nil (unread pb))))
step-Passes dereferenced pb valid =
    ((writer_dereferenced pb, []), refl, (valid, sym (append-nil (unread pb))))

-- Any sequence of writes, reads and changes of the number of writers on a valid pipe runs without
-- a panic. The bytes that the readers find in memory, in order, followed by those still unread,
-- are the bytes unread before followed by all that were written: none is lost, repeated or moved.
pub run-Passes :
    (cs : List PipeCall) (pb : PipeBuffer)
    → IsValid pb
    → (r : PipeBuffer × List ℕ) × (run cs pb ≡ some r)
      × IsValid r.0
      × (r.1 ++ unread r.0 ≡ unread pb ++ sent cs)
unfolding run sent
run-Passes [] pb valid = ((pb, []), refl, valid, sym (append-nil (unread pb)))
run-Passes (c ∷ cs) pb valid =
    let (r, call, (valid1, moved1)) = step-Passes c pb valid in
    let (r', calls, valid2, moved2) = run-Passes cs r.0 valid1 in
    rw (call, ◌>>=◌, calls, ◌>>=◌)
      (
        (r'.0, r.1 ++ r'.1),
        refl,
        valid2,
        append_assoc r.1 r'.1 (unread r'.0)
            ∙ ap (λ l. r.1 ++ l) moved2
            ∙ sym (append_assoc r.1 (unread r.0) (sent cs))
            ∙ ap (λ l. l ++ sent cs) moved1
            ∙ append_assoc (unread pb) (sent_by c) (sent cs),
      )
