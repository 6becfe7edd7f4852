-- ===== src/Mm/Phys/Frames.antt =====
-- The allocator's invariant, and what an allocation and a release do to the frames.
use nanokrnl.Base.{
  ℕ, ◌+◌, ◌*◌, ◌%◌, ◌^◌, ◌≤◌, ◌<◌, min, ◌≡◌, refl, ap, subst, sym, inl, inr, true, ◌⊎◌, Option,
  none, some, List, arith,
}
use nanokrnl.Rtl.Bitmap.{RtlBitmap}
use nanokrnl.Rtl.Bitmap.View
use nanokrnl.Rtl.Bitmap.View.{bit_at, Clear}
use nanokrnl.Rtl.Bitmap.SetBits.{marked, cleared, clear_bits-Changes}
use nanokrnl.Rtl.Bitmap.Allocate.{Full, Took, find_clear_bits_and_set-Allocates}
use nanokrnl.Mm.Phys.{
  pfn, from_pfn, page_size, Machine, zero_bytes, hand_out, try_alloc, mm_free_contiguous_pages,
}
use nanokrnl.Mm.Phys.Count.{clear_below, clear_below-le, clear_below-marked, clear_below-cleared}

-- The database is online with the map `bm`, its addresses fit 64 bits, and `free_pages` is the
-- number of clear bits.
pub record IsValid (m : Machine) (bm : RtlBitmap) : Type 0 where
  pub online : m.db.bitmap ≡ some bm
  pub map : View.IsValid bm
  pub small : bm.size_in_bits < 2 ^ 52
  pub counted : m.db.free_pages ≡ clear_below bm.size_in_bits (bit_at bm.words)

-- A frame number of the map survives the way to an address and back.
pub pfn-from_pfn : (n : ℕ) → n < 2 ^ 52 → pfn (from_pfn n) ≡ n
unfolding pfn from_pfn
pfn-from_pfn n h = omega arith

-- Frames `first ..` were handed out: they lay in the map and were free, the database counts them
-- as taken, and the memory behind them is zero while all other memory is as it was.
pub record HandedOut (m : Machine) (bm : RtlBitmap) (count : ℕ) (m' : Machine) (bm' : RtlBitmap)
    (first : ℕ) : Type 0 where
  pub valid : IsValid m' bm'
  pub took : Took bm count bm' first
  pub counted : m'.db.free_pages + count ≡ m.db.free_pages
  pub total : m'.db.total_pages ≡ m.db.total_pages
  pub zeroed : (a : ℕ) → m'.memory a ≡ zero_bytes (from_pfn first) (count * page_size) m.memory a

abbrev pub Allocates : Machine → RtlBitmap → ℕ → Option (Machine × Option ℕ) → Type 0
Allocates m bm count r =
    ((r ≡ some (m, none)) × ((count ≡ 0) ⊎ Full bm count))
    ⊎ ((m' : Machine) × (bm' : RtlBitmap) × (first : ℕ) × (r ≡ some (m', some (from_pfn first)))
        × HandedOut m bm count m' bm' first)

-- The count of free frames goes down by the frames taken.
count-Took :
    (bm bm' : RtlBitmap) (count first : ℕ)
    → Took bm count bm' first
    → clear_below bm.size_in_bits (bit_at bm.words)
      ≡ clear_below bm'.size_in_bits (bit_at bm'.words) + count
count-Took bm bm' count first (fits, clear, v, size, words, bits) = rw size (
    omega (
      arith,
      clear_below-marked bm.size_in_bits first count (bit_at bm.words) (bit_at bm'.words) clear
          bits,
    ))

hand_out-HandedOut :
    (m : Machine) (bm : RtlBitmap) (count : ℕ) (bm' : RtlBitmap) (first : ℕ)
    → IsValid m bm
    → Took bm count bm' first
    → HandedOut m bm count (hand_out m count (bm', some first)).0 bm' first
unfolding hand_out
hand_out-HandedOut m bm count bm' first v took = record {
  valid = record {
    online = refl;
    map = took.2;
    small = omega (arith, v.small, took.3);
    counted = omega (
      arith,
      v.small,
      v.counted,
      count-Took bm bm' count first took,
      clear_below-le bm.size_in_bits (bit_at bm.words),
    );
  };
  took = took;
  counted = omega (
    arith,
    v.small,
    v.counted,
    count-Took bm bm' count first took,
    clear_below-le bm.size_in_bits (bit_at bm.words),
  );
  total = refl;
  zeroed = λ a. refl;
}

-- On a valid database the search for frames does not panic. Either it changes nothing and returns
-- nothing, and then the count is zero or no run of that many free frames exists, or it hands out a
-- run of free frames, zeroed, and the database is valid again.
pub try_alloc-Allocates :
    (m : Machine) (bm : RtlBitmap) (count : ℕ)
    → IsValid m bm
    → Allocates m bm count (try_alloc m count)
unfolding try_alloc
try_alloc-Allocates m bm count v =
    elim (find_clear_bits_and_set-Allocates bm count m.db.hint v.map) [
      | inl (e, why) ↦ inl (rw (v.online, e), why)
      | inr (bm', first, e, took) ↦ inr (
        (hand_out m count (bm', some first)).0,
        bm',
        first,
        rw (v.online, e),
        hand_out-HandedOut m bm count bm' first v took,
      )
    ]

-- The frames `first .. first + count` are all taken.
abbrev pub Taken : RtlBitmap → ℕ → ℕ → Type 0
Taken bm first count = (j : ℕ) → first ≤ j → j < first + count → bit_at bm.words j ≡ true

-- Frames were given back: the database is valid, exactly their bits are clear in addition, and they
-- are counted as free.
pub record GivenBack (m : Machine) (bm : RtlBitmap) (first count : ℕ) (m' : Machine)
    (bm' : RtlBitmap) : Type 0 where
  pub valid : IsValid m' bm'
  pub bits : (j : ℕ) → bit_at bm'.words j ≡ cleared first count j (bit_at bm.words j)
  pub size : bm'.size_in_bits ≡ bm.size_in_bits
  pub counted : m'.db.free_pages ≡ m.db.free_pages + count
  pub memory : m'.memory ≡ m.memory

-- A release of taken frames of the map does not panic and gives back exactly those frames; memory
-- is as it was.
pub mm_free_contiguous_pages-GivenBack :
    (m : Machine) (bm : RtlBitmap) (first count : ℕ)
    → IsValid m bm
    → first + count ≤ bm.size_in_bits
    → first < 2 ^ 52
    → Taken bm first count
    → (m' : Machine) × (bm' : RtlBitmap) × (mm_free_contiguous_pages m (from_pfn first) count
        ≡ some m')
      × GivenBack m bm first count m' bm'
unfolding mm_free_contiguous_pages
mm_free_contiguous_pages-GivenBack m bm first count v fits low taken =
    let (bm', e, map, size, words, bits) = clear_bits-Changes bm first count v.map fits in
    let more =
      clear_below-cleared bm.size_in_bits first count (bit_at bm.words) (bit_at bm'.words) taken
        bits in
    let top = clear_below-le bm'.size_in_bits (bit_at bm'.words) in
    let sizes : clear_below bm'.size_in_bits (bit_at bm'.words)
        ≡ clear_below bm.size_in_bits (bit_at bm'.words) =
      ap (λ n. clear_below n (bit_at bm'.words)) size in
    (
      record m {
        db = record m.db {
          bitmap = some bm';
          hint = min m.db.hint first;
          free_pages = (m.db.free_pages + count) % 2 ^ 64;
        };
      },
      bm',
      rw (v.online, pfn-from_pfn first low, e),
      record {
        valid = record {
          online = refl;
          map = map;
          small = omega (arith, v.small);
          counted = omega (arith, v.small, v.counted);
        };
        bits = bits;
        size = size;
        counted = omega (arith, v.small, v.counted);
        memory = refl;
      },
    )

disjoint_addresses :
    (first first' count count' pa pa' : ℕ)
    → pa ≡ from_pfn first
    → pa' ≡ from_pfn first'
    → first + count < 2 ^ 52
    → first' + count' < 2 ^ 52
    → (first + count ≤ first') ⊎ (first' + count' ≤ first)
    → (pa + count * page_size ≤ pa') ⊎ (pa' + count' * page_size ≤ pa)
unfolding from_pfn
disjoint_addresses first first' count count' pa pa' at at' low low' (inl h) = inl (omega arith)
disjoint_addresses first first' count count' pa pa' at at' low low' (inr h) = inr (omega arith)

disjoint_runs :
    (words words' : List ℕ) (count count' first first' : ℕ)
    → 0 < count
    → 0 < count'
    → ((j : ℕ) → bit_at words' j ≡ marked first count j (bit_at words j))
    → Clear words' first' count'
    → (first + count ≤ first') ⊎ (first' + count' ≤ first)
disjoint_runs words words' count count' first first' pos pos' bits clear =
    ground (arith, bits first, bits first', clear first, clear first')

-- A successful search is a hand-out of frames.
HandedOut-of_some :
    {m m' : Machine} {bm : RtlBitmap} {pa : ℕ} (count : ℕ)
    → IsValid m bm
    → try_alloc m count ≡ some (m', some pa)
    → (bm' : RtlBitmap) × (first : ℕ) × (pa ≡ from_pfn first) × HandedOut m bm count m' bm' first
HandedOut-of_some {m} {m'} {bm} {pa} count v e = elim (try_alloc-Allocates m bm count v) [
  | inl (e', _) ↦ cc
  | inr (m1, bm', first, e', h) ↦
      let same : m1 ≡ m' = cc in
      (bm', first, cc, subst (λ n. HandedOut m bm count n bm' first) same h)
]

-- Frames that a search found and that are then given back: the release does not panic, the
-- database is valid again, and every bit of the map and the number of free frames are as before
-- the two calls.
pub free-alloc :
    (m m' : Machine) (bm : RtlBitmap) (count pa : ℕ)
    → IsValid m bm
    → try_alloc m count ≡ some (m', some pa)
    → (m'' : Machine) × (bm'' : RtlBitmap) × (mm_free_contiguous_pages m' pa count ≡ some m'')
      × IsValid m'' bm''
      × ((j : ℕ) → bit_at bm''.words j ≡ bit_at bm.words j)
      × (m''.db.free_pages ≡ m.db.free_pages)
free-alloc m m' bm count pa v e =
    let (bm', first, at, h) = HandedOut-of_some count v e in
    let (fits, clear, map, size, words, bits) = h.took in
    let (m'', bm'', e', g) =
      mm_free_contiguous_pages-GivenBack m' bm' first count h.valid (omega arith)
        (omega (arith, v.small)) (λ j lo hi. ground (arith, bits j)) in
    (
      m'',
      bm'',
      subst (λ (a : ℕ). mm_free_contiguous_pages m' a count ≡ some m'') (sym at) e',
      g.valid,
      λ j. ground (arith, g.bits j, bits j, clear j),
      omega (arith, g.counted, h.counted),
    )

-- Two searches in a row that both find frames return runs that do not overlap: the addresses of
-- one end where those of the other begin, or before.
pub try_alloc-disjoint :
    (m m' m'' : Machine) (bm : RtlBitmap) (count count' pa pa' : ℕ)
    → IsValid m bm
    → 0 < count
    → 0 < count'
    → try_alloc m count ≡ some (m', some pa)
    → try_alloc m' count' ≡ some (m'', some pa')
    → (pa + count * page_size ≤ pa') ⊎ (pa' + count' * page_size ≤ pa)
try_alloc-disjoint m m' m'' bm count count' pa pa' v pos pos' e e' =
    let (bm', first, at, h) = HandedOut-of_some count v e in
    let (bm'', first', at', h') = HandedOut-of_some count' h.valid e' in
    let (fits, clear, map, size, words, bits) = h.took in
    let (fits', clear', map', size', words', bits') = h'.took in
    disjoint_addresses first first' count count' pa pa' at at' (omega (arith, v.small))
      (omega (arith, v.small))
      (disjoint_runs bm.words bm'.words count count' first first' pos pos' bits clear')
