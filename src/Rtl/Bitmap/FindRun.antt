-- ===== src/Rtl/Bitmap/FindRun.antt =====
-- The search for a run: it returns the first run of clear bits of its range, and misses none.
use native.Mathlib.Decide.{dec_lt}
use nanokrnl.Base.{
  subst, ◌>>=◌, ℕ, zero, suc, ◌+◌, ◌/◌, ◌%◌, ◌≤◌, ◌<◌, min, ◌≡◌, refl, inl, inr, Bool, true, false,
  Option, none, some, List, ◌&&◌, ◌==◌, leb, ltb, arith, get_or, get_elem?-some, Bool-cases, ==_iff,
  ltb→lt,
}
use nanokrnl.Base.Bits.{bit-ones}
use nanokrnl.Rtl.Bitmap.{RtlBitmap, all_ones, skips, find_loop, find_run_from}
use nanokrnl.Rtl.Bitmap.View.{bit_at, Clear, Blocked, IsValid, test_bit-some}

-- Every start in `[from, upto)` has a set bit within `count`.
abbrev pub NoRun : List ℕ → ℕ → ℕ → ℕ → Type 0
NoRun words count from upto = (s : ℕ) → from ≤ s → s < upto → Blocked words s count

-- What a search of `[from, to)` may return: the first run, or nothing if no run is left.
abbrev pub FirstRun : List ℕ → (from to count : ℕ) → Option ℕ → Type 0
FirstRun words from to count none = (s : ℕ) → from ≤ s → s + count ≤ to → Blocked words s count
FirstRun words from to count (some s) =
    (from ≤ s) × (s + count ≤ to) × Clear words s count × NoRun words count from s

-- What holds at the head of the loop: the bits from `run_start` up to `i` are clear, too few for a
-- run, and no run starts before `run_start`.
record Scan (words : List ℕ) (from count i run_start run_len : ℕ) : Type 0 where
  start : run_start + run_len ≡ i
  inside : from ≤ run_start
  short : run_len < count
  clear : Clear words run_start run_len
  passed : NoRun words count from run_start

abbrev Finds : List ℕ → (from to count : ℕ) → Option (Option ℕ) → Type 0
Finds words from to count out = (r : Option ℕ) × (out ≡ some r) × FirstRun words from to count r

-- Every bit of a full word is set.
full_word :
    (words : List ℕ) (i j : ℕ)
    → get_or words (i / 64) 0 ≡ all_ones
    → i % 64 ≡ 0
    → i ≤ j
    → j < i + 64
    → bit_at words j ≡ true
full_word words i j full aligned lo hi =
    let same : j / 64 ≡ i / 64 = omega arith in rw (same, full, bit-ones 64 (j % 64) (omega arith))

-- The test for a skip reads within the storage, and a word that is skipped is full.
abbrev Skip : RtlBitmap → (to i run_len : ℕ) → Bool → Type 0
Skip bm to i run_len b =
    b ≡ true
    → (run_len ≡ 0) × (i + 64 ≤ to) × ((j : ℕ) → i ≤ j → j < i + 64 → bit_at bm.words j ≡ true)

skips_lem :
    (bm : RtlBitmap) (to i run_len : ℕ)
    → IsValid bm
    → to ≤ bm.size_in_bits
    → i < to
    → (b : Bool) × (skips bm to i run_len ≡ some b) × Skip bm to i run_len b
unfolding skips
skips_lem bm to i run_len v ht hi =
    elim (Bool-cases ((run_len == 0) && ((i % 64 == 0) && leb (i + 64) to))) [
      | inr partial ↦ (false, rw partial, λ e. cc)
      | inl whole ↦ (
        get_or bm.words (i / 64) 0 == all_ones,
        rw (whole, get_elem?-some bm.words (i / 64) 0 (omega (arith, v.fits))),
        λ full. (
          ground arith,
          ground arith,
          λ j. full_word bm.words i j ((==_iff _ _).0 full) (ground arith),
        ),
      )
    ]

-- The head of the loop after a full word, after a set bit and after a clear bit.
module _ {words : List ℕ} {from count i run_start run_len : ℕ}
    (s : Scan words from count i run_start run_len) where
  Scan-skip :
      run_len ≡ 0
      → ((j : ℕ) → i ≤ j → j < i + 64 → bit_at words j ≡ true)
      → Scan words from count (i + 64) (i + 64) run_len
  Scan-skip fresh full = record {
    start = omega (arith, s.start);
    inside = omega (arith, s.start, s.inside);
    short = s.short;
    clear = λ j lo hi. absurd (omega arith);
    passed = λ t lo hi. elim (dec_lt t run_start) [
      | yes before ↦ s.passed t lo before
      | no after ↦ (t, omega arith, omega (arith, s.short), full t (omega (arith, s.start)) hi)
    ];
  }

  Scan-set : bit_at words i ≡ true → Scan words from count (i + 1) (i + 1) 0
  Scan-set hit = record {
    start = omega arith;
    inside = omega (arith, s.start, s.inside);
    short = omega (arith, s.short);
    clear = λ j lo hi. absurd (omega arith);
    passed = λ t lo hi. elim (dec_lt t run_start) [
      | yes before ↦ s.passed t lo before
      | no after ↦ (i, omega arith, omega (arith, s.start, s.short), hit)
    ];
  }

  Clear-suc : bit_at words i ≡ false → Clear words run_start (run_len + 1)
  Clear-suc miss j lo hi = elim (dec_lt j i) [
    | yes before ↦ s.clear j lo (omega (arith, s.start))
    | no after ↦ let e : j ≡ i = omega (arith, s.start) in rw e miss
  ]

  Scan-clear :
      bit_at words i ≡ false
      → (run_len + 1 == count) ≡ false
      → Scan words from count (i + 1) run_start (run_len + 1)
  Scan-clear miss more = record {
    start = omega (arith, s.start);
    inside = s.inside;
    short = ground (arith, s.short);
    clear = Clear-suc miss;
    passed = s.passed;
  }

  FirstRun-stop : {to : ℕ} → to ≤ i → FirstRun words from to count none
  FirstRun-stop h t lo hi = elim (dec_lt t run_start) [
    | yes before ↦ s.passed t lo before
    | no after ↦ absurd (omega (arith, s.start, s.short))
  ]

  FirstRun-found :
      {to : ℕ}
      → i < to
      → bit_at words i ≡ false
      → (run_len + 1 == count) ≡ true
      → FirstRun words from to count (some run_start)
  FirstRun-found h miss whole =
      let e : run_len + 1 ≡ count = (==_iff _ _).0 whole in
      (s.inside, omega (arith, s.start), subst (Clear words run_start) e (Clear-suc miss), s.passed)

module _ (bm : RtlBitmap) (v : IsValid bm) (from to count : ℕ) (inside : to ≤ bm.size_in_bits) where
  find_loop-Finds :
      (fuel i run_start run_len : ℕ)
      → to < fuel + i
      → i ≤ to
      → Scan bm.words from count i run_start run_len
      → Finds bm.words from to count (find_loop fuel bm to count i run_start run_len)
  unfolding find_loop
  find_loop-Finds zero i run_start run_len enough hi s = absurd (omega arith)
  find_loop-Finds (suc fuel) i run_start run_len enough hi s = elim (Bool-cases (ltb i to)) [
    | inr stop ↦ rw (stop, find_loop) (none, refl, FirstRun-stop s (ground arith))
    | inl go ↦
        let lt : i < to = ltb→lt _ _ go in
        let (b, skip, full) = skips_lem bm to i run_len v inside lt in
        rw (go, find_loop, skip)
          (elim (Bool-cases b) [
            | inl whole ↦
                let (fresh, fits, ones) = full whole in
                rw whole (
                  find_loop-Finds fuel (i + 64) (i + 64) run_len (omega arith) fits
                    (Scan-skip s fresh ones))
            | inr part ↦
                rw (part, test_bit-some bm i (omega (arith, v.fits)))
                  (elim (Bool-cases (bit_at bm.words i)) [
                    | inl hit ↦ rw hit (
                        find_loop-Finds fuel (i + 1) (i + 1) 0 (omega arith) (omega arith)
                          (Scan-set s hit))
                    | inr miss ↦
                        rw (miss, ◌>>=◌)
                          (elim (Bool-cases (run_len + 1 == count)) [
                            | inl done ↦
                                rw done (some run_start, refl, FirstRun-found s lt miss done)
                            | inr more ↦ rw more (
                                find_loop-Finds fuel (i + 1) run_start (run_len + 1) (omega arith)
                                  (omega arith) (Scan-clear s miss more))
                          ])
                  ])
          ])
  ]

-- A search of `[from, to)`, cut off at the end of the map, neither panics nor runs out of fuel. It
-- returns the first start of `count` clear bits that the range holds, and nothing exactly when each
-- start has a set bit among the `count` bits behind it.
pub find_run_from-FirstRun :
    (bm : RtlBitmap) (from to count : ℕ)
    → IsValid bm
    → 0 < count
    → from ≤ to
    → from ≤ bm.size_in_bits
    → (r : Option ℕ) × (find_run_from bm from to count ≡ some r)
      × FirstRun bm.words from (min to bm.size_in_bits) count r
unfolding find_run_from
find_run_from-FirstRun bm from to count v some_bits h size =
    find_loop-Finds bm v from (min to bm.size_in_bits) count (omega arith) _ from from 0
      (omega arith) (omega arith)
      (record {
        start = omega arith;
        inside = omega arith;
        short = some_bits;
        clear = λ j lo hi. absurd (omega arith);
        passed = λ t lo hi. absurd (omega arith);
      })
