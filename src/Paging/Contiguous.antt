-- ===== src/Paging/Contiguous.antt =====
-- The search for a run of free frames in i386/whitex/paging.h.
use whitex_kernel.Prelude.{
  ℕ, zero, suc, ◌+◌, ◌*◌, ◌/◌, ◌≤◌, ◌<◌, ◌≡◌, ◌≢◌, ◌⊎◌, refl, true, false, ◌==◌, if◌then◌else◌,
  arith, Bool-cases, inl, inr, ==_iff,
}
use whitex_kernel.Prelude.Words.{add32, mul32}
use whitex_kernel.Paging.{
  Bitmap, bitmap_size, page_size, no_frame, find_first_free_frame, scan_frames, bitmap_test_bit,
  find_contiguous_free_frames,
}
use whitex_kernel.Paging.Frames.{used, FirstFree, find_first_free_frame_lem}

abbrev pub frame_count : ℕ
frame_count = bitmap_size * 32

-- one of the `count` frames from `start` on is taken
abbrev pub Broken : Bitmap → (start stop : ℕ) → Type 0
Broken b start stop = (f : ℕ) × (start ≤ f) × (f < stop) × (used b f ≡ true)

abbrev pub AllFree : Bitmap → (start stop : ℕ) → Type 0
AllFree b start stop = (f : ℕ) → start ≤ f → f < stop → used b f ≡ false

-- the answer `r` to a search for `count` free frames in a row
abbrev pub FreeRun : Bitmap → (count r : ℕ) → Type 0
FreeRun b count r =
    ((r ≡ no_frame) × ((s : ℕ) → s + count ≤ frame_count → Broken b s (s + count)))
    ⊎ ((s : ℕ) × (r ≡ s * page_size) × (s + count ≤ frame_count) × AllFree b s (s + count))

-- what the loop knows at frame `i`, of the `free` frames before it
record Scanned (b : Bitmap) (count i start free : ℕ) : Type 0 where
  short : free < count
  inside : free ≤ i
  begin : free ≢ 0 → start + free ≡ i
  free_run : (f : ℕ) → i ≤ f + free → f < i → used b f ≡ false
  earlier : (s : ℕ) → s + free < i → Broken b s i
  runs : (s : ℕ) → s + count ≤ i → Broken b s (s + count)

test_lem : (b : Bitmap) (i : ℕ) → i < frame_count → bitmap_test_bit (mul32 i page_size) b ≡ used b i
unfolding bitmap_test_bit
test_lem b i lt = let e : mul32 i page_size / page_size ≡ i = omega arith in rw e

module _ (b : Bitmap) (count i start free : ℕ) where
  wider : (s : ℕ) → Broken b s i → Broken b s (i + 1)
  wider s (f, le, lt, taken) = (f, le, omega arith, taken)

  hit : Scanned b count i start free → used b i ≡ true → Scanned b count (i + 1) start 0
  hit v taken = record {
    short = omega (arith, v.short);
    inside = omega arith;
    begin = λ h. absurd (h refl);
    free_run = λ f le lt. absurd (omega arith);
    earlier = λ s lt. (i, omega arith, omega arith, taken);
    runs = λ s le. elim (Bool-cases (s + count == i + 1)) [
      | inl now ↦ (i, ground (arith, now, v.short), ground (arith, now), taken)
      | inr before ↦ v.runs s (ground (arith, before))
    ];
  }

  begin_at : Scanned b count i start free → (if free == 0 then i else start) + free ≡ i
  begin_at v = ground (arith, v.begin)

  grown :
      Scanned b count i start free
      → used b i ≡ false
      → (f : ℕ) → i ≤ f + free
      → f < i + 1
      → used b f ≡ false
  grown v empty f le lt = elim (Bool-cases (f == i)) [
    | inl now ↦ rw ((==_iff f i).0 now) empty
    | inr before ↦ v.free_run f le (ground (arith, before))
  ]

  miss :
      Scanned b count i start free
      → used b i ≡ false
      → free + 1 ≢ count
      → Scanned b count (i + 1) (if free == 0 then i else start) (free + 1)
  miss v empty more = record {
    short = omega (arith, v.short);
    inside = omega (arith, v.inside);
    begin = λ h. omega (arith, begin_at v);
    free_run = λ f le lt. grown v empty f (omega arith) lt;
    earlier = λ s lt. wider s (v.earlier s (omega arith));
    runs = λ s le. elim (Bool-cases (s + count == i + 1)) [
      | inl now ↦
          let end : s + count ≡ i + 1 = (==_iff (s + count) (i + 1)).0 now in
          rw end (wider s (v.earlier s (omega (arith, v.short))))
      | inr before ↦ v.runs s (ground (arith, before))
    ];
  }

scan_frames-FreeRun :
    (b : Bitmap) (count k i start free : ℕ)
    → i + k ≡ frame_count
    → Scanned b count i start free
    → FreeRun b count (scan_frames count k i start free b)
unfolding scan_frames
scan_frames-FreeRun b count zero i start free e v = inl (refl, λ s le. v.runs s (omega arith))
scan_frames-FreeRun b count (suc k) i start free e v =
    let test : bitmap_test_bit (mul32 i page_size) b ≡ used b i = test_lem b i (omega arith) in
    let more : add32 free 1 ≡ free + 1 = omega (arith, v.inside) in
    let first = if free == 0 then i else start in
    elim (Bool-cases (used b i)) [
      | inl taken ↦
          rw (test, scan_frames, taken)
            (scan_frames-FreeRun b count k (i + 1) start 0 (omega arith)
              (hit b count i start free v taken))
      | inr empty ↦ elim (Bool-cases (free + 1 == count)) [
        | inl enough ↦
            let at : first + free ≡ i = begin_at b count i start free v in
            let all : free + 1 ≡ count = (==_iff (free + 1) count).0 enough in
            rw (test, scan_frames, empty, more, enough)
              (inr (
                first,
                omega (arith, at),
                omega (arith, at, all),
                λ f le lt.
                    grown b count i start free v empty f (omega (arith, at))
                      (omega (arith, at, all)),
              ))
        | inr short ↦
            rw (test, scan_frames, empty, more, short)
              (scan_frames-FreeRun b count k (i + 1) first (add32 free 1) (omega arith)
                (rw more (miss b count i start free v empty (ground (arith, short)))))
      ]
    ]

one_frame : (b : Bitmap) (r : ℕ) → FirstFree b 0 frame_count r → FreeRun b 1 r
one_frame b r (inl (e, all)) =
    inl (e, λ s le. (s, omega arith, omega arith, all s (omega arith) (omega arith)))
one_frame b r (inr (f, e, le, lt, free, all)) =
    inr (f, e, omega arith, λ g le' lt'. let same : g ≡ f = omega arith in rw same free)

-- For a count that is not 0, the search answers the address of that many free frames in a row, or
-- that every such run of frames has one that is taken.
pub find_contiguous_free_frames_lem :
    (count : ℕ) (b : Bitmap) → count ≢ 0 → FreeRun b count (find_contiguous_free_frames count b)
unfolding find_contiguous_free_frames
find_contiguous_free_frames_lem count b some_frame =
    let nonzero : (count == 0) ≡ false = ground arith in
    elim (Bool-cases (count == 1)) [
      | inl one ↦
          let is_one : count ≡ 1 = (==_iff count 1).0 one in
          rw (is_one, find_contiguous_free_frames)
            (one_frame b (find_first_free_frame b) (find_first_free_frame_lem b))
      | inr several ↦
          rw (nonzero, several, find_contiguous_free_frames)
            (scan_frames-FreeRun b count frame_count 0 0 0 refl (record {
              short = omega arith;
              inside = omega arith;
              begin = λ h. absurd (h refl);
              free_run = λ f le lt. absurd (omega arith);
              earlier = λ s lt. absurd (omega arith);
              runs = λ s le. absurd (omega arith);
            }))
    ]
