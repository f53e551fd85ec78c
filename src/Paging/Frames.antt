-- ===== src/Paging/Frames.antt =====
-- The search for free frames in i386/whitex/paging.h.
use whitex_kernel.Prelude.{
  true_of_not, false_of_not, ℕ, zero, suc, ◌+◌, ◌*◌, ◌/◌, ◌%◌, ◌^◌, ◌≤◌, ◌<◌, ◌≡◌, ◌⊎◌, refl, Bool,
  true, false, Option, none, some, ltb, ◌==◌, not, arith, Bool-cases, inl, inr,
}
use whitex_kernel.Prelude.Words.{add32, mul32, bit, pow_double}
use whitex_kernel.Prelude.Search.{first_index, first_index-Search, Search, found, missed}
use whitex_kernel.Paging.{
  Bitmap, bitmap_size, page_size, no_frame, scan_words, find_first_free_frame,
}

-- whether frame `f` is taken
abbrev pub used : Bitmap → ℕ → Bool
used b f = bit (b (f / 32)) (f % 32)

-- every frame from `i` up to `stop` is taken
abbrev pub AllUsed : Bitmap → ℕ → ℕ → Type 0
AllUsed b i stop = (f : ℕ) → i ≤ f → f < stop → used b f ≡ true

-- the answer `r` to a search for the first free frame from `i` up to `stop`
abbrev pub FirstFree : Bitmap → ℕ → ℕ → ℕ → Type 0
FirstFree b i stop r =
    ((r ≡ no_frame) × AllUsed b i stop)
    ⊎ ((f : ℕ) × (r ≡ f * page_size) × (i ≤ f) × (f < stop) × (used b f ≡ false) × AllUsed b i f)

bits_of_largest : (n x j : ℕ) → x + 1 ≡ 2 ^ n → j < n → bit x j ≡ true
unfolding bit
bits_of_largest zero x j e lt = absurd (omega arith)
bits_of_largest (suc n) x zero e lt = ground (arith, pow_double n)
bits_of_largest (suc n) x (suc j) e lt =
    bits_of_largest n (x / 2) j (omega (arith, pow_double n)) (omega arith)

-- the frames of one word
word_used :
    (b : Bitmap) (i stop : ℕ)
    → stop ≤ 32
    → ((j : ℕ) → j < stop → bit (b i) j ≡ true)
    → AllUsed b (i * 32) (i * 32 + stop)
word_used b i stop small all f le lt =
    let word : f / 32 ≡ i = omega arith in rw word (all (f % 32) (omega arith))

join : (b : Bitmap) (i mid stop : ℕ) → AllUsed b i mid → AllUsed b mid stop → AllUsed b i stop
join b i mid stop low high f le lt = elim (Bool-cases (ltb f mid)) [
  | inl below ↦ low f le (ground (arith, below))
  | inr above ↦ high f (ground (arith, above)) lt
]

skip :
    (b : Bitmap) (i stop r : ℕ)
    → AllUsed b (i * 32) ((i + 1) * 32)
    → FirstFree b ((i + 1) * 32) stop r
    → FirstFree b (i * 32) stop r
skip b i stop r full (inl (e, all)) = inl (e, join b (i * 32) ((i + 1) * 32) stop full all)
skip b i stop r full (inr (f, e, le, lt, free, all)) =
    inr (f, e, omega arith, lt, free, join b (i * 32) ((i + 1) * 32) f full all)

scan_words-FirstFree :
    (b : Bitmap) (k i : ℕ)
    → i + k ≡ bitmap_size
    → FirstFree b (i * 32) (bitmap_size * 32) (scan_words k i b)
unfolding scan_words
scan_words-FirstFree b zero i e = inl (refl, λ f le lt. absurd (omega arith))
scan_words-FirstFree b (suc k) i e =
    let rest = scan_words-FirstFree b k (i + 1) (omega arith) in
    let in_word : (i + 1) * 32 ≡ i * 32 + 32 = omega arith in
    elim (Bool-cases (b i == 0xFFFF_FFFF)) [
      | inl full ↦
          let largest : b i + 1 ≡ 2 ^ 32 = ground (arith, full) in
          rw (full, scan_words)
            (skip b i (bitmap_size * 32) (scan_words k (i + 1) b)
              (rw in_word
                (word_used b i 32 (omega arith) (λ j lt. bits_of_largest 32 (b i) j largest lt)))
              rest)
      | inr some_free ↦
          rw (some_free, scan_words)
            (inner b k i (omega arith) (first_index (λ j. not (bit (b i) j)) 32 0)
              (first_index-Search (λ j. not (bit (b i) j)) 32 0 32 refl) rest)
    ]
  where
    inner :
        (b : Bitmap) (k i : ℕ)
        → i < bitmap_size
        → (r : Option ℕ) → Search (λ j. not (bit (b i) j)) 0 32 r
        → FirstFree b ((i + 1) * 32) (bitmap_size * 32) (scan_words k (i + 1) b)
        → FirstFree b (i * 32) (bitmap_size * 32) (elim r [
          | some j ↦ mul32 (add32 (mul32 i 32) j) page_size
          | none ↦ scan_words k (i + 1) b
        ])
    inner b k i lt (some j) (found a c free before) rest =
        let word : (i * 32 + j) / 32 ≡ i = omega arith in
        let place : (i * 32 + j) % 32 ≡ j = omega arith in
        inr (
          i * 32 + j,
          omega arith,
          omega arith,
          omega arith,
          rw (word, place) (false_of_not (bit (b i) j) free),
          word_used b i j (omega arith)
              (λ h below. true_of_not (bit (b i) h) (before h (omega arith) below)),
        )
    inner b k i lt none (missed all) rest =
        let in_word : (i + 1) * 32 ≡ i * 32 + 32 = omega arith in
        skip b i (bitmap_size * 32) (scan_words k (i + 1) b)
          (rw in_word (
            word_used b i 32 (omega arith)
              (λ h below. true_of_not (bit (b i) h) (all h (omega arith) below))))
          rest

-- The search answers the least free frame of the 4 GiB, by its address, or that every frame is
-- taken.
pub find_first_free_frame_lem :
    (b : Bitmap) → FirstFree b 0 (bitmap_size * 32) (find_first_free_frame b)
unfolding find_first_free_frame
find_first_free_frame_lem b = scan_words-FirstFree b bitmap_size 0 refl
