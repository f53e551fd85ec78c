-- ===== src/Heap/Blocks.antt =====
-- The blocks of i386/whitex/malloc.h: an allocation goes to the end of the chain, or to a block that was
-- freed.
use whitex_kernel.Prelude.{
  ℕ, suc, ◌+◌, ◌-◌, ◌*◌, ◌≤◌, ◌<◌, ◌≡◌, ◌≢◌, refl, true, false, some, List, [], ◌∷◌, ◌++◌, ltb, leb,
  ◌==◌, ◌&&◌, update, length, arith, eq_test, ne_test, sym, ap, ◌∙◌,
}
use mathlib.Core.Path.{subst}
use whitex_kernel.Prelude.Words.{u32}
use whitex_kernel.Net.{store}
use whitex_kernel.Heap.{
  heap_size, block_free, block_used, size_at, status_at, next_block, fits, write_header,
  malloc_from, whitex_malloc, whitex_free,
}

pub record Block : Type 0 where
  pub size : ℕ
  pub status : ℕ

-- the blocks of a heap from one offset up to another
pub data Chain (m : ℕ → ℕ) : ℕ → List Block → ℕ → Type 0 where
  here : {o : ℕ} → Chain m o [] o
  block :
      {o e : ℕ} {b : Block} {bs : List Block}
      → size_at m o ≡ b.size
      → status_at m o ≡ b.status
      → 0 < b.size
      → o < heap_size
      → o + (8 + b.size) < u32
      → Chain m (o + (8 + b.size)) bs e
      → Chain m o (b ∷ bs) e

-- no block is free and large enough
abbrev pub NoneFits : ℕ → List Block → Type 0
NoneFits size [] = Unit
NoneFits size (b ∷ bs) = ((b.status == block_free) && leb size b.size ≡ false) × NoneFits size bs

pub length-Chain : {m : ℕ → ℕ} {o e : ℕ} {bs : List Block} → Chain m o bs e → o + 8 * length bs ≤ e
length-Chain here = omega arith
length-Chain (block size status some_bytes inside small rest) = omega (arith, length-Chain rest)

block-fits :
    (size o : ℕ) (m : ℕ → ℕ) (b : Block)
    → size_at m o ≡ b.size
    → status_at m o ≡ b.status
    → 0 < b.size
    → fits size m o ≡ (b.status == block_free) && leb size b.size
unfolding fits
block-fits size o m b size_is status_is some_bytes =
    let inner : (b.size == 0) ≡ false = ground (arith, some_bytes) in
    rw (size_is, status_is, inner) refl

malloc_next :
    (k o size : ℕ) (m : ℕ → ℕ)
    → o < heap_size
    → fits size m o ≡ false
    → malloc_from (suc k) o size m ≡ malloc_from k (next_block m o) size m
unfolding malloc_from
malloc_next k o size m inside off =
    let below : ltb o heap_size ≡ true = ground (arith, inside) in rw (below, off, malloc_from) refl

malloc_here :
    (k o size : ℕ) (m : ℕ → ℕ)
    → o < heap_size
    → fits size m o ≡ true
    → malloc_from (suc k) o size m ≡ (some (o + 8), write_header size block_used o m)
unfolding malloc_from
malloc_here k o size m inside hit =
    let below : ltb o heap_size ≡ true = ground (arith, inside) in rw (below, hit, malloc_from) refl

-- blocks that do not fit are passed over
malloc_passes :
    {m : ℕ → ℕ} {o e : ℕ} {bs : List Block} (size k : ℕ)
    → Chain m o bs e
    → NoneFits size bs
    → malloc_from (length bs + k) o size m ≡ malloc_from k e size m
malloc_passes {m} size k (here {o}) none_fits =
    let rounds : 0 + k ≡ k = omega arith in ap (λ n. malloc_from n o size m) rounds
malloc_passes {m} size k (block {o} {e} {b} {bs} size_is status_is some_bytes inside small rest)
      (off, more) =
    let rounds : suc (length bs) + k ≡ suc (length bs + k) = omega arith in
    let next : next_block m o ≡ o + (8 + b.size) = omega (arith, size_is, small) in
    ap (λ n. malloc_from n o size m) rounds
    ∙ malloc_next (length bs + k) o size m inside
        (block-fits size o m b size_is status_is some_bytes ∙ off)
    ∙ ap (λ p. malloc_from (length bs + k) p size m) next
    ∙ malloc_passes size k rest more

-- a chain stays where its bytes do
Chain-kept :
    {m m' : ℕ → ℕ} {o e : ℕ} {bs : List Block}
    → ((j : ℕ) → j < e → m' j ≡ m j)
    → Chain m o bs e
    → Chain m' o bs e
Chain-kept same here = here
Chain-kept {m} {m'} same (block {o} size_is status_is some_bytes inside small rest) =
    let reach = length-Chain rest in
    let at : (j : ℕ) → j < o + 8 → m' j ≡ m j = λ j lt. same j (omega (arith, lt, reach)) in
    let size_kept : size_at m' o ≡ size_at m o = omega (
      arith,
      at o (omega arith),
      at (o + 1) (omega arith),
      at (o + 2) (omega arith),
      at (o + 2 + 1) (omega arith),
    ) in
    block (size_kept ∙ size_is) (at (o + 4) (omega arith) ∙ status_is) some_bytes inside small
      (Chain-kept same rest)

Chain-append :
    {m : ℕ → ℕ} {o e e' : ℕ} {bs cs : List Block}
    → Chain m o bs e
    → Chain m e cs e'
    → Chain m o (bs ++ cs) e'
Chain-append here next = next
Chain-append (block size status some_bytes inside small rest) next =
    block size status some_bytes inside small (Chain-append rest next)

write_header_size :
    (size status o : ℕ) (m : ℕ → ℕ) → size < u32 → size_at (write_header size status o m) o ≡ size
unfolding write_header store
write_header_size size status o m lt = ground arith

write_header_status :
    (size status o : ℕ) (m : ℕ → ℕ) → status_at (write_header size status o m) o ≡ status
unfolding write_header store
write_header_status size status o m = ground arith

write_header_before :
    (size status o j : ℕ) (m : ℕ → ℕ) → j < o → write_header size status o m j ≡ m j
unfolding write_header store
write_header_before size status o j m lt = ground arith

abbrev pub new_block : ℕ → ℕ → Block
new_block size status = record { size = size; status = status }

-- the chain with one more block, whose header is written
Chain-new :
    {m : ℕ → ℕ} {e : ℕ} {bs : List Block} (size status : ℕ)
    → Chain m 0 bs e
    → e < heap_size
    → 0 < size
    → e + (8 + size) < u32
    → Chain (write_header size status e m) 0 (bs ++ (new_block size status ∷ [])) (e + (8 + size))
Chain-new {m} {e} size status chain inside some_bytes small =
    Chain-append (Chain-kept (λ j lt. write_header_before size status e j m lt) chain) (
      block (write_header_size size status e m (omega (arith, small)))
        (write_header_status size status e m) some_bytes inside small here)

-- the allocation goes to the first header behind blocks that do not fit
whitex_malloc_at :
    {m : ℕ → ℕ} {e : ℕ} {bs : List Block} (size : ℕ)
    → Chain m 0 bs e
    → NoneFits size bs
    → e < heap_size
    → fits size m e ≡ true
    → whitex_malloc size m ≡ (some (e + 8), write_header size block_used e m)
unfolding whitex_malloc
whitex_malloc_at {m} {e} {bs} size chain none_fits inside hit =
    let reach = length-Chain chain in
    let k = 8192 - length bs in
    let rounds : 8193 ≡ length bs + suc k = omega (arith, reach, inside) in
    ap (λ n. malloc_from n 0 size m) rounds
    ∙ malloc_passes size (suc k) chain none_fits
    ∙ malloc_here k e size m inside hit

fits_blank : (size e : ℕ) (m : ℕ → ℕ) → size_at m e ≡ 0 → fits size m e ≡ true
unfolding fits
fits_blank size e m blank = rw blank refl

fits_freed :
    (size again e : ℕ) (m : ℕ → ℕ)
    → size < u32
    → again ≤ size
    → fits again (update (write_header size block_used e m) (e + 8 - 8 + 4) block_free) e ≡ true
unfolding fits
fits_freed size again e m small less =
    let m1 = write_header size block_used e m in
    let m2 = update m1 (e + 8 - 8 + 4) block_free in
    let status_is : status_at m2 e ≡ block_free =
      let own : (e + 4 == e + 8 - 8 + 4) ≡ true = eq_test (omega arith) in rw own refl in
    let kept : (j : ℕ) → j < e + 4 → m2 j ≡ m1 j =
      λ j lt. let off : j ≢ e + 8 - 8 + 4 = omega (arith, lt) in rw (ne_test off) refl in
    let size_is : size_at m2 e ≡ size =
      rw
        (
          kept e (omega arith),
          kept (e + 1) (omega arith),
          kept (e + 2) (omega arith),
          kept (e + 2 + 1) (omega arith),
        )
        (write_header_size size block_used e m small) in
    let enough : leb again size ≡ true = ground (arith, less) in
    rw (size_is, status_is, enough) (ground arith)

-- An allocation of at least a byte, when no freed block is large enough and the chain of blocks ends inside the
-- heap at a blank header, gets the space behind the last block, and the chain then has one block more. What it
-- gets ends below 2 ^ 32.
pub whitex_malloc_new :
    (m : ℕ → ℕ) (e size : ℕ) (bs : List Block)
    → Chain m 0 bs e
    → NoneFits size bs
    → e < heap_size
    → size_at m e ≡ 0
    → 0 < size
    → e + (8 + size) < u32
    → ((whitex_malloc size m).0 ≡ some (e + 8))
      × Chain (whitex_malloc size m).1 0 (bs ++ (new_block size block_used ∷ [])) (e + (8 + size))
whitex_malloc_new m e size bs chain none_fits inside blank some_bytes small =
    let got = whitex_malloc_at size chain none_fits inside (fits_blank size e m blank) in
    (
      ap (λ r. r.0) got,
      subst (λ h. Chain h 0 (bs ++ (new_block size block_used ∷ [])) (e + (8 + size)))
          (sym (ap (λ r. r.1) got)) (Chain-new size block_used chain inside some_bytes small),
    )

-- When no freed block is large enough for a first or for a second size, and the chain of blocks ends inside the
-- heap at a blank header, an allocation of the first that is freed is made again at the same address, with the
-- second size, which is the same or smaller. Sizes are below 2 ^ 32.
pub whitex_malloc-whitex_free :
    (m : ℕ → ℕ) (e size again : ℕ) (bs : List Block)
    → Chain m 0 bs e
    → NoneFits size bs
    → NoneFits again bs
    → e < heap_size
    → size_at m e ≡ 0
    → size < u32
    → again ≤ size
    → let (ptr, taken) = whitex_malloc size m in
      (whitex_malloc again (whitex_free ptr taken)).0 ≡ ptr
unfolding whitex_free
whitex_malloc-whitex_free m e size again bs chain none_fits none_again inside blank small less =
    let got = whitex_malloc_at size chain none_fits inside (fits_blank size e m blank) in
    let m1 = write_header size block_used e m in
    let m2 = update m1 (e + 8 - 8 + 4) block_free in
    let kept : (j : ℕ) → j < e → m2 j ≡ m j = λ j lt.
      let off : j ≢ e + 8 - 8 + 4 = omega (arith, lt) in
      (rw (ne_test off) refl) ∙ write_header_before size block_used e j m lt in
    ap (λ r. (whitex_malloc again (whitex_free r.0 r.1)).0) got
    ∙ ap (λ r. r.0)
        (whitex_malloc_at again (Chain-kept kept chain) none_again inside
          (fits_freed size again e m small less))
    ∙ sym (ap (λ r. r.0) got)
