-- ===== src/Disk/Drive.antt =====
-- What a drive with the registers of ATA makes of the events of i386/whitex/sdd.h: sectors and the whole
-- tree as plain copies of words.
use whitex_kernel.Prelude.{
  ℕ, zero, suc, ◌+◌, ◌-◌, ◌*◌, ◌%◌, ◌≤◌, ◌<◌, ◌≡◌, refl, true, false, List, [], ◌∷◌, ◌++◌, ltb, leb,
  ◌&&◌, ◌==◌, if◌then◌else◌, arith, Bool-cases, inl, inr, ap, ◌∙◌,
}
use whitex_kernel.Disk.{Event, outb, outw, Memory, word_at, select, send_words}

-- The registers of the drive, the word at which the next data go, and its words.
pub record Drive : Type 0 where
  pub device : ℕ
  pub low : ℕ
  pub middle : ℕ
  pub high : ℕ
  pub cursor : ℕ
  pub words : ℕ → ℕ

-- the address in the registers, of 28 bits
abbrev pub address : Drive → ℕ
address d = d.low + 256 * d.middle + 65536 * d.high + 16777216 * (d.device % 16)

-- 0x30 is the command to write
unfoldable pub take : Event → Drive → Drive
take (outb port value) d =
    if port == 0x1F6
    then record d { device = value }
    else if port == 0x1F3
    then record d { low = value }
    else if port == 0x1F4
    then record d { middle = value }
    else if port == 0x1F5
    then record d { high = value }
    else if (port == 0x1F7) && (value == 0x30)
    then record d { cursor = 256 * address d }
    else d
take (outw value) d = record d {
  words = λ w. if w == d.cursor then value else d.words w;
  cursor = d.cursor + 1;
}

unfoldable pub takes : List Event → Drive → Drive
takes [] d = d
takes (e ∷ es) d = takes es (take e d)

-- the words from `from` on become `count` words of memory from the address `a` on
abbrev pub copied : (from count a : ℕ) → Memory → (ℕ → ℕ) → ℕ → ℕ
copied from count a m words w =
    if leb from w && ltb w (from + count) then word_at m (a + 2 * (w - from)) else words w

pub takes_append : (xs ys : List Event) (d : Drive) → takes (xs ++ ys) d ≡ takes ys (takes xs d)
unfolding takes
takes_append [] ys d = refl
takes_append (x ∷ xs) ys d = takes_append xs ys (take x d)

pub copied_none : (c a : ℕ) (m : Memory) (words : ℕ → ℕ) (w : ℕ) → words w ≡ copied c 0 a m words w
copied_none c a m words w =
    let outside : (leb c w && ltb w (c + 0)) ≡ false = ground arith in rw outside refl

-- a copy of `n + k` words is one of `n` words and one of `k` words behind it
pub copied_more :
    (n k c a : ℕ) (m : Memory) (words : ℕ → ℕ) (w : ℕ)
    → copied (c + n) k (a + 2 * n) m (copied c n a m words) w ≡ copied c (n + k) a m words w
copied_more n k c a m words w = elim (Bool-cases (leb (c + n) w && ltb w (c + n + k))) [
  | inl behind ↦
      let inside : (leb c w && ltb w (c + (n + k))) ≡ true = ground (arith, behind) in
      let far : c + n ≤ w = ground (arith, behind) in
      rw (behind, inside) (ap (λ i. word_at m i) (omega (arith, far)))
  | inr before ↦ elim (Bool-cases (leb c w && ltb w (c + n))) [
    | inl near ↦
        let inside : (leb c w && ltb w (c + (n + k))) ≡ true = ground (arith, near) in
        rw (before, near, inside) refl
    | inr outside ↦
        let apart : (leb c w && ltb w (c + (n + k))) ≡ false = ground (arith, before, outside) in
        rw (before, outside, apart) refl
  ]
]

one_word :
    (c a : ℕ) (m : Memory) (words : ℕ → ℕ) (w : ℕ)
    → (if w == c then word_at m a else words w) ≡ copied c 1 a m words w
one_word c a m words w = elim (Bool-cases (w == c)) [
  | inl here ↦
      let inside : (leb c w && ltb w (c + 1)) ≡ true = ground (arith, here) in
      rw (here, inside) (ap (λ i. word_at m i) (ground (arith, here)))
  | inr apart ↦
      let outside : (leb c w && ltb w (c + 1)) ≡ false = ground (arith, apart) in
      rw (apart, outside) refl
]

pub copied_ext :
    (c n a : ℕ) (m : Memory) (words words' : ℕ → ℕ) (w : ℕ)
    → words w ≡ words' w
    → copied c n a m words w ≡ copied c n a m words' w
copied_ext c n a m words words' w e =
    ap (λ v. if leb c w && ltb w (c + n) then word_at m (a + 2 * (w - c)) else v) e

pub takes-send_words :
    (n a : ℕ) (m : Memory) (d : Drive) (w : ℕ)
    → ((takes (send_words n a m) d).cursor ≡ d.cursor + n)
      × ((takes (send_words n a m) d).words w ≡ copied d.cursor n a m d.words w)
unfolding takes take send_words
takes-send_words zero a m d w = (omega arith, copied_none d.cursor a m d.words w)
takes-send_words (suc n) a m d w =
    let (c, rest) = takes-send_words n (a + 2) m (take (outw (word_at m a)) d) w in
    (
      omega (arith, c),
      rest
          ∙ copied_ext (d.cursor + 1) n (a + 2) m (take (outw (word_at m a)) d).words
              (copied d.cursor 1 a m d.words) w (one_word d.cursor a m d.words w)
          ∙ copied_more 1 n d.cursor a m d.words w
          ∙ ap (λ k. copied d.cursor k a m d.words w) (omega arith),
    )

pub takes-select :
    (lba : ℕ) (d : Drive)
    → lba < 268435456
    → ((takes (select lba 0x30) d).cursor ≡ 256 * lba)
      × ((takes (select lba 0x30) d).words ≡ d.words)
unfolding takes take select
takes-select lba d lt = (omega (arith, lt), refl)
