-- ===== src/Fault/Locked.antt =====
-- What the loops of i386/whitex/fault.h leave of the page tables: every page can be read as before, and none
-- can be written where the processor obeys the write bits.
use whitex_kernel.Prelude.{
  ℕ, zero, suc, ◌+◌, ◌*◌, ◌/◌, ◌%◌, ◌≤◌, ◌<◌, ◌≡◌, refl, Bool, true, false, Option, none, some,
  ◌&&◌, ◌==◌, if◌then◌else◌, arith, Bool-cases, inl, inr, ap, ◌∙◌, sym, eq_test, ==_iff,
}
use mathlib.Core.Path.{subst}
use whitex_kernel.Prelude.Words.{bit, clear_bit, bit-clear_bit}
use whitex_kernel.Fault.{
  Words, lock_entry, lock_table, lock_directory, enforce_strict_memory_protection,
}

-- How memory is accessed: by a program of the user, by the kernel, or by the kernel while CR0.WP is set. Neither
-- the kernel nor its boot code sets CR0.WP.
pub data Mode : Type 0 where
  user system system_protected : Mode

-- what the processor asks of the two entries on the way, besides their present bits
abbrev pub may_read : Mode → ℕ → Bool
may_read user e = bit e 2
may_read system e = true
may_read system_protected e = true

abbrev pub may_write : Mode → ℕ → Bool
may_write user e = bit e 2 && bit e 1
may_write system e = true
may_write system_protected e = bit e 1

-- the walk of the processor to the physical address, when the entries allow the access
unfoldable pub walk : (allowed : ℕ → Bool) (cr3 va : ℕ) → Words → Option ℕ
walk allowed cr3 va m =
    let pde = m (cr3 / 4096 * 4096 + 4 * (va / 4194304 % 1024)) in
    let pte = m (pde / 4096 * 4096 + 4 * (va / 4096 % 1024)) in
    if bit pde 0 && allowed pde
    then (if bit pte 0 && allowed pte then some (pte / 4096 * 4096 + va % 4096) else none)
    else none

-- the physical address at which an address can be read
abbrev pub read_at : Mode → (cr3 va : ℕ) → Words → Option ℕ
read_at mode cr3 va m = walk (may_read mode) cr3 va m

-- the one at which it can be written
abbrev pub write_at : Mode → (cr3 va : ℕ) → Words → Option ℕ
write_at mode cr3 va m = walk (may_write mode) cr3 va m

-- what can be written when no entry has a write bit
abbrev pub unprotected : Mode → Option ℕ → Option ℕ
unprotected user before = none
unprotected system before = before
unprotected system_protected before = none

-- An entry keeps its present bit, its user bit and its frame, and a write bit that is gone stays so.
record LessEntry (x y : ℕ) : Type 0 where
  same_present : bit y 0 ≡ bit x 0
  same_user : bit y 2 ≡ bit x 2
  same_frame : y / 4096 ≡ x / 4096
  gone : bit x 1 ≡ false → bit y 1 ≡ false

abbrev Less : Words → Words → Type 0
Less m m' = (a : ℕ) → LessEntry (m a) (m' a)

less_self : (x : ℕ) → LessEntry x x
less_self x = record { same_present = refl; same_user = refl; same_frame = refl; gone = λ e. e }

less_then : {x y z : ℕ} → LessEntry x y → LessEntry y z → LessEntry x z
less_then p q = record {
  same_present = q.same_present ∙ p.same_present;
  same_user = q.same_user ∙ p.same_user;
  same_frame = q.same_frame ∙ p.same_frame;
  gone = λ e. q.gone (p.gone e);
}

same_frame_cleared : (x : ℕ) → clear_bit x 1 / 4096 ≡ x / 4096
unfolding clear_bit bit
same_frame_cleared x = omega arith

less_cleared : (x : ℕ) → LessEntry x (clear_bit x 1)
less_cleared x = record {
  same_present = bit-clear_bit x 1 0;
  same_user = bit-clear_bit x 1 2;
  same_frame = same_frame_cleared x;
  gone = λ e. bit-clear_bit x 1 1;
}

lock_entry-Less : (at : ℕ) (m : Words) → Less m (lock_entry at m)
unfolding lock_entry
lock_entry-Less at m a = elim (Bool-cases (bit (m at) 0)) [
  | inr absent ↦ rw (absent, lock_entry) (less_self (m a))
  | inl present ↦ elim (Bool-cases (a == at)) [
    | inl here ↦
        let same : a ≡ at = (==_iff a at).0 here in
        rw (present, here, lock_entry)
          (subst (λ i. LessEntry (m i) (clear_bit (m at) 1)) (sym same) (less_cleared (m at)))
    | inr apart ↦ rw (present, apart, lock_entry) (less_self (m a))
  ]
]

lock_table-Less : (n i t : ℕ) (m : Words) → Less m (lock_table n i t m)
unfolding lock_table
lock_table-Less zero i t m a = less_self (m a)
lock_table-Less (suc n) i t m a =
    less_then (lock_entry-Less (t + 4 * i) m a)
      (lock_table-Less n (i + 1) t (lock_entry (t + 4 * i) m) a)

lock_directory-Less : (n i d : ℕ) (m : Words) → Less m (lock_directory n i d m)
unfolding lock_directory
lock_directory-Less zero i d m a = less_self (m a)
lock_directory-Less (suc n) i d m a = elim (Bool-cases (bit (m (d + 4 * i)) 0)) [
  | inr absent ↦ rw (absent, lock_directory) (lock_directory-Less n (i + 1) d m a)
  | inl present ↦
      let m' = lock_entry (d + 4 * i) m in
      let t = m' (d + 4 * i) / 4096 * 4096 in
      rw (present, lock_directory)
        (less_then (lock_entry-Less (d + 4 * i) m a) (
          less_then (lock_table-Less 1024 0 t m' a)
            (lock_directory-Less n (i + 1) d (lock_table 1024 0 t m') a)))
]

own_gone : (at : ℕ) (m : Words) → bit (m at) 0 ≡ true → bit (lock_entry at m at) 1 ≡ false
unfolding lock_entry
own_gone at m present =
    let own : (at == at) ≡ true = eq_test refl in
    rw (present, own, lock_entry) (bit-clear_bit (m at) 1 1)

-- an entry of the directory that is present, from entry `i` on
lock_directory-gone :
    (n i d : ℕ) (m : Words) (j : ℕ)
    → i ≤ j
    → j < i + n
    → bit (m (d + 4 * j)) 0 ≡ true
    → bit (lock_directory n i d m (d + 4 * j)) 1 ≡ false
unfolding lock_directory
lock_directory-gone zero i d m j from lt p = absurd (omega (arith, from, lt))
lock_directory-gone (suc n) i d m j from lt p =
    let at = d + 4 * i in
    let m' = lock_entry at m in
    let m'' = lock_table 1024 0 (m' at / 4096 * 4096) m' in
    let table = lock_table-Less 1024 0 (m' at / 4096 * 4096) m' (d + 4 * j) in
    elim (Bool-cases (i == j)) [
      | inl here ↦
          let same : j ≡ i = sym ((==_iff i j).0 here) in
          let present : bit (m at) 0 ≡ true = ap (λ k. bit (m (d + 4 * k)) 0) (sym same) ∙ p in
          rw (present, lock_directory)
            ((lock_directory-Less n (i + 1) d m'' (d + 4 * j)).gone
              (table.gone (ap (λ k. bit (m' (d + 4 * k)) 1) same ∙ own_gone at m present)))
      | inr later ↦
          let next : i + 1 ≤ j = ground (arith, later, from) in
          elim (Bool-cases (bit (m at) 0)) [
            | inr absent ↦
                rw (absent, lock_directory)
                  (lock_directory-gone n (i + 1) d m j next (omega (arith, lt)) p)
            | inl present ↦
                rw (present, lock_directory)
                  (lock_directory-gone n (i + 1) d m'' j next (omega (arith, lt))
                    (table.same_present ∙ (lock_entry-Less at m (d + 4 * j)).same_present ∙ p))
          ]
    ]

abbrev page_of : (pde pde_allows pte pte_allows : Bool) (frame va : ℕ) → Option ℕ
page_of pde pde_allows pte pte_allows frame va =
    if pde && pde_allows
    then (if pte && pte_allows then some (frame * 4096 + va % 4096) else none)
    else none

-- a permission that the lock keeps finds the same address
walk-Less :
    (allowed : ℕ → Bool) (cr3 va : ℕ) (m m' : Words)
    → ((x y : ℕ) → LessEntry x y → allowed y ≡ allowed x)
    → Less m m'
    → walk allowed cr3 va m' ≡ walk allowed cr3 va m
unfolding walk
walk-Less allowed cr3 va m m' keeps less =
    let a = cr3 / 4096 * 4096 + 4 * (va / 4194304 % 1024) in
    let k = 4 * (va / 4096 % 1024) in
    let b = m a / 4096 * 4096 + k in
    let up = bit (m' a) 0 in
    let low : ℕ → Option ℕ = λ f.
      page_of up (allowed (m' a)) (bit (m' (f * 4096 + k)) 0) (allowed (m' (f * 4096 + k)))
        (m' (f * 4096 + k) / 4096) va in
    ap low (less a).same_frame
    ∙ ap (λ v. page_of v (allowed (m' a)) (bit (m' b) 0) (allowed (m' b)) (m' b / 4096) va)
        (less a).same_present
    ∙ ap (λ v. page_of (bit (m a) 0) v (bit (m' b) 0) (allowed (m' b)) (m' b / 4096) va)
        (keeps (m a) (m' a) (less a))
    ∙ ap (λ v. page_of (bit (m a) 0) (allowed (m a)) v (allowed (m' b)) (m' b / 4096) va)
        (less b).same_present
    ∙ ap (λ v. page_of (bit (m a) 0) (allowed (m a)) (bit (m b) 0) v (m' b / 4096) va)
        (keeps (m b) (m' b) (less b))
    ∙ ap (λ f. page_of (bit (m a) 0) (allowed (m a)) (bit (m b) 0) (allowed (m b)) f va)
        (less b).same_frame

may_read-Less : (mode : Mode) (x y : ℕ) → LessEntry x y → may_read mode y ≡ may_read mode x
may_read-Less user x y less = less.same_user
may_read-Less system x y less = refl
may_read-Less system_protected x y less = refl

both_off :
    (x y : ℕ) → LessEntry x y → (bit x 0 ≡ true → bit y 1 ≡ false) → (bit y 0 && bit y 1) ≡ false
both_off x y less off = elim (Bool-cases (bit x 0)) [
  | inl present ↦ ground (arith, off present)
  | inr absent ↦ ground (arith, less.same_present, absent)
]

user_off : (p u w : Bool) → (p && w) ≡ false → (p && (u && w)) ≡ false
user_off p u w off = ground (arith, off)

module _ (cr3 va : ℕ) (m : Words) where
  abbrev locked : Words
  locked = lock_directory 1024 0 (cr3 / 4096 * 4096) m

  abbrev pde_at : ℕ
  pde_at = cr3 / 4096 * 4096 + 4 * (va / 4194304 % 1024)

  locked-Less : Less m locked
  locked-Less = lock_directory-Less 1024 0 (cr3 / 4096 * 4096) m

  no_write_bit : (bit (locked pde_at) 0 && bit (locked pde_at) 1) ≡ false
  no_write_bit = both_off (m pde_at) (locked pde_at) (locked-Less pde_at) (
      lock_directory-gone 1024 0 (cr3 / 4096 * 4096) m (va / 4194304 % 1024) (omega arith)
        (omega arith))

  write_locked :
      (mode : Mode) → write_at mode cr3 va locked ≡ unprotected mode (write_at mode cr3 va m)
  unfolding walk
  write_locked user =
      rw
        (user_off (bit (locked pde_at) 0) (bit (locked pde_at) 2) (bit (locked pde_at) 1)
          no_write_bit)
        refl
  write_locked system = walk-Less (λ e. true) cr3 va m locked (λ x y less. refl) locked-Less
  write_locked system_protected = rw no_write_bit refl

-- After a fault every address is read where it was read before, in every mode of access. None can be written
-- by the user, and none by the kernel if CR0.WP is set; while it is clear, as the code leaves it, the kernel
-- writes every address where it did before.
pub enforce_strict_memory_protection_lem :
    (mode : Mode) (cr3 va : ℕ) (m : Words)
    → (read_at mode cr3 va (enforce_strict_memory_protection cr3 m) ≡ read_at mode cr3 va m)
      × (write_at mode cr3 va (enforce_strict_memory_protection cr3 m)
          ≡ unprotected mode (write_at mode cr3 va m))
unfolding enforce_strict_memory_protection
enforce_strict_memory_protection_lem mode cr3 va m = (
  walk-Less (may_read mode) cr3 va m (locked cr3 va m) (may_read-Less mode) (locked-Less cr3 va m),
  write_locked cr3 va m mode,
)
