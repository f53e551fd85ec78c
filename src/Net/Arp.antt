-- ===== src/Net/Arp.antt =====
-- The ARP cache of i386/whitex/internet.h, as a map from addresses of the network to those of cards.
use whitex_kernel.Prelude.{
  ℕ, ◌<◌, ◌≡◌, ◌≢◌, ◌⊎◌, refl, Bool, true, false, Option, none, some, List, [], ◌∷◌, ltb, ◌==◌,
  ◌&&◌, if◌then◌else◌, update, same_bytes, arith, Bool-cases, inl, inr, eq_test, ne_test, ==_iff,
  sym, ap, ◌∙◌,
}
use mathlib.Core.Bool.{true≢false, false≢true}
use whitex_kernel.Prelude.Search.{
  first_index, first_index-Search, first_index-ext, first_at, Search, NonePass, found, missed,
}
use whitex_kernel.Net.{ArpEntry}

abbrev pub arp_cache_size : ℕ
arp_cache_size = 256

abbrev pub Cache : Type 0
Cache = ℕ → ArpEntry

-- what `wx_arp_init` makes of every entry
abbrev pub zero_entry : ArpEntry
zero_entry = record {
  ip = 0 ∷ 0 ∷ 0 ∷ 0 ∷ [];
  mac = 0 ∷ 0 ∷ 0 ∷ 0 ∷ 0 ∷ 0 ∷ [];
  state = 0;
  ttl = 0;
}

unfoldable pub wx_arp_init : Cache → Cache
wx_arp_init c i = if ltb i arp_cache_size then zero_entry else c i

unfoldable pub answers : List ℕ → ArpEntry → Bool
answers ip e = (e.state == 1) && same_bytes e.ip ip

abbrev pub slot_of : List ℕ → Cache → Option ℕ
slot_of ip c = first_index (λ i. answers ip (c i)) arp_cache_size 0

abbrev pub free_slot : Cache → Option ℕ
free_slot c = first_index (λ i. (c i).state == 0) arp_cache_size 0

abbrev pub renewed : List ℕ → ArpEntry → ArpEntry
renewed mac e = record e { mac = mac; ttl = 3000 }

abbrev pub learned : (ip mac : List ℕ) → ArpEntry
learned ip mac = record { ip = ip; mac = mac; state = 1; ttl = 3000 }

unfoldable pub wx_arp_update : (ip mac : List ℕ) → Cache → Cache
wx_arp_update ip mac c = elim (slot_of ip c) [
  | some i ↦ update c i (renewed mac (c i))
  | none ↦ elim (free_slot c) [ some i ↦ update c i (learned ip mac) | none ↦ c ]
]

unfoldable pub wx_arp_lookup : List ℕ → Cache → Option (List ℕ)
wx_arp_lookup ip c = elim (slot_of ip c) [ some i ↦ some (c i).mac | none ↦ none ]

same_bytes_self : (xs : List ℕ) → same_bytes xs xs ≡ true
same_bytes_self [] = refl
same_bytes_self (x ∷ xs) = ground (arith, same_bytes_self xs)

same_bytes_trans :
    (xs ys zs : List ℕ)
    → same_bytes xs ys ≡ true
    → same_bytes xs zs ≡ true
    → same_bytes zs ys ≡ true
same_bytes_trans [] [] [] h k = refl
same_bytes_trans [] [] (z ∷ zs) h k = absurd (false≢true k)
same_bytes_trans [] (y ∷ ys) zs h k = absurd (false≢true h)
same_bytes_trans (x ∷ xs) [] zs h k = absurd (false≢true h)
same_bytes_trans (x ∷ xs) (y ∷ ys) [] h k = absurd (false≢true k)
same_bytes_trans (x ∷ xs) (y ∷ ys) (z ∷ zs) h k =
    ground (arith, h, k, same_bytes_trans xs ys zs (ground (arith, h)) (ground (arith, k)))

answers-renewed : (ip mac : List ℕ) (e : ArpEntry) → answers ip (renewed mac e) ≡ answers ip e
unfolding answers
answers-renewed ip mac e = refl

answers-learned : (ip mac : List ℕ) → answers ip (learned ip mac) ≡ true
unfolding answers
answers-learned ip mac = same_bytes_self ip

-- an entry for one address answers for no other
answers_once :
    (ip other : List ℕ) (e : ArpEntry)
    → same_bytes other ip ≡ false
    → answers ip e ≡ true
    → answers other e ≡ false
unfolding answers
answers_once ip other e apart hit = elim (Bool-cases (same_bytes e.ip other)) [
  | inr other_way ↦ rw other_way (ground arith)
  | inl also ↦
      absurd (false≢true (sym apart ∙ same_bytes_trans e.ip ip other (ground (arith, hit)) also))
]

silent : (ip : List ℕ) (e : ArpEntry) → (e.state == 0) ≡ true → answers ip e ≡ false
unfolding answers
silent ip e free = ground (arith, free)

-- A write to a slot whose entry answered for nobody else, before and after.
lookup_elsewhere :
    (other : List ℕ) (i : ℕ) (e : ArpEntry) (c : Cache)
    → answers other (c i) ≡ false
    → answers other e ≡ false
    → wx_arp_lookup other (update c i e) ≡ wx_arp_lookup other c
unfolding wx_arp_lookup
lookup_elsewhere other i e c before after =
    ap (λ (r : Option ℕ). elim r [ some j ↦ some (update c i e j).mac | none ↦ none ])
      (first_index-ext (λ j. answers other (update c i e j)) (λ j. answers other (c j))
        arp_cache_size 0 same)
    ∙ same_mac (slot_of other c)
        (first_index-Search (λ j. answers other (c j)) arp_cache_size 0 arp_cache_size refl)
  where
    same : (j : ℕ) → answers other (update c i e j) ≡ answers other (c j)
    same j = elim (Bool-cases (j == i)) [
      | inl here ↦
          let at : j ≡ i = (==_iff j i).0 here in
          rw here (after ∙ sym before ∙ ap (λ k. answers other (c k)) (sym at))
      | inr apart ↦ rw apart refl
    ]

    same_mac :
        (r : Option ℕ)
        → Search (λ j. answers other (c j)) 0 arp_cache_size r
        → elim r [ some j ↦ some (update c i e j).mac | none ↦ none ]
          ≡ elim r [ some j ↦ some (c j).mac | none ↦ none ]
    same_mac none s = refl
    same_mac (some j) (found a lt hit none_before) =
        let apart : j ≢ i =
          λ at. true≢false (sym hit ∙ ap (λ k. answers other (c k)) at ∙ before) in
        rw (ne_test apart) refl

-- A write that answers, to the first slot that then does.
lookup_here :
    (ip : List ℕ) (i : ℕ) (e : ArpEntry) (c : Cache)
    → i < arp_cache_size
    → answers ip e ≡ true
    → NonePass (λ j. answers ip (c j)) 0 i
    → wx_arp_lookup ip (update c i e) ≡ some e.mac
unfolding wx_arp_lookup
lookup_here ip i e c lt hit before =
    let own : (i == i) ≡ true = eq_test refl in
    let first =
      first_at (λ j. answers ip (update c i e j)) arp_cache_size 0 i (omega arith)
        (omega (arith, lt)) (rw own hit) earlier in
    ap (λ (r : Option ℕ). elim r [ some j ↦ some (update c i e j).mac | none ↦ none ]) first
    ∙ (rw own refl)
  where
    earlier : NonePass (λ j. answers ip (update c i e j)) 0 i
    earlier j a b = let apart : j ≢ i = omega (arith, b) in rw (ne_test apart) (before j a b)

-- the cache knows the address, or has a slot that is free
abbrev pub HasRoom : List ℕ → Cache → Type 0
HasRoom ip c = (i : ℕ) × (i < arp_cache_size) × ((answers ip (c i) ≡ true) ⊎ ((c i).state ≡ 0))

-- what an update does to the map of the cache
abbrev pub Updates : (ip mac : List ℕ) (c c' : Cache) → Type 0
Updates ip mac c c' =
    (HasRoom ip c → wx_arp_lookup ip c' ≡ some mac)
    × ((other : List ℕ)
        → same_bytes other ip ≡ false
        → wx_arp_lookup other c' ≡ wx_arp_lookup other c)

Updates-free :
    (ip mac : List ℕ) (c : Cache) (r : Option ℕ)
    → NonePass (λ j. answers ip (c j)) 0 arp_cache_size
    → Search (λ j. (c j).state == 0) 0 arp_cache_size r
    → Updates ip mac c (elim r [ some i ↦ update c i (learned ip mac) | none ↦ c ])
Updates-free ip mac c (some i) unknown (found a lt free before) = (
  λ room.
      lookup_here ip i (learned ip mac) c lt (answers-learned ip mac)
        (λ j le less. unknown j le (omega (arith, lt, less))),
  λ other apart.
      lookup_elsewhere other i (learned ip mac) c (silent other (c i) free)
        (answers_once ip other (learned ip mac) apart (answers-learned ip mac)),
)
Updates-free ip mac c none unknown (missed all) = (
  λ (i, lt, which). elim which [
    | inl knows ↦ absurd (true≢false (sym knows ∙ unknown i (omega arith) lt))
    | inr empty ↦ absurd (true≢false (sym (eq_test empty) ∙ all i (omega arith) lt))
  ],
  λ other apart. refl,
)

updates :
    (ip mac : List ℕ) (c : Cache) (r : Option ℕ)
    → Search (λ j. answers ip (c j)) 0 arp_cache_size r
    → Updates ip mac c (elim r [
      | some i ↦ update c i (renewed mac (c i))
      | none ↦ elim (free_slot c) [ some i ↦ update c i (learned ip mac) | none ↦ c ]
    ])
updates ip mac c (some i) (found a lt knows before) =
    let still : answers ip (renewed mac (c i)) ≡ true = answers-renewed ip mac (c i) ∙ knows in
    (
      λ room. lookup_here ip i (renewed mac (c i)) c lt still before,
      λ other apart.
          lookup_elsewhere other i (renewed mac (c i)) c (answers_once ip other (c i) apart knows)
            (answers_once ip other (renewed mac (c i)) apart still),
    )
updates ip mac c none (missed unknown) =
    Updates-free ip mac c (free_slot c) unknown
      (first_index-Search (λ j. (c j).state == 0) arp_cache_size 0 arp_cache_size refl)

-- The cache is a map: after an update the address is found with its new card, when the cache knew it
-- or had a free slot, and every other address is found as before.
pub wx_arp_update-Updates :
    (ip mac : List ℕ) (c : Cache) → Updates ip mac c (wx_arp_update ip mac c)
unfolding wx_arp_update
wx_arp_update-Updates ip mac c =
    updates ip mac c (slot_of ip c)
      (first_index-Search (λ j. answers ip (c j)) arp_cache_size 0 arp_cache_size refl)

bytes_same : (xs ys : List ℕ) → same_bytes xs ys ≡ true → xs ≡ ys
bytes_same [] [] e = refl
bytes_same [] (y ∷ ys) e = absurd (false≢true e)
bytes_same (x ∷ xs) [] e = absurd (false≢true e)
bytes_same (x ∷ xs) (y ∷ ys) e =
    let head : x ≡ y = ground (arith, e) in
    let tail : xs ≡ ys = bytes_same xs ys (ground (arith, e)) in rw (head, tail) refl

-- The cache implements a map: when the address is known or a slot is free, an update makes the
-- lookup of every address that of the map with one entry replaced.
pub wx_arp_update-lookup :
    (ip mac other : List ℕ) (c : Cache)
    → HasRoom ip c
    → wx_arp_lookup other (wx_arp_update ip mac c)
      ≡ (if same_bytes other ip then some mac else wx_arp_lookup other c)
wx_arp_update-lookup ip mac other c room = elim (Bool-cases (same_bytes other ip)) [
  | inl same ↦ rw same (
      ap (λ a. wx_arp_lookup a (wx_arp_update ip mac c)) (bytes_same other ip same)
      ∙ (wx_arp_update-Updates ip mac c).0 room)
  | inr apart ↦ rw apart ((wx_arp_update-Updates ip mac c).1 other apart)
]
