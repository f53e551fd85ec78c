-- ===== src/Kernel/Log.antt =====
-- The log ring of i386/whitex/Kernel.c: `sys_log_write` and the check of `cmd_sys_logs`.
use whitex_kernel.Prelude.{
  ℕ, zero, suc, ◌+◌, ◌-◌, ◌%◌, ◌≤◌, ◌<◌, ◌≡◌, ◌≢◌, refl, Bool, true, false, Option, none, some,
  List, [], ◌∷◌, ◌++◌, leb, ◌==◌, if◌then◌else◌, update, length, drop, arith, Bool-cases, inl, inr,
  ap, sym, ==_iff, ◌∙◌,
}
use mathlib.Core.Path.{subst}
use whitex_kernel.Prelude.Words.{add32, sub32}
use whitex_kernel.Prelude.Ring.{window, window_push, window_pop}
use whitex_kernel.Kernel.Strings.{sys_safe_strncpy, sys_safe_strncpy_fits, sys_calculate_checksum}

abbrev pub sys_log_capacity : ℕ
sys_log_capacity = 128

abbrev pub message_size : ℕ
message_size = 128

-- `log_entry_t`; the message is the string up to its NUL
pub record LogEntry : Type 0 where
  pub log_level : ℕ
  pub timestamp : ℕ
  pub message : List ℕ
  pub integrity_checksum : ℕ

-- `sys_log_ring_t`
pub record SysLogRing : Type 0 where
  pub entries : ℕ → LogEntry
  pub head : ℕ
  pub tail : ℕ
  pub count : ℕ
  pub structures_canary : ℕ

-- a full ring gives up its oldest entry
unfoldable pub drop_oldest : SysLogRing → SysLogRing
drop_oldest g =
    if leb sys_log_capacity g.count
    then record g { head = add32 g.head 1 % sys_log_capacity; count = sub32 g.count 1 }
    else g

abbrev pub entry_at : ℕ → ℕ → List ℕ → SysLogRing → LogEntry
entry_at level tick msg g = record {
  log_level = level;
  timestamp = tick;
  message = sys_safe_strncpy (g.entries g.tail).message msg message_size;
  integrity_checksum = sys_calculate_checksum msg 128;
}

unfoldable pub append_entry : LogEntry → SysLogRing → SysLogRing
append_entry e g = record g {
  entries = update g.entries g.tail e;
  tail = add32 g.tail 1 % sys_log_capacity;
  count = add32 g.count 1;
}

-- `none` is the halt of a destroyed canary; `tick` is `g_tick_counter`.
unfoldable pub sys_log_write : (canary tick level : ℕ) → List ℕ → SysLogRing → Option SysLogRing
sys_log_write canary tick level msg g =
    if g.structures_canary == canary
    then some (append_entry (entry_at level tick msg (drop_oldest g)) (drop_oldest g))
    else none

-- the entries, oldest first
abbrev pub contents : SysLogRing → List LogEntry
contents g = window sys_log_capacity g.entries g.head g.count

pub record IsLog (g : SysLogRing) : Type 0 where
  pub head_in : g.head < sys_log_capacity
  pub count_in : g.count ≤ sys_log_capacity
  pub tail_at : g.tail ≡ (g.head + g.count) % sys_log_capacity

-- the printed line of an entry, or the panic ERR_LOG_BUFFER_TAMPERED
unfoldable pub intact : LogEntry → Bool
intact e = sys_calculate_checksum e.message 128 == e.integrity_checksum

-- The loop of `cmd_sys_logs`: the entries that it prints, and whether it panics at the next one.
unfoldable pub show_from : (rounds current : ℕ) → SysLogRing → List LogEntry × Bool
show_from zero current g = ([], false)
show_from (suc k) current g =
    let rest = show_from k ((current + 1) % sys_log_capacity) g in
    if intact (g.entries current) then (g.entries current ∷ rest.0, rest.1) else ([], true)

unfoldable pub cmd_sys_logs : SysLogRing → List LogEntry × Bool
unfolding show_from intact
cmd_sys_logs g = show_from g.count g.head g

-- every entry matches its checksum
abbrev pub AllIntact : List LogEntry → Type 0
AllIntact [] = Unit
AllIntact (e ∷ es) = (intact e ≡ true) × AllIntact es

-- the entries that a full ring keeps: all but the oldest
abbrev pub kept : SysLogRing → List LogEntry
kept g = if leb sys_log_capacity g.count then drop 1 (contents g) else contents g

drop_oldest_lem :
    (g : SysLogRing)
    → IsLog g
    → IsLog (drop_oldest g)
      × ((drop_oldest g).count < sys_log_capacity)
      × (contents (drop_oldest g) ≡ kept g)
unfolding drop_oldest
drop_oldest_lem g v = elim (Bool-cases (leb sys_log_capacity g.count)) [
  | inl full ↦
      let less : sub32 g.count 1 ≡ g.count - 1 = ground (arith, v.count_in, full) in
      let next : add32 g.head 1 ≡ g.head + 1 = omega (arith, v.head_in) in
      let some_entry : g.count ≢ 0 = ground (arith, full) in
      rw (full, drop_oldest)
        (
          ground (arith, v.head_in, v.count_in, v.tail_at, full),
          ground (arith, v.count_in, full),
          rw (less, next)
              (sym (ap (drop 1) (window_pop sys_log_capacity g.entries g.head g.count some_entry))),
        )
  | inr room ↦ rw (room, drop_oldest) (v, ground arith, refl)
]

append_entry_lem :
    (e : LogEntry) (g : SysLogRing)
    → IsLog g
    → g.count < sys_log_capacity
    → IsLog (append_entry e g) × (contents (append_entry e g) ≡ contents g ++ (e ∷ []))
unfolding append_entry
append_entry_lem e g v room =
    let more : add32 g.count 1 ≡ suc g.count = omega arith in
    (
      omega (arith, v.head_in, v.count_in, v.tail_at),
      rw more
          (window_push e sys_log_capacity g.entries g.count g.head g.tail v.head_in room v.tail_at),
    )

intact_whole :
    (e : LogEntry) (msg : List ℕ)
    → e.message ≡ msg
    → e.integrity_checksum ≡ sys_calculate_checksum msg 128
    → intact e ≡ true
unfolding intact
intact_whole e msg p q =
    (==_iff (sys_calculate_checksum e.message 128) e.integrity_checksum).1
      (ap (λ m. sys_calculate_checksum m 128) p ∙ sym q)

drop_oldest_canary : (g : SysLogRing) → (drop_oldest g).structures_canary ≡ g.structures_canary
unfolding drop_oldest
drop_oldest_canary g = ground arith

append_entry_canary :
    (e : LogEntry) (g : SysLogRing) → (append_entry e g).structures_canary ≡ g.structures_canary
unfolding append_entry
append_entry_canary e g = refl

-- With its canary intact a write keeps the ring well formed and appends the entry to what the
-- ring holds, less the oldest entry when the ring was full.
pub sys_log_write_lem :
    (canary tick level : ℕ) (msg : List ℕ) (g : SysLogRing)
    → IsLog g
    → g.structures_canary ≡ canary
    → (h : SysLogRing) × (e : LogEntry) × (sys_log_write canary tick level msg g ≡ some h)
      × IsLog h
      × (contents h ≡ kept g ++ (e ∷ []))
      × (e.log_level ≡ level)
      × (e.timestamp ≡ tick)
      × (length e.message < message_size)
      × (length msg < message_size → e.message ≡ msg)
      × (length msg < message_size → intact e ≡ true)
      × (h.structures_canary ≡ canary)
unfolding sys_log_write
sys_log_write_lem canary tick level msg g v c =
    let g' = drop_oldest g in
    let e = entry_at level tick msg g' in
    let (w, room, same) = drop_oldest_lem g v in
    let (good, added) = append_entry_lem e g' w room in
    let fits =
      sys_safe_strncpy_fits (g'.entries g'.tail).message msg message_size
        (λ q. absurd (omega arith)) in
    let whole : (g.structures_canary == canary) ≡ true = ground arith in
    (
      append_entry e g',
      e,
      rw whole,
      good,
      added ∙ ap (λ l. l ++ (e ∷ [])) same,
      refl,
      refl,
      fits.0,
      fits.1,
      (λ lt. intact_whole e msg (fits.1 lt) refl),
      append_entry_canary e g' ∙ drop_oldest_canary g ∙ c,
    )

show_from_lem :
    (n current : ℕ) (g : SysLogRing)
    → AllIntact (window sys_log_capacity g.entries current n)
    → show_from n current g ≡ (window sys_log_capacity g.entries current n, false)
unfolding show_from
show_from_lem zero current g all = refl
show_from_lem (suc n) current g all =
    let ih = show_from_lem n ((current + 1) % sys_log_capacity) g all.1 in
    let good : intact (g.entries current) ≡ true = all.0 in rw (good, ih)

AllIntact-append :
    (xs : List LogEntry) (e : LogEntry)
    → AllIntact xs
    → intact e ≡ true
    → AllIntact (xs ++ (e ∷ []))
AllIntact-append [] e all good = (good, tt)
AllIntact-append (x ∷ xs) e all good = (all.0, AllIntact-append xs e all.1 good)

AllIntact-kept : (g : SysLogRing) → AllIntact (contents g) → AllIntact (kept g)
AllIntact-kept g all = elim (Bool-cases (leb sys_log_capacity g.count)) [
  | inl full ↦ rw full (tail (contents g) all)
  | inr room ↦ rw room all
]
  where
    tail : (xs : List LogEntry) → AllIntact xs → AllIntact (drop 1 xs)
    tail [] all = tt
    tail (x ∷ xs) all = all.1

-- While every message written is shorter than 128 bytes, the entries stay intact, and listing a
-- log of intact entries prints all of them in order and does not panic.
pub cmd_sys_logs_lem :
    (canary tick level : ℕ) (msg : List ℕ) (g : SysLogRing)
    → IsLog g
    → g.structures_canary ≡ canary
    → AllIntact (contents g)
    → length msg < message_size
    → (h : SysLogRing) × (sys_log_write canary tick level msg g ≡ some h)
      × AllIntact (contents h)
      × (cmd_sys_logs h ≡ (contents h, false))
unfolding cmd_sys_logs
cmd_sys_logs_lem canary tick level msg g v c all lt =
    let (h, e, written, good, same, l, t, short, whole, kept_intact, canary') =
      sys_log_write_lem canary tick level msg g v c in
    let every : AllIntact (contents h) =
      subst AllIntact (sym same)
        (AllIntact-append (kept g) e (AllIntact-kept g all) (kept_intact lt)) in
    (h, written, every, show_from_lem h.count h.head h every)
