-- ===== src/Cache/Hot/Eviction.antt =====
-- The count of bytes, the queue and the budget of HotRangeCache in crates/cache/src/lib.rs, and what
-- dropping entries does to them.
use quic_kfs.Prelude.{
  ℕ, ◌+◌, ◌-◌, ◌≤◌, ◌≡◌, refl, ◌∙◌, Bool, true, false, not, List, [], ◌∷◌, arith, ltb, length,
  retain, any, any-append, All, Bool-cases, inl, inr,
}
use quic_kfs.Cache.Keys.{RangeKey, range_eq}
use quic_kfs.Cache.Hot.{Entries, HotRangeState, lookup, remove_entry, touch, evict, size_of}

-- The bytes of all entries.
abbrev pub total : Entries → ℕ
total [] = 0
total ((k, v) ∷ rest) = length v + total rest

abbrev pub has_key : RangeKey → Entries → Bool
has_key key = any (λ entry. range_eq entry.0 key)

abbrev pub Distinct : Entries → Type 0
Distinct [] = Unit
Distinct ((k, v) ∷ rest) = (has_key k rest ≡ false) × Distinct rest

abbrev pub queued : List RangeKey → RangeKey × List ℕ → Bool
queued queue entry = any (λ key. range_eq key entry.0) queue

-- The count of bytes is that of the entries and within the budget; each key has one entry, and each
-- entry's key is in the queue.
pub record IsBounded (maximum : ℕ) (state : HotRangeState) : Type 0 where
  pub counted : state.bytes ≡ total state.entries
  pub within : state.bytes ≤ maximum
  pub distinct : Distinct state.entries
  pub evictable : All (λ entry. queued state.least_recently_used entry ≡ true) state.entries

pub total-remove_entry :
    (key : RangeKey) (es : Entries)
    → total (remove_entry key es) + size_of (lookup key es) ≡ total es
unfolding remove_entry lookup
total-remove_entry key [] = refl
total-remove_entry key ((k, v) ∷ es) = ground (arith, total-remove_entry key es)

has_key-remove_entry :
    (j key : RangeKey) (es : Entries)
    → has_key j es ≡ false
    → has_key j (remove_entry key es) ≡ false
unfolding remove_entry
has_key-remove_entry j key [] h = refl
has_key-remove_entry j key ((k, v) ∷ es) h = ground (arith, has_key-remove_entry j key es)

pub Distinct-remove_entry :
    (key : RangeKey) (es : Entries) → Distinct es → Distinct (remove_entry key es)
unfolding remove_entry
Distinct-remove_entry key [] d = tt
Distinct-remove_entry key ((k, v) ∷ es) d = elim (Bool-cases (range_eq k key)) [
  | inl hit ↦ rw hit d.1
  | inr miss ↦ rw miss ((has_key-remove_entry k key es d.0, Distinct-remove_entry key es d.1))
]

pub has_key-remove_entry_self :
    (key : RangeKey) (es : Entries) → Distinct es → has_key key (remove_entry key es) ≡ false
unfolding remove_entry
has_key-remove_entry_self key [] d = refl
has_key-remove_entry_self key ((k, v) ∷ es) d = ground (arith, has_key-remove_entry_self key es d.1)

others :
    (key : RangeKey) (queue : List RangeKey) (rest : Entries)
    → has_key key rest ≡ false
    → All (λ entry. queued (key ∷ queue) entry ≡ true) rest
    → All (λ entry. queued queue entry ≡ true) rest
others key queue [] absent a = tt
others key queue ((k, v) ∷ rest) absent a = (ground arith, others key queue rest (ground arith) a.1)

-- Without the entry of the key at its front, a queue is good for the other entries.
queued-remove_entry :
    (key : RangeKey) (queue : List RangeKey) (es : Entries)
    → Distinct es
    → All (λ entry. queued (key ∷ queue) entry ≡ true) es
    → All (λ entry. queued queue entry ≡ true) (remove_entry key es)
unfolding remove_entry
queued-remove_entry key queue [] d q = tt
queued-remove_entry key queue ((k, v) ∷ es) d q = elim (Bool-cases (range_eq k key)) [
  | inl hit ↦ rw hit (others key queue es (ground arith) q.1)
  | inr miss ↦ rw miss ((ground arith, queued-remove_entry key queue es d.1 q.1))
]

pub evict-IsBounded :
    (maximum : ℕ) (queue : List RangeKey) (es : Entries) (bytes : ℕ)
    → bytes ≡ total es
    → Distinct es
    → All (λ entry. queued queue entry ≡ true) es
    → IsBounded maximum (evict maximum queue es bytes)
unfolding evict
evict-IsBounded maximum [] [] bytes counted d q = record {
  counted = counted;
  within = omega arith;
  distinct = tt;
  evictable = tt;
}
evict-IsBounded maximum [] ((k, v) ∷ es) bytes counted d q = absurd (cc)
evict-IsBounded maximum (key ∷ queue) es bytes counted d q = elim (Bool-cases (ltb maximum bytes)) [
  | inl over ↦ rw over (
      evict-IsBounded maximum queue (remove_entry key es) (bytes - size_of (lookup key es))
        (omega (arith, total-remove_entry key es)) (Distinct-remove_entry key es d)
        (queued-remove_entry key queue es d q))
  | inr under ↦
      rw under (record { counted = counted; within = ground arith; distinct = d; evictable = q })
]

kept_others :
    (key e : RangeKey) (queue : List RangeKey)
    → range_eq key e ≡ false
    → any (λ k. range_eq k e) (retain (λ k. not (range_eq k key)) queue)
      ≡ any (λ k. range_eq k e) queue
kept_others key e [] h = refl
kept_others key e (k ∷ queue) h = ground (arith, kept_others key e queue h)

-- A key that moves to the back of the queue leaves every key queued.
pub queued-touch :
    (key e : RangeKey) (queue : List RangeKey)
    → any (λ k. range_eq k e) queue ≡ true
    → any (λ k. range_eq k e) (touch key queue) ≡ true
unfolding touch
queued-touch key e queue h =
    any-append (λ k. range_eq k e) (retain (λ k. not (range_eq k key)) queue) (key ∷ [])
    ∙ (elim (Bool-cases (range_eq key e)) [
      | inl hit ↦ ground arith
      | inr miss ↦ ground (arith, kept_others key e queue miss)
    ])

pub queued_self :
    (key : RangeKey) (queue : List RangeKey) → any (λ k. range_eq k key) (touch key queue) ≡ true
unfolding touch
queued_self key queue =
    any-append (λ k. range_eq k key) (retain (λ k. not (range_eq k key)) queue) (key ∷ [])
    ∙ ground arith

pub All-remove_entry :
    (P : RangeKey × List ℕ → Type 0) (key : RangeKey) (es : Entries)
    → All P es
    → All P (remove_entry key es)
unfolding remove_entry
All-remove_entry P key [] a = tt
All-remove_entry P key ((k, v) ∷ es) a = elim (Bool-cases (range_eq k key)) [
  | inl hit ↦ rw hit a.1
  | inr miss ↦ rw miss ((a.0, All-remove_entry P key es a.1))
]
