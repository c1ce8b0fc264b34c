-- ===== src/Persistent/Lookups.antt =====
-- What a lookup finds in the entries after the changes of crates/cache/src/lib.rs: touches, removals,
-- evictions and new entries.
use quic_kfs.Prelude.{
  ℕ, zero, suc, ◌≡◌, refl, sym, ap, ◌∙◌, ◌⊎◌, inl, inr, Bool, true, false, Option, none, some, List,
  [], ◌∷◌, leb, arith, Bool-cases, Option-cases, any, if◌then◌else◌, subst, length,
}
use quic_kfs.Persistent.Store.{
  CacheError, CacheResult, err, ok, EntryKey, key_eq, DiskEntry, Entries, PersistentState,
}
use quic_kfs.Persistent.Table.{
  entry_of, without, set_access, next_clock, touch_entries, take_out, evict_turns, evict_to_budget,
  oldest, remove_keys, PreparedEntry, entry_at, put, replace_old, splice,
}
use quic_kfs.Persistent.Backing.{key_eq→eq, key_eq_refl}

pub key_eq-other :
    (k' key k : EntryKey) → key_eq k' key ≡ false → key_eq k' k ≡ true → key_eq key k ≡ false
key_eq-other k' key k h p = elim (Bool-cases (key_eq key k)) [
  | inr other ↦ other
  | inl same ↦
      let e : k' ≡ key = key_eq→eq k' k p ∙ sym (key_eq→eq key k same) in
      let r : key_eq k' key ≡ true = subst (λ x. key_eq k' x ≡ true) e (key_eq_refl k') in
      absurd (ground arith)
]

key_eq-same : (k' key k : EntryKey) → key_eq k' key ≡ true → key_eq k' k ≡ key_eq key k
key_eq-same k' key k h = ap (λ x. key_eq x k) (key_eq→eq k' key h)

pub entry_of-without :
    (key k : EntryKey) (l : Entries)
    → entry_of k (without key l) ≡ (if key_eq key k then none else entry_of k l)
unfolding entry_of without
entry_of-without key k [] = ground arith
entry_of-without key k ((k', e') ∷ rest) =
    ground (arith, entry_of-without key k rest, key_eq-other k' key k, key_eq-same k' key k)

pub Result-cases :
    {A : Type 0} (r : CacheResult A) → ((x : CacheError) × (r ≡ err x)) ⊎ ((a : A) × (r ≡ ok a))
Result-cases (err x) = inl (x, refl)
Result-cases (ok a) = inr (a, refl)

-- Whatever a lookup finds in the second table it finds in the first.
abbrev pub IsWithin : PersistentState → PersistentState → Type 0
IsWithin s t =
    (k : EntryKey) (e : DiskEntry) → entry_of k t.entries ≡ some e → entry_of k s.entries ≡ some e

pub IsWithin-trans : (s t u : PersistentState) → IsWithin s t → IsWithin t u → IsWithin s u
IsWithin-trans s t u h h' k e f = h k e (h' k e f)

pub take_out-IsWithin :
    (key : EntryKey) (entry : DiskEntry) (s t : PersistentState)
    → take_out key entry s ≡ ok t
    → IsWithin s t
unfolding take_out
take_out-IsWithin key entry s t h k e f = ground (arith, entry_of-without key k s.entries)

pub evict_turns-IsWithin :
    (turns m : ℕ) (s t : PersistentState) → evict_turns turns m s ≡ ok t → IsWithin s t
unfolding evict_turns
evict_turns-IsWithin zero m s t h = absurd (ground arith)
evict_turns-IsWithin (suc turns) m s t h = elim (Bool-cases (leb s.payload_bytes m)) [
  | inl enough ↦ λ k e f. ground (arith, f, h)
  | inr more ↦ elim (Option-cases (oldest s.entries)) [
    | inl none_left ↦ absurd (ground arith)
    | inr ((key, old), first) ↦ elim (Option-cases (entry_of key s.entries)) [
      | inl absent ↦ absurd (ground arith)
      | inr (entry, present) ↦ elim (Result-cases (take_out key entry s)) [
        | inl (x, wrong) ↦ absurd (ground arith)
        | inr (u, taken) ↦
            IsWithin-trans s u t (take_out-IsWithin key entry s u taken) (
              evict_turns-IsWithin turns m u t (rw (more, first, present, taken, evict_turns) at h))
      ]
    ]
  ]
]

pub evict-IsWithin : (m : ℕ) (s t : PersistentState) → evict_to_budget m s ≡ ok t → IsWithin s t
unfolding evict_to_budget
evict-IsWithin m s t h = evict_turns-IsWithin (suc (length s.entries)) m s t h

pub remove_keys-IsWithin :
    (keys : List EntryKey) (s t : PersistentState) → remove_keys keys s ≡ ok t → IsWithin s t
unfolding remove_keys
remove_keys-IsWithin [] s t h = λ k e f. ground (arith, f, h)
remove_keys-IsWithin (key ∷ keys) s t h = elim (Option-cases (entry_of key s.entries)) [
  | inl absent ↦ remove_keys-IsWithin keys s t (rw (absent, remove_keys) at h)
  | inr (entry, present) ↦ elim (Result-cases (take_out key entry s)) [
    | inl (x, wrong) ↦ absurd (ground arith)
    | inr (u, taken) ↦
        IsWithin-trans s u t (take_out-IsWithin key entry s u taken)
          (remove_keys-IsWithin keys u t (rw (present, taken, remove_keys) at h))
  ]
]

replace_old-IsWithin :
    (key : EntryKey) (s t : PersistentState) → replace_old key s ≡ ok t → IsWithin s t
unfolding replace_old
replace_old-IsWithin key s t h = elim (Option-cases (entry_of key s.entries)) [
  | inl absent ↦ λ k e f. ground (arith, f, h)
  | inr (entry, present) ↦ take_out-IsWithin key entry s t (rw (present, replace_old) at h)
]

-- After it the key is not in the table.
pub replace_old-none :
    (key : EntryKey) (s t : PersistentState)
    → replace_old key s ≡ ok t
    → entry_of key t.entries ≡ none
unfolding replace_old take_out
replace_old-none key s t h = elim (Option-cases (entry_of key s.entries)) [
  | inl absent ↦ ground (arith, h, absent)
  | inr (entry, present) ↦
      ground (arith, h, present, entry_of-without key key s.entries, key_eq_refl key)
]

-- The entry is that of a prepared payload.
abbrev pub IsPlaced : List PreparedEntry → EntryKey → DiskEntry → Type 0
IsPlaced [] k e = ⊥
IsPlaced (p ∷ ps) k e =
    ((k ≡ p.key)
      × (e.file_name ≡ p.file_name)
      × (e.sha256 ≡ p.sha256)
      × (e.stored_length ≡ p.stored_length))
    ⊎ IsPlaced ps k e

abbrev pub named : EntryKey → List PreparedEntry → Bool
named k ps = any (λ p. key_eq p.key k) ps

put-entry_of :
    (tick : ℕ) (p : PreparedEntry) (s t : PersistentState) (k : EntryKey)
    → put tick p s ≡ ok t
    → entry_of k t.entries
      ≡ (if key_eq p.key k then some (entry_at tick p) else entry_of k s.entries)
unfolding put entry_of
put-entry_of tick p s t k h = ground arith

put-IsPlaced :
    (p : PreparedEntry) (ps : List PreparedEntry) (tick : ℕ) (u v : PersistentState) (k : EntryKey)
    (e : DiskEntry) {old : Option DiskEntry}
    → put tick p u ≡ ok v
    → named k ps ≡ false
    → entry_of k v.entries ≡ some e
    → (entry_of k u.entries ≡ some e → old ≡ some e)
    → IsPlaced (p ∷ ps) k e ⊎ ((named k (p ∷ ps) ≡ false) × (old ≡ some e))
put-IsPlaced p ps tick u v k e added unnamed f before =
    let g = put-entry_of tick p u v k added in
    elim (Bool-cases (key_eq p.key k)) [
      | inl same ↦
          let q : entry_at tick p ≡ e = ground arith in
          inl (
            inl (
              sym (key_eq→eq p.key k same),
              ap (λ (x : DiskEntry). x.file_name) (sym q),
              ap (λ (x : DiskEntry). x.sha256) (sym q),
              ap (λ (x : DiskEntry). x.stored_length) (sym q),
            ))
      | inr other ↦ inr (ground arith, before (ground arith))
    ]

pub splice-entry_of :
    (ps : List PreparedEntry) (s t : PersistentState) (k : EntryKey) (e : DiskEntry)
    → splice ps s ≡ ok t
    → entry_of k t.entries ≡ some e
    → IsPlaced ps k e ⊎ ((named k ps ≡ false) × (entry_of k s.entries ≡ some e))
unfolding splice next_clock
splice-entry_of [] s t k e h f = inr (refl, ground (arith, h, f))
splice-entry_of (p ∷ ps) s t k e h f =
    let ticked = next_clock s in
    elim (Result-cases (replace_old p.key ticked)) [
      | inl (x, wrong) ↦ absurd (ground arith)
      | inr (u, cleared) ↦ elim (Result-cases (put ticked.clock p u)) [
        | inl (x, wrong) ↦ absurd (ground arith)
        | inr (v, added) ↦ elim (splice-entry_of ps v t k e (rw (cleared, added, splice) at h) f) [
          | inl placed ↦ inl (inr placed)
          | inr (unnamed, old) ↦
              put-IsPlaced p ps ticked.clock u v k e added unnamed old
                (replace_old-IsWithin p.key ticked u cleared k e)
        ]
      ]
    ]

-- A touch changes only when an entry was last used.
abbrev pub IsTouched : DiskEntry → DiskEntry → Type 0
IsTouched e e' =
    (e'.file_name ≡ e.file_name) × (e'.sha256 ≡ e.sha256) × (e'.stored_length ≡ e.stored_length)

set_access-entry_of :
    (key : EntryKey) (tick : ℕ) (l : Entries) (k : EntryKey) (e' : DiskEntry)
    → entry_of k (set_access key tick l) ≡ some e'
    → (e : DiskEntry) × (entry_of k l ≡ some e) × IsTouched e e'
unfolding set_access entry_of
set_access-entry_of key tick [] k e' h = absurd (ground arith)
set_access-entry_of key tick ((j, e) ∷ rest) k e' h = elim (Bool-cases (key_eq j k)) [
  | inl here ↦ (e, ground arith, (ground arith, ground arith, ground arith))
  | inr there ↦
      let (e0, f, t) = set_access-entry_of key tick rest k e' (ground arith) in (e0, rw there f, t)
]

pub touch-entry_of :
    (keys : List EntryKey) (s : PersistentState) (k : EntryKey) (e' : DiskEntry)
    → entry_of k (touch_entries keys s).entries ≡ some e'
    → (e : DiskEntry) × (entry_of k s.entries ≡ some e) × IsTouched e e'
unfolding touch_entries next_clock
touch-entry_of [] s k e' h = (e', h, (refl, refl, refl))
touch-entry_of (key ∷ keys) s k e' h =
    let ticked = next_clock s in
    let t = record ticked { entries = set_access key ticked.clock s.entries } in
    let (e, f, (a, b, c)) = touch-entry_of keys t k e' h in
    let (e0, f0, (a0, b0, c0)) = set_access-entry_of key ticked.clock s.entries k e f in
    (e0, f0, (a ∙ a0, b ∙ b0, c ∙ c0))
