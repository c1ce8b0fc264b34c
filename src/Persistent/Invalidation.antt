-- ===== src/Persistent/Invalidation.antt =====
-- invalidate_node and invalidate_directories_containing of crates/cache/src/lib.rs leave no payload of
-- the node and no listing that names it.
use quic_kfs.Prelude.{
  ℕ, ◌≤◌, ◌≡◌, refl, subst, ◌∙◌, ◌⊎◌, true, false, not, ◌&&◌, ◌||◌, Bool, Option, some, List, [],
  ◌∷◌, ◌++◌, arith, retain, Bool-cases, inl, inr, u64_max,
}
use quic_kfs.Persistent.Store.{
  CacheResult, err, ok, Bytes, EntryKey, DiskEntry, Entries, Encoding, Files, Store, and_then,
}
use quic_kfs.Persistent.Table.{entry_of}
use quic_kfs.Persistent.Commits.{remove_keys_locked}
use quic_kfs.Persistent.Inserts.{file_name_of}
use quic_kfs.Persistent.Reads.{matching_keys}
use quic_kfs.Persistent.Values.{
  is_directory, belongs_to, lists_node, listings_with, invalidate_directories_containing,
  invalidate_node,
}
use quic_kfs.Persistent.Backing.{IsDisk, IsCollisionFree, Backed}
use quic_kfs.Persistent.Stored.{Payloads, after_removal, IsTrue, IsTrue-weaken}
use quic_kfs.Persistent.Keeping.{listings_with_keeps}
use quic_kfs.Persistent.Removal.{lists, matching_keys-lists, remove_keys_locked-IsTrue}
use quic_kfs.Persistent.Answers.{read_disk_entry-state, read_disk_entry-IsTrue}
use quic_kfs.Persistent.Listings.{entry_of-IsIn, Lists, listings_with-Lists}

-- A stored listing that names the node, or that cannot be decoded.
abbrev pub is_listing_of : Encoding → ℕ → EntryKey → Bytes → Bool
is_listing_of codec node k b = is_directory k && lists_node node (codec.directory_from_slice b)

-- The node's own payloads, and the listings that name it.
abbrev pub is_about : Encoding → ℕ → EntryKey → Bytes → Bool
is_about codec node k b = belongs_to node k || is_listing_of codec node k b

-- A successful invalidation leaves no payload of those.
abbrev pub after_invalidation :
    {A : Type 0} → (EntryKey → Bytes → Bool) → Payloads → CacheResult A → Payloads
after_invalidation gone Stored (err x) k b = Stored k b
after_invalidation gone Stored (ok _) k b = (gone k b ≡ false) × Stored k b

lists-left : (k : EntryKey) (xs ys : List EntryKey) → lists k xs ≡ true → lists k (xs ++ ys) ≡ true
lists-left k [] ys h = absurd (ground arith)
lists-left k (x ∷ xs) ys h = ground (arith, lists-left k xs ys)

lists-right : (k : EntryKey) (xs ys : List EntryKey) → lists k ys ≡ true → lists k (xs ++ ys) ≡ true
lists-right k [] ys h = h
lists-right k (x ∷ xs) ys h = ground (arith, lists-right k xs ys h)

module _ {W : Type 0} (files : Files W) (codec : Encoding) (contents : W → Bytes → Option Bytes)
    (disk : IsDisk files contents) (free : IsCollisionFree codec) where
  abbrev IsTrueOf : ℕ → Payloads → Store W → Type 0
  IsTrueOf = IsTrue files codec contents disk free

  -- The keys that are removed are those of the payloads that must go.
  abbrev Marked : (EntryKey → Bytes → Bool) → Payloads → List EntryKey → Payloads
  Marked gone Stored keys k b = Stored k b × (gone k b ≡ true → lists k keys ≡ true)

  removed-unmarked :
      (gone : EntryKey → Bytes → Bool) (Stored : Payloads) (keys : List EntryKey)
      (r : CacheResult (Unit {0})) (k : EntryKey) (b : Bytes)
      → after_removal (λ j. lists j keys) (Marked gone Stored keys) r k b
      → after_invalidation gone Stored r k b
  removed-unmarked gone Stored keys (err x) k b (st, h) = st
  removed-unmarked gone Stored keys (ok _) k b (absent, (st, h)) = elim (Bool-cases (gone k b)) [
    | inr stays ↦ (stays, st)
    | inl goes ↦ let listed = h goes in absurd (ground arith)
  ]

  marked_removal-IsTrue :
      (gone : EntryKey → Bytes → Bool) (Stored : Payloads) (m : ℕ) (keys : List EntryKey)
      (s : Store W)
      → IsTrueOf m (Marked gone Stored keys) s
      → let r = remove_keys_locked files codec keys s in
        IsTrueOf m (after_invalidation gone Stored r.1) r.0
  marked_removal-IsTrue gone Stored m keys s h =
      let r = remove_keys_locked files codec keys s in
      IsTrue-weaken files codec contents disk free
        (after_removal (λ j. lists j keys) (Marked gone Stored keys) r.1)
        (after_invalidation gone Stored r.1) m r.0 (removed-unmarked gone Stored keys r.1)
        (remove_keys_locked-IsTrue files codec contents disk free (λ j. lists j keys) keys
          (Marked gone Stored keys) m s (λ k e f inside. inside) h)

  mark-Backed :
      (gone : EntryKey → Bytes → Bool) (Stored : Payloads) (m : ℕ) (keys : List EntryKey) (w : W)
      (k : EntryKey) (e : DiskEntry)
      → ((b : Bytes)
          → file_name_of codec k b ≡ some e.file_name
          → gone k b ≡ true
          → lists k keys ≡ true)
      → Backed codec contents Stored m w k e
      → Backed codec contents (Marked gone Stored keys) m w k e
  mark-Backed gone Stored m keys w k e f (b, c, n, d, l, r, st) = (b, c, n, d, l, r, (st, f b n))

  -- What has been read, and then removed with keys of the caller's own.
  found_removal-IsTrue :
      (gone : EntryKey → Bytes → Bool) (own : List EntryKey) (Stored : Payloads) (m : ℕ)
      (s : Store W) (r : Store W × CacheResult (List EntryKey))
      → IsTrueOf m Stored r.0 × (r.0.state ≡ s.state)
      → ((k : EntryKey) (e : DiskEntry) (b : Bytes)
          → entry_of k s.state.entries ≡ some e
          → file_name_of codec k b ≡ some e.file_name
          → gone k b ≡ true
          → (lists k own ≡ true) ⊎ Lists files codec contents disk free k r)
      → let q = and_then r (λ keys. remove_keys_locked files codec (own ++ keys)) in
        IsTrueOf m (after_invalidation gone Stored q.1) q.0
  found_removal-IsTrue gone own Stored m s (t, err x) (h, same) f = h
  found_removal-IsTrue gone own Stored m s (t, ok keys) ((a, h), same) f =
      marked_removal-IsTrue gone Stored m (own ++ keys) t (
        a,
        λ k e g.
            let g' = subst (λ p. entry_of k p.entries ≡ some e) same g in
            mark-Backed gone Stored m (own ++ keys) t.world k e
              (λ b n goes. elim (f k e b g' n goes) [
                | inl mine ↦ lists-left k own keys mine
                | inr found ↦ lists-right k own keys found
              ])
              (h k e g),
      )

  listings-IsTrue :
      (Stored : Payloads) (m node : ℕ) (l : Entries) (s : Store W)
      → IsTrueOf m Stored s
      → let r = listings_with files codec node l s in IsTrueOf m Stored r.0 × (r.0.state ≡ s.state)
  listings-IsTrue Stored m node l s h =
      listings_with_keeps files codec (λ t. IsTrueOf m Stored t × (t.state ≡ s.state))
        (λ e t (i, same). (
          read_disk_entry-IsTrue files codec contents disk free Stored m e t i,
          read_disk_entry-state files codec e t ∙ same,
        ))
        node l s (h, refl)

  pub invalidate_directories_containing-IsTrue :
      (Stored : Payloads) (m node : ℕ) (s : Store W)
      → m ≤ u64_max
      → IsTrueOf m Stored s
      → let r = invalidate_directories_containing files codec node s in
        IsTrueOf m (after_invalidation (is_listing_of codec node) Stored r.1) r.0
  unfolding invalidate_directories_containing
  invalidate_directories_containing-IsTrue Stored m node s w h =
      let l = retain (λ (e : EntryKey × DiskEntry). is_directory e.0) s.state.entries in
      found_removal-IsTrue (is_listing_of codec node) [] Stored m s
        (listings_with files codec node l s) (listings-IsTrue Stored m node l s h)
        (λ k e b f n goes.
          let directory : is_directory k ≡ true = ground arith in
          inr (
            listings_with-Lists files codec contents disk free Stored m node k e b l s w h f
              (entry_of-IsIn is_directory s.state.entries k e f directory) n (ground arith)))

  pub invalidate_node-IsTrue :
      (Stored : Payloads) (m node : ℕ) (s : Store W)
      → m ≤ u64_max
      → IsTrueOf m Stored s
      → let r = invalidate_node files codec node s in
        IsTrueOf m (after_invalidation (is_about codec node) Stored r.1) r.0
  unfolding invalidate_node matching_keys
  invalidate_node-IsTrue Stored m node s w h =
      let pick : EntryKey → Bool = λ k. is_directory k && not (belongs_to node k) in
      let l = retain (λ (e : EntryKey × DiskEntry). pick e.0) s.state.entries in
      found_removal-IsTrue (is_about codec node) (matching_keys (belongs_to node) s.state.entries)
        Stored m s (listings_with files codec node l s) (listings-IsTrue Stored m node l s h)
        (λ k e b f n goes. elim (Bool-cases (belongs_to node k)) [
          | inl mine ↦ inl (matching_keys-lists (belongs_to node) s.state.entries k e f mine)
          | inr other ↦
              let listing : is_listing_of codec node k b ≡ true =
                subst (λ x. (x || is_listing_of codec node k b) ≡ true) other goes in
              let picked : pick k ≡ true = ground (arith, listing, other) in
              inr (
                listings_with-Lists files codec contents disk free Stored m node k e b l s w h f
                  (entry_of-IsIn pick s.state.entries k e f picked) n (ground (arith, listing)))
        ])
