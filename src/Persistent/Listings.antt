-- ===== src/Persistent/Listings.antt =====
-- listings_with of crates/cache/src/lib.rs, the loop that reads the stored listings, finds every one
-- that names the node.
use quic_kfs.Prelude.{
  ℕ, ◌≤◌, ◌≡◌, refl, sym, ap, subst, ◌∙◌, ◌⊎◌, inl, inr, Bool, true, false, Option, some, List, [],
  ◌∷◌, arith, retain, Bool-cases, if◌then◌else◌, u64_max,
}
use quic_kfs.Persistent.Store.{
  CacheResult, err, ok, Bytes, EntryKey, key_eq, DiskEntry, Entries, Encoding, Files, Store,
  and_then,
}
use quic_kfs.Persistent.Table.{entry_of}
use quic_kfs.Persistent.Inserts.{file_name_of}
use quic_kfs.Persistent.Reads.{read_disk_entry, is_corrupt}
use quic_kfs.Persistent.Values.{lists_node, listing_names, listings_with}
use quic_kfs.Persistent.Backing.{IsDisk, IsCollisionFree, key_eq→eq, key_eq_refl}
use quic_kfs.Persistent.Stored.{Payloads, IsTrue}
use quic_kfs.Persistent.Removal.{lists}
use quic_kfs.Persistent.Keeping.{listing_names_keeps}
use quic_kfs.Persistent.Answers.{
  Verified, read_disk_entry-Verified, read_disk_entry-IsTrue, read_disk_entry-state,
}

-- The entry stands in the list.
abbrev pub IsIn : EntryKey → DiskEntry → Entries → Type 0
IsIn k e [] = ⊥
IsIn k e ((j, x) ∷ rest) = ((j ≡ k) × (x ≡ e)) ⊎ IsIn k e rest

pub entry_of-IsIn :
    (pick : EntryKey → Bool) (l : Entries) (k : EntryKey) (e : DiskEntry)
    → entry_of k l ≡ some e
    → pick k ≡ true
    → IsIn k e (retain (λ x. pick x.0) l)
unfolding entry_of
entry_of-IsIn pick [] k e f p = absurd (ground arith)
entry_of-IsIn pick ((j, x) ∷ rest) k e f p = elim (Bool-cases (key_eq j k)) [
  | inl same ↦
      let q = key_eq→eq j k same in
      let picked : pick j ≡ true = ap pick q ∙ p in
      let here : x ≡ e = ground arith in rw picked (inl (q, here))
  | inr other ↦
      let there = entry_of-IsIn pick rest k e (ground arith) p in
      elim (Bool-cases (pick j)) [
        | inl picked ↦ rw picked (inr there)
        | inr dropped ↦ rw dropped there
      ]
]

module _ {W : Type 0} (files : Files W) (codec : Encoding) (contents : W → Bytes → Option Bytes)
    (disk : IsDisk files contents) (free : IsCollisionFree codec) where
  abbrev IsTrueOf : ℕ → Payloads → Store W → Type 0
  IsTrueOf = IsTrue files codec contents disk free

  abbrev Says : Store W × CacheResult Bool → Type 0
  Says (t, err x) = Unit
  Says (t, ok named) = named ≡ true

  -- The listing of a true entry, by what its file gave.
  listing_names-Says :
      (Stored : Payloads) (m node : ℕ) (k : EntryKey) (e : DiskEntry) (b : Bytes) (s : Store W)
      → m ≤ u64_max
      → IsTrueOf m Stored s
      → entry_of k s.state.entries ≡ some e
      → file_name_of codec k b ≡ some e.file_name
      → lists_node node (codec.directory_from_slice b) ≡ true
      → Says (listing_names files codec node e s)
  unfolding listing_names
  listing_names-Says Stored m node k e b s w (a, h) f name named =
      let held = h k e f in
      let same : held.0 ≡ b = (free k k held.0 b e.file_name held.2 name).1 in
      answer (read_disk_entry files codec e s) (
        subst (λ x. Verified x (read_disk_entry files codec e s).1) same
          (read_disk_entry-Verified files codec contents disk free Stored m k e s w a held))
    where
      answer :
          (r : Store W × CacheResult Bytes)
          → Verified b r.1
          → Says (elim r.1 as (λ _. Store W × CacheResult Bool) [
            | ok bytes ↦ (r.0, ok (lists_node node (codec.directory_from_slice bytes)))
            | err x ↦ if is_corrupt x then (r.0, ok true) else (r.0, err x)
          ])
      answer (t, ok bytes) v = ap (λ x. lists_node node (codec.directory_from_slice x)) v ∙ named
      answer (t, err x) v = rw v tt

  abbrev pub Lists : EntryKey → Store W × CacheResult (List EntryKey) → Type 0
  Lists k (t, err x) = Unit
  Lists k (t, ok keys) = lists k keys ≡ true

  cons-Lists :
      (k j : EntryKey) (named : Bool) (r : Store W × CacheResult (List EntryKey))
      → ((j ≡ k) × (named ≡ true)) ⊎ Lists k r
      → Lists k (and_then r (λ keys u. (u, ok (if named then j ∷ keys else keys))))
  cons-Lists k j named (t, err x) h = tt
  cons-Lists k j true (t, ok keys) (inl (q, _)) =
      rw (subst (λ x. key_eq x k ≡ true) (sym q) (key_eq_refl k)) refl
  cons-Lists k j false (t, ok keys) (inl (_, wrong)) = absurd (ground arith)
  cons-Lists k j true (t, ok keys) (inr h) = ground (arith, h)
  cons-Lists k j false (t, ok keys) (inr h) = h

  after_listing-Lists :
      (node : ℕ) (k j : EntryKey) (rest : Entries) (r : Store W × CacheResult Bool)
      → ((named : Bool)
          → r.1 ≡ ok named
          → ((j ≡ k) × (named ≡ true)) ⊎ Lists k (listings_with files codec node rest r.0))
      → Lists k (
          and_then r (λ named t.
            and_then
              (listings_with files codec node rest t)
              (λ keys u. (u, ok (if named then j ∷ keys else keys)))))
  after_listing-Lists node k j rest (t, err x) h = tt
  after_listing-Lists node k j rest (t, ok named) h =
      cons-Lists k j named (listings_with files codec node rest t) (h named refl)

  pub listings_with-Lists :
      (Stored : Payloads) (m node : ℕ) (k : EntryKey) (e : DiskEntry) (b : Bytes) (l : Entries)
      (s : Store W)
      → m ≤ u64_max
      → IsTrueOf m Stored s
      → entry_of k s.state.entries ≡ some e
      → IsIn k e l
      → file_name_of codec k b ≡ some e.file_name
      → lists_node node (codec.directory_from_slice b) ≡ true
      → Lists k (listings_with files codec node l s)
  unfolding listings_with
  listings_with-Lists Stored m node k e b [] s w h f member name named = absurd member
  listings_with-Lists Stored m node k e b ((j, x) ∷ rest) s w h f (inl (p, q)) name named =
      after_listing-Lists node k j rest (listing_names files codec node x s) (λ said result. inl (
        p,
        subst (λ (r : CacheResult Bool). Says (s, r)) result
            (says (listing_names files codec node x s) (
              subst (λ y. Says (listing_names files codec node y s)) (sym q)
                (listing_names-Says Stored m node k e b s w h f name named))),
      ))
    where
      says : (r : Store W × CacheResult Bool) → Says r → Says (s, r.1)
      says (t, err x) v = tt
      says (t, ok n) v = v
  listings_with-Lists Stored m node k e b ((j, x) ∷ rest) s w h f (inr there) name named =
      let r = listing_names files codec node x s in
      let (i, same) =
        listing_names_keeps files codec (λ t. IsTrueOf m Stored t × (t.state ≡ s.state))
          (λ e t (i, same). (
            read_disk_entry-IsTrue files codec contents disk free Stored m e t i,
            read_disk_entry-state files codec e t ∙ same,
          ))
          node x s (h, refl) in
      after_listing-Lists node k j rest r (λ said result. inr (
        listings_with-Lists Stored m node k e b rest r.0 w i
          (subst (λ p. entry_of k p.entries ≡ some e) (sym same) f) there name named))
