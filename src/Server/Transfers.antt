-- ===== src/Server/Transfers.antt =====
-- What the reads, the batches and the pairings of `handle` in servers/linux/server-daemon/src/main.rs
-- answer.
use quic_kfs.Prelude.{
  ℕ, ◌+◌, ◌≤◌, ◌<◌, ◌≡◌, refl, true, some, List, [], ◌∷◌, ltb, length, take, u64_max, arith,
  Bool-cases, inl, inr, ◌⊎◌,
}
use quic_kfs.Errors.{ok}
use quic_kfs.Protocol.Access.{ErrorCode}
use quic_kfs.Protocol.Messages.{Bytes, BatchedMetadata, Response}
use quic_kfs.Server.Service.{Export, Auth, Server, Moment, respond, Loaded}
use quic_kfs.Server.Transfer.{
  answer, receive, batch_loop, handle_write, handle_metadata_batch, max_metadata_batch,
}
use quic_kfs.Server.Login.{handle_pair, consume}

length-batch_loop :
    {S : Type 0} (export : Export S) (nodes : List ℕ) (s : S)
    → length (batch_loop export nodes s).1 ≡ length nodes
unfolding batch_loop
length-batch_loop export [] s = refl
length-batch_loop export (node ∷ nodes) s =
    omega (arith, length-batch_loop export nodes (export.metadata node s).0)

-- A batch is answered by one result for each node, if there are at most MAX_METADATA_BATCH nodes;
-- otherwise it is too large, and nothing is changed.
pub handle_metadata_batch_lem :
    {S P : Type 0} (export : Export S) (nodes : List ℕ) (s : Server S P)
    → ((results : List BatchedMetadata) × ((handle_metadata_batch export nodes s).1
          ≡ respond (Response.metadata_batch results) [])
        × (length results ≡ length nodes)
        × (length nodes ≤ max_metadata_batch))
      ⊎ ((handle_metadata_batch export nodes s
            ≡ (s, respond (Response.error ErrorCode.too_large) []))
          × (max_metadata_batch < length nodes))
unfolding handle_metadata_batch
handle_metadata_batch_lem export nodes s =
    elim (Bool-cases (ltb max_metadata_batch (length nodes))) [
      | inl many ↦ inr (rw many refl, ground arith)
      | inr few ↦ inl (
        (batch_loop export nodes s.export).1,
        rw few refl,
        length-batch_loop export nodes s.export,
        ground arith,
      )
    ]

-- A pairing is answered by a proof only if its record is there, the client's proof is the one that
-- the record's secret makes, and the record is used up.
pub handle_pair-proof :
    {S P K : Type 0} (export : Export S) (auth : Auth P K) (fingerprint : Bytes) (id : ℕ)
    (nonce proof print answered : Bytes) (s : Server S P)
    → (handle_pair export auth fingerprint id nonce proof s).1
      ≡ respond (Response.pairing_proof print answered) []
    → (key : K) × (auth.load_pairing id s.pairings ≡ Loaded.secret key)
      × (auth.verify_client_proof key id fingerprint nonce proof ≡ true)
      × (auth.server_proof key id fingerprint nonce ≡ some answered)
      × (auth.consume_pairing id s.pairings
          ≡ some (handle_pair export auth fingerprint id nonce proof s).0.pairings)
      × (print ≡ fingerprint)
unfolding handle_pair consume
handle_pair-proof export auth fingerprint id nonce proof print answered s e = ground arith

-- A write is answered as complete only if the session may write, the range is within the limit and
-- ends at a 64-bit offset, its length was free in both memory budgets, its bytes all came, and the
-- export wrote them with that result.
pub handle_write_complete :
    {S P : Type 0} (export : Export S) (m : Moment)
    (handle offset length' written revision size : ℕ) (s : Server S P)
    → (handle_write export m handle offset length' s).1
      ≡ respond (Response.write_complete written revision size) []
    → ((export.capabilities s.export).writable ≡ true)
      × (length' ≤ (export.capabilities s.export).max_write_size)
      × (offset + length' ≤ u64_max)
      × (length' ≤ m.write_permits)
      × (length' ≤ m.connection_write_permits)
      × (length' ≤ length m.incoming)
      × (export.write_owned handle offset (take length' m.incoming) s.export ≡ (
        (handle_write export m handle offset length' s).0.export,
        ok (written, revision, size),
      ))
unfolding handle_write receive answer
handle_write_complete export m handle offset length' written revision size s e = ground arith
