-- ===== src/Server/Transfer.antt =====
-- The requests of `handle` in servers/linux/server-daemon/src/main.rs that move file or attribute
-- bytes under a memory budget, and metadata batches.
use quic_kfs.Prelude.{
  ℕ, ◌+◌, Bool, not, ◌||◌, List, [], ◌∷◌, ltb, if◌then◌else◌, length, take, u64_max,
}
use quic_kfs.Errors.{Result, ok, err, protocol_code}
use quic_kfs.Protocol.Access.{ErrorCode}
use quic_kfs.Protocol.Messages.{Bytes, Metadata, XattrSetMode, BatchedMetadata, Response}
use quic_kfs.Server.Service.{Export, Moment, respond, drop_stream, Handler, reply}

abbrev pub max_metadata_batch : ℕ
max_metadata_batch = 4096

abbrev pub u32_max : ℕ
u32_max = 4294967295

-- `length > limit || offset.checked_add(length).is_none()`
abbrev pub beyond : ℕ → ℕ → ℕ → Bool
beyond limit offset length' = ltb limit length' || ltb u64_max (offset + length')

module _ {S P : Type 0} where
  -- `.map(f).unwrap_or_else(|error| Response::Error(error.protocol()))` on a method's result.
  unfoldable pub answer : {A : Type 0} → (A → Response) → S × Result A → Handler S P
  answer f (next, ok a) s = (record s { export = next }, respond (f a) [])
  answer f (next, err e) s =
      (record s { export = next }, respond (Response.error (protocol_code e)) [])

  -- The same, with raw bytes after the response.
  unfoldable pub answer_raw :
      {A : Type 0} → (A → Response) → (A → Bytes) → S × Result A → Handler S P
  answer_raw f raw (next, ok a) s = (record s { export = next }, respond (f a) (raw a))
  answer_raw f raw (next, err e) s =
      (record s { export = next }, respond (Response.error (protocol_code e)) [])

  -- The permits for a body, then the body, then the method that takes it. A stream that ends
  -- before its body is dropped.
  unfoldable pub receive :
      {A : Type 0} → Moment → ℕ → (A → Response) → (Bytes → S → S × Result A) → Handler S P
  receive m length' f action s =
      if ltb u32_max length'
      then reply (Response.error ErrorCode.too_large) s
      else if ltb m.write_permits length' || ltb m.connection_write_permits length'
      then reply (Response.error ErrorCode.busy) s
      else if ltb (length m.incoming) length'
      then (s, drop_stream)
      else answer f (action (take length' m.incoming) s.export) s

-- One node of a batch.
unfoldable pub batch_entry : Result Metadata → BatchedMetadata
batch_entry (ok metadata) = BatchedMetadata.found metadata
batch_entry (err e) = BatchedMetadata.failed (protocol_code e)

module _ {S : Type 0} (export : Export S) where
  unfoldable pub batch_loop : List ℕ → S → S × List BatchedMetadata
  batch_loop [] s = (s, [])
  batch_loop (node ∷ nodes) s =
      let (next, result) = export.metadata node s in
      let (last, results) = batch_loop nodes next in (last, batch_entry result ∷ results)

module _ {S P : Type 0} (export : Export S) where
  unfoldable pub handle_read : ℕ → ℕ → ℕ → Handler S P
  handle_read handle offset length' s =
      if beyond (export.capabilities s.export).max_read_size offset length' || ltb u32_max length'
      then reply (Response.error ErrorCode.too_large) s
      else answer_raw (λ r. Response.read_data r.0 (length r.1)) (λ r. r.1)
          (export.read handle offset length' s.export) s

  unfoldable pub handle_write : Moment → ℕ → ℕ → ℕ → Handler S P
  handle_write m handle offset length' s =
      if not (export.capabilities s.export).writable
      then reply (Response.error ErrorCode.read_only) s
      else if beyond (export.capabilities s.export).max_write_size offset length'
      then reply (Response.error ErrorCode.too_large) s
      else receive m length' (λ r. Response.write_complete r.0 r.1 r.2)
          (export.write_owned handle offset) s

  unfoldable pub handle_get_xattr : ℕ → Bytes → ℕ → ℕ → Handler S P
  handle_get_xattr node name offset length' s =
      if beyond (export.capabilities s.export).max_read_size offset length' || ltb u32_max length'
      then reply (Response.error ErrorCode.too_large) s
      else answer_raw (λ r. Response.xattr_data (length r.1) r.0) (λ r. r.1)
          (export.get_xattr node name offset length' s.export) s

  unfoldable pub handle_set_xattr : Moment → ℕ → Bytes → XattrSetMode → ℕ → ℕ → Handler S P
  handle_set_xattr m node name mode position length' s =
      if not (export.capabilities s.export).writable
      then reply (Response.error ErrorCode.read_only) s
      else if ltb (export.capabilities s.export).max_write_size length'
      then reply (Response.error ErrorCode.too_large) s
      else receive m length' (λ _. Response.xattr_set)
          (λ data'. export.set_xattr node name data' mode position) s

  unfoldable pub handle_metadata_batch : List ℕ → Handler S P
  handle_metadata_batch nodes s =
      if ltb max_metadata_batch (length nodes)
      then reply (Response.error ErrorCode.too_large) s
      else let (next, results) = batch_loop export nodes s.export in
        (record s { export = next }, respond (Response.metadata_batch results) [])
