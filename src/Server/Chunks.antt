-- ===== src/Server/Chunks.antt =====
-- The frames of a directory view that stream_directory_view of
-- servers/linux/server-daemon/src/main.rs sends.
use quic_kfs.Prelude.{
  ℕ, ◌+◌, ◌≤◌, ◌≡◌, refl, ap, ◌∙◌, true, false, not, ◌&&◌, List, [], ◌∷◌, ◌++◌, map, ltb, length,
  All, arith, Bool-cases, inl, inr,
}
use quic_kfs.Protocol.Messages.{DirectoryViewEntry, DirectoryView, Response}
use quic_kfs.Server.Views.{
  directory_view_chunk_budget, clear_inline, without_xattrs, is_empty, shed, chunk_loop,
  chunk_frames, stream_directory_view,
}

pub append_assoc : (xs ys zs : List DirectoryViewEntry) → (xs ++ ys) ++ zs ≡ xs ++ (ys ++ zs)
append_assoc [] ys zs = refl
append_assoc (x ∷ xs) ys zs = ap (λ l. x ∷ l) (append_assoc xs ys zs)

pub append-nil : (xs : List DirectoryViewEntry) → xs ++ [] ≡ xs
append-nil [] = refl
append-nil (x ∷ xs) = ap (λ l. x ∷ l) (append-nil xs)

-- What a client puts together from the frames.
abbrev pub received : List Response → List DirectoryViewEntry
received [] = []
received (Response.directory_view_chunk chunk ∷ frames) = chunk ++ received frames
received (_ ∷ frames) = received frames

module _ (encoded_len : DirectoryViewEntry → ℕ) where
  abbrev pub bytes_of : List DirectoryViewEntry → ℕ
  bytes_of [] = 0
  bytes_of (e ∷ es) = encoded_len e + bytes_of es

  -- A frame with entries has some, and they are within the budget.
  abbrev pub IsChunk : List DirectoryViewEntry → Type 0
  IsChunk chunk = (is_empty chunk ≡ false) × (bytes_of chunk ≤ directory_view_chunk_budget)

  -- The entry fits the budget at least without its attributes.
  abbrev pub Sheds : DirectoryViewEntry → Type 0
  Sheds e = encoded_len (without_xattrs (clear_inline e)) ≤ directory_view_chunk_budget

  bytes_of-append :
      (xs ys : List DirectoryViewEntry) → bytes_of (xs ++ ys) ≡ bytes_of xs + bytes_of ys
  bytes_of-append [] ys = omega arith
  bytes_of-append (x ∷ xs) ys = omega (arith, bytes_of-append xs ys)

  shed_fits :
      (e : DirectoryViewEntry)
      → Sheds e
      → encoded_len (shed encoded_len e) ≤ directory_view_chunk_budget
  unfolding shed
  shed_fits e h = ground arith

  joined : List (List DirectoryViewEntry) → List DirectoryViewEntry
  joined [] = []
  joined (chunk ∷ chunks) = chunk ++ joined chunks

  is_empty-append :
      (xs : List DirectoryViewEntry) (e : DirectoryViewEntry) → is_empty (xs ++ e ∷ []) ≡ false
  is_empty-append [] e = refl
  is_empty-append (x ∷ xs) e = refl

  bytes_of-empty : (xs : List DirectoryViewEntry) → is_empty xs ≡ true → bytes_of xs ≡ 0
  bytes_of-empty [] h = refl
  bytes_of-empty (x ∷ xs) h = ground arith

  chunk_loop_lem :
      (chunk : List DirectoryViewEntry) (chunk_bytes : ℕ) (entries : List DirectoryViewEntry)
      → chunk_bytes ≡ bytes_of chunk
      → chunk_bytes ≤ directory_view_chunk_budget
      → All Sheds entries
      → (joined (chunk_loop encoded_len chunk chunk_bytes entries)
          ≡ chunk ++ map (shed encoded_len) entries)
        × All IsChunk (chunk_loop encoded_len chunk chunk_bytes entries)
  unfolding chunk_loop joined
  chunk_loop_lem [] chunk_bytes [] counted small sheds = (refl, tt)
  chunk_loop_lem (c ∷ cs) chunk_bytes [] counted small sheds = (refl, ((refl, omega arith), tt))
  chunk_loop_lem chunk chunk_bytes (entry ∷ entries) counted small sheds =
      elim (Bool-cases
        (not (is_empty chunk) && ltb directory_view_chunk_budget (chunk_bytes + encoded_len e))) [
          | inl full ↦
              let (joins, chunks) =
                chunk_loop_lem (e ∷ []) (encoded_len e) entries (omega arith) fits sheds.1 in
              rw full (
                ap (λ l. chunk ++ l) joins,
                ((ground arith, omega (arith, counted, small)), chunks),
              )
          | inr open_chunk ↦
              let (joins, chunks) =
                chunk_loop_lem (chunk ++ e ∷ []) (chunk_bytes + encoded_len e) entries
                  (omega (arith, bytes_of-append chunk (e ∷ []), counted))
                  (ground (arith, bytes_of-empty chunk, fits)) sheds.1 in
              rw open_chunk
                (joins ∙ append_assoc chunk (e ∷ []) (map (shed encoded_len) entries), chunks)
        ]
    where
      e : DirectoryViewEntry
      e = shed encoded_len entry

      fits : encoded_len (shed encoded_len entry) ≤ directory_view_chunk_budget
      fits = shed_fits entry sheds.0

  received-chunk_frames :
      (chunks : List (List DirectoryViewEntry)) → received (chunk_frames chunks) ≡ joined chunks
  unfolding joined
  received-chunk_frames [] = refl
  received-chunk_frames (chunk ∷ chunks) = ap (λ l. chunk ++ l) (received-chunk_frames chunks)

  -- If every entry fits the budget at least without its attributes, then the frames of a directory
  -- view carry its entries in their order, each shed of what did not fit, and each chunk has
  -- entries and stays within the budget.
  pub stream_directory_view_lem :
      (view : DirectoryView)
      → All Sheds view.entries
      → (received (stream_directory_view encoded_len view) ≡ map (shed encoded_len) view.entries)
        × ((chunks : List (List DirectoryViewEntry)) × (stream_directory_view encoded_len view
              ≡ Response.directory_view_start view.revision view.directory view.parent view.xattrs
                  (length view.entries)
                ∷ chunk_frames chunks)
            × All IsChunk chunks)
  unfolding stream_directory_view
  stream_directory_view_lem view sheds =
      let (joins, chunks) = chunk_loop_lem [] 0 view.entries refl (omega arith) sheds in
      (
        received-chunk_frames (chunk_loop encoded_len [] 0 view.entries) ∙ joins,
        (chunk_loop encoded_len [] 0 view.entries, refl, chunks),
      )
