-- ===== src/Server/Views.antt =====
-- stream_directory_view of servers/linux/server-daemon/src/main.rs: a directory view that is sent
-- in frames. `encoded_len` is the length of an entry's encoding (postcard).
use quic_kfs.Prelude.{
  ℕ, ◌+◌, Bool, true, false, not, ◌&&◌, none, some, List, [], ◌∷◌, ◌++◌, ltb, if◌then◌else◌, length,
}
use quic_kfs.Protocol.Messages.{DirectoryViewEntry, DirectoryView, Response}

-- MAX_FRAME_SIZE - 16 * 1024
abbrev pub directory_view_chunk_budget : ℕ
directory_view_chunk_budget = 1032192

-- `if let Some(xattrs) = &mut entry.xattrs { xattrs.inline_values.clear(); }`
abbrev pub clear_inline : DirectoryViewEntry → DirectoryViewEntry
clear_inline e = record e {
  xattrs = elim e.xattrs [
    | none ↦ none
    | some xattrs ↦ some (record xattrs { inline_values = [] })
  ];
}

abbrev pub without_xattrs : DirectoryViewEntry → DirectoryViewEntry
without_xattrs e = record e { xattrs = none }

abbrev pub is_empty : List DirectoryViewEntry → Bool
is_empty [] = true
is_empty (e ∷ es) = false

abbrev pub chunk_frames : List (List DirectoryViewEntry) → List Response
chunk_frames [] = Response.directory_view_end ∷ []
chunk_frames (chunk ∷ chunks) = Response.directory_view_chunk chunk ∷ chunk_frames chunks

module _ (encoded_len : DirectoryViewEntry → ℕ) where
  -- An entry with what it sheds to fit the budget.
  unfoldable pub shed : DirectoryViewEntry → DirectoryViewEntry
  shed e =
      if ltb directory_view_chunk_budget (encoded_len e)
      then if ltb directory_view_chunk_budget (encoded_len (clear_inline e))
        then without_xattrs (clear_inline e)
        else clear_inline e
      else e

  -- The loop over the entries, with the chunk that is open and its bytes, and the last chunk.
  unfoldable pub chunk_loop :
      List DirectoryViewEntry → ℕ → List DirectoryViewEntry → List (List DirectoryViewEntry)
  chunk_loop chunk chunk_bytes [] = if is_empty chunk then [] else chunk ∷ []
  chunk_loop chunk chunk_bytes (entry ∷ entries) =
      let e = shed entry in
      let len = encoded_len e in
      let fresh = chunk_loop (e ∷ []) len entries in
      let grown = chunk_loop (chunk ++ e ∷ []) (chunk_bytes + len) entries in
      if not (is_empty chunk) && ltb directory_view_chunk_budget (chunk_bytes + len)
      then chunk ∷ fresh
      else grown

  unfoldable pub stream_directory_view : DirectoryView → List Response
  stream_directory_view view =
      Response.directory_view_start view.revision view.directory view.parent view.xattrs
        (length view.entries)
      ∷ chunk_frames (chunk_loop [] 0 view.entries)

  -- `single_fits` tells whether encode_frame accepts the view as one response.
  unfoldable pub write_directory_view : Bool → DirectoryView → List Response
  write_directory_view single_fits view =
      if single_fits then Response.directory_view view ∷ [] else stream_directory_view view
