-- ===== src/Client/Directories.antt =====
-- list_directory_view_streamed and response_error of crates/client-core/src/lib.rs. The envelopes
-- that come on the stream of the request are a list; where it ends, receiving fails.
use quic_kfs.Prelude.{
  ℕ, ◌+◌, Bool, ◌&&◌, List, [], ◌∷◌, ◌++◌, ltb, ◌==◌, if◌then◌else◌, length, min,
}
use quic_kfs.Protocol.Messages.{Response, DirectoryView, DirectoryViewEntry}
use quic_kfs.Protocol.Version.{version_major, protocol_major}
use quic_kfs.Client.Network.{
  ClientError, transport, server, unexpected_response, ClientResult, err, ok,
}

pub record Envelope : Type 0 where
  pub version : ℕ
  pub request_id : ℕ
  pub message : Response

abbrev pub max_directory_entries : ℕ
max_directory_entries = 1048576

-- usize::saturating_add
abbrev pub saturating_add : ℕ → ℕ → ℕ
saturating_add a b = min (a + b) 18446744073709551615

unfoldable pub response_error : Response → ClientError
response_error (Response.error code) = server code
response_error _ = unexpected_response

-- Whether an envelope answers the request.
unfoldable pub is_answer : ℕ → Envelope → Bool
is_answer id envelope =
    version_major envelope.version == protocol_major && envelope.request_id == id

-- The responses that the `match`es on a frame tell apart.
pub data Part : Type 0 where
  whole start : DirectoryView → Part
  entries' : List DirectoryViewEntry → Part
  end' : Part
  other : ClientError → Part

unfoldable pub part_of : Response → Part
part_of (Response.directory_view view) = whole view
part_of (Response.directory_view_start revision directory parent xattrs entry_count) =
    start (record {
      revision = revision;
      directory = directory;
      parent = parent;
      xattrs = xattrs;
      entries = [];
    })
part_of (Response.directory_view_chunk entries) = entries' entries
part_of Response.directory_view_end = end'
part_of message = other (response_error message)

-- The loop over the frames that follow the start, with the entries that came.
unfoldable pub collect :
    ℕ → List DirectoryViewEntry → List Envelope → ClientResult (List DirectoryViewEntry)
collect id entries [] = err transport
collect id entries (frame ∷ frames) =
    if is_answer id frame
    then elim (part_of frame.message) [
      | entries' more ↦
          let rest = collect id (entries ++ more) frames in
          if ltb max_directory_entries (saturating_add (length entries) (length more))
          then err unexpected_response
          else rest
      | end' ↦ ok entries
      | other e ↦ err e
      | _ ↦ err unexpected_response
    ]
    else err unexpected_response

-- The view of a start and of the entries that follow it.
unfoldable pub complete :
    DirectoryView → ClientResult (List DirectoryViewEntry) → ClientResult DirectoryView
complete view (err e) = err e
complete view (ok entries) = ok (record view { entries = entries })

unfoldable pub list_directory_view_streamed : ℕ → List Envelope → ClientResult DirectoryView
list_directory_view_streamed id [] = err transport
list_directory_view_streamed id (first ∷ frames) =
    if is_answer id first
    then elim (part_of first.message) [
      | whole view ↦ ok view
      | start view ↦ complete view (collect id [] frames)
      | other e ↦ err e
      | _ ↦ err unexpected_response
    ]
    else err unexpected_response
