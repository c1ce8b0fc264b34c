-- ===== src/Client/RoundTrip.antt =====
-- The directory views that the daemon of servers/linux/server-daemon/src/main.rs sends and the
-- client of crates/client-core/src/lib.rs puts together.
use quic_kfs.Prelude.{
  ℕ, suc, ◌+◌, ◌≤◌, ◌≡◌, refl, sym, ◌∙◌, ap, subst, Bool, true, false, List, [], ◌∷◌, ◌++◌, map,
  ltb, if◌then◌else◌, length, All, arith, ==_refl, length-append,
}
use quic_kfs.Protocol.Messages.{Response, DirectoryView, DirectoryViewEntry}
use quic_kfs.Protocol.Version.{version_major, protocol_major}
use quic_kfs.Server.Views.{shed, chunk_frames, write_directory_view}
use quic_kfs.Server.Chunks.{received, Sheds, stream_directory_view_lem, append_assoc, append-nil}
use quic_kfs.Client.Network.{unexpected_response, ClientResult, err, ok}
use quic_kfs.Client.Directories.{
  Envelope, Part, whole, start, entries', end', other, part_of, max_directory_entries,
  saturating_add, is_answer, collect, complete, list_directory_view_streamed,
}

ok_injective : {x y : List DirectoryViewEntry} → ok x ≡ ok y → x ≡ y
ok_injective h = cc

length-map :
    (f : DirectoryViewEntry → DirectoryViewEntry) (es : List DirectoryViewEntry)
    → length (map f es) ≡ length es
length-map f [] = refl
length-map f (e ∷ es) = ap suc (length-map f es)

module _ (version id : ℕ) where
  -- The envelope of a response.
  abbrev pub enclose : Response → Envelope
  enclose message = record { version = version; request_id = id; message = message }

  answers :
      (message : Response)
      → version_major version ≡ protocol_major
      → is_answer id (enclose message) ≡ true
  unfolding is_answer
  answers message h = rw (h, ==_refl id) refl

  collect-chunk_frames :
      (entries : List DirectoryViewEntry) (chunks : List (List DirectoryViewEntry))
      → version_major version ≡ protocol_major
      → length entries + length (received (chunk_frames chunks)) ≤ max_directory_entries
      → collect id entries (map enclose (chunk_frames chunks))
        ≡ ok (entries ++ received (chunk_frames chunks))
  unfolding collect part_of
  collect-chunk_frames entries [] v few =
      rw (answers Response.directory_view_end v) (ap ok (sym (append-nil entries)))
  collect-chunk_frames entries (chunk ∷ chunks) v few =
      let size = length-append chunk (received (chunk_frames chunks)) in
      let grown = length-append entries chunk in
      let room : ltb max_directory_entries (saturating_add (length entries) (length chunk))
          ≡ false =
        ground (arith, size, few) in
      rw (answers (Response.directory_view_chunk chunk) v, room)
        (collect-chunk_frames (entries ++ chunk) chunks v (omega (arith, size, grown, few))
          ∙ ap ok (append_assoc entries chunk (received (chunk_frames chunks))))

  -- If the daemon speaks our major version and the view has at most MAX_DIRECTORY_ENTRIES entries,
  -- each of which fits the chunk budget at least without its attributes, then the client gets the
  -- view that was sent: as it was in one frame, or put together from the chunks, with each entry
  -- shed of what did not fit.
  pub list_directory_view_round_trip :
      (encoded_len : DirectoryViewEntry → ℕ) (single : Bool) (view : DirectoryView)
      → version_major version ≡ protocol_major
      → All (Sheds encoded_len) view.entries
      → length view.entries ≤ max_directory_entries
      → list_directory_view_streamed id (map enclose (write_directory_view encoded_len single view))
        ≡ ok
            (if single then view else record view { entries = map (shed encoded_len) view.entries })
  unfolding write_directory_view list_directory_view_streamed part_of complete
  list_directory_view_round_trip encoded_len true view v sheds few =
      rw (answers (Response.directory_view view) v) refl
  list_directory_view_round_trip encoded_len false view v sheds few =
      let (joins, (chunks, frames, _)) = stream_directory_view_lem encoded_len view sheds in
      let carried : received (chunk_frames chunks) ≡ map (shed encoded_len) view.entries =
        ap received (sym frames) ∙ joins in
      rw frames (
        rw
          (answers
            (Response.directory_view_start view.revision view.directory view.parent view.xattrs
              (length view.entries))
            v)
          (ap (complete (record view { entries = [] })) (
            collect-chunk_frames [] chunks v
              (omega (arith, ap length carried, length-map (shed encoded_len) view.entries, few))
            ∙ ap ok carried)))

room :
    (a b : ℕ) (step : ClientResult (List DirectoryViewEntry)) (result : List DirectoryViewEntry)
    → (if ltb max_directory_entries (saturating_add a b) then err unexpected_response else step)
      ≡ ok result
    → (a + b ≤ max_directory_entries) × (step ≡ ok result)
room a b step result h = ground arith

-- Whatever envelopes a server sends, the client takes at most MAX_DIRECTORY_ENTRIES entries from the
-- chunks of a view.
collect_bounded :
    (id : ℕ) (entries : List DirectoryViewEntry) (frames : List Envelope)
    (result : List DirectoryViewEntry)
    → length entries ≤ max_directory_entries
    → collect id entries frames ≡ ok result
    → length result ≤ max_directory_entries
unfolding collect
collect_bounded id entries [] result few h = ground arith
collect_bounded id entries (frame ∷ frames) result few h =
    go (is_answer id frame) (part_of frame.message)
      (λ more e k. collect_bounded id (entries ++ more) frames result e k) h
  where
    go :
        (b : Bool) (part : Part)
        → ((more : List DirectoryViewEntry)
            → length (entries ++ more) ≤ max_directory_entries
            → collect id (entries ++ more) frames ≡ ok result
            → length result ≤ max_directory_entries)
        → (if b
            then elim part [
              | entries' more ↦
                  if ltb max_directory_entries (saturating_add (length entries) (length more))
                  then err unexpected_response
                  else collect id (entries ++ more) frames
              | end' ↦ ok entries
              | other e ↦ err e
              | _ ↦ err unexpected_response
            ]
            else err unexpected_response)
          ≡ ok result
        → length result ≤ max_directory_entries
    go false part ih h = ground arith
    go true (entries' more) ih h =
        let (fits, k) = room (length entries) (length more) _ result h in
        ih more (omega (arith, length-append entries more, fits)) k
    go true end' ih h = subst (λ es. length es ≤ max_directory_entries) (ok_injective h) few
    go true (other e) ih h = ground arith
    go true (whole view) ih h = ground arith
    go true (start view) ih h = ground arith
