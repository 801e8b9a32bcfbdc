-- ===== src/Sync/Snapshot/Tests.antt =====
-- Runs of the snapshot on the wire, and its theorems at concrete data.
use file_local.Prelude.{true, ℕ, ◌≡◌, refl, Option, none, some, List, [], ◌∷◌, arith}
use file_local.Prelude.Order.{pos}
use file_local.Prelude.Results.{ok, err}
use file_local.Model.{Record, directory}
use file_local.Sync.Chunks.{bounded_chunks, chunks_loop, fill}
use file_local.Sync.Snapshot.{
  preparing, scanning, Frame, Message, ScanReader, check_progress, count_control, max_metadata,
  not_advancing, read_scan_snapshot, read_snapshot, scan_loop, scan_message, scan_preparing,
  scan_progress, snapshot_chunk, snapshot_end, write_snapshot,
}
use file_local.Sync.Snapshot.RoundTrip.{
  on_wire, read_scan_snapshot-write_snapshot, read_snapshot-write_snapshot,
}

abbrev folder : ℕ → Record
folder p = record {
  path = p ∷ [];
  version = record {
    peer = b'a' ∷ [];
    sequence = p;
    id_authenticator = none;
    timestamp_ns = pos 1;
    seen = [];
    merge_base = none;
    version_authenticator = none;
    base_authenticator = none;
    entry = directory;
  };
}

abbrev two_folders : List Record
two_folders = folder 1 ∷ folder 2 ∷ []

-- Records so long that a frame holds one of them.
abbrev long_record : Record → Option ℕ
long_record r = some 2_000_000

abbrev long_chunk : List Record → ℕ
long_chunk rs = 2_000_002

abbrev long_frame : Message → ℕ
long_frame (snapshot_chunk chunk) = 2_000_040
long_frame _ = 60

abbrev two_chunks : List Message
two_chunks = snapshot_chunk (folder 1 ∷ []) ∷ snapshot_chunk (folder 2 ∷ []) ∷ snapshot_end ∷ []

written : write_snapshot long_record 40 two_folders ≡ ok two_chunks
unfolding write_snapshot bounded_chunks chunks_loop fill
written = refl

read_back : read_snapshot long_chunk two_chunks ≡ ok two_folders
read_back =
    read_snapshot-write_snapshot long_record 40 long_chunk two_folders two_chunks written
      (omega arith) (omega arith)

read_scan_snapshot-write_snapshot_example :
    (s : ScanReader) × ((read_scan_snapshot max_metadata
          (on_wire long_frame (scan_progress 0 0 ∷ two_chunks))
        ≡ ok s)
      × (s.records ≡ two_folders))
read_scan_snapshot-write_snapshot_example =
    read_scan_snapshot-write_snapshot long_record 40 long_frame max_metadata two_folders two_chunks
      written (omega arith) (omega arith) (omega arith) (omega arith)

abbrev scan_frames : List Frame
scan_frames =
    (scan_progress 0 0, 60)
    ∷ (scan_preparing, 30)
    ∷ (scan_progress 5 70, 62)
    ∷ (snapshot_chunk two_folders, 400)
    ∷ (snapshot_end, 20)
    ∷ []

abbrev last_state : ScanReader
last_state = record {
  records = two_folders;
  metadata_bytes = 400;
  control_frames = 3;
  control_bytes = 152;
  prior_progress = some (5, 70);
  scan_started = true;
  snapshot_started = true;
  events = scanning 5 70 ∷ preparing ∷ scanning 0 0 ∷ [];
}

stalled :
    read_scan_snapshot max_metadata ((scan_progress 0 0, 60) ∷ (scan_progress 0 0, 60) ∷ [])
    ≡ err not_advancing
unfolding read_scan_snapshot scan_loop scan_message count_control check_progress
stalled = refl
