-- ===== src/Sync/Snapshot.antt =====
-- src/sync.rs: the records of one side on the wire: `write_snapshot`, `read_snapshot`, and
-- `read_scan_snapshot_with_metadata_limit`, which also reads the progress of the scan. A reader is
-- the list of the frames that arrive, each with its length; what serde_json makes of a message is a
-- parameter.
pub mod RoundTrip
pub mod Progress
mod Tests
use file_local.Prelude.{
  saturating_add, ℕ, suc, ◌+◌, ◌-◌, ◌*◌, ◌^◌, ◌≡◌, ◌≤◌, ◌<◌, Bool, true, false, not, Option, none,
  some, List, [], ◌∷◌, ◌++◌, ◌||◌, ◌&&◌, length, ltb, leb, ◌==◌, min, map, if◌then◌else◌,
}
use file_local.Prelude.Results.{Result, ok, err, ◌>>=◌, ◌>>◌, guard}
use file_local.Model.{Bytes, Record}
use file_local.Sync.Chunks.{ChunkError, bounded_chunks}

abbrev pub max_records : ℕ
max_records = 1_000_000

abbrev pub max_metadata : ℕ
max_metadata = 256 * 1024 * 1024

abbrev pub max_control_frames : ℕ
max_control_frames = 1024

abbrev pub max_control_bytes : ℕ
max_control_bytes = 64 * 1024

abbrev pub max_progress_bytes : ℕ
max_progress_bytes = 256

abbrev pub max_error_bytes : ℕ
max_error_bytes = 4096

-- The messages that these functions tell apart.
pub data Message : Type 0 where
  scan_progress : (entries bytes_read : ℕ) → Message
  scan_preparing : Message
  error : (message : Bytes) → Message
  snapshot_chunk : (records : List Record) → Message
  snapshot_end : Message
  other : Message

pub data SnapshotError : Type 0 where
  frame_too_long control_exceeded not_from_zero not_advancing no_progress : SnapshotError
  scan_failed : (message : Bytes) → SnapshotError
  metadata_exceeded records_exceeded unexpected disconnected : SnapshotError

pub data ScanProgressEvent : Type 0 where
  preparing : ScanProgressEvent
  scanning : (entries bytes_read : ℕ) → ScanProgressEvent

abbrev pub Frame : Type 0
Frame = Message × ℕ

-- `write_snapshot`: the messages that it writes.
unfoldable pub write_snapshot :
    (Record → Option ℕ) → ℕ → List Record → Result (List Message) ChunkError
write_snapshot encoded_len envelope records = do
  chunks ← bounded_chunks encoded_len records envelope
  ok (map (λ chunk. snapshot_chunk chunk) chunks ++ snapshot_end ∷ [])

-- The loop of `read_snapshot`, with the length of each chunk's records in JSON.
unfoldable pub read_loop :
    (List Record → ℕ) → List Record → ℕ → List Message → Result (List Record) SnapshotError
read_loop chunk_len records metadata [] = err disconnected
read_loop chunk_len records metadata (snapshot_chunk chunk ∷ ms) =
    let total = saturating_add metadata (chunk_len chunk) in
    let rest = read_loop chunk_len (records ++ chunk) total ms in
    if ltb max_metadata total
    then err metadata_exceeded
    else (if ltb max_records (length (records ++ chunk)) then err records_exceeded else rest)
read_loop chunk_len records metadata (snapshot_end ∷ ms) = ok records
read_loop chunk_len records metadata (_ ∷ ms) = err unexpected

unfoldable pub read_snapshot : (List Record → ℕ) → List Message → Result (List Record) SnapshotError
read_snapshot chunk_len ms = read_loop chunk_len [] 0 ms

-- The local variables of `read_scan_snapshot_with_metadata_limit`, and the events that it has
-- reported, the last one first.
pub record ScanReader : Type 0 where
  pub records : List Record
  pub metadata_bytes : ℕ
  pub control_frames : ℕ
  pub control_bytes : ℕ
  pub prior_progress : Option (ℕ × ℕ)
  pub scan_started : Bool
  pub snapshot_started : Bool
  pub events : List ScanProgressEvent

abbrev pub new_reader : ScanReader
new_reader = record {
  records = [];
  metadata_bytes = 0;
  control_frames = 0;
  control_bytes = 0;
  prior_progress = none;
  scan_started = false;
  snapshot_started = false;
  events = [];
}

-- The checks that the three kinds of control frames share.
unfoldable pub count_control : ℕ → ScanReader → ℕ → Result ScanReader SnapshotError
count_control longest s frame_bytes = do
  guard (not (ltb longest frame_bytes)) frame_too_long
  let frames = s.control_frames + 1
  let bytes = saturating_add s.control_bytes frame_bytes
  guard (not (ltb max_control_frames frames || ltb max_control_bytes bytes)) control_exceeded
  ok (record s { control_frames = frames; control_bytes = bytes })

-- The `match prior_progress`.
unfoldable pub check_progress : Option (ℕ × ℕ) → ℕ → ℕ → Result (Unit {0}) SnapshotError
check_progress none entries bytes_read = guard (entries == 0 && bytes_read == 0) not_from_zero
check_progress (some (prior_entries, prior_bytes)) entries bytes_read =
    guard
      (leb prior_entries entries
        && leb prior_bytes bytes_read
        && (ltb prior_entries entries || ltb prior_bytes bytes_read))
      not_advancing

abbrev pub is_start : Option (ℕ × ℕ) → Bool
is_start none = false
is_start (some (entries, bytes_read)) = entries == 0 && bytes_read == 0

abbrev pub is_present : Option (ℕ × ℕ) → Bool
is_present none = false
is_present (some prior) = true

pub data ScanStep : Type 0 where
  continued : ScanReader → ScanStep
  finished : ScanReader → ScanStep

-- The `match` on a message.
unfoldable pub scan_message : ℕ → ScanReader → Message → ℕ → Result ScanStep SnapshotError
scan_message limit s (scan_progress entries bytes_read) n =
    if s.snapshot_started then err unexpected else (do
      s' ← count_control max_progress_bytes s n
      check_progress s.prior_progress entries bytes_read
      ok (
          continued (record s' {
            prior_progress = some (entries, bytes_read);
            scan_started = s.scan_started || not (entries == 0) || not (bytes_read == 0);
            events = scanning entries bytes_read ∷ s.events;
          })))
scan_message limit s scan_preparing n =
    if s.snapshot_started || not (is_start s.prior_progress) || s.scan_started
    then err unexpected
    else (do
      s' ← count_control max_progress_bytes s n
      ok (continued (record s' { events = preparing ∷ s.events })))
scan_message limit s (error message) n = if s.snapshot_started then err unexpected else (do
  s' ← count_control max_error_bytes s n
  guard (is_present s.prior_progress) no_progress
  err (scan_failed message))
scan_message limit s (snapshot_chunk chunk) n =
    if not (is_present s.prior_progress) then err unexpected else (do
      let total = saturating_add s.metadata_bytes n
      guard (not (ltb limit total)) metadata_exceeded
      ok (
          continued (record s {
            snapshot_started = true;
            metadata_bytes = total;
            records = s.records ++ chunk;
          })))
scan_message limit s snapshot_end n =
    if not (is_present s.prior_progress) then err unexpected else ok (finished s)
scan_message limit s other n = err unexpected

-- The loop; its result is the last state, which has the records and the events.
unfoldable pub scan_loop : ℕ → ScanReader → List Frame → Result ScanReader SnapshotError
scan_loop limit s [] = err disconnected
scan_loop limit s ((m, n) ∷ frames) = do
  step ← scan_message limit s m n
  elim step [
    | finished s' ↦ ok s'
    | continued s' ↦
        if ltb max_records (length s'.records)
        then err records_exceeded
        else scan_loop limit s' frames
  ]

unfoldable pub read_scan_snapshot : ℕ → List Frame → Result ScanReader SnapshotError
read_scan_snapshot limit frames = scan_loop limit new_reader frames
