-- ===== src/Sync/Snapshot/Progress.antt =====
-- src/sync.rs: what a scan that `read_scan_snapshot_with_metadata_limit` accepts has reported.
use file_local.Prelude.{
  ℕ, ◌+◌, ◌≡◌, ◌≤◌, ◌<◌, true, Option, none, some, List, [], ◌∷◌, length, ltb, if◌then◌else◌,
}
use file_local.Prelude.Results.{Result, ok, err}
use file_local.Sync.Snapshot.{
  Frame, ScanProgressEvent, ScanReader, ScanStep, SnapshotError, continued, finished, is_present,
  max_control_frames, max_records, records_exceeded, preparing, scan_loop, scanning,
}

-- The counters start at zero, and each report is ahead of the one before.
abbrev pub Follows : Option (ℕ × ℕ) → ℕ → ℕ → Type 0
Follows none entries bytes_read = (entries ≡ 0) × (bytes_read ≡ 0)
Follows (some (e, b)) entries bytes_read =
    (e ≤ entries) × ((b ≤ bytes_read) × (e + b < entries + bytes_read))

-- The events of a scan, the last one first, with the counters of the last report: preparations
-- stand between the first report and the second.
abbrev pub IsScan : List ScanProgressEvent → Option (ℕ × ℕ) → Type 0
IsScan [] last = last ≡ none
IsScan (preparing ∷ events) last = (last ≡ some (0, 0)) × IsScan events last
IsScan (scanning entries bytes_read ∷ events) last =
    (last ≡ some (entries, bytes_read))
    × ((prior : Option (ℕ × ℕ)) × (IsScan events prior × Follows prior entries bytes_read))

-- Between two frames.
pub record IsWithin (s : ScanReader) : Type 0 where
  pub few_records : length s.records ≤ max_records
  pub few_frames : length s.events ≤ max_control_frames
  pub in_step : length s.events ≤ s.control_frames
  pub is_scan : IsScan s.events s.prior_progress
  pub reports_first : s.snapshot_started ≡ true → is_present s.prior_progress ≡ true

-- The snapshot starts after a report.
abbrev ReportsFirst : ScanReader → Type 0
ReportsFirst s = s.snapshot_started ≡ true → is_present s.prior_progress ≡ true

-- The invariant of a step, with the records that are checked after it.
abbrev Steps : ScanReader → ScanReader → Type 0
Steps s t =
    (length t.events ≤ max_control_frames)
    × ((length t.events ≤ t.control_frames) × (IsScan t.events t.prior_progress × ReportsFirst t))

-- At the end of the snapshot.
abbrev IsReported : ScanReader → Type 0
IsReported s = IsWithin s × ((last : ℕ × ℕ) × (s.prior_progress ≡ some last))

-- The events after a control frame that was counted.
abbrev Counted : ScanReader → ScanReader → Type 0
Counted s t = (t.control_frames ≡ s.control_frames + 1) × (t.control_frames ≤ max_control_frames)

module _ (limit : ℕ) where
  abbrev continue_with : List Frame → ScanStep → Result ScanReader SnapshotError
  continue_with frames step = elim step [
    | finished s' ↦ ok s'
    | continued s' ↦
        if ltb max_records (length s'.records)
        then err records_exceeded
        else scan_loop limit s' frames
  ]
