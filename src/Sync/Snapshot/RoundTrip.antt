-- ===== src/Sync/Snapshot/RoundTrip.antt =====
-- src/sync.rs: what `write_snapshot` writes is what the two readers read.
use mathlib.Core.List.{append_assoc, append-nil}
use file_local.Prelude.{
  saturating_add, ℕ, ◌+◌, ◌^◌, ◌≡◌, ◌≤◌, ◌<◌, refl, sym, ◌∙◌, ap, subst, true, false, Option, some,
  List, [], ◌∷◌, ◌++◌, length, length-append, map, arith, ltb,
}
use file_local.Prelude.Results.{Result, ok, err, ◌>>=◌}
use file_local.Model.{Record}
use file_local.Sync.Chunks.{ChunkError, IsChunked, bounded_chunks, bounded_chunks-IsChunked, concat}
use file_local.Sync.Snapshot.{
  Frame, Message, ScanReader, check_progress, count_control, is_present, max_metadata,
  max_progress_bytes, max_records, max_control_bytes, new_reader, scanning, read_loop,
  read_scan_snapshot, read_snapshot, scan_loop, scan_message, scan_progress, snapshot_chunk,
  snapshot_end, write_snapshot,
}

abbrev pub chunk_messages : List (List Record) → List Message
chunk_messages chunks = map (λ chunk. snapshot_chunk chunk) chunks ++ snapshot_end ∷ []

-- The sum over the chunks.
abbrev pub total : (List Record → ℕ) → List (List Record) → ℕ
total len [] = 0
total len (c ∷ cs) = len c + total len cs

-- The same sum over the messages.
abbrev pub chunk_total : (List Record → ℕ) → List Message → ℕ
chunk_total len [] = 0
chunk_total len (snapshot_chunk chunk ∷ ms) = len chunk + chunk_total len ms
chunk_total len (_ ∷ ms) = chunk_total len ms

total-chunk_messages :
    (len : List Record → ℕ) (chunks : List (List Record))
    → total len chunks ≡ chunk_total len (chunk_messages chunks)
total-chunk_messages len [] = refl
total-chunk_messages len (c ∷ cs) = ap (λ (n : ℕ). len c + n) (total-chunk_messages len cs)

-- A message with the length of its frame.
abbrev pub on_wire : (Message → ℕ) → List Message → List Frame
on_wire frame_bytes [] = []
on_wire frame_bytes (m ∷ ms) = (m, frame_bytes m) ∷ on_wire frame_bytes ms

module _ (encoded_len : Record → Option ℕ) (envelope : ℕ) where
  of_result :
      (records : List Record) (ms : List Message) (r : Result (List (List Record)) ChunkError)
      → IsChunked encoded_len envelope records r
      → (r >>= λ chunks. ok (chunk_messages chunks)) ≡ ok ms
      → (chunks : List (List Record)) × ((concat encoded_len chunks ≡ records)
          × (chunk_messages chunks ≡ ms))
  of_result records ms (ok chunks) c h = (chunks, (c.0, same_ok h))
    where
      same_ok :
          ◌≡◌ {A = Result (List Message) ChunkError} (ok (chunk_messages chunks)) (ok ms)
          → chunk_messages chunks ≡ ms
      same_ok k = cc
  of_result records ms (err e) c h = cc

  -- What `write_snapshot` writes are chunks that make up the records.
  write_snapshot-chunks :
      (records : List Record) (ms : List Message)
      → write_snapshot encoded_len envelope records ≡ ok ms
      → (chunks : List (List Record)) × ((concat encoded_len chunks ≡ records)
          × (chunk_messages chunks ≡ ms))
  unfolding write_snapshot
  write_snapshot-chunks records ms h =
      of_result records ms (bounded_chunks encoded_len records envelope)
        (bounded_chunks-IsChunked encoded_len records envelope) h

  read_loop-chunks :
      (len : List Record → ℕ) (records : List Record) (metadata : ℕ) (chunks : List (List Record))
      → metadata + total len chunks ≤ max_metadata
      → length (records ++ concat encoded_len chunks) ≤ max_records
      → read_loop len records metadata (chunk_messages chunks)
        ≡ ok (records ++ concat encoded_len chunks)
  unfolding read_loop
  read_loop-chunks len records metadata [] m n = ap ok (sym (append-nil records))
  read_loop-chunks len records metadata (c ∷ cs) m n =
      let regrouped = append_assoc records c (concat encoded_len cs) in
      let n' : length ((records ++ c) ++ concat encoded_len cs) ≤ max_records = rw regrouped n in
      let short : length (records ++ c) ≤ max_records =
        omega (arith, n', length-append (records ++ c) (concat encoded_len cs)) in
      let light : metadata + len c ≤ max_metadata = omega (arith, m) in
      let same : saturating_add metadata (len c) ≡ metadata + len c = ground (arith, light) in
      let m' : saturating_add metadata (len c) + total len cs ≤ max_metadata =
        omega (arith, m, same) in
      let ih = read_loop-chunks len (records ++ c) (saturating_add metadata (len c)) cs m' n' in
      ground (arith, ih, regrouped, short, light)

  -- `read_snapshot` returns the records that `write_snapshot` has written, within the limits of a
  -- session.
  pub read_snapshot-write_snapshot :
      (len : List Record → ℕ) (records : List Record) (ms : List Message)
      → write_snapshot encoded_len envelope records ≡ ok ms
      → chunk_total len ms ≤ max_metadata
      → length records ≤ max_records
      → read_snapshot len ms ≡ ok records
  unfolding read_snapshot
  read_snapshot-write_snapshot len records ms h light short =
      let (chunks, (e, f)) = write_snapshot-chunks records ms h in
      let m : 0 + total len chunks ≤ max_metadata =
        rw (total-chunk_messages len chunks, f) (omega (arith, light)) in
      subst (λ k. read_loop len [] 0 k ≡ ok records) f
        (read_loop-chunks len [] 0 chunks m (rw e short) ∙ ap ok e)

  -- The chunks, to a reader that has seen the start of the scan.
  scan_loop-chunks :
      (frame_bytes : Message → ℕ) (limit : ℕ) (s : ScanReader) (chunks : List (List Record))
      → limit < 2 ^ 64
      → is_present s.prior_progress ≡ true
      → s.metadata_bytes + total (λ c. frame_bytes (snapshot_chunk c)) chunks ≤ limit
      → length (s.records ++ concat encoded_len chunks) ≤ max_records
      → (s' : ScanReader) × ((scan_loop limit s (on_wire frame_bytes (chunk_messages chunks))
            ≡ ok s')
          × (s'.records ≡ s.records ++ concat encoded_len chunks))
  unfolding scan_loop scan_message
  scan_loop-chunks frame_bytes limit s [] w p m n = (s, (rw p refl, sym (append-nil s.records)))
  scan_loop-chunks frame_bytes limit s (c ∷ cs) w p m n =
      let regrouped = append_assoc s.records c (concat encoded_len cs) in
      let n' : length ((s.records ++ c) ++ concat encoded_len cs) ≤ max_records = rw regrouped n in
      let short : length (s.records ++ c) ≤ max_records =
        omega (arith, n', length-append (s.records ++ c) (concat encoded_len cs)) in
      let bytes = frame_bytes (snapshot_chunk c) in
      let light : s.metadata_bytes + bytes ≤ limit = omega (arith, m) in
      let same : saturating_add s.metadata_bytes bytes ≡ s.metadata_bytes + bytes =
        ground (arith, light, w) in
      let next : ScanReader = record s {
        snapshot_started = true;
        metadata_bytes = saturating_add s.metadata_bytes bytes;
        records = s.records ++ c;
      } in
      let (s', (e, f)) =
        scan_loop-chunks frame_bytes limit next cs w p (omega (arith, m, same)) n' in
      let not_over : ltb limit (saturating_add s.metadata_bytes bytes) ≡ false =
        ground (arith, same, light) in
      let not_long : ltb max_records (length (s.records ++ c)) ≡ false = ground (arith, short) in
      (s', (rw (p, not_over, not_long) e, f ∙ regrouped))

  abbrev started : ℕ → ScanReader
  started n = record new_reader {
    control_frames = 1;
    control_bytes = saturating_add 0 n;
    prior_progress = some (0, 0);
    events = scanning 0 0 ∷ [];
  }

  after_start :
      (frame_bytes : Message → ℕ) (limit : ℕ) (ms : List Message) (s : ScanReader)
      → ltb max_progress_bytes (frame_bytes (scan_progress 0 0)) ≡ false
      → ltb max_control_bytes (saturating_add 0 (frame_bytes (scan_progress 0 0))) ≡ false
      → scan_loop limit (started (frame_bytes (scan_progress 0 0))) (on_wire frame_bytes ms) ≡ ok s
      → scan_loop limit new_reader (on_wire frame_bytes (scan_progress 0 0 ∷ ms)) ≡ ok s
  unfolding scan_loop scan_message count_control check_progress
  after_start frame_bytes limit ms s a b g = rw (a, b) g

  -- `read_scan_snapshot` returns the records that `write_snapshot` has written after the first
  -- progress frame, within the limits of a session.
  pub read_scan_snapshot-write_snapshot :
      (frame_bytes : Message → ℕ) (limit : ℕ) (records : List Record) (ms : List Message)
      → write_snapshot encoded_len envelope records ≡ ok ms
      → limit < 2 ^ 64
      → frame_bytes (scan_progress 0 0) ≤ max_progress_bytes
      → chunk_total (λ c. frame_bytes (snapshot_chunk c)) ms ≤ limit
      → length records ≤ max_records
      → (s : ScanReader) × ((read_scan_snapshot limit (on_wire frame_bytes (scan_progress 0 0 ∷ ms))
            ≡ ok s)
          × (s.records ≡ records))
  unfolding read_scan_snapshot
  read_scan_snapshot-write_snapshot frame_bytes limit records ms h w first light short =
      let (chunks, (e, f)) = write_snapshot-chunks records ms h in
      let len : List Record → ℕ = λ c. frame_bytes (snapshot_chunk c) in
      let m : 0 + total len chunks ≤ limit =
        rw (total-chunk_messages len chunks, f) (omega (arith, light)) in
      let (s, (g, k)) =
        scan_loop-chunks frame_bytes limit (started (frame_bytes (scan_progress 0 0))) chunks w refl
          m (rw e short) in
      let fits : ltb max_progress_bytes (frame_bytes (scan_progress 0 0)) ≡ false =
        ground (arith, first) in
      let fits' : ltb max_control_bytes (saturating_add 0 (frame_bytes (scan_progress 0 0)))
          ≡ false =
        ground (arith, first) in
      (
        s,
        (
          subst
              (λ q. scan_loop limit new_reader (on_wire frame_bytes (scan_progress 0 0 ∷ q)) ≡ ok s)
              f (after_start frame_bytes limit (chunk_messages chunks) s fits fits' g),
          k ∙ e,
        ),
      )
