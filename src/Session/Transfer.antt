-- ===== src/Session/Transfer.antt =====
-- src/main.rs: the receipts of a transfer of objects and the progress of an installation.
pub mod Batches
pub mod Progress
use file_local.Prelude.{
  saturating_add, ℕ, suc, ◌+◌, ◌-◌, ◌*◌, ◌^◌, Bool, true, false, not, List, [], ◌∷◌, ◌||◌, ◌&&◌,
  length, ltb, leb, ◌==◌, min, if◌then◌else◌,
}
use file_local.Prelude.Results.{Result, ok, err, ◌>>=◌, ◌>>◌, guard}
use file_local.Model.{Bytes}

abbrev pub batch_objects : ℕ
batch_objects = 1024

abbrev pub batch_limit : ℕ
batch_limit = 16 * 1024 * 1024

abbrev pub max_receipts : ℕ
max_receipts = 2048

abbrev pub max_apply_frames : ℕ
max_apply_frames = 1024

abbrev pub max_one_shot_control : ℕ
max_one_shot_control = 256

abbrev pub max_one_shot_error : ℕ
max_one_shot_error = 4096

-- A hash and a declared size.
abbrev pub Object : Type 0
Object = Bytes × ℕ

-- The batch that started at `start` ends before the object at `index`.
unfoldable pub is_cut : ℕ → ℕ → ℕ → ℕ → Bool
is_cut index start bytes size =
    ltb start index
    && (index - start == batch_objects || ltb batch_limit (saturating_add bytes size))

-- The loop of `transfer_batch_ends`, with the index and the start and the bytes of the batch; the
-- list is what it pushes from there on.
unfoldable pub ends_loop : ℕ → ℕ → ℕ → List Object → List ℕ
ends_loop index start bytes [] = if ltb start index then index ∷ [] else []
ends_loop index start bytes ((hash, size) ∷ objects) =
    let cut = is_cut index start bytes size in
    let start' = if cut then index else start in
    let bytes' = saturating_add (if cut then 0 else bytes) size in
    let rest = ends_loop (suc index) start' bytes' objects in if cut then index ∷ rest else rest

pub data TransferError : Type 0 where
  too_many_receipts remote_failed invalid_receipt : TransferError

unfoldable pub transfer_batch_ends : List Object → Result (List ℕ) TransferError
transfer_batch_ends objects = do
  let ends = ends_loop 0 0 0 objects
  guard (not (ltb max_receipts (length ends))) too_many_receipts
  ok ends

-- The messages that a receipt is told apart from.
pub data ReceiptMessage : Type 0 where
  transfer_receipt : (objects bytes : ℕ) → ReceiptMessage
  error : (message : Bytes) → ReceiptMessage
  other : ReceiptMessage

unfoldable pub validate_transfer_receipt : ReceiptMessage → ℕ → ℕ → ℕ → Result (ℕ × ℕ) TransferError
validate_transfer_receipt (transfer_receipt objects bytes) frame_bytes expected_objects
      expected_bytes =
    if leb frame_bytes max_one_shot_control
      && objects == expected_objects
      && bytes == expected_bytes
    then ok (objects, bytes)
    else err invalid_receipt
validate_transfer_receipt (error message) frame_bytes expected_objects expected_bytes =
    if leb frame_bytes max_one_shot_error then err remote_failed else err invalid_receipt
validate_transfer_receipt other frame_bytes expected_objects expected_bytes = err invalid_receipt

pub record ApplyProgressValidator : Type 0 where
  pub records : ℕ
  pub frames : ℕ
  pub record_limit : ℕ

abbrev pub new_validator : ℕ → ApplyProgressValidator
new_validator record_limit = record { records = 0; frames = 0; record_limit = record_limit }

pub data ProgressError : Type 0 where
  too_long out_of_sequence too_many_frames : ProgressError

-- The last value of `self` on an error is of no use, and the session ends.
unfoldable pub accept : ApplyProgressValidator → ℕ → ℕ → Result ApplyProgressValidator ProgressError
accept v records frame_bytes = do
  guard (not (ltb max_one_shot_control frame_bytes)) too_long
  guard (not (records == 0 || leb records v.records || ltb v.record_limit records)) out_of_sequence
  guard (not (ltb max_apply_frames (v.frames + 1))) too_many_frames
  ok (record v { frames = v.frames + 1; records = records })

-- The reports of an installation, each with the length of its frame.
unfoldable pub accept_all :
    ApplyProgressValidator → List (ℕ × ℕ) → Result ApplyProgressValidator ProgressError
accept_all v [] = ok v
accept_all v ((records, frame_bytes) ∷ reports) = do
  v' ← accept v records frame_bytes
  accept_all v' reports
