-- ===== src/Sync/Tests.antt =====
-- Runs of the operations of src/sync.rs, and their theorems at concrete data.
use file_local.Prelude.{◌≡◌, refl, ℕ, Option, some, [], ◌∷◌}
use file_local.Prelude.Results.{ok, err}
use file_local.Sync.Chunks.{
  IsChunked, bounded_chunks, bounded_chunks-IsChunked, chunks_loop, fill, too_large,
}

-- Items that are as long as they say.
abbrev own_len : ℕ → Option ℕ
own_len n = some n

two_frames :
    bounded_chunks own_len (1_000_000 ∷ 1_000_000 ∷ 1_000_000 ∷ []) 40
    ≡ ok ((1_000_000 ∷ 1_000_000 ∷ []) ∷ (1_000_000 ∷ []) ∷ [])
unfolding bounded_chunks chunks_loop fill
two_frames = refl

oversized : bounded_chunks own_len (3 ∷ 2_100_000 ∷ []) 40 ≡ err too_large
unfolding bounded_chunks chunks_loop fill
oversized = refl

bounded_chunks-IsChunked_example :
    IsChunked own_len 40 (3 ∷ 4 ∷ []) (bounded_chunks own_len (3 ∷ 4 ∷ []) 40)
bounded_chunks-IsChunked_example = bounded_chunks-IsChunked own_len (3 ∷ 4 ∷ []) 40
