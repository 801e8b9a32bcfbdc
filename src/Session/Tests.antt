-- ===== src/Session/Tests.antt =====
-- Runs of the operations of src/main.rs, and their theorems at concrete data.
use file_local.Prelude.{ℕ, ◌≡◌, ◌≤◌, ◌↔◌, refl, List, [], ◌∷◌, length}
use file_local.Prelude.Results.{ok, err}
use file_local.Session.Transfer.{
  ApplyProgressValidator, Object, accept, accept_all, max_apply_frames, new_validator,
  out_of_sequence,
}
use file_local.Session.Transfer.Progress.{Rises, accept_all_iff}

-- The second object does not fit beside the first, and the third is too large for any batch.
abbrev objects : List Object
objects =
    (1 ∷ [], 10_000_000)
    ∷ (2 ∷ [], 9_000_000)
    ∷ (3 ∷ [], 20_000_000)
    ∷ (4 ∷ [], 5)
    ∷ (5 ∷ [], 6)
    ∷ []

repeated_report : accept_all (new_validator 9) ((4, 50) ∷ (4, 50) ∷ []) ≡ err out_of_sequence
unfolding accept_all accept
repeated_report = refl

abbrev reports : List (ℕ × ℕ)
reports = (4, 50) ∷ (9, 50) ∷ []

accept_all_iff_example :
    ((v : ApplyProgressValidator) × (accept_all (new_validator 9) reports ≡ ok v))
    ↔ (Rises 0 9 reports × (length reports ≤ max_apply_frames))
accept_all_iff_example = accept_all_iff 9 reports
