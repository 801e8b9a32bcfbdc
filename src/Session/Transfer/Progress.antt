-- ===== src/Session/Transfer/Progress.antt =====
-- src/main.rs: the progress reports that `ApplyProgressValidator` accepts.
use file_local.Prelude.{ℕ, ◌+◌, ◌≡◌, ◌≤◌, ◌<◌, ◌↔◌, refl, List, [], ◌∷◌, length, arith}
use file_local.Prelude.Results.{first_ok, ok}
use file_local.Session.Transfer.{
  ApplyProgressValidator, accept, accept_all, max_apply_frames, max_one_shot_control, new_validator,
}

-- The reports rise from a count on, to the limit at most, and each has a short frame.
abbrev pub Rises : ℕ → ℕ → List (ℕ × ℕ) → Type 0
Rises prior limit [] = Unit {0}
Rises prior limit ((records, frame_bytes) ∷ reports) =
    (prior < records)
    × ((records ≤ limit) × ((frame_bytes ≤ max_one_shot_control) × Rises records limit reports))

abbrev at : ℕ → ℕ → ℕ → ApplyProgressValidator
at records frames limit = record { records = records; frames = frames; record_limit = limit }

accept_iff :
    (records frames limit r n : ℕ) (v : ApplyProgressValidator)
    → accept (at records frames limit) r n ≡ ok v
    → (v ≡ at r (frames + 1) limit)
      × ((records < r)
          × ((r ≤ limit) × ((n ≤ max_one_shot_control) × (frames + 1 ≤ max_apply_frames))))
unfolding accept
accept_iff records frames limit r n v h =
    (ground arith, (ground arith, (ground arith, (ground arith, ground arith))))

accept-ok :
    (records frames limit r n : ℕ)
    → records < r
    → r ≤ limit
    → n ≤ max_one_shot_control
    → frames + 1 ≤ max_apply_frames
    → accept (at records frames limit) r n ≡ ok (at r (frames + 1) limit)
unfolding accept
accept-ok records frames limit r n a b c d = ground arith

accept_all-Rises :
    (records frames limit : ℕ) (reports : List (ℕ × ℕ)) (v : ApplyProgressValidator)
    → frames ≤ max_apply_frames
    → accept_all (at records frames limit) reports ≡ ok v
    → Rises records limit reports × (frames + length reports ≤ max_apply_frames)
unfolding accept_all
accept_all-Rises records frames limit [] v f h = (tt, omega arith)
accept_all-Rises records frames limit ((r, n) ∷ reports) v f h =
    let (v', (e, h')) =
      first_ok (λ v'. accept_all v' reports) (accept (at records frames limit) r n) v h in
    let (same, (a, (b, (c, d)))) = accept_iff records frames limit r n v' e in
    let (rises, few) = accept_all-Rises r (frames + 1) limit reports v d (rw same at h') in
    ((a, (b, (c, rises))), omega (arith, few))

Rises-accept_all :
    (records frames limit : ℕ) (reports : List (ℕ × ℕ))
    → Rises records limit reports
    → frames + length reports ≤ max_apply_frames
    → (v : ApplyProgressValidator) × (accept_all (at records frames limit) reports ≡ ok v)
unfolding accept_all
Rises-accept_all records frames limit [] h f = (at records frames limit, refl)
Rises-accept_all records frames limit ((r, n) ∷ reports) h f =
    let (v, e) = Rises-accept_all r (frames + 1) limit reports h.1.1.1 (omega (arith, f)) in
    (v, rw (accept-ok records frames limit r n h.0 h.1.0 h.1.1.0 (omega (arith, f))) e)

-- The validator accepts just the reports whose counts rise strictly from zero to the number of
-- records at most, in frames of a bounded length and number.
pub accept_all_iff :
    (limit : ℕ) (reports : List (ℕ × ℕ))
    → ((v : ApplyProgressValidator) × (accept_all (new_validator limit) reports ≡ ok v))
      ↔ (Rises 0 limit reports × (length reports ≤ max_apply_frames))
accept_all_iff limit reports = (
  (λ (v, h).
      let (a, b) = accept_all-Rises 0 0 limit reports v (omega arith) h in (a, omega (arith, b))),
  λ (a, b). Rises-accept_all 0 0 limit reports a (omega (arith, b)),
)
