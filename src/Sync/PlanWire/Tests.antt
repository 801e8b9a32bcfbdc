-- ===== src/Sync/PlanWire/Tests.antt =====
-- Runs of the plan on the wire, and its theorem at concrete data.
use file_local.Prelude.{ℕ, ◌≡◌, refl, Option, none, some, List, [], ◌∷◌, arith}
use file_local.Prelude.Order.{pos}
use file_local.Prelude.Results.{ok, err}
use file_local.Model.{Record, directory}
use file_local.Reconcile.{Conflict, MergeCandidate, Plan}
use file_local.Sync.Chunks.{bounded_chunks, chunks_loop, fill}
use file_local.Sync.PlanWire.{
  PlanMessage, apply_chunk, apply_end, collect_plan, plan_metadata_exceeded, write_conflict_chunks,
  write_merge_chunks, write_plan, write_record_chunks,
}
use file_local.Sync.PlanWire.RoundTrip.{collect_plan-write_plan}

abbrev folder : ℕ → Record
folder p = record {
  path = p ∷ [];
  version = record {
    peer = b'a' ∷ [];
    sequence = p;
    id_authenticator = none;
    timestamp_ns = pos 1;
    seen = [];
    merge_base = none;
    version_authenticator = none;
    base_authenticator = none;
    entry = directory;
  };
}

-- Records so long that a frame holds one of them.
abbrev long_record : Record → Option ℕ
long_record r = some 2_000_000

abbrev conflict_len : Conflict → Option ℕ
conflict_len c = some 500

abbrev merge_len : MergeCandidate → Option ℕ
merge_len c = some 500

abbrev part_len : List Record → List Conflict → List MergeCandidate → ℕ
part_len rs cs ms = 2_000_050

abbrev two_folders : Plan
two_folders = record { records = folder 1 ∷ folder 2 ∷ []; conflicts = []; merges = [] }

abbrev no_plan : Plan
no_plan = record { records = []; conflicts = []; merges = [] }

abbrev two_chunks : List PlanMessage
two_chunks = apply_chunk (folder 1 ∷ []) [] [] ∷ apply_chunk (folder 2 ∷ []) [] [] ∷ apply_end ∷ []

written_in_two : write_plan long_record conflict_len merge_len 60 two_folders ≡ ok two_chunks
unfolding write_plan write_record_chunks write_conflict_chunks write_merge_chunks bounded_chunks
    chunks_loop fill
written_in_two = refl

too_long : collect_plan (λ rs cs ms. 300_000_000) no_plan 0 two_chunks ≡ err plan_metadata_exceeded
unfolding collect_plan
too_long = refl

collect_plan-write_plan_example : collect_plan part_len no_plan 700 two_chunks ≡ ok two_folders
collect_plan-write_plan_example =
    collect_plan-write_plan long_record conflict_len merge_len 60 part_len two_folders 700
      two_chunks written_in_two (omega arith)
      (record { few_records = omega arith; few_conflicts = omega arith; few_merges = omega arith })
