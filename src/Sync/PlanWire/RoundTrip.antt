-- ===== src/Sync/PlanWire/RoundTrip.antt =====
-- src/sync.rs and src/main.rs: the plan that is collected is the plan that was written.
use mathlib.Core.List.{append_assoc, append-nil}
use file_local.Prelude.{
  ℕ, ◌+◌, ◌≡◌, ◌≤◌, refl, sym, ◌∙◌, ap, subst, false, Option, List, [], ◌∷◌, ◌++◌, length,
  length-append, map, arith, ltb, saturating_add,
}
use file_local.Prelude.Results.{Result, ok, err, ◌>>=◌, eq_of_ok, first_ok}
use file_local.Model.{Record}
use file_local.Reconcile.{Conflict, MergeCandidate, Plan}
use file_local.Sync.Chunks.{ChunkError, IsChunked, bounded_chunks, bounded_chunks-IsChunked, concat}
use file_local.Sync.Snapshot.{max_metadata, max_records}
use file_local.Sync.PlanWire.{
  PlanMessage, apply_chunk, apply_end, collect_plan, exceeds, write_conflict_chunks,
  write_merge_chunks, write_plan, write_record_chunks,
}

abbrev plan_of : List Record → List Conflict → List MergeCandidate → Plan
plan_of rs cs ms = record { records = rs; conflicts = cs; merges = ms }

abbrev pub with_message : Plan → PlanMessage → Plan
with_message plan (apply_chunk rs cs ms) = record {
  records = plan.records ++ rs;
  conflicts = plan.conflicts ++ cs;
  merges = plan.merges ++ ms;
}
with_message plan apply_end = plan

-- The pending plan after some messages.
abbrev pub with_messages : Plan → List PlanMessage → Plan
with_messages plan [] = plan
with_messages plan (m ∷ ms) = with_messages (with_message plan m) ms

module _ (len : List Record → List Conflict → List MergeCandidate → ℕ) where
  abbrev pub message_total : List PlanMessage → ℕ
  message_total [] = 0
  message_total (apply_chunk rs cs ms ∷ rest) = len rs cs ms + message_total rest
  message_total (apply_end ∷ rest) = message_total rest

-- The plan stays within the limits of a session.
pub record IsShort (plan : Plan) : Type 0 where
  pub few_records : length plan.records ≤ max_records
  pub few_conflicts : length plan.conflicts ≤ max_records
  pub few_merges : length plan.merges ≤ max_records

IsShort-before : (plan : Plan) (m : PlanMessage) → IsShort (with_message plan m) → IsShort plan
IsShort-before plan (apply_chunk rs cs ms) s = record {
  few_records = omega (arith, s.few_records, length-append plan.records rs);
  few_conflicts = omega (arith, s.few_conflicts, length-append plan.conflicts cs);
  few_merges = omega (arith, s.few_merges, length-append plan.merges ms);
}
IsShort-before plan apply_end s = s

IsShort-first :
    (plan : Plan) (ms : List PlanMessage) → IsShort (with_messages plan ms) → IsShort plan
IsShort-first plan [] s = s
IsShort-first plan (m ∷ ms) s = IsShort-before plan m (IsShort-first (with_message plan m) ms s)

unexceeded :
    {A : Type 0} (xs ys : List A)
    → length (xs ++ ys) ≤ max_records
    → exceeds (length xs) (length ys) ≡ false
unexceeded xs ys h = ground (arith, h, length-append xs ys)

-- All of the messages are chunks.
abbrev AreChunks : List PlanMessage → Type 0
AreChunks [] = Unit {0}
AreChunks (apply_chunk rs cs ms ∷ rest) = AreChunks rest
AreChunks (apply_end ∷ rest) = ⊥

AreChunks-append : (xs ys : List PlanMessage) → AreChunks xs → AreChunks ys → AreChunks (xs ++ ys)
AreChunks-append [] ys a b = b
AreChunks-append (apply_chunk rs cs ms ∷ xs) ys a b = AreChunks-append xs ys a b
AreChunks-append (apply_end ∷ xs) ys a b = absurd a

with_messages-append :
    (plan : Plan) (xs ys : List PlanMessage)
    → with_messages plan (xs ++ ys) ≡ with_messages (with_messages plan xs) ys
with_messages-append plan [] ys = refl
with_messages-append plan (m ∷ xs) ys = with_messages-append (with_message plan m) xs ys

module _ (len : List Record → List Conflict → List MergeCandidate → ℕ) where
  collect_plan-messages :
      (pending : Plan) (metadata : ℕ) (ms : List PlanMessage)
      → AreChunks ms
      → metadata + message_total len ms ≤ max_metadata
      → IsShort (with_messages pending ms)
      → collect_plan len pending metadata (ms ++ apply_end ∷ []) ≡ ok (with_messages pending ms)
  unfolding collect_plan
  collect_plan-messages pending metadata [] chunks light s = refl
  collect_plan-messages pending metadata (apply_end ∷ ms) chunks light s = absurd chunks
  collect_plan-messages pending metadata (apply_chunk rs cs cands ∷ ms) chunks light s =
      let now : IsShort (with_message pending (apply_chunk rs cs cands)) =
        IsShort-first (with_message pending (apply_chunk rs cs cands)) ms s in
      let fits : metadata + len rs cs cands ≤ max_metadata = omega (arith, light) in
      let same : saturating_add metadata (len rs cs cands) ≡ metadata + len rs cs cands =
        ground (arith, fits) in
      let not_over : ltb max_metadata (saturating_add metadata (len rs cs cands)) ≡ false =
        ground (arith, fits) in
      rw
        (
          not_over,
          unexceeded pending.records rs now.few_records,
          unexceeded pending.conflicts cs now.few_conflicts,
          unexceeded pending.merges cands now.few_merges,
        )
        (collect_plan-messages (with_message pending (apply_chunk rs cs cands))
          (saturating_add metadata (len rs cs cands)) ms chunks (omega (arith, light, same)) s)

plan_eq :
    (rs rs' : List Record) (cs cs' : List Conflict) (ms ms' : List MergeCandidate)
    → rs ≡ rs'
    → cs ≡ cs'
    → ms ≡ ms'
    → plan_of rs cs ms ≡ plan_of rs' cs' ms'
plan_eq rs rs' cs cs' ms ms' a b c = cc (a, b, c)

module _ {A : Type 0} (encoded_len : A → Option ℕ) (envelope : ℕ)
    (message : List A → PlanMessage) where
  of_chunks :
      (items : List A) (r : Result (List (List A)) ChunkError) (chunks : List (List A))
      → IsChunked encoded_len envelope items r
      → r ≡ ok chunks
      → concat encoded_len chunks ≡ items
  of_chunks items (ok cs) chunks c h =
      subst (λ k. concat encoded_len k ≡ items) (eq_of_ok cs chunks h) c.0
  of_chunks items (err e) chunks c h = cc

  -- What each of the three writers writes are chunks that make up its items.
  written :
      (items : List A) (ms : List PlanMessage)
      → (bounded_chunks encoded_len items envelope >>= λ chunks. ok (map message chunks)) ≡ ok ms
      → (chunks : List (List A)) × ((concat encoded_len chunks ≡ items) × (map message chunks ≡ ms))
  written items ms h =
      let (chunks, (e, f)) =
        first_ok (λ chunks. ok (map message chunks)) (bounded_chunks encoded_len items envelope) ms
          h in
      (
        chunks,
        (
          of_chunks items (bounded_chunks encoded_len items envelope) chunks
              (bounded_chunks-IsChunked encoded_len items envelope) e,
          eq_of_ok (map message chunks) ms f,
        ),
      )

  -- If each message adds its chunk, and no more, to a part of the plan, all of them add the items.
  with_messages-all :
      (set : Plan → List A → Plan)
      → ((plan : Plan) → set plan [] ≡ plan)
      → ((plan : Plan) (c d : List A) → set (with_message plan (message c)) d ≡ set plan (c ++ d))
      → (plan : Plan) (chunks : List (List A))
      → with_messages plan (map message chunks) ≡ set plan (concat encoded_len chunks)
  with_messages-all set none_added more plan [] = sym (none_added plan)
  with_messages-all set none_added more plan (c ∷ cs) =
      with_messages-all set none_added more (with_message plan (message c)) cs
      ∙ more plan c (concat encoded_len cs)

  map-AreChunks :
      ((c : List A) → AreChunks (message c ∷ []))
      → (chunks : List (List A)) → AreChunks (map message chunks)
  map-AreChunks h [] = tt
  map-AreChunks h (c ∷ cs) =
      AreChunks-append (message c ∷ []) (map message cs) (h c) (map-AreChunks h cs)

regroup :
    (a b c : List PlanMessage)
    → (a ++ (b ++ c)) ++ apply_end ∷ [] ≡ a ++ (b ++ (c ++ apply_end ∷ []))
regroup a b c =
    append_assoc a (b ++ c) (apply_end ∷ [])
    ∙ ap (λ (k : List PlanMessage). a ++ k) (append_assoc b c (apply_end ∷ []))

cc_all :
    (a b c x y z : List PlanMessage)
    → x ≡ a
    → y ≡ b
    → z ≡ c
    → x ++ (y ++ (z ++ apply_end ∷ [])) ≡ a ++ (b ++ (c ++ apply_end ∷ []))
cc_all a b c x y z e f g = cc (e, f, g)

message_total_end :
    (len : List Record → List Conflict → List MergeCandidate → ℕ) (ms : List PlanMessage)
    → message_total len ms ≡ message_total len (ms ++ apply_end ∷ [])
message_total_end len [] = refl
message_total_end len (apply_chunk rs cs ms ∷ rest) =
    ap (λ (n : ℕ). len rs cs ms + n) (message_total_end len rest)
message_total_end len (apply_end ∷ rest) = message_total_end len rest

abbrev add_records : Plan → List Record → Plan
add_records plan rs = plan_of (plan.records ++ rs) plan.conflicts plan.merges

abbrev add_conflicts : Plan → List Conflict → Plan
add_conflicts plan cs = plan_of plan.records (plan.conflicts ++ cs) plan.merges

abbrev add_merges : Plan → List MergeCandidate → Plan
add_merges plan ms = plan_of plan.records plan.conflicts (plan.merges ++ ms)

module _ (record_len : Record → Option ℕ) (conflict_len : Conflict → Option ℕ)
    (merge_len : MergeCandidate → Option ℕ) (envelope : ℕ) where
  abbrev rec : List Record → PlanMessage
  rec c = apply_chunk c [] []

  abbrev con : List Conflict → PlanMessage
  con c = apply_chunk [] c []

  abbrev mer : List MergeCandidate → PlanMessage
  mer c = apply_chunk [] [] c

  assembled :
      (rc : List (List Record)) (kc : List (List Conflict)) (mc : List (List MergeCandidate))
      → with_messages (plan_of [] [] []) (map rec rc ++ (map con kc ++ map mer mc))
        ≡ plan_of (concat record_len rc) (concat conflict_len kc) (concat merge_len mc)
  assembled rc kc mc =
      with_messages-append (plan_of [] [] []) (map rec rc) (map con kc ++ map mer mc)
      ∙ ap (λ p. with_messages p (map con kc ++ map mer mc))
          (with_messages-all record_len envelope rec add_records
            (λ p. plan_eq _ _ _ _ _ _ (append-nil p.records) refl refl)
            (λ p c d.
              plan_eq _ _ _ _ _ _ (append_assoc p.records c d) (append-nil p.conflicts)
                (append-nil p.merges))
            (plan_of [] [] []) rc)
      ∙ with_messages-append (plan_of (concat record_len rc) [] []) (map con kc) (map mer mc)
      ∙ ap (λ p. with_messages p (map mer mc))
          (with_messages-all conflict_len envelope con add_conflicts
            (λ p. plan_eq _ _ _ _ _ _ refl (append-nil p.conflicts) refl)
            (λ p c d.
              plan_eq _ _ _ _ _ _ (append-nil p.records) (append_assoc p.conflicts c d)
                (append-nil p.merges))
            (plan_of (concat record_len rc) [] []) kc)
      ∙ with_messages-all merge_len envelope mer add_merges
          (λ p. plan_eq _ _ _ _ _ _ refl refl (append-nil p.merges))
          (λ p c d.
            plan_eq _ _ _ _ _ _ (append-nil p.records) (append-nil p.conflicts)
              (append_assoc p.merges c d))
          (plan_of (concat record_len rc) (concat conflict_len kc) []) mc

  -- What is written is chunks that make up the plan, and the end.
  write_plan-messages :
      (plan : Plan) (ms : List PlanMessage)
      → write_plan record_len conflict_len merge_len envelope plan ≡ ok ms
      → (chunks : List PlanMessage) × ((chunks ++ apply_end ∷ [] ≡ ms)
          × (AreChunks chunks × (with_messages (plan_of [] [] []) chunks ≡ plan)))
  unfolding write_plan write_record_chunks write_conflict_chunks write_merge_chunks
  write_plan-messages plan ms h =
      let (rm, (e₁, h₁)) =
        first_ok _ (write_record_chunks record_len conflict_len merge_len envelope plan.records) ms
          h in
      let (cm, (e₂, h₂)) =
        first_ok _ (write_conflict_chunks record_len conflict_len merge_len envelope plan.conflicts)
          ms h₁ in
      let (mm, (e₃, h₃)) =
        first_ok _ (write_merge_chunks record_len conflict_len merge_len envelope plan.merges) ms
          h₂ in
      let (rc, (f₁, g₁)) =
        written record_len envelope (λ c. apply_chunk c [] []) plan.records rm e₁ in
      let (kc, (f₂, g₂)) =
        written conflict_len envelope (λ c. apply_chunk [] c []) plan.conflicts cm e₂ in
      let (mc, (f₃, g₃)) =
        written merge_len envelope (λ c. apply_chunk [] [] c) plan.merges mm e₃ in
      (
        map rec rc ++ (map con kc ++ map mer mc),
        (
          regroup (map rec rc) (map con kc) (map mer mc)
              ∙ cc_all rm cm mm (map rec rc) (map con kc) (map mer mc) g₁ g₂ g₃
              ∙ eq_of_ok _ ms h₃,
          (
            AreChunks-append (map rec rc) (map con kc ++ map mer mc)
                (map-AreChunks record_len envelope rec (λ c. tt) rc)
                (AreChunks-append (map con kc) (map mer mc)
                  (map-AreChunks conflict_len envelope con (λ c. tt) kc)
                  (map-AreChunks merge_len envelope mer (λ c. tt) mc)),
            assembled rc kc mc ∙ plan_eq _ _ _ _ _ _ f₁ f₂ f₃,
          ),
        ),
      )

  -- The plan that the responder collects is the plan that the connector has written, within the
  -- limits of a session, of which the snapshot has used some metadata before.
  pub collect_plan-write_plan :
      (len : List Record → List Conflict → List MergeCandidate → ℕ) (plan : Plan) (metadata : ℕ)
      (ms : List PlanMessage)
      → write_plan record_len conflict_len merge_len envelope plan ≡ ok ms
      → metadata + message_total len ms ≤ max_metadata
      → IsShort plan
      → collect_plan len (plan_of [] [] []) metadata ms ≡ ok plan
  collect_plan-write_plan len plan metadata ms h light s =
      let (chunks, (e, (are, f))) = write_plan-messages plan ms h in
      let total = message_total_end len chunks ∙ ap (message_total len) e in
      subst (λ k. collect_plan len (plan_of [] [] []) metadata k ≡ ok plan) e
        (collect_plan-messages len (plan_of [] [] []) metadata chunks are
            (omega (arith, total, light)) (subst IsShort (sym f) s)
          ∙ ap ok f)
