-- ===== src/Coordinator/Plan/Batches.antt =====
-- What `publishBatched` sends.
use proxy_harv.Prelude.{
  ℕ, zero, suc, ◌≤◌, ◌<◌, Bool, true, Option, some, List, [], ◌∷◌, ◌++◌, append_assoc, ◌≡◌, refl,
  ap, ◌∙◌, arith, All, Bool-cases, inl, inr, take, drop, length, take-append-drop, length-take,
  length-drop,
}
use proxy_harv.Text.{Bytes}
use proxy_harv.Model.{Stage}
use proxy_harv.Wire.{JobNode, JobBatch}
use proxy_harv.Coordinator.Plan.{batches_from, published, publish_batched}

-- The nodes of the batches, in order.
abbrev pub all_nodes : List JobBatch → List JobNode
all_nodes [] = []
all_nodes (b ∷ bs) = b.nodes ++ all_nodes bs

-- A batch for the stage and vantage, neither empty nor longer than the batch size.
abbrev pub IsBatch : Stage → Bytes → ℕ → JobBatch → Type 0
IsBatch stage vantage batch b =
    (b.stage ≡ stage) × (b.vantage ≡ vantage) × (1 ≤ length b.nodes) × (length b.nodes ≤ batch)

-- What a run of the loop over all the nodes gives.
abbrev Covers : Stage → Bytes → ℕ → List JobNode → Option (List JobBatch) → Type 0
Covers stage vantage batch ns o =
    (bs : List JobBatch) × (o ≡ some bs)
    × (all_nodes bs ≡ ns)
    × All (IsBatch stage vantage batch) bs

batches_from-Covers :
    (stage : Stage) (vantage : Bytes) (batch fuel : ℕ) (ns : List JobNode)
    → 0 < batch
    → length ns ≤ fuel
    → Covers stage vantage batch ns (batches_from stage vantage batch fuel ns)
unfolding batches_from
batches_from-Covers stage vantage batch fuel [] h hf = ([], refl, refl, tt)
batches_from-Covers stage vantage batch zero (n ∷ ns) h hf = absurd (omega (arith, hf))
batches_from-Covers stage vantage batch (suc fuel) (n ∷ ns) h hf =
    let shorter : length (drop batch (n ∷ ns)) ≤ fuel =
      omega (arith, h, hf, length-drop batch (n ∷ ns)) in
    let (bs, e, cover, good) =
      batches_from-Covers stage vantage batch fuel (drop batch (n ∷ ns)) h shorter in
    (
      record { stage = stage; vantage = vantage; nodes = take batch (n ∷ ns) } ∷ bs,
      rw (e, batches_from) refl,
      rw cover (take-append-drop batch (n ∷ ns)),
      (
        (
          refl,
          refl,
          omega (arith, h, length-take batch (n ∷ ns)),
          omega (arith, h, length-take batch (n ∷ ns)),
        ),
        good,
      ),
    )

published-prefix :
    (accepts : JobBatch → Bool) (bs : List JobBatch)
    → (rest : List JobNode) × (all_nodes (published accepts bs) ++ rest ≡ all_nodes bs)
unfolding published
published-prefix accepts [] = ([], refl)
published-prefix accepts (b ∷ bs) = elim (Bool-cases (accepts b)) [
  | inl e ↦
      let (rest, eq) = published-prefix accepts bs in
      (
        rest,
        rw e (append_assoc b.nodes (all_nodes (published accepts bs)) rest ∙ ap (b.nodes ++◌) eq),
      )
  | inr e ↦ (all_nodes (b ∷ bs), rw e refl)
]

published-All :
    (P : JobBatch → Type 0) (accepts : JobBatch → Bool) (bs : List JobBatch)
    → All P bs
    → All P (published accepts bs)
unfolding published
published-All P accepts [] h = tt
published-All P accepts (b ∷ bs) (h, hs) = elim (Bool-cases (accepts b)) [
  | inl e ↦ rw e (h, published-All P accepts bs hs)
  | inr e ↦ rw e tt
]

published-all :
    (accepts : JobBatch → Bool) (bs : List JobBatch)
    → ((b : JobBatch) → accepts b ≡ true)
    → published accepts bs ≡ bs
unfolding published
published-all accepts [] h = refl
published-all accepts (b ∷ bs) h = rw (h b) (ap (b ∷◌) (published-all accepts bs h))

-- For a batch size that is not 0, and whichever batches the bus refuses, the nodes that
-- `publishBatched` sends, taken in order, are an initial part of the nodes it was given, and every
-- batch has the stage and vantage asked for, at least one node, and at most the batch size.
pub publish_batched-prefix :
    (accepts : JobBatch → Bool) (stage : Stage) (vantage : Bytes) (nodes : List JobNode) (batch : ℕ)
    → 0 < batch
    → ((rest : List JobNode) × (all_nodes (publish_batched accepts stage vantage nodes batch)
            ++ rest
          ≡ nodes))
      × All (IsBatch stage vantage batch) (publish_batched accepts stage vantage nodes batch)
unfolding publish_batched
publish_batched-prefix accepts stage vantage nodes batch h =
    let (bs, e, cover, good) =
      batches_from-Covers stage vantage batch (length nodes) nodes h (omega arith) in
    let (rest, prefix) = published-prefix accepts bs in
    (
      (rest, rw e (prefix ∙ cover)),
      rw e (published-All (IsBatch stage vantage batch) accepts bs good),
    )

-- For a batch size that is not 0, if the bus refuses no batch, `publishBatched` sends every node,
-- once and in order.
pub publish_batched-all :
    (accepts : JobBatch → Bool) (stage : Stage) (vantage : Bytes) (nodes : List JobNode) (batch : ℕ)
    → 0 < batch
    → ((b : JobBatch) → accepts b ≡ true)
    → all_nodes (publish_batched accepts stage vantage nodes batch) ≡ nodes
unfolding publish_batched
publish_batched-all accepts stage vantage nodes batch h free =
    let (bs, e, cover, good) =
      batches_from-Covers stage vantage batch (length nodes) nodes h (omega arith) in
    rw e (ap all_nodes (published-all accepts bs free) ∙ cover)
