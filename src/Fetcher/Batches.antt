-- ===== src/Fetcher/Batches.antt =====
-- The batches that `fetchSource` publishes, and the links of the body.
use mathlib.Core.Path.{subst}
use proxy_harv.Prelude.{
  ℕ, zero, suc, ◌+◌, ◌≤◌, ◌<◌, Bool, true, false, List, [], ◌∷◌, ◌++◌, map, length, length-append,
  append-nil, append_assoc, All, All-append, ◌≡◌, ap, ◌∙◌, refl, sym, arith, Bool-cases, inl, inr,
}
use proxy_harv.Text.{Bytes}
use proxy_harv.Runtime.{Runtime}
use proxy_harv.Parse.Line.{Node}
use proxy_harv.Wire.{RawNode, RawBatch}
use proxy_harv.Fetcher.{Outside, Progress, raw_node, is_full, flush, add_node, send_nodes}

-- The links of the messages, in their order.
abbrev pub nodes_of : List (Bytes × RawBatch) → List RawNode
nodes_of [] = []
nodes_of ((id, b) ∷ ms) = b.nodes ++ nodes_of ms

nodes_of-append :
    (ms ns : List (Bytes × RawBatch)) → nodes_of (ms ++ ns) ≡ nodes_of ms ++ nodes_of ns
nodes_of-append [] ns = refl
nodes_of-append ((id, b) ∷ ms) ns =
    ap (λ l. b.nodes ++ l) (nodes_of-append ms ns)
    ∙ sym (append_assoc b.nodes (nodes_of ms) (nodes_of ns))

-- The size of a full batch; one link fills the batch of size 0.
abbrev pub bound : ℕ → ℕ
bound zero = 1
bound (suc n) = suc n

is_full-no : (batch : ℕ) (l : List RawNode) → is_full batch l ≡ false → length l < bound batch
unfolding is_full
is_full-no zero l e = ground (arith, e)
is_full-no (suc n) l e = ground (arith, e)

abbrev pub HasSize : ℕ → Bytes × RawBatch → Type 0
HasSize most m = (0 < length m.1.nodes) × (length m.1.nodes ≤ most)

bound_positive : (batch : ℕ) → 0 < bound batch
bound_positive zero = omega arith
bound_positive (suc n) = omega arith

-- What is published and what waits is what has been read so far.
record IsProgress (most : ℕ) (done : List RawNode) (p : Progress) : Type 0 where
  kept : nodes_of p.sent ++ p.pending ≡ done
  counted : p.published ≡ length (nodes_of p.sent)
  sized : All (HasSize most) p.sent
  short : length p.pending ≤ most

-- The links that are published, all of them if no publishing failed, and the sizes of the batches.
pub record IsSent (most : ℕ) (all : List RawNode) (r : Progress × Bool) : Type 0 where
  pub unsent : List RawNode
  pub split : nodes_of r.0.sent ++ unsent ≡ all
  pub complete : r.1 ≡ true → unsent ≡ []
  pub counted : r.0.published ≡ length (nodes_of r.0.sent)
  pub sized : All (HasSize most) r.0.sent

-- A message with the links that wait.
pushed :
    (most : ℕ) (done : List RawNode) (p : Progress) (m : Bytes × RawBatch)
    → m.1.nodes ≡ p.pending
    → 0 < length m.1.nodes
    → IsProgress most done p
    → IsProgress most done (record {
      pending = [];
      sent = p.sent ++ (m ∷ []);
      published = p.published + length m.1.nodes;
    })
pushed most done p m e positive h =
    let nodes : nodes_of (p.sent ++ (m ∷ [])) ≡ nodes_of p.sent ++ m.1.nodes =
      nodes_of-append p.sent (m ∷ []) ∙ ap (λ l. nodes_of p.sent ++ l) (append-nil m.1.nodes) in
    let short : length m.1.nodes ≤ most = rw e h.short in
    record {
      kept = append-nil _ ∙ (nodes ∙ (ap (λ l. nodes_of p.sent ++ l) e ∙ h.kept));
      counted = rw nodes (rw (length-append (nodes_of p.sent) m.1.nodes, h.counted) refl);
      sized = All-append (HasSize most) p.sent (m ∷ []) h.sized ((positive, short), tt);
      short = omega arith;
    }

module _ (rt : Runtime) (out : Outside) (batch source size : ℕ) where
  abbrev IsFlushed : List RawNode → Progress × Bool → Type 0
  IsFlushed done r = IsProgress (bound batch) done r.0 × (r.1 ≡ true → r.0.pending ≡ [])

  flush-IsFlushed :
      (done pending : List RawNode) (p : Progress)
      → p.pending ≡ pending
      → IsProgress (bound batch) done p
      → IsFlushed done (flush rt out batch source size p)
  unfolding flush
  flush-IsFlushed done [] p e h = rw (e, flush) (h, λ fine. e)
  flush-IsFlushed done (n ∷ ns) p e h = elim (Bool-cases (out.accepts (length p.sent))) [
    | inr f ↦ rw (e, flush, f) (h, λ fine. cc)
    | inl f ↦
        rw (e, flush, f)
          (
            pushed (bound batch) done p
                (
                  _,
                  record {
                    source_id = source;
                    fetched_at = out.time_of (length p.sent);
                    nodes = n ∷ ns;
                  },
                )
                (sym e) (omega arith) h,
            λ fine. refl,
          )
  ]

  add_node-IsProgress :
      (done : List RawNode) (n : Node) (p : Progress)
      → length p.pending < bound batch
      → IsProgress (bound batch) done p
      → IsProgress (bound batch) (done ++ (raw_node n ∷ [])) (add_node rt out batch n p)
  unfolding add_node
  add_node-IsProgress done n p less h = record {
    kept =
        sym (append_assoc (nodes_of p.sent) p.pending (raw_node n ∷ []))
        ∙ ap (λ l. l ++ (raw_node n ∷ [])) h.kept;
    counted = h.counted;
    sized = h.sized;
    short = rw (length-append p.pending (raw_node n ∷ [])) (omega (arith, less));
  }

  -- When a publishing fails, the links that wait and those not yet read are not published.
  stopped :
      (done rest : List RawNode) (p : Progress) (fine : Bool)
      → (fine ≡ true → p.pending ++ rest ≡ [])
      → IsProgress (bound batch) done p
      → IsSent (bound batch) (done ++ rest) (p, fine)
  stopped done rest p fine complete h = record {
    unsent = p.pending ++ rest;
    split = sym (append_assoc (nodes_of p.sent) p.pending rest) ∙ ap (λ l. l ++ rest) h.kept;
    complete = complete;
    counted = h.counted;
    sized = h.sized;
  }

  send_nodes_from :
      (done : List RawNode) (ns : List Node) (p : Progress)
      → length p.pending < bound batch
      → IsProgress (bound batch) done p
      → IsSent (bound batch) (done ++ map raw_node ns) (send_nodes rt out batch source size ns p)
  unfolding send_nodes
  send_nodes_from done [] p less h =
      let (progress, emptied) = flush-IsFlushed done p.pending p refl h in
      stopped done [] _ _ (λ fine. append-nil _ ∙ emptied fine) progress
  send_nodes_from done (n ∷ ns) p less h =
      let p' = add_node rt out batch n p in
      let h' = add_node-IsProgress done n p less h in
      let (progress, emptied) = flush-IsFlushed (done ++ (raw_node n ∷ [])) p'.pending p' refl h' in
      subst (λ l. IsSent (bound batch) l (send_nodes rt out batch source size (n ∷ ns) p))
        (append_assoc done (raw_node n ∷ []) (map raw_node ns))
        (elim (Bool-cases (is_full batch p'.pending)) [
          | inr f ↦
              rw (f, send_nodes)
                (send_nodes_from (done ++ (raw_node n ∷ [])) ns p' (is_full-no batch p'.pending f)
                  h')
          | inl f ↦ (elim (Bool-cases (flush rt out batch source size p').1) [
            | inl g ↦
                rw (f, g, send_nodes)
                  (send_nodes_from (done ++ (raw_node n ∷ [])) ns _
                    (rw (emptied g) (bound_positive batch)) progress)
            | inr g ↦
                rw (f, g, send_nodes)
                  (stopped (done ++ (raw_node n ∷ [])) (map raw_node ns) _ false (λ fine. cc)
                    progress)
          ])
        ])

  -- From no link and no message: the published batches hold the nodes of the body in their order, as
  -- far as publishing got, and all of them if no publishing failed; their number is the number
  -- reported; and no batch is empty or larger than the batch size, which counts as 1 if it is 0.
  pub send_nodes-IsSent :
      (ns : List Node)
      → IsSent (bound batch) (map raw_node ns) (
          send_nodes rt out batch source size ns
            (record { pending = []; sent = []; published = 0 }))
  send_nodes-IsSent ns =
      send_nodes_from [] ns (record { pending = []; sent = []; published = 0 })
        (bound_positive batch)
        (record { kept = refl; counted = refl; sized = tt; short = omega arith })
