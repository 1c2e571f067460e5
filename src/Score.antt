-- ===== src/Score.antt =====
-- proxies/internal/score/score.go: the score of a node from its check history. Times are
-- nanoseconds since 1970, and `none` is the zero time.
use proxy_harv.Prelude.{
  ℕ, ◌+◌, ◌-◌, ◌*◌, Bool, true, false, Option, none, some, List, [], ◌∷◌, leb, ◌==◌, length,
  if◌then◌else◌,
}
use proxy_harv.Text.{Bytes, is_empty, split}
use proxy_harv.Text.Space.{trim_space}
use proxy_harv.Text.Number.{ℤ, pos, negsuc}
use proxy_harv.Floats.{Floats}
use proxy_harv.Model.{hour}

unfoldable pub count_ok : List Bool → ℕ
count_ok [] = 0
count_ok (true ∷ bs) = count_ok bs + 1
count_ok (false ∷ bs) = count_ok bs

-- float64(span - decay) for the ages between fresh and expired
abbrev pub span : ℕ
span = 42 * hour

module _ (fl : Floats) where
  open fl use {F}

  abbrev pub int : ℕ → F
  int n = fl.of_int (pos n)

  pub record Weights : Type 0 where
    pub recency : F
    pub success_rate : F
    pub latency : F
    pub speed : F
    pub rf : F

  -- 0.2, 0.3, 0.2, 0.2, 0.1
  unfoldable pub default_weights : Weights
  default_weights = record {
    recency = fl.div (int 2) (int 10);
    success_rate = fl.div (int 3) (int 10);
    latency = fl.div (int 2) (int 10);
    speed = fl.div (int 2) (int 10);
    rf = fl.div (int 1) (int 10);
  }

  abbrev five : Option F → Option F → Option F → Option F → Option F → Weights × Bool
  five (some a) (some b) (some c) (some d) (some e) =
      (record { recency = a; success_rate = b; latency = c; speed = d; rf = e }, true)
  five _ _ _ _ _ = (default_weights, false)

  abbrev number : Bytes → Option F
  number p = fl.parse (trim_space p)

  unfoldable pub weights_of : List Bytes → Weights × Bool
  weights_of (a ∷ b ∷ c ∷ d ∷ e ∷ []) = five (number a) (number b) (number c) (number d) (number e)
  weights_of _ = (default_weights, false)

  -- `ParseWeights`
  unfoldable pub parse_weights : Bytes → Weights × Bool
  unfolding trim_space split weights_of
  parse_weights s =
      let t = trim_space s in
      if is_empty t then (default_weights, true) else weights_of (split b',' t)

  pub record Input : Type 0 where
    pub now : ℕ
    pub last_l1_ok_at : Option ℕ
    pub recent_l1 : List Bool
    pub latency_ms : ℤ
    pub speed_mbps : F
    pub rf_validated : Bool

  -- by the age: now - lastOK, which is not positive for a time that is still to come
  unfoldable pub recency_at : ℕ → F
  recency_at age =
      let decay = age - 6 * hour in
      if leb age (6 * hour)
      then int 1
      else if leb span decay
      then int 0
      else fl.div (int (span - decay)) (int span)

  unfoldable pub recency : ℕ → Option ℕ → F
  unfolding recency_at
  recency now none = int 0
  recency now (some last) = recency_at (now - last)

  unfoldable pub success_rate : List Bool → F
  unfolding count_ok
  success_rate recent =
      if is_empty recent then int 0 else fl.div (int (count_ok recent)) (int (length recent))

  unfoldable pub latency_score : ℤ → F
  latency_score (negsuc n) = int 0
  latency_score (pos ms) =
      if ms == 0
      then int 0
      else if leb ms 300
      then int 1
      else if leb 3000 ms
      then int 0
      else fl.div (int (3000 - ms)) (int 2700)

  unfoldable pub speed_score : F → F
  speed_score mbps =
      if fl.le mbps (int 0)
      then int 0
      else if fl.le (int 100) mbps
      then int 1
      else fl.div mbps (int 100)

  -- the weighted sum, before it is clamped
  unfoldable pub weighted : Input → Weights → F
  unfolding recency success_rate latency_score speed_score
  weighted i w =
      let a = fl.mul w.recency (recency i.now i.last_l1_ok_at) in
      let b = fl.mul w.success_rate (success_rate i.recent_l1) in
      let c = fl.mul w.latency (latency_score i.latency_ms) in
      let d = fl.mul w.speed (speed_score i.speed_mbps) in
      let s = fl.add (fl.add (fl.add a b) c) d in if i.rf_validated then fl.add s w.rf else s

  unfoldable pub clamp : F → F
  clamp s = if fl.lt s (int 0) then int 0 else if fl.lt (int 1) s then int 1 else s

  -- `Compute`
  unfoldable pub compute : Input → Weights → F
  unfolding weighted clamp
  compute i w = clamp (weighted i w)
