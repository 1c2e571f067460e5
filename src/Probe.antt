-- ===== src/Probe.antt =====
-- proxies/internal/probe: the outcome of one probe, and how outputs and exit codes of the external
-- processes are read (probe.go, l0.go, l1.go).
pub mod Runner
pub mod Laws
use proxy_harv.Prelude.{
  ℕ, zero, suc, ◌+◌, ◌-◌, ◌≡◌, refl, Bool, true, false, not, ◌&&◌, ◌||◌, Option, none, some, List,
  [], ◌∷◌, ◌++◌, ltb, leb, ◌==◌, if◌then◌else◌, length,
}
use proxy_harv.Text.{Bytes, codes, is_empty, str_eq}
use proxy_harv.Text.Space.{trim_space, space_width}
use proxy_harv.Text.Number.{ℤ, pos, negsuc, atoi}
use proxy_harv.Floats.{Floats}

-- the closed enum of error codes, and no code for a success
pub data Code : Type 0 where
  no_code dial_timeout dial_refused tls proto_handshake http_status content_mismatch slow : Code
  process_timeout internal : Code

unfoldable pub is_internal : Code → Bool
is_internal internal = true
is_internal _ = false

-- target-side problems, for which the next target is tried
unfoldable pub is_target_side : Code → Bool
is_target_side http_status = true
is_target_side content_mismatch = true
is_target_side _ = false

-- what `classifyDialError` tests of an error of net.Dialer
pub data DialError : Type 0 where
  timeout refused otherwise : DialError

unfoldable pub classify_dial_error : DialError → Code
classify_dial_error timeout = dial_timeout
classify_dial_error refused = dial_refused
classify_dial_error otherwise = internal

-- host[1 : len(host)-1] for a host that is longer than one byte and stands in brackets
unfoldable pub without_last : Bytes → Bytes
without_last [] = []
without_last (c ∷ []) = []
without_last (c ∷ d ∷ s) = c ∷ without_last (d ∷ s)

unfoldable pub last_byte : ℕ → Bytes → ℕ
last_byte c [] = c
last_byte c (d ∷ s) = last_byte d s

unfoldable pub strip_brackets : Bytes → Bytes
unfolding without_last last_byte
strip_brackets [] = []
strip_brackets (c ∷ []) = c ∷ []
strip_brackets (c ∷ d ∷ s) =
    if c == b'[' && last_byte d s == b']' then without_last (d ∷ s) else c ∷ d ∷ s

abbrev one_of_exits : ℕ → List ℕ → Bool
one_of_exits e [] = false
one_of_exits e (x ∷ xs) = e == x || one_of_exits e xs

-- An exit code is -1 for a process that a signal ended.
unfoldable pub curl_exit_to_code : ℤ → Bool → Code
curl_exit_to_code (negsuc n) is_l2 = internal
curl_exit_to_code (pos exit) is_l2 =
    if exit == 28
    then (if is_l2 then slow else dial_timeout)
    else if exit == 7 || exit == 8
    then dial_refused
    else if one_of_exits exit
        (35 ∷ 51 ∷ 53 ∷ 54 ∷ 58 ∷ 60 ∷ 64 ∷ 66 ∷ 77 ∷ 80 ∷ 82 ∷ 83 ∷ 90 ∷ 91 ∷ [])
    then tls
    else if one_of_exits exit (56 ∷ 94 ∷ 95 ∷ 97 ∷ 98 ∷ [])
    then proto_handshake
    else if exit == 22
    then http_status
    else internal

unfoldable pub push_field : ℕ → Bool → List Bytes → List Bytes
push_field c true (w ∷ ws) = (c ∷ w) ∷ ws
push_field c _ ws = (c ∷ []) ∷ ws

-- The fields of a text, and whether the first one begins at its first byte. The number counts the
-- bytes of the current white space character that are still to be dropped.
unfoldable pub fields_at : ℕ → Bytes → Bool × List Bytes
unfolding push_field space_width
fields_at k [] = (false, [])
fields_at (suc k) (c ∷ s) = fields_at k s
fields_at zero (c ∷ s) =
    let w = space_width (c ∷ s) in
    let (joined, ws) = fields_at (w - 1) s in
    if w == 0 then (true, push_field c joined ws) else (false, ws)

-- strings.Fields
unfoldable pub fields : Bytes → List Bytes
unfolding fields_at
fields s = (fields_at 0 s).1

abbrev FieldsTests : Type 0
FieldsTests =
    (fields (codes " 204  0.5\n") ≡ codes "204" ∷ codes "0.5" ∷ [])
    × (fields (codes "204" ++ 0xc2 ∷ 0xa0 ∷ codes "1") ≡ codes "204" ∷ codes "1" ∷ [])

fields_runs : FieldsTests
unfolding fields
fields_runs = (refl, refl)

module _ (fl : Floats) where
  open fl use {F}

  pub record Outcome : Type 0 where
    pub passed : Bool
    pub latency_ms : ℤ
    pub speed_mbps : F
    pub code : Code

  -- Result{Code: code}
  abbrev pub failed : Code → Outcome
  failed c = record { passed = false; latency_ms = pos 0; speed_mbps = fl.of_int (pos 0); code = c }

  -- `L0`, by what the dialer reports: an error, or the milliseconds that it took
  unfoldable pub l0_result : Option DialError → ℤ → Outcome
  unfolding classify_dial_error
  l0_result none ms = record {
    passed = true;
    latency_ms = ms;
    speed_mbps = fl.of_int (pos 0);
    code = no_code;
  }
  l0_result (some e) ms = failed (classify_dial_error e)

  unfoldable pub l1_of : Option ℤ → Option F → Outcome
  l1_of none _ = failed content_mismatch
  l1_of (some code) none = failed internal
  l1_of (some (negsuc n)) (some sec) = failed http_status
  l1_of (some (pos n)) (some sec) =
      if n == 204
      then record {
        passed = true;
        latency_ms = fl.truncate (fl.mul sec (fl.of_int (pos 1000)));
        speed_mbps = fl.of_int (pos 0);
        code = no_code;
      }
      else failed http_status

  unfoldable pub l1_of_fields : List Bytes → Outcome
  unfolding l1_of atoi
  l1_of_fields (code ∷ sec ∷ []) = l1_of (atoi code) (fl.parse sec)
  l1_of_fields _ = failed content_mismatch

  unfoldable pub parse_l1 : Bytes → ℤ → Outcome
  unfolding curl_exit_to_code l1_of_fields fields trim_space
  parse_l1 out (pos zero) = l1_of_fields (fields (trim_space out))
  parse_l1 out (pos (suc e)) = failed (curl_exit_to_code (pos (suc e)) false)
  parse_l1 out (negsuc e) = failed (curl_exit_to_code (negsuc e) false)

  unfoldable pub math_round : F → F
  math_round v =
      let half = fl.div (fl.of_int (pos 1)) (fl.of_int (pos 2)) in
      if fl.lt v (fl.of_int (pos 0))
      then fl.of_int (fl.truncate (fl.sub v half))
      else fl.of_int (fl.truncate (fl.add v half))

  unfoldable pub l2_of : Option F → Outcome
  unfolding math_round
  l2_of none = failed content_mismatch
  l2_of (some bps) =
      let mbps = fl.div (fl.mul bps (fl.of_int (pos 8))) (fl.of_int (pos 1000000)) in
      if fl.le bps (fl.of_int (pos 0))
      then failed content_mismatch
      else if fl.lt mbps (fl.div (fl.of_int (pos 1)) (fl.of_int (pos 100)))
      then failed slow
      else record {
        passed = true;
        latency_ms = pos 0;
        speed_mbps = fl.div (math_round (fl.mul mbps (fl.of_int (pos 100)))) (fl.of_int (pos 100));
        code = no_code;
      }

  unfoldable pub l2_of_fields : List Bytes → Outcome
  unfolding l2_of
  l2_of_fields [] = failed content_mismatch
  l2_of_fields (bps ∷ _) = l2_of (fl.parse bps)

  unfoldable pub parse_l2 : Bytes → ℤ → Outcome
  unfolding curl_exit_to_code l2_of_fields fields trim_space
  parse_l2 out (pos zero) = l2_of_fields (fields (trim_space out))
  parse_l2 out (pos (suc e)) = failed (curl_exit_to_code (pos (suc e)) true)
  parse_l2 out (negsuc e) = failed (curl_exit_to_code (negsuc e) true)

  -- `curlL1`: the targets in turn. `run` gives the output and the exit code of curl for a target;
  -- `last` is the result of the target before.
  unfoldable pub curl_l1 : (Bytes → Bytes × ℤ) → Outcome → List Bytes → Outcome
  unfolding is_target_side
  curl_l1 run last [] = last
  curl_l1 run last (target ∷ targets) =
      let (out, exit) = run target in
      let r = parse_l1 out exit in
      let rest = curl_l1 run r targets in
      if r.passed then r else if not (is_target_side r.code) then r else rest
