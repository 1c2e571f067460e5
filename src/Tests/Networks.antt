-- ===== src/Tests/Networks.antt =====
-- The resolver, the bus and the fetcher.
use mathlib.Core.Path.{ap₂}
use proxy_harv.Prelude.{
  ℕ, ◌+◌, ◌==◌, ◌&&◌, not, ap, Bool, true, false, Option, none, some, List, [], ◌∷◌, ◌++◌, map,
  length, ◌≡◌, refl, sym, arith, All, if◌then◌else◌,
}
use proxy_harv.Text.{Bytes, codes, str_eq, one_of}
use proxy_harv.Text.Number.{ℤ, pos}
use proxy_harv.Geo.{Network}
use proxy_harv.Geo.Cache.{Query, resolve_all, IsAnswered, resolve_all-IsAnswered}
use proxy_harv.Geo.Transparent.{fresh, resolve_all-fresh}
use proxy_harv.Bus.{Update, put_value, other_operation, caught_up, latest_publish_of}
use proxy_harv.Bus.Versions.{IsLatest, latest_publish_of-IsLatest}
use proxy_harv.Bus.Registering.{
  vantage_row, heartbeat_entry, row_after, vantage_row-heartbeat_entry,
}
use proxy_harv.Bus.Lease.{Cluster, standby, leader, pass, get, put, may_claim, run, start}
use proxy_harv.Bus.Lease.Alone.{Turn, pause, attempt, events, IsRenewed, run-one_leader}
use proxy_harv.Bus.Lease.Split.{run-two_leaders}
use proxy_harv.Wire.{jobs_subject}
use proxy_harv.Streams.{validator_consumer}
use proxy_harv.Streams.Unheard.{IsStrict, gets, validator_consumer-unheard}
use proxy_harv.Parse.Sort.{str_le}
use proxy_harv.Migrations.{names, Schema, Scripts, migrate}
use proxy_harv.Migrations.Again.{migrate_again}
use proxy_harv.Model.{val, second, Source, Tables}
use proxy_harv.Model.Store.Invariant.{Unique}
use proxy_harv.Parse.Line.{Node}
use proxy_harv.Parse.Many.{parse_many}
use proxy_harv.Fetcher.{answered, raw_node, Outside, send_nodes, World, pass_all}
use proxy_harv.Fetcher.Batches.{bound, IsSent, send_nodes-IsSent}
use proxy_harv.Fetcher.Passes.{same_source, after_pass, pass_all-after_pass}
use proxy_harv.Tests.{toy, toy_rt}
use proxy_harv.Tests.Rows.{tables}

-- A network where "a" has the address 7, and the address of "b" is its time.
abbrev network : Network
network = record {
  Ip = ℕ;
  F = ℕ;
  zero_float = 0;
  parse_ip = λ s. none;
  print_ip = λ i. [];
  lookup_ip = λ t host. if str_eq host (codes "b") then some (t ∷ []) else some (7 ∷ []);
  city = λ i. none;
}

abbrev queries : List Query
queries =
    record { now = 5; took = 1; host = codes "b" }
    ∷ record { now = 9; took = 1; host = codes "b" }
    ∷ record { now = 90; took = 1; host = codes "[b]" }
    ∷ []

resolve_all-IsAnswered_example :
    All (λ a. IsAnswered network 10 2 a.0.now a.0.host a.1) (resolve_all network 10 queries [])
resolve_all-IsAnswered_example =
    resolve_all-IsAnswered network 10 2 queries (omega arith)
      (omega arith, (omega arith, (omega arith, tt)))

-- A network whose addresses do not change.
abbrev steady : Network
steady = record {
  Ip = ℕ;
  F = ℕ;
  zero_float = 0;
  parse_ip = λ s. none;
  print_ip = λ i. [];
  lookup_ip = λ t host. some (length host ∷ []);
  city = λ i. none;
}

resolve_all-fresh_example :
    resolve_all steady 10 queries [] ≡ map (λ q. (q, fresh steady 10 q)) queries
resolve_all-fresh_example = resolve_all-fresh steady 10 queries (λ t u host. refl)

-- The version of a key is its length.
abbrev scan : Bytes → Option ℤ
scan key = some (pos (length key))

abbrev updates : List Update
updates =
    put_value (codes "vvv") (codes "x")
    ∷ put_value (codes "v") (codes "y")
    ∷ other_operation
    ∷ caught_up
    ∷ put_value (codes "vvvv") (codes "z")
    ∷ []

latest_publish_of-IsLatest_example : IsLatest scan updates (latest_publish_of scan updates)
latest_publish_of-IsLatest_example = latest_publish_of-IsLatest scan updates

vantage_row-heartbeat_entry_example :
    vantage_row toy
      (codes "rf-1")
      (heartbeat_entry toy (7 + second) (codes "rf-1") (codes "validator") tables)
    ≡ row_after toy (7 + second) (codes "rf-1") (codes "validator") (codes "rf-1") tables
vantage_row-heartbeat_entry_example =
    vantage_row-heartbeat_entry toy (7 + second) (codes "rf-1") (codes "validator") tables
      (codes "rf-1")

-- One instance claims the lease, and another tries after a short pause.
abbrev turns : List Turn
turns = attempt (codes "i") true ∷ pause 5 ∷ attempt (codes "j") true ∷ []

turns-IsRenewed : IsRenewed second turns (start 0)
unfolding IsRenewed
turns-IsRenewed = (omega arith, tt)

turns-leader : (run second (events turns) (start 0)).role_of (codes "i") ≡ leader
unfolding run
turns-leader = refl

run-one_leader_example : codes "i" ≡ codes "i"
run-one_leader_example =
    run-one_leader second 0 turns (codes "i") (codes "i") (omega arith) turns-IsRenewed turns-leader
      turns-leader

-- "i" leads, and its lease is as old as its time to live.
abbrev stale : Cluster
stale = run second (get (codes "i") true ∷ put (codes "i") true ∷ pass second ∷ []) (start 0)

stale-leader : stale.role_of (codes "i") ≡ leader
unfolding run
stale-leader = refl

stale-standby : stale.role_of (codes "j") ≡ standby
unfolding run
stale-standby = refl

stale-may_claim : may_claim second stale.clock (codes "j") stale.entry ≡ true
unfolding run may_claim
stale-may_claim = refl

run-two_leaders_example :
    ((run second
          (get (codes "j") true ∷ put (codes "j") true ∷ put (codes "i") true ∷ [])
          stale).role_of
        (codes "i")
      ≡ leader)
    × ((run second
            (get (codes "j") true ∷ put (codes "j") true ∷ put (codes "i") true ∷ [])
            stale).role_of
          (codes "j")
        ≡ leader)
run-two_leaders_example =
    run-two_leaders second (codes "i") (codes "j") (put (codes "i") true ∷ []) stale stale-leader
      stale-standby stale-may_claim

abbrev outside : Outside
outside = record { print_time = λ t. []; time_of = λ n. n; accepts = λ n. true; fits = λ n. true }

abbrev body : Bytes
body = codes "socks://a:1\nsocks://b:2\nsocks://c:3"

abbrev found : List Node
found = parse_many toy_rt body

send_nodes-IsSent_example :
    IsSent
      (bound 2)
      (map raw_node found)
      (send_nodes toy_rt outside 2 1 35 found (record { pending = []; sent = []; published = 0 }))
send_nodes-IsSent_example = send_nodes-IsSent toy_rt outside 2 1 35 found

abbrev source : ℕ → Bool → Source
source i enabled = record {
  id = i;
  url = codes "u";
  kind = codes "sub";
  enabled = enabled;
  last_fetch_at = none;
  last_status = none;
  note = none;
}

abbrev sources : Tables toy
sources = record tables { sources = source 1 true ∷ source 2 false ∷ source 3 true ∷ [] }

-- Every URL answers.
abbrev world : World
world = record {
  download = λ url. answered 200 (some body);
  now = λ i. i;
  cancelled = λ i. false;
  outside = λ i. outside;
}

sources-Unique : Unique same_source sources.sources
sources-Unique = ((refl, (refl, tt)), ((refl, tt), (tt, tt)))

pass_all-after_pass_example :
    (pass_all toy toy_rt world (pos 2) sources).tables.sources
    ≡ map (after_pass toy toy_rt world 2) sources.sources
pass_all-after_pass_example =
    pass_all-after_pass toy toy_rt world 2 sources sources-Unique (λ i. refl) (λ i. refl)

-- The text behind the token at its start.
abbrev behind_token : Bytes → Bytes
behind_token [] = []
behind_token (c ∷ s) = let rest = behind_token s in if c == b'.' then c ∷ s else rest

-- A matcher that knows both wildcards: "*" stands for a token, and ">" for all that is left.
abbrev matcher : Bytes → Bytes → Bool
matcher [] [] = true
matcher [] (c ∷ s) = false
matcher (f ∷ fs) [] = false
matcher (f ∷ fs) (c ∷ s) =
    let same = matcher fs s in
    let token = matcher fs (behind_token s) in
    if f == b'>' then true else if f == b'*' then not (c == b'.') && token else (f == c) && same

matcher-strict : IsStrict matcher
matcher-strict [] [] plain e = cc
matcher-strict [] (c ∷ []) plain e = absurd (ground (arith, e))
matcher-strict [] (c ∷ d ∷ s) plain e =
    let dot : b'.' ≡ c = ground (arith, e) in (d ∷ s, ap (λ x. x ∷ d ∷ s) (sym dot))
matcher-strict (f ∷ p) [] plain e = cc
matcher-strict (f ∷ p) (c ∷ s) (plain, plains) e =
    let same : f ≡ c = ground (arith, e, plain) in
    let more : matcher (p ++ codes ".>") s ≡ true = ground (arith, e, plain) in
    let (rest, shape) = matcher-strict p s plains more in
    (rest, ap₂ (λ x l. x ∷ l) (sym same) shape)

validator_consumer-unheard_example :
    gets matcher
      (validator_consumer (codes "rf-1") (codes "validator"))
      (jobs_subject val (codes "rf-1"))
    ≡ false
validator_consumer-unheard_example =
    validator_consumer-unheard matcher (codes "rf-1") (codes "validator")
      (refl, (refl, (refl, (refl, tt)))) matcher-strict

-- Two scripts, of which each counts itself, and a file that is no script.
abbrev scripts : Scripts ℕ
scripts = record { read = λ name. some name; exec = λ body n. some (n + 1) }

abbrev files : List Bytes
files = codes "2.sql" ∷ codes "a.go" ∷ codes "1.sql" ∷ []

abbrev fresh_db : Schema ℕ
fresh_db = record { applied = codes "1.sql" ∷ []; state = 0 }

migrated : (migrate scripts files fresh_db).1 ≡ true
unfolding migrate str_le
migrated = refl

migrate_again_example :
    All (λ n. one_of n (migrate scripts files fresh_db).0.applied ≡ true) (names files)
    × (migrate scripts files (migrate scripts files fresh_db).0
        ≡ ((migrate scripts files fresh_db).0, true))
migrate_again_example = migrate_again scripts files fresh_db migrated
