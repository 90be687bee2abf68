-- ===== src/Detector/LockIssues.antt =====
-- internal/detector/lock_chain.go: the Detect method of LockChainDetector, over the chains and the
-- cycles of the lock graph.
pub mod Reports
mod Tests
use mathlib.Core.Option
use mysqlmonitoring.Prelude.{
  ℕ, ◌^◌, Bool, true, false, not, ◌||◌, Option, none, some, List, [], ◌∷◌, ◌++◌, map, length,
  any_of, ltb, leb, if◌then◌else◌, Str, codes, str_eq,
}
use mysqlmonitoring.Prelude.Int.{ℤ, ltb_ℤ}
use mysqlmonitoring.Db.{LockWait, Snapshot}
use mysqlmonitoring.Detector.Issues.{
  Severity, warning, critical, Issue, show, quot, truncate_query, join,
}
use mysqlmonitoring.Detector.LockGraph.{LockGraph, find_info, build_lock_graph, find_cycles, ◌>>=◌}
use mysqlmonitoring.Detector.LockChains.{find_chains}

pub record LockChainDetector : Type 0 where
  pub wait_threshold : ℤ

abbrev pub name : Str
name = codes "lock_chain"

-- preferDigest
pub prefer_digest : Str → Str → ℕ → Str
prefer_digest digest raw_query max_len =
    if str_eq digest [] then truncate_query raw_query max_len else truncate_query digest max_len

-- The wait of a process exceeds the threshold, in milliseconds.
pub exceeds : ℤ → Option LockWait → Bool
exceeds threshold none = false
exceeds threshold (some w) = ltb_ℤ (quot threshold (10 ^ 6)) w.wait_duration_ms

pub severity_of : LockChainDetector → LockGraph → List ℕ → List ℕ → Severity
severity_of d graph chain waiting =
    if leb 4 (length chain)
      || any_of (λ pid. exceeds d.wait_threshold (find_info pid graph.wait_info)) waiting
    then critical
    else warning

-- One part of formatChain, with the user, the host and the query of the wait record.
abbrev pub described : ℕ → Str → Str → Str → Str → Str
described pid user host table query =
    codes "PID:"
    ++ show pid
    ++ codes "("
    ++ user
    ++ codes "@"
    ++ host
    ++ codes ")"
    ++ (if str_eq table [] then [] else codes " " ++ table)
    ++ (if str_eq query [] then [] else codes " [" ++ query ++ codes "]")

pub format_root : ℕ → Option LockWait → Str
format_root pid none = codes "PID:" ++ show pid
format_root pid (some w) =
    described pid w.blocking_user w.blocking_host w.lock_table
      (prefer_digest w.blocking_digest w.blocking_query 50)

pub format_waiter : ℕ → Option LockWait → Str
format_waiter pid none = codes "PID:" ++ show pid
format_waiter pid (some w) =
    described pid w.waiting_user w.waiting_host w.lock_table
      (prefer_digest w.waiting_digest w.waiting_query 50)

-- formatChain, for a chain that begins with `root` and then `first`.
pub format_chain : ℕ → ℕ → List ℕ → LockGraph → Str
format_chain root first rest graph = join (codes " -> ") (
    format_root root (find_info first graph.wait_info)
    ∷ map (λ pid. format_waiter pid (find_info pid graph.wait_info)) (first ∷ rest))

pub root_query : Option LockWait → Str
root_query none = []
root_query (some w) = prefer_digest w.blocking_digest w.blocking_query 50

pub lock_table : Option LockWait → Str
lock_table none = []
lock_table (some w) = w.lock_table

pub blocked_query : Option LockWait → Str
blocked_query none = []
blocked_query (some w) = prefer_digest w.waiting_digest w.waiting_query 50

pub blocked_queries : LockGraph → List ℕ → List Str
blocked_queries graph [] = []
blocked_queries graph (pid ∷ pids) =
    let q = blocked_query (find_info pid graph.wait_info) in
    let rest = blocked_queries graph pids in if str_eq q [] then rest else q ∷ rest

pub chain_issue : LockChainDetector → LockGraph → ℕ → ℕ → List ℕ → Issue
chain_issue d graph root first rest =
    let chain = root ∷ first ∷ rest in
    let w = find_info first graph.wait_info in
    let text = format_chain root first rest graph in
    record {
      detector = name;
      severity = severity_of d graph chain (first ∷ rest);
      title = codes "Lock chain detected (depth " ++ show (length chain) ++ codes ")";
      description = text;
      details =
          (codes "chain_depth", show (length chain))
          ∷ (codes "root_blocker", show root)
          ∷ (codes "chain", text)
          ∷ (codes "root_query", root_query w)
          ∷ (codes "blocked_queries", join (codes ", ") (blocked_queries graph (first ∷ rest)))
          ∷ (codes "lock_table", lock_table w)
          ∷ [];
    }

-- The loop over the chains: a chain with fewer than two processes is passed over.
pub chain_issues : LockChainDetector → LockGraph → List (List ℕ) → List Issue
chain_issues d graph [] = []
chain_issues d graph ((root ∷ first ∷ rest) ∷ chains) =
    chain_issue d graph root first rest ∷ chain_issues d graph chains
chain_issues d graph ((root ∷ []) ∷ chains) = chain_issues d graph chains
chain_issues d graph ([] ∷ chains) = chain_issues d graph chains

-- %v of a slice of numbers.
pub format_pids : List ℕ → Str
format_pids pids = codes "[" ++ join (codes " ") (map show pids) ++ codes "]"

pub cycle_issue : List ℕ → Issue
cycle_issue cycle = record {
  detector = name;
  severity = critical;
  title = codes "Lock cycle detected (" ++ show (length cycle) ++ codes " participants)";
  description = codes "Circular lock dependency: " ++ format_pids cycle;
  details = (codes "cycle_size", show (length cycle)) ∷ [];
}

-- Detect, with the keys of the graph met in the order `roots` for the chains and `keys` for the
-- cycles; `none` means that a search ran out of fuel.
pub issues_of : LockChainDetector → List ℕ → List ℕ → LockGraph → Option (List Issue)
issues_of d roots keys graph = find_chains roots graph >>= λ chains.
    find_cycles keys graph >>= λ cycles.
    some (chain_issues d graph chains ++ map cycle_issue cycles)

pub issues_in : LockChainDetector → List ℕ → List ℕ → List LockWait → Option (List Issue)
issues_in d roots keys [] = some []
issues_in d roots keys (w ∷ ws) = issues_of d roots keys (build_lock_graph (w ∷ ws))

pub detect : LockChainDetector → List ℕ → List ℕ → Snapshot → Option (List Issue)
detect d roots keys snapshot = issues_in d roots keys snapshot.lock_waits
