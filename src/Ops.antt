-- ===== src/Ops.antt =====
-- `Operations` and `Journal` of vsearch/ops.py: what looks at a cluster and repairs it, and what was done.
-- A cluster's coordinator is the interface `Searcher`, which vsearch/client.py implements. The texts for a
-- model are left out.
pub mod Looking
pub mod Changing
pub mod Tools
pub mod Runbook
pub mod Within
pub mod Frame
pub mod Kept
pub mod Limits
pub mod Restarts
pub mod DryRun
pub mod Tests
use distributed_vector_searc.Prelude.{
  ℕ, zero, suc, ◌+◌, Bool, true, false, not, ◌&&◌, List, [], ◌∷◌, ◌++◌, map, Option, none, some,
  Result, Error, ok, err, if◌then◌else◌, ◌==◌, leb, ltb, min, max, length, keep, concat, drop, ◌-◌,
}
use distributed_vector_searc.Python.Text.{Text, codes, show_nat, grouped, join_with}
use distributed_vector_searc.Python.Json.{Fields}
use distributed_vector_searc.Actions.{Act, ◌>>=◌, ◌>>◌, give, raise, update, attempt, each, lift}
use distributed_vector_searc.Health.{
  ServerHealth, Problem, does_not_answer, is_down, no_live_replica, out_of_sync, find_problems,
  shards_of, group_of, alive_of,
}
use distributed_vector_searc.State.{Server, State, Dataset, managed_by, pick}
use distributed_vector_searc.State.Machines.{
  Machines, read_state, write_state, cluster_health, spawn, wait_for,
}
use distributed_vector_searc.Client.Repair.{ReplicaSync}

-- An entry of the journal: a tool that was run, or what an agent noted.
pub data JournalEntry : Type 0 where
  tool_entry :
      (time : ℕ) (tool : Text) (arguments : Fields) (result : Text) (error : Bool) → JournalEntry
  model_entry : (time step : ℕ) (text : Text) (calls : List (Text × Fields)) → JournalEntry

-- `Journal.actions`
unfoldable pub actions : List JournalEntry → List Text
actions [] = []
actions (tool_entry time tool arguments result error ∷ entries) = tool ∷ actions entries
actions (model_entry time step text calls ∷ entries) = actions entries

-- A server with its numbers.
abbrev pub ServerKey : Type 0
ServerKey = ℕ × ℕ

abbrev pub same_key : ServerKey → ServerKey → Bool
same_key (shard, replica) (shard', replica') = (shard == shard') && (replica == replica')

-- `Counter`: how often each key was counted. A key that is missing was counted 0 times.
abbrev pub Counter : Type 0
Counter = List (ServerKey × ℕ)

unfoldable pub count_of : Counter → ServerKey → ℕ
count_of [] key = 0
count_of ((k, n) ∷ counter) key =
    let rest = count_of counter key in if same_key k key then n else rest

-- `counter[key] += 1`
unfoldable pub count_up : Counter → ServerKey → Counter
count_up [] key = (key, 1) ∷ []
count_up ((k, n) ∷ counter) key =
    let rest = count_up counter key in
    if same_key k key then (k, suc n) ∷ counter else (k, n) ∷ rest

-- The variables of `Operations`, with the world and the handles of the servers that were started
-- (`_spawned` of vsearch/processes.py, each by the numbers of its server).
pub record Session (W : Type 0) : Type 0 where
  pub world : W
  pub journal : List JournalEntry
  pub restarts : Counter
  pub spawned : List ServerKey

unfoldable pub new_session : {W : Type 0} → W → Session W
new_session w = record { world = w; journal = []; restarts = []; spawned = [] }

pub record Settings : Type 0 where
  pub dry_run : Bool
  pub max_restarts : ℕ
  pub start_timeout : ℕ

-- What the operations ask of a coordinator: the shards that gave no answer to one search, with the time
-- it took in words, and a repair. `log_text` is the text of a log file as lines, if there is one, `clock` the
-- time in milliseconds, and `detail` the name of a status and its details.
pub record Searcher (W : Type 0) : Type 0 where
  pub search_partial : State → (dim : ℕ) → Act W (List ℕ × Text)
  pub repair : State → Act W (List ReplicaSync)
  pub log_text : ServerKey → Act W (Option (List Text))
  pub clock : W → W × ℕ
  pub detail : Error → Text

-- `OUTCOMES`
abbrev pub fixed : Text
fixed = codes "fixed"

abbrev pub needs_a_person : Text
needs_a_person = codes "needs a person"

abbrev pub nothing_wrong : Text
nothing_wrong = codes "nothing wrong"

abbrev pub max_log_lines : ℕ
max_log_lines = 100

-- `on_world` runs an action of the world in a session.
abbrev pub on_world : {W A : Type 0} → Act W A → Act (Session W) A
on_world act s = let (w, result) = act s.world in (record s { world = w }, result)

-- The last of some texts.
abbrev pub last_text : List Text → Option Text
last_text [] = none
last_text (text ∷ []) = some text
last_text (text ∷ next ∷ texts) = last_text (next ∷ texts)

-- `report or ""`
abbrev pub or_blank : Option Text → Text
or_blank none = []
or_blank (some report) = report

-- `claimed_outcome`: `findall` gives the outcomes in the lines that match, `lower` is `str.lower`.
unfoldable pub claimed_outcome : (Text → List Text) → (Text → Text) → Option Text → Option Text
claimed_outcome findall lower report = elim (last_text (findall (or_blank report))) [
  | none ↦ none
  | some found ↦ some (lower found)
]

-- `next(s for s in health if (s.shard, s.replica) == key)`
unfoldable pub find_server : List ServerHealth → ServerKey → Result ServerHealth
find_server [] key = err Error.stop_iteration
find_server (s ∷ health) key =
    let rest = find_server health key in if same_key (s.shard, s.replica) key then ok s else rest
