-- ===== src/Ops/Looking.antt =====
-- The operations that only look, of vsearch/ops.py.
use distributed_vector_searc.Prelude.{
  ℕ, zero, suc, ◌-◌, List, [], ◌∷◌, ◌++◌, map, none, some, Error, ok, err, min, length, drop,
  nat_ord,
}
use distributed_vector_searc.Actions.{Act, ◌>>=◌, give, raise}
use distributed_vector_searc.Health.{ServerHealth, Problem, find_problems}
use distributed_vector_searc.State.{
  glove, documents, memory, managed_by, pick, Dataset, State, Server,
}
use distributed_vector_searc.Python.Text.{Text, join_with, codes, show_nat}
use distributed_vector_searc.State.Machines.{Machines, read_state, cluster_health}
use distributed_vector_searc.Health.Describe.{sentence, new_line, describe_health, name_of}
use distributed_vector_searc.Ops.{Searcher, Session, on_world, max_log_lines}

-- `task_for`
unfoldable pub listed : List Problem → Text
unfolding sentence join_with
listed problems = join_with new_line (map (λ p. codes "- " ++ sentence p) problems)

unfoldable pub task_for : List Problem → Text
unfolding listed
task_for problems =
    codes "A health check of the cluster found:"
    ++ new_line
    ++ listed problems
    ++ new_line
    ++ new_line
    ++ codes "Investigate and repair it."

-- `verdict` of `cluster_status`
unfoldable pub verdict : List Problem → Text
unfolding listed
verdict [] = codes "No problems found: every server answers and replicas agree."
verdict (p ∷ problems) = codes "Problems:" ++ new_line ++ listed (p ∷ problems)

-- The last `n` lines, and the answer that they make.
unfoldable pub tail_of : ℕ → List Text → List Text
tail_of zero lines = lines
tail_of (suc n) lines = drop (length lines - suc n) lines

unfoldable pub log_answer : List Text → Text
unfolding join_with
log_answer [] = codes "(the log is empty)"
log_answer (line ∷ lines) = join_with new_line (line ∷ lines)

-- `except UserError as err: raise ToolError(str(err))`
unfoldable pub as_tool_error : Error → Error
as_tool_error (Error.user_error text) = Error.tool_error text
as_tool_error e = e

-- `dataset.get("dim", 100)`: the words of GloVe have no "dim".
unfoldable pub dim_of : Dataset → ℕ
dim_of (glove limit dir) = 100
dim_of (documents embedder dim passages sources) = dim
dim_of (memory embedder dim) = dim

unfoldable pub search_report : ℕ → List ℕ → Text → Text
unfolding show_nat join_with
search_report shards [] elapsed =
    codes "A search across all "
    ++ show_nat shards
    ++ codes " shards answered in "
    ++ elapsed
    ++ codes " ms."
search_report shards (shard ∷ missing) elapsed =
    codes "A search got no answer from shard(s) ["
    ++ join_with (codes ", ") (map show_nat (shard ∷ missing))
    ++ codes "]: "
    ++ show_nat (shards - length (shard ∷ missing))
    ++ codes " of "
    ++ show_nat shards
    ++ codes " shards answered, so results are incomplete."

module _ {W : Type 0} (machines : Machines W) (searcher : Searcher W) where
  abbrev pub cluster_state : Act (Session W) State
  cluster_state = on_world (read_state machines)

  unfoldable pub health : Act (Session W) (List ServerHealth)
  unfolding read_state cluster_health
  health = do state ← cluster_state; on_world (cluster_health machines state)

  unfoldable pub cluster_status : Act (Session W) Text
  unfolding health describe_health find_problems verdict
  cluster_status = do
    now ← health
    give (describe_health now ++ new_line ++ verdict (find_problems now))

  -- `_pick`
  unfoldable pub pick_server : State → ℕ → ℕ → Act (Session W) Server
  unfolding pick
  pick_server state shard replica = elim (pick state shard replica) [
    | ok server ↦ give server
    | err e ↦ raise (as_tool_error e)
  ]

  unfoldable pub read_server_log : ℕ → ℕ → ℕ → Act (Session W) Text
  unfolding pick_server managed_by tail_of join_with name_of
  read_server_log shard replica lines = do
    state ← cluster_state
    server ← pick_server state shard replica
    elim (managed_by state) [
      | some manager ↦ raise (
          Error.tool_error (
            codes "the logs of "
            ++ name_of shard replica
            ++ codes " are kept by "
            ++ manager
            ++ codes
                ", not here (e.g. docker compose logs); report that a person should read them."))
      | none ↦ do
        text ← on_world (searcher.log_text (shard, replica))
        give (elim text [
          | none ↦ name_of shard replica ++ codes " has no log file yet."
          | some log ↦ log_answer (tail_of (min lines max_log_lines) log)
        ])
    ]

  unfoldable pub probe_search : Act (Session W) Text
  unfolding dim_of search_report
  probe_search = do
    state ← cluster_state
    elim state.dataset [
      | none ↦ give (codes "The cluster holds no vectors yet, so there is nothing to search.")
      | some dataset ↦ do
        (missing, elapsed) ← on_world (searcher.search_partial state (dim_of dataset))
        give (search_report (length state.servers) missing elapsed)
    ]
