-- ===== src/Ops/Kept.antt =====
-- The tools and the runbook of vsearch/ops.py, in terms of what a restart and a repair do to a relation on
-- sessions.
use distributed_vector_searc.Prelude.{
  [], ◌∷◌, ℕ, Bool, true, false, none, some, Error, ◌≡◌, Bool-cases, inl, inr, Option-cases,
  List-cases, All, List, ◌∷◌,
}
use distributed_vector_searc.Python.Json.{Fields, Json, end}
use distributed_vector_searc.Python.Text.{Text, codes}
use distributed_vector_searc.Ops.Runbook.{
  restart_down, run_runbook, repair_notes, noted, restart_note, key_arguments,
}
use distributed_vector_searc.Actions.{◌>>=◌, give, lift, raise}
use distributed_vector_searc.Actions.Within.{Within, >>=-Within}
use distributed_vector_searc.State.{State, Server}
use distributed_vector_searc.Ops.Changing.{
  behind, repair, restart_within, repair_now, restart_server, refusal,
}
use distributed_vector_searc.Ops.Within.{Frame, Looking, cluster_health-Within}
use distributed_vector_searc.State.Machines.{Machines, cluster_health}
use distributed_vector_searc.Ops.{Searcher, Settings, Session, find_server}
use distributed_vector_searc.Ops.Tools.{
  tools, call_log, call_restart, make_tool, number_argument, call_status, call_repair, call_probe,
  lines_argument, dict_of,
}
use distributed_vector_searc.Mcp.{Tool}
use distributed_vector_searc.Health.{ServerHealth}
use distributed_vector_searc.Mcp.Values.{get}
use distributed_vector_searc.Health.Describe.{name_of}
use distributed_vector_searc.Ops.Frame.{
  journaled-Within, health-Within, state-Within, log-Within, probe-Within, pick_server-Within,
  status-Within, on_world-Within,
}

module _ {W : Type 0} (f : Frame W) (machines : Machines W) (searcher : Searcher W)
    (settings : Settings) (looks : Looking f.outer machines searcher) where
  -- What is asked of a restart, once the checks are passed, and of a repair.
  module _
      (restarts : (state : State) (shard replica : ℕ) (server : Server)
        → Within f.inner (restart_within machines searcher settings state shard replica server))
      (repairs : settings.dry_run ≡ false
        → Within f.inner (repair_now machines searcher settings)) where
    restart_server-Within :
        (shard replica : ℕ)
        → Within f.inner (restart_server machines searcher settings shard replica)
    unfolding restart_server
    restart_server-Within shard replica =
        >>=-Within f.inner _ _ (state-Within f machines searcher settings looks) (λ state.
          >>=-Within f.inner _ _
            ((pick_server-Within f machines searcher settings looks) state shard replica)
            (λ server.
              >>=-Within f.inner _ _
                ((on_world-Within f machines searcher settings looks)
                  (cluster_health machines state)
                  (cluster_health-Within f.outer machines searcher looks state))
                (λ seen.
                  >>=-Within f.inner (lift (find_server seen (shard, replica))) _ f.inner.same
                    (λ current. refused state shard replica server current))))
      where
        refused :
            (state : State) (shard replica : ℕ) (server : Server) (current : ServerHealth)
            → Within f.inner
                (elim (refusal machines searcher settings (name_of shard replica) state current) [
                  | some text ↦ raise (Error.tool_error text)
                  | none ↦ restart_within machines searcher settings state shard replica server
                ])
        refused state shard replica server current =
            elim (Option-cases
              (refusal machines searcher settings (name_of shard replica) state current)) [
                | inl h ↦ rw h (restarts state shard replica server)
                | inr (text, h) ↦ rw h f.inner.same
              ]

    repair-Within : Within f.inner (repair machines searcher settings)
    unfolding repair
    repair-Within =
        >>=-Within f.inner _ _ (health-Within f machines searcher settings looks) (λ now.
          elim (List-cases (behind now)) [
            | inl h ↦ rw h f.inner.same
            | inr (part, parts, h) ↦ rw h (elim (Bool-cases settings.dry_run) [
              | inl e ↦ rw e f.inner.same
              | inr e ↦ rw e (repairs e)
            ])
          ])

    restart_call-Within :
        (arguments : Fields) → Within f.inner (call_restart machines searcher settings arguments)
    unfolding call_restart
    restart_call-Within arguments =
        (journaled-Within f machines searcher settings looks) _ arguments _ (
          >>=-Within f.inner (lift (number_argument (get (codes "shard") arguments))) _ f.inner.same
            (λ shard.
              >>=-Within f.inner (lift (number_argument (get (codes "replica") arguments))) _
                f.inner.same (restart_server-Within shard)))

    log_call-Within :
        (arguments : Fields) → Within f.inner (call_log machines searcher settings arguments)
    unfolding call_log
    log_call-Within arguments =
        (journaled-Within f machines searcher settings looks) _ arguments _ (
          >>=-Within f.inner (lift (number_argument (get (codes "shard") arguments))) _ f.inner.same
            (λ shard.
              >>=-Within f.inner (lift (number_argument (get (codes "replica") arguments))) _
                f.inner.same
                (λ replica.
                  >>=-Within f.inner (lift (lines_argument (get (codes "lines") arguments))) _
                    f.inner.same ((log-Within f machines searcher settings looks) shard replica))))

    status_call-Within :
        (arguments : Fields) → Within f.inner (call_status machines searcher settings arguments)
    unfolding call_status
    status_call-Within arguments =
        (journaled-Within f machines searcher settings looks) _ arguments _
          (status-Within f machines searcher settings looks)

    repair_call-Within :
        (arguments : Fields) → Within f.inner (call_repair machines searcher settings arguments)
    unfolding call_repair
    repair_call-Within arguments =
        (journaled-Within f machines searcher settings looks) _ arguments _ repair-Within

    probe_call-Within :
        (arguments : Fields) → Within f.inner (call_probe machines searcher settings arguments)
    unfolding call_probe
    probe_call-Within arguments =
        (journaled-Within f machines searcher settings looks) _ arguments _
          (probe-Within f machines searcher settings looks)

    restart_down-Within :
        (servers : List ServerHealth)
        → Within f.inner (restart_down machines searcher settings servers)
    unfolding restart_down
    restart_down-Within [] = f.inner.same
    restart_down-Within (server ∷ servers) = down-Within (restart_down-Within servers) server.up
      where
        down-Within :
            Within f.inner (restart_down machines searcher settings servers)
            → (up : Bool)
            → Within f.inner (elim up [
              | true ↦ restart_down machines searcher settings servers
              | false ↦ do
                note ←
                    noted
                      (restart_note server)
                      (call_restart machines searcher settings (key_arguments server))
                notes ← restart_down machines searcher settings servers
                give (note ∷ notes)
            ])
        down-Within rest true = rest
        down-Within rest false =
            >>=-Within f.inner
              (noted (restart_note server)
                (call_restart machines searcher settings (key_arguments server)))
              _ (restart_call-Within (key_arguments server))
              (λ note. >>=-Within f.inner _ _ rest (λ notes. f.inner.same))

    -- The runbook keeps what its tools keep.
    pub run_runbook-Within : Within f.inner (run_runbook machines searcher settings)
    unfolding run_runbook
    run_runbook-Within = >>=-Within f.inner _ _ (status_call-Within end) (λ status.
        >>=-Within f.inner _ _ (health-Within f machines searcher settings looks) (λ servers.
          >>=-Within f.inner _ _ (restart_down-Within servers) (λ restarted.
            >>=-Within f.inner (noted repair_notes (call_repair machines searcher settings end)) _
              (repair_call-Within end)
              (λ repaired.
                >>=-Within f.inner _ _ (probe_call-Within end) (λ probed. f.inner.same)))))

    -- A tool whose handler keeps the relation, for every argument.
    abbrev pub ToolWithin : Tool (Session W) → Type 0
    ToolWithin tool =
        (s : Session W) (arguments : Json) → f.inner.rel s (tool.handler s arguments).0

    pub tools-Within :
        (describe : Error → Text × Text)
        → All ToolWithin (tools machines searcher settings describe)
    unfolding tools make_tool
    tools-Within describe = (
      λ s arguments. status_call-Within (dict_of arguments) s,
      (
        λ s arguments. restart_call-Within (dict_of arguments) s,
        (
          λ s arguments. repair_call-Within (dict_of arguments) s,
          (
            λ s arguments. log_call-Within (dict_of arguments) s,
            (λ s arguments. probe_call-Within (dict_of arguments) s, tt),
          ),
        ),
      ),
    )
