-- ===== src/Ops/Frame.antt =====
-- What the operations that look do to a relation on sessions, and the journal.
use distributed_vector_searc.Prelude.{
  ℕ, Bool, true, false, Result, Error, ok, err, inl, inr, Option-cases, Result-cases,
}
use distributed_vector_searc.Python.Json.{Fields}
use distributed_vector_searc.Python.Text.{Text}
use distributed_vector_searc.Actions.{Act}
use distributed_vector_searc.Actions.Within.{Within, >>=-Within}
use distributed_vector_searc.State.{State, pick, managed_by}
use distributed_vector_searc.Ops.Within.{Frame, Looking, read_state-Within, cluster_health-Within}
use distributed_vector_searc.State.Machines.{Machines, read_state, cluster_health}
use distributed_vector_searc.Ops.{Searcher, Settings, on_world, Session}
use distributed_vector_searc.Ops.Tools.{written, write_tool, journaled}
use distributed_vector_searc.Ops.Looking.{
  cluster_status, read_server_log, probe_search, pick_server, health, cluster_state, dim_of,
}

module _ {W : Type 0} (f : Frame W) (machines : Machines W) (searcher : Searcher W)
    (settings : Settings) (looks : Looking f.outer machines searcher) where
  pub on_world-Within :
      {A : Type 0} (act : Act W A) → Within f.outer act → Within f.inner (on_world act)
  on_world-Within act h s = f.lifts s (act s.world).0 (h s.world)

  pub health-Within : Within f.inner (health machines searcher)
  unfolding health
  health-Within =
      >>=-Within f.inner _ _
        (on_world-Within (read_state machines) (read_state-Within f.outer machines searcher looks))
        (λ state.
          on_world-Within (cluster_health machines state)
            (cluster_health-Within f.outer machines searcher looks state))

  pub state-Within : Within f.inner (cluster_state machines searcher)
  state-Within =
      on_world-Within (read_state machines) (read_state-Within f.outer machines searcher looks)

  pub status-Within : Within f.inner (cluster_status machines searcher)
  unfolding cluster_status
  status-Within =
      >>=-Within f.inner (health machines searcher) _ health-Within (λ now. f.inner.same)

  pub pick_server-Within :
      (state : State) (shard replica : ℕ)
      → Within f.inner (pick_server machines searcher state shard replica)
  unfolding pick_server
  pick_server-Within state shard replica = elim (Result-cases (pick state shard replica)) [
    | inl (e, h) ↦ rw (h, pick_server) f.inner.same
    | inr (server, h) ↦ rw (h, pick_server) f.inner.same
  ]

  pub log-Within :
      (shard replica lines : ℕ)
      → Within f.inner (read_server_log machines searcher shard replica lines)
  unfolding read_server_log
  log-Within shard replica lines = >>=-Within f.inner _ _ state-Within (λ state.
      >>=-Within f.inner _ _ (pick_server-Within state shard replica) (λ server.
        elim (Option-cases (managed_by state)) [
          | inl h ↦ rw h (
              >>=-Within f.inner _ _
                (on_world-Within (searcher.log_text (shard, replica))
                  (looks.log_text (shard, replica)))
                (λ text. f.inner.same))
          | inr (manager, h) ↦ rw h f.inner.same
        ]))

  pub probe-Within : Within f.inner (probe_search machines searcher)
  unfolding probe_search
  probe-Within = >>=-Within f.inner _ _ state-Within (λ state. elim (Option-cases state.dataset) [
    | inl h ↦ rw h f.inner.same
    | inr (dataset, h) ↦ rw h (
        >>=-Within f.inner _ _
          (on_world-Within (searcher.search_partial state (dim_of dataset))
            (looks.search state (dim_of dataset)))
          (λ answer. f.inner.same))
  ])

  wrote :
      (name : Text) (arguments : Fields) (text : Text) (error : Bool) (s s' : Session W)
      → f.inner.rel s s'
      → f.inner.rel s (write_tool searcher name arguments text error s')
  unfolding write_tool
  wrote name arguments text error s s' h =
      let w = searcher.clock s'.world in
      let s'' : Session W = record s' { world = w.0 } in
      f.inner.trans s s' _ h
        (f.inner.trans s' s'' _ (f.lifts s' w.0 (looks.clock s'.world)) (f.journal s'' _))

  written-Within :
      (name : Text) (arguments : Fields) (s : Session W) (ran : Session W × Result Text)
      → f.inner.rel s ran.0
      → f.inner.rel s (written searcher name arguments ran).0
  unfolding written
  written-Within name arguments s (s', ok text) h = wrote name arguments text false s s' h
  written-Within name arguments s (s', err (Error.tool_error text)) h =
      wrote name arguments text true s s' h
  written-Within name arguments s (s', err (Error.user_error text)) h =
      wrote name arguments text true s s' h
  written-Within name arguments s (s', err _) h = h

  pub journaled-Within :
      (name : Text) (arguments : Fields) (act : Act (Session W) Text)
      → Within f.inner act
      → Within f.inner (journaled searcher name arguments act)
  unfolding journaled
  journaled-Within name arguments act h s = written-Within name arguments s (act s) (h s)
