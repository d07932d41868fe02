-- ===== src/Ops/DryRun.antt =====
-- A run of vsearch/ops.py with `dry_run`.
use distributed_vector_searc.Prelude.{
  ℕ, ◌≡◌, refl, ◌∙◌, true, false, [], Error, Bool-cases, inl, inr, leb, sym,
}
use distributed_vector_searc.Python.Text.{Text}
use distributed_vector_searc.Actions.Within.{Change, Within}
use distributed_vector_searc.State.{State, Server}
use distributed_vector_searc.Ops.Tools.{tools}
use distributed_vector_searc.State.Machines.{Machines}
use distributed_vector_searc.Ops.Within.{Frame, Looking}
use distributed_vector_searc.Ops.{Session, Searcher, Settings, count_of, new_session}
use distributed_vector_searc.Ops.Changing.{restart_within, repair_now}
use distributed_vector_searc.Mcp.{Repr}
use distributed_vector_searc.Agent.{Model, run_agent}
use distributed_vector_searc.Ops.Runbook.{run_runbook}
use distributed_vector_searc.Ops.Kept.{tools-Within, run_runbook-Within}
use distributed_vector_searc.Agent.Within.{agent-Within}

-- What is seen of a world is the same.
abbrev pub same_view : {W X : Type 0} → (W → X) → Change W
same_view view = record {
  rel = λ v w. view v ≡ view w;
  same = λ w. refl;
  trans = λ u v w h k. h ∙ k;
}

-- The same, and no server was started or counted.
abbrev pub untouched : {W X : Type 0} → (W → X) → Change (Session W)
untouched view = record {
  rel = λ s t. (view s.world ≡ view t.world) × (s.spawned ≡ t.spawned) × (s.restarts ≡ t.restarts);
  same = λ s. (refl, refl, refl);
  trans = λ s t u h k. (h.0 ∙ k.0, h.1 ∙ k.1, h.2 ∙ k.2);
}

abbrev pub dry_frame : {W X : Type 0} → (W → X) → Frame W
dry_frame view = record {
  outer = same_view view;
  inner = untouched view;
  lifts = λ s w h. (h, refl, refl);
  journal = λ s entries. (refl, refl, refl);
}

module _ {W X : Type 0} (view : W → X) (machines : Machines W) (searcher : Searcher W)
    (settings : Settings) (dry : settings.dry_run ≡ true) where
  dry_restart :
      (state : State) (shard replica : ℕ) (server : Server)
      → Within
          (untouched view)
          (restart_within machines searcher settings state shard replica server)
  unfolding restart_within
  dry_restart state shard replica server s =
      elim (Bool-cases (leb settings.max_restarts (count_of s.restarts (shard, replica)))) [
        | inl e ↦ rw e (refl, refl, refl)
        | inr e ↦ rw (e, dry) (refl, refl, refl)
      ]

  dry_repair :
      settings.dry_run ≡ false → Within (untouched view) (repair_now machines searcher settings)
  dry_repair wet = cc (dry, wet)

  module _ (looks : Looking (same_view view) machines searcher) where
    -- If the calls that only look keep what is seen of the world, such as its processes and what
    -- its servers hold, then with dry_run a run of an agent keeps it too and starts no server, for
    -- every language model and number of steps, and so does a run of the runbook.
    pub dry_run-untouched :
        {M : Type 0} (repr : Repr) (describe : Error → Text × Text) (model : Model M)
        (max_steps : ℕ) (m : M) (w : W)
        → let agent =
            (run_agent repr
              (tools machines searcher settings describe)
              model
              max_steps
              m
              (new_session w)).0.world in
          let runbook = (run_runbook machines searcher settings (new_session w)).0 in
          ((view agent.world ≡ view w) × (agent.spawned ≡ []))
          × ((view runbook.world ≡ view w) × (runbook.spawned ≡ []))
    unfolding new_session
    dry_run-untouched repr describe model max_steps m w =
        let frame = dry_frame view in
        let ran =
          agent-Within (untouched view) repr (tools machines searcher settings describe)
            (tools-Within frame machines searcher settings looks dry_restart dry_repair describe)
            model max_steps m (new_session w) in
        let procedure =
          run_runbook-Within frame machines searcher settings looks dry_restart dry_repair
            (new_session w) in
        ((sym ran.0, sym ran.1), (sym procedure.0, sym procedure.1))
