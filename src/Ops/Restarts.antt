-- ===== src/Ops/Restarts.antt =====
-- The limit on restarts through `restart_server`, the tools and a run of an agent, for vsearch/ops.py.
use distributed_vector_searc.Prelude.{
  ℕ, ◌+◌, ◌≤◌, ◌<◌, ◌≡◌, arith, Bool, [], ◌∷◌, ◌++◌, Error, inl, inr, Result-cases, if◌then◌else◌,
  Bool-cases, leb,
}
use distributed_vector_searc.Actions.{◌>>=◌, ◌>>◌, lift}
use distributed_vector_searc.Actions.Within.{
  Within, >>=-Within_from, >>-Within, attempt-Within, >>=-Within,
}
use distributed_vector_searc.State.{State, Server}
use distributed_vector_searc.Ops.{
  Session, ServerKey, Searcher, same_key, count_of, Settings, count_up, find_server, new_session,
}
use distributed_vector_searc.State.Machines.{Machines, spawn, write_state, wait_for, read_state}
use distributed_vector_searc.Ops.Limits.{
  IsLimited, counted-Limited, limit, times-append, times, count_up_lem, world-Limited, limit_frame,
  any_looks,
}
use distributed_vector_searc.Ops.Changing.{
  restart, start_server, late, restart_within, repair_now, repair_failed,
}
use distributed_vector_searc.Ops.Frame.{health-Within}
use distributed_vector_searc.Ops.Kept.{tools-Within}
use distributed_vector_searc.Mcp.{Repr}
use distributed_vector_searc.Python.Text.{Text}
use distributed_vector_searc.Agent.{Model, run_agent}
use distributed_vector_searc.Ops.Tools.{tools}
use distributed_vector_searc.Agent.Within.{agent-Within}

-- A server that was counted can be started once more.
-- With one handle more, the count of it is one more too.
handle_counted :
    (b : Bool) (t n r : ℕ) → r ≡ (if b then 1 else 0) + n → t ≤ n → (if b then 1 else 0) + t ≤ r
handle_counted b t n r h k = ground arith

handle-Limited :
    {W : Type 0} (max_restarts : ℕ) (s : Session W) (key : ServerKey)
    → IsLimited max_restarts s
    → ((k : ServerKey) → count_of (count_up s.restarts key) k ≤ max_restarts)
    → IsLimited max_restarts
        (record s { restarts = count_up s.restarts key; spawned = s.spawned ++ key ∷ [] })
handle-Limited max_restarts s key l h = record {
  started = λ k. rw (times-append k key s.spawned) (
      handle_counted (same_key key k) (times k s.spawned) (count_of s.restarts k) _
        (count_up_lem s.restarts key k) (l.started k));
  counted = h;
}

module _ {W : Type 0} (machines : Machines W) (searcher : Searcher W) (settings : Settings) where
  start_server-Limited :
      (state : State) (shard replica : ℕ) (server : Server) (s : Session W)
      → count_of s.restarts (shard, replica) < settings.max_restarts
      → IsLimited settings.max_restarts s
      → IsLimited settings.max_restarts
          (start_server machines searcher settings state shard replica server s).0
  unfolding start_server ◌>>=◌ ◌>>◌
  start_server-Limited state shard replica server s h l =
      let counted : Session W = record s { restarts = count_up s.restarts (shard, replica) } in
      let one = counted-Limited machines searcher settings s (shard, replica) h l in
      elim (Result-cases (spawn machines state shard replica server s.world).1) [
        | inl (e, k) ↦ rw k (record { started = one.started; counted = one.counted })
        | inr (state', k) ↦
            let kept = handle-Limited settings.max_restarts s (shard, replica) l one.counted in
            rw k (record { started = kept.started; counted = kept.counted })
      ]

  late-Within :
      (shard replica : ℕ) (e : Error)
      → Within (limit machines searcher settings) (late machines searcher settings shard replica e)
  unfolding late
  late-Within shard replica = elim [ Error.user_error text ↦ λ s l. l | _ ↦ λ s l. l ]

  restart-Limited :
      (state : State) (shard replica : ℕ) (server : Server) (s : Session W)
      → count_of s.restarts (shard, replica) < settings.max_restarts
      → IsLimited settings.max_restarts s
      → IsLimited settings.max_restarts
          (restart machines searcher settings state shard replica server s).0
  unfolding restart
  restart-Limited state shard replica server s h =
      let c = limit machines searcher settings in
      >>=-Within_from c s (start_server machines searcher settings state shard replica server) _
        (start_server-Limited state shard replica server s h)
        (λ state'.
          >>-Within c _ _ (world-Limited machines searcher settings (write_state machines state')) (
            >>-Within c _ _
              (attempt-Within c _ _
                (world-Limited machines searcher settings
                  (wait_for machines ((shard, replica, server) ∷ []) settings.start_timeout))
                (late-Within shard replica))
              (>>=-Within c _ _
                (health-Within (limit_frame settings.max_restarts) machines searcher settings
                  (any_looks machines searcher settings))
                (λ now.
                  >>=-Within c (lift (find_server now (shard, replica))) _ c.same
                    (λ back. c.same)))))

  restart_within-Limited :
      (state : State) (shard replica : ℕ) (server : Server)
      → Within
          (limit machines searcher settings)
          (restart_within machines searcher settings state shard replica server)
  unfolding restart_within
  restart_within-Limited state shard replica server s =
      elim (Bool-cases (leb settings.max_restarts (count_of s.restarts (shard, replica)))) [
        | inl e ↦ rw e (λ l. l)
        | inr e ↦ rw e (elim (Bool-cases settings.dry_run) [
          | inl d ↦ rw d (λ l. l)
          | inr d ↦ rw d (restart-Limited state shard replica server s (ground (arith, e)))
        ])
      ]

  repair_failed-Within :
      (e : Error)
      → Within (limit machines searcher settings) (repair_failed machines searcher settings e)
  unfolding repair_failed
  repair_failed-Within e s l = l

  repair_now-Limited :
      Within (limit machines searcher settings) (repair_now machines searcher settings)
  unfolding repair_now
  repair_now-Limited =
      let c = limit machines searcher settings in
      >>=-Within c _ _ (world-Limited machines searcher settings (read_state machines)) (λ state.
        >>=-Within c _ _
          (attempt-Within c _ _ (world-Limited machines searcher settings (searcher.repair state))
            repair_failed-Within)
          (λ synced. c.same))

  -- A run of an agent with the tools of an operator starts each server of a cluster at most
  -- max_restarts times, for every language model, number of steps and limit, and whatever the
  -- machines, the cluster's state and the coordinator do in between.
  pub run_agent-IsLimited :
      {M : Type 0} (repr : Repr) (describe : Error → Text × Text) (model : Model M) (max_steps : ℕ)
      (m : M) (w : W) (key : ServerKey)
      → times key
          (run_agent repr
            (tools machines searcher settings describe)
            model
            max_steps
            m
            (new_session w)).0.world.spawned
        ≤ settings.max_restarts
  unfolding new_session count_of
  run_agent-IsLimited repr describe model max_steps m w key =
      let frame = limit_frame settings.max_restarts in
      let ran =
        agent-Within (limit machines searcher settings) repr
          (tools machines searcher settings describe)
          (tools-Within frame machines searcher settings (any_looks machines searcher settings)
            restart_within-Limited (λ wet. repair_now-Limited) describe)
          model max_steps m (new_session w)
          (record { started = λ k. omega arith; counted = λ k. omega arith }) in
      omega (arith, ran.started key, ran.counted key)
