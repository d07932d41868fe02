-- ===== src/Ops/Tests.antt =====
-- Runs on a cluster with one server, which is up or not.
use distributed_vector_searc.Actions.{◌>>=◌, ◌>>◌, attempt}
use distributed_vector_searc.Prelude.{
  ◌≤◌, ◌≡◌, refl, Bool, true, false, [], ◌∷◌, ◌++◌, none, some, Error, ok, if◌then◌else◌,
}
use distributed_vector_searc.Python.Text.{Text, codes}
use distributed_vector_searc.Python.Json.{end, int, pos, field}
use distributed_vector_searc.State.{State}
use distributed_vector_searc.Mcp.{Repr}
use distributed_vector_searc.Agent.{Script, scripted_model, Turn, run_agent, turn, scripted_step}
use distributed_vector_searc.Ops.{Searcher, Settings, new_session}
use distributed_vector_searc.Ops.Tools.{tools}
use distributed_vector_searc.Ops.Runbook.{run_runbook}
use distributed_vector_searc.Ops.Limits.{times}
use distributed_vector_searc.State.Machines.{Machines}
use distributed_vector_searc.Ops.Within.{Looking}
use distributed_vector_searc.Ops.DryRun.{same_view, dry_run-untouched}
use distributed_vector_searc.Ops.Restarts.{run_agent-IsLimited}

abbrev lone : State
lone = record {
  seed = some 42;
  server_args = end;
  servers = (record { host = none; port = 50051; peer = none; pid = none } ∷ []) ∷ [];
  dataset = none;
  managed_by = none;
}

-- The world says whether the server is up.
abbrev machines : Machines Bool
machines = record {
  read = λ up. (up, ok (some lone));
  write = λ state up. up;
  status = λ target up.
      (up, if up then some (record { size = 3; last_seq = 4; snapshot_seq = 0 }) else none);
  is_ours = λ pid port up. (up, up);
  popen = λ shard replica port seed server_args up. (true, ok 7);
  wait_until_ready = λ target timeout up. (up, up);
}

abbrev searcher : Searcher Bool
searcher = record {
  search_partial = λ state dim up. (up, ok ([], codes "3"));
  repair = λ state up. (up, ok []);
  log_text = λ key up. (up, ok none);
  clock = λ up. (up, 0);
  detail = λ e. [];
}

abbrev settings : Bool → Settings
settings dry = record { dry_run = dry; max_restarts = 2; start_timeout = 20 }

abbrev describe : Error → Text × Text
describe e = ([], [])

abbrev plain : Repr
plain = record { text = λ t. t; texts = λ ts. []; value = λ v. []; plain = λ v. [] }

abbrev restart_turn : Turn
restart_turn = record {
  text = [];
  calls =
      record {
        id = [];
        name = codes "restart_server";
        arguments = field (codes "shard") (int (pos 0)) (field (codes "replica") (int (pos 0)) end);
        problem = none;
      }
      ∷ [];
}

abbrev script : Script
script = record { entries = turn restart_turn ∷ turn restart_turn ∷ []; seen = [] }

runbook_run :
    (run_runbook machines searcher (settings false) (new_session false)).1
    ≡ ok (codes "Runbook: restarted shard 0 replica 0." ++ 10 ∷ codes "Outcome: fixed")
unfolding run_runbook new_session ◌>>=◌ ◌>>◌ attempt
runbook_run = refl

agent_run :
    (run_agent plain
      (tools machines searcher (settings false) describe)
      scripted_model
      5
      script
      (new_session false)).0.world.spawned
    ≡ (0, 0) ∷ []
unfolding run_agent tools new_session scripted_step ◌>>=◌ ◌>>◌ attempt
agent_run = refl

run_agent-IsLimited_example :
    times
      (0, 0)
      (run_agent plain
        (tools machines searcher (settings false) describe)
        scripted_model
        5
        script
        (new_session false)).0.world.spawned
    ≤ 2
run_agent-IsLimited_example =
    run_agent-IsLimited machines searcher (settings false) plain describe scripted_model 5 script
      false (0, 0)

abbrev up_now : Bool → Bool
up_now up = up

abbrev machines_look : Looking (same_view up_now) machines searcher
machines_look = record {
  read = λ up. refl;
  status = λ target up. refl;
  is_ours = λ pid port up. refl;
  search = λ state dim up. refl;
  log_text = λ key up. refl;
  clock = λ up. refl;
}

dry_run-untouched_example :
    let agent =
      (run_agent plain
        (tools machines searcher (settings true) describe)
        scripted_model
        5
        script
        (new_session false)).0.world in
    let runbook = (run_runbook machines searcher (settings true) (new_session false)).0 in
    ((agent.world ≡ false) × (agent.spawned ≡ []))
    × ((runbook.world ≡ false) × (runbook.spawned ≡ []))
dry_run-untouched_example =
    dry_run-untouched up_now machines searcher (settings true) refl machines_look plain describe
      scripted_model 5 script false
