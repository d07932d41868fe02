-- ===== src/Agent/Tests.antt =====
-- A scripted run that calls a tool that there is not, and then finishes.
use distributed_vector_searc.Prelude.{◌≡◌, refl, true, List, [], ◌∷◌, none, length, ok}
use distributed_vector_searc.Python.Text.{codes}
use distributed_vector_searc.Python.Json.{end}
use distributed_vector_searc.Mcp.Tests.{repr, look_up}
use distributed_vector_searc.Agent.{
  ToolCall, AgentRun, Entry, turn, run_agent, scripted_step, scripted_model,
}
use distributed_vector_searc.Agent.Bounds.{Within, run_agent-Within}

abbrev unknown_call : ToolCall
unknown_call = record { id = []; name = codes "jump"; arguments = end; problem = none }

abbrev script : List Entry
script =
    turn (record { text = []; calls = unknown_call ∷ [] })
    ∷ turn (record { text = codes "done"; calls = [] })
    ∷ []

abbrev report : AgentRun
report = record { report = codes "done"; finished = true; steps = 2; calls = 1 }

reported :
    (run_agent repr (look_up ∷ []) scripted_model 5 (record { entries = script; seen = [] }) 0).1
    ≡ ok report
unfolding run_agent scripted_step
reported = refl

run_agent-Within_example :
    Within 5
      (length
        (run_agent repr
          (look_up ∷ [])
          scripted_model
          5
          (record { entries = script; seen = [] })
          0).0.model.seen)
      report
run_agent-Within_example = run_agent-Within repr (look_up ∷ []) 5 script 0 report reported
