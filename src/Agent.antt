-- ===== src/Agent.antt =====
-- `run_agent` and `ScriptedModel` of vsearch/agent.py. A language model is a parameter: a state, and a
-- step from the outcomes of the last turn to the next turn. The journal is left out.
pub mod Bounds
pub mod Within
pub mod Tests
use distributed_vector_searc.Prelude.{
  ℕ, zero, suc, ◌+◌, Bool, true, false, List, [], ◌∷◌, ◌++◌, map, Option, none, some, Result, Error,
  ok, err, ◌>>=◌, if◌then◌else◌, length, list_ord, nat_ord,
}
use distributed_vector_searc.Python.Text.{Text, codes}
use distributed_vector_searc.Python.Json.{Json, Fields, obj}
use distributed_vector_searc.Python.Sorting.{sorted}
use distributed_vector_searc.Mcp.{Repr, Tool, run_tool}
use distributed_vector_searc.Mcp.Server.{find_tool}

pub record ToolCall : Type 0 where
  pub id : Text
  pub name : Text
  pub arguments : Fields
  pub problem : Option Text

pub record Turn : Type 0 where
  pub text : Text
  pub calls : List ToolCall

pub record ToolOutcome : Type 0 where
  pub call : ToolCall
  pub text : Text
  pub is_error : Bool

pub record AgentRun : Type 0 where
  pub report : Text
  pub finished : Bool
  pub steps : ℕ
  pub calls : ℕ

-- `model.step`, in a state `M`.
pub record Model (M : Type 0) : Type 0 where
  pub step : M → Option (List ToolOutcome) → M × Result Turn

-- The variables of the loop, with the state of the model and of the world of the tools.
pub record Run (M W : Type 0) : Type 0 where
  pub model : M
  pub world : W
  pub outcomes : Option (List ToolOutcome)
  pub calls : ℕ
  pub text : Text

-- `turn.text or text`
abbrev pub or_text : Text → Text → Text
or_text [] text = text
or_text (c ∷ said) text = c ∷ said

-- `if call.problem`
abbrev pub problem_of : Option Text → Option Text
problem_of none = none
problem_of (some []) = none
problem_of (some (c ∷ text)) = some (c ∷ text)

module _ {W : Type 0} (repr : Repr) (tools : List (Tool W)) where
  -- The outcome of one call of a turn.
  unfoldable pub call_outcome : ToolCall → W → W × Result ToolOutcome
  unfolding find_tool run_tool sorted
  call_outcome call w = elim (problem_of call.problem) [
    | some problem ↦ (w, ok (record { call = call; text = problem; is_error = true }))
    | none ↦ elim (find_tool call.name tools) [
      | none ↦ (
        w,
        ok (record {
          call = call;
          text =
              codes "There is no tool named "
              ++ repr.text call.name
              ++ codes ". The tools are "
              ++ repr.texts (sorted (map (λ t. t.name) tools))
              ++ codes ".";
          is_error = true;
        }),
      )
      | some tool ↦
          let (w', ran) = run_tool repr tool (obj call.arguments) w in
          (w', ran >>= λ r. ok (record { call = call; text = r.0; is_error = r.1 }))
    ]
  ]

  unfoldable pub call_outcomes : List ToolCall → W → W × Result (List ToolOutcome)
  unfolding call_outcome
  call_outcomes [] w = (w, ok [])
  call_outcomes (call ∷ calls) w =
      let (w', first) = call_outcome call w in
      elim first [
        | err e ↦ (w', err e)
        | ok outcome ↦
            let (w'', rest) = call_outcomes calls w' in
            (w'', rest >>= λ outcomes. ok (outcome ∷ outcomes))
      ]

  module _ {M : Type 0} (model : Model M) where
    -- `for step in range(1, max_steps + 1)`: `left` steps are left after `taken`.
    unfoldable pub agent_loop : ℕ → ℕ → Run M W → Run M W × Result AgentRun
    unfolding call_outcomes
    agent_loop zero taken r =
        (r, ok (record { report = r.text; finished = false; steps = taken; calls = r.calls }))
    agent_loop (suc left) taken r =
        let (m, stepped) = model.step r.model r.outcomes in
        elim stepped [
          | err e ↦ (record r { model = m }, err e)
          | ok turn ↦ elim turn.calls [
            | [] ↦ (
              record r { model = m },
              ok (record {
                report = turn.text;
                finished = true;
                steps = suc taken;
                calls = r.calls;
              }),
            )
            | call ∷ calls ↦
                let (w, outcomes) = call_outcomes (call ∷ calls) r.world in
                elim outcomes [
                  | err e ↦ (record r { model = m; world = w }, err e)
                  | ok done ↦ agent_loop left (suc taken) (record {
                    model = m;
                    world = w;
                    outcomes = some done;
                    calls = r.calls + length (call ∷ calls);
                    text = or_text turn.text r.text;
                  })
                ]
          ]
        ]

    unfoldable pub run_agent : ℕ → M → W → Run M W × Result AgentRun
    unfolding agent_loop
    run_agent max_steps m w =
        agent_loop max_steps 0
          (record { model = m; world = w; outcomes = none; calls = 0; text = [] })

-- An entry of a script: a turn, or a function of the outcomes.
pub data Entry : Type 0 where
  turn : Turn → Entry
  reaction : (Option (List ToolOutcome) → Turn) → Entry

-- `ScriptedModel`: the script that is left and what it was handed.
pub record Script : Type 0 where
  pub entries : List Entry
  pub seen : List (Option (List ToolOutcome))

-- `pop(0)` of an empty list raises.
unfoldable pub scripted_step : Script → Option (List ToolOutcome) → Script × Result Turn
scripted_step script outcomes =
    let seen' = script.seen ++ outcomes ∷ [] in
    elim script.entries [
      | [] ↦ (record { entries = []; seen = seen' }, err Error.index_error)
      | entry ∷ entries ↦ (
        record { entries = entries; seen = seen' },
        ok (elim entry [ turn t ↦ t | reaction react ↦ react outcomes ]),
      )
    ]

abbrev pub scripted_model : Model Script
scripted_model = record { step = scripted_step }
