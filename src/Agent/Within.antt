-- ===== src/Agent/Within.antt =====
-- A run of vsearch/agent.py, beside a relation that its tools keep.
use distributed_vector_searc.Prelude.{
  zero, suc, ◌≡◌, Bool, true, false, List, [], ◌∷◌, Option, none, some, All, Option-cases,
  Result-cases, inl, inr, if◌then◌else◌, subst, ℕ, suc, ok, ap, List-cases,
}
use distributed_vector_searc.Python.Text.{Text, text_eq}
use distributed_vector_searc.Python.Json.{Json, obj}
use distributed_vector_searc.Actions.Within.{Change}
use distributed_vector_searc.Mcp.{Repr, Tool, run_tool, check_arguments}
use distributed_vector_searc.Mcp.Server.{find_tool}
use distributed_vector_searc.Agent.{
  call_outcomes, call_outcome, ToolCall, problem_of, Model, agent_loop, run_agent, Run, Turn,
}

module _ {W : Type 0} (P : Tool W → Type 0) where
  -- The later tool of the name, or this one.
  choose-All :
      (b : Bool) (tool : Tool W) (later : Option (Tool W)) (found : Tool W)
      → P tool
      → ((t : Tool W) → later ≡ some t → P t)
      → (elim later [ some other ↦ some other | none ↦ if b then some tool else none ]) ≡ some found
      → P found
  choose-All b tool (some other) found h k e = k found e
  choose-All true tool none found h k e = let same : tool ≡ found = cc in subst P same h
  choose-All false tool none found h k e = cc

  find_tool-All :
      (name : Text) (tools : List (Tool W)) (found : Tool W)
      → All P tools
      → find_tool name tools ≡ some found
      → P found
  unfolding find_tool
  find_tool-All name [] found h e = cc
  find_tool-All name (tool ∷ tools) found h e =
      choose-All (text_eq tool.name name) tool (find_tool name tools) found h.0
        (λ t k. find_tool-All name tools t h.1 k) e

module _ {W : Type 0} (c : Change W) (repr : Repr) (tools : List (Tool W))
    (kept : All
      (λ tool. (w : W) (arguments : Json) → c.rel w (tool.handler w arguments).0)
      tools) where
  run_tool-Within :
      (tool : Tool W) (arguments : Json) (w : W)
      → ((w : W) (arguments : Json) → c.rel w (tool.handler w arguments).0)
      → c.rel w (run_tool repr tool arguments w).0
  unfolding run_tool
  run_tool-Within tool arguments w h =
      elim (Result-cases (check_arguments repr tool.input_schema arguments)) [
        | inl (e, k) ↦ rw (k, run_tool) (c.same w)
        | inr (checked, k) ↦ elim (Option-cases checked) [
          | inl l ↦ rw (k, l, run_tool) (h w arguments)
          | inr (problem, l) ↦ rw (k, l, run_tool) (c.same w)
        ]
      ]

  call_outcome-Within : (call : ToolCall) (w : W) → c.rel w (call_outcome repr tools call w).0
  unfolding call_outcome
  call_outcome-Within call w = elim (Option-cases (problem_of call.problem)) [
    | inr (problem, e) ↦ rw (e, call_outcome) (c.same w)
    | inl e ↦ elim (Option-cases (find_tool call.name tools)) [
      | inl h ↦ rw (e, h, call_outcome) (c.same w)
      | inr (tool, h) ↦
          let ran = run_tool-Within tool (obj call.arguments) w (
            find_tool-All
              (λ tool. (w : W) (arguments : Json) → c.rel w (tool.handler w arguments).0) call.name
              tools tool kept h) in
          rw (e, h, call_outcome) ran
    ]
  ]

  call_outcomes-Within :
      (calls : List ToolCall) (w : W) → c.rel w (call_outcomes repr tools calls w).0
  unfolding call_outcomes
  call_outcomes-Within [] w = c.same w
  call_outcomes-Within (call ∷ calls) w =
      let first = call_outcome repr tools call w in
      let step = call_outcome-Within call w in
      elim (Result-cases first.1) [
        | inl (e, h) ↦ rw (h, call_outcomes) step
        | inr (outcome, h) ↦
            rw (h, call_outcomes) (c.trans w first.0 _ step (call_outcomes-Within calls first.0))
      ]

  module _ {M : Type 0} (model : Model M) where
    -- The world of a run after a turn of the model.
    turn-Within :
        (left taken : ℕ) (r : Run M W) (m : M) (turn : Turn)
        → ((r' : Run M W)
            → c.rel r'.world (agent_loop repr tools model left (suc taken) r').0.world)
        → model.step r.model r.outcomes ≡ (m, ok turn)
        → c.rel r.world (agent_loop repr tools model (suc left) taken r).0.world
    unfolding agent_loop
    turn-Within left taken r m turn below e = elim (List-cases turn.calls) [
      | inl h ↦ rw (e, h, agent_loop) (c.same r.world)
      | inr (call, calls, h) ↦
          let done = call_outcomes repr tools (call ∷ calls) r.world in
          let step = call_outcomes-Within (call ∷ calls) r.world in
          elim (Result-cases done.1) [
            | inl (raised, k) ↦ rw (e, h, k, agent_loop) step
            | inr (outcomes, k) ↦ rw (e, h, k, agent_loop) (c.trans r.world done.0 _ step (below _))
          ]
    ]

    agent_loop-Within :
        (left taken : ℕ) (r : Run M W)
        → c.rel r.world (agent_loop repr tools model left taken r).0.world
    unfolding agent_loop
    agent_loop-Within zero taken r = c.same r.world
    agent_loop-Within (suc left) taken r =
        let stepped = model.step r.model r.outcomes in
        elim (Result-cases stepped.1) [
          | inl (raised, h) ↦ rw (h, agent_loop) (c.same r.world)
          | inr (turn, h) ↦
              turn-Within left taken r stepped.0 turn (agent_loop-Within left (suc taken))
                (ap (λ s. (stepped.0, s)) h)
        ]

    pub agent-Within :
        (max_steps : ℕ) (m : M) (w : W) → c.rel w (run_agent repr tools model max_steps m w).0.world
    unfolding run_agent
    agent-Within max_steps m w = agent_loop-Within max_steps 0 _
