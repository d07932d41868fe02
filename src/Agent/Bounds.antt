-- ===== src/Agent/Bounds.antt =====
-- The agent's loop keeps to its number of steps.
use distributed_vector_searc.Prelude.{
  refl, some, none, ℕ, zero, suc, ◌+◌, ◌≤◌, ◌≡◌, ap, ◌∙◌, subst, true, false, List, [], ◌∷◌, ◌++◌,
  Option, Result, ok, length, length-append, Result-cases, inl, inr, arith, List-cases,
}
use distributed_vector_searc.Mcp.{Repr, Tool}
use distributed_vector_searc.Agent.{
  Entry, ToolOutcome, AgentRun, Run, Script, or_text, call_outcomes, agent_loop, run_agent,
  scripted_step, scripted_model,
}

-- A run within a limit: the model took `steps` turns, all that there were if the run did not finish.
pub record Within (limit : ℕ) (asked : ℕ) (run : AgentRun) : Type 0 where
  pub at_most : run.steps ≤ limit
  pub cut_off : run.finished ≡ false → run.steps ≡ limit
  pub asked_once : asked ≡ run.steps

-- The same of what the loop leaves, if it returns.
abbrev AllWithin : {W : Type 0} → ℕ → Run Script W × Result AgentRun → Type 0
AllWithin limit out = (run : AgentRun) → out.1 ≡ ok run → Within limit (length out.0.model.seen) run

asked_again :
    (script : Script) (outcomes : Option (List ToolOutcome))
    → length (scripted_step script outcomes).0.seen ≡ suc (length script.seen)
unfolding scripted_step
asked_again script outcomes =
    let grown : length (script.seen ++ outcomes ∷ []) ≡ suc (length script.seen) =
      omega (arith, length-append script.seen (outcomes ∷ [])) in
    elim (List-cases script.entries) [
      | inl e ↦ rw (e, scripted_step) grown
      | inr (entry, entries, e) ↦ rw (e, scripted_step) grown
    ]

module _ {W : Type 0} (repr : Repr) (tools : List (Tool W)) where
  agent_loop-AllWithin :
      (left taken : ℕ) (r : Run Script W)
      → length r.model.seen ≡ taken
      → AllWithin (taken + left) (agent_loop repr tools scripted_model left taken r)
  unfolding agent_loop
  agent_loop-AllWithin zero taken r seen = λ run h.
      let last : AgentRun = record {
        report = r.text;
        finished = false;
        steps = taken;
        calls = r.calls;
      } in
      let same : last ≡ run = cc in
      let within : Within (taken + 0) (length r.model.seen) last = record {
        at_most = omega arith;
        cut_off = λ k. omega arith;
        asked_once = seen;
      } in
      subst (Within (taken + 0) (length r.model.seen)) same within
  agent_loop-AllWithin (suc left) taken r seen =
      let again = asked_again r.model r.outcomes ∙ ap suc seen in
      elim (Result-cases (scripted_step r.model r.outcomes).1) [
        | inl (e, k) ↦ rw (k, agent_loop) (λ run h. cc)
        | inr (said, k) ↦
            rw (k, agent_loop)
              (elim (List-cases said.calls) [
                | inl none_asked ↦ rw none_asked (λ run h.
                    let last : AgentRun = record {
                      report = said.text;
                      finished = true;
                      steps = suc taken;
                      calls = r.calls;
                    } in
                    let same : last ≡ run = cc in
                    let within : Within (taken + suc left)
                        (length (scripted_step r.model r.outcomes).0.seen) last =
                      record { at_most = omega arith; cut_off = λ k. cc; asked_once = again } in
                    subst
                      (Within (taken + suc left) (length (scripted_step r.model r.outcomes).0.seen))
                      same within)
                | inr (call, calls, some_asked) ↦
                    rw some_asked
                      (elim (Result-cases (call_outcomes repr tools (call ∷ calls) r.world).1) [
                        | inl (e, ran) ↦ rw ran (λ run h. cc)
                        | inr (done, ran) ↦
                            let total : suc taken + left ≡ taken + suc left = omega arith in
                            let next : Run Script W = record {
                              model = (scripted_step r.model r.outcomes).0;
                              world = (call_outcomes repr tools (call ∷ calls) r.world).0;
                              outcomes = some done;
                              calls = r.calls + length (call ∷ calls);
                              text = or_text said.text r.text;
                            } in
                            let rest = agent_loop-AllWithin left (suc taken) next again in
                            rw ran (
                              subst
                                (λ limit.
                                  AllWithin limit
                                    (agent_loop repr tools scripted_model left (suc taken) next))
                                total rest)
                      ])
              ])
      ]

  -- If the agent's loop returns with a scripted model, for any script, tools and limit, then it
  -- took no more steps than the limit, exactly the limit if it did not finish, and the model was
  -- asked once for each step and not more.
  pub run_agent-Within :
      (max_steps : ℕ) (script : List Entry) (w : W) (run : AgentRun)
      → (run_agent repr tools scripted_model max_steps (record { entries = script; seen = [] }) w).1
        ≡ ok run
      → Within max_steps
          (length
            (run_agent repr tools scripted_model max_steps
              (record { entries = script; seen = [] })
              w).0.model.seen)
          run
  unfolding run_agent
  run_agent-Within max_steps script w run h =
      let start : Run Script W = record {
        model = record { entries = script; seen = [] };
        world = w;
        outcomes = none;
        calls = 0;
        text = [];
      } in
      let total : 0 + max_steps ≡ max_steps = omega arith in
      subst
        (λ limit.
          Within limit
            (length (agent_loop repr tools scripted_model max_steps 0 start).0.model.seen) run)
        total (agent_loop-AllWithin max_steps 0 start refl run h)
