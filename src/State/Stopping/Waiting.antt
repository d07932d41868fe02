-- ===== src/State/Stopping/Waiting.antt =====
-- The wait of `stop` of vsearch/processes.py, over a clock that does not run backwards.
use distributed_vector_searc.Prelude.{
  ℕ, zero, suc, ◌+◌, ◌*◌, ◌≤◌, ◌≡◌, refl, ap, sym, subst, arith, Bool, true, false, ◌&&◌, ltb, List,
  [], ◌∷◌, ◌⊎◌, ◌<◌, Result, ok, err, Bool-cases, Option-cases, inl, inr, ltb→lt,
}
use distributed_vector_searc.Actions.{Act, after, ◌>>=◌, give}
use distributed_vector_searc.State.{Server}
use distributed_vector_searc.State.Machines.{Machines, is_running}
use distributed_vector_searc.State.Stopping.{Signals, any_running, wait_exit}

module _ {W : Type 0} (machines : Machines W) (system : Signals W) where
  -- Time does not run backwards while a process is looked at, and a sleep lasts as long as it should.
  pub record IsClock : Type 0 where
    pub looked :
        (pid port : ℕ) (w : W)
        → system.monotonic w ≤ system.monotonic (machines.is_ours pid port w).0
    pub slept :
        (time : ℕ) (w : W) → system.monotonic w + time ≤ system.monotonic (system.sleep time w)

  -- An action that returns, not before it started.
  pub record Answered {A : Type 0} (w : W) (out : W × Result A) : Type 0 where
    pub value : A
    pub returns : out ≡ (out.0, ok value)
    pub later : system.monotonic w ≤ system.monotonic out.0

  Answered-then :
      {A B : Type 0} (w : W) (out : W × Result A) (next : A → Act W B) (a : Answered w out)
      → Answered out.0 (next a.value out.0)
      → Answered w (after out next)
  Answered-then w (w', err e) next a b =
      let wrong : err e ≡ ok a.value = ap (λ x. x.1) a.returns in cc
  Answered-then w (w', ok v) next a b =
      let right : ok v ≡ ok a.value = ap (λ x. x.1) a.returns in
      let same : a.value ≡ v = cc in
      let b' : Answered w' (next v w') = subst (λ u. Answered w' (next u w')) same b in
      record { value = b'.value; returns = b'.returns; later = omega (arith, a.later, b'.later) }

  pub is_running-Answered :
      IsClock → (server : Server) (w : W) → Answered w (is_running machines server w)
  unfolding is_running
  is_running-Answered clock server w = elim (Option-cases server.pid) [
    | inl absent ↦ rw absent (record { value = false; returns = refl; later = omega arith })
    | inr (pid, present) ↦ rw present (record {
      value = (machines.is_ours pid server.port w).1;
      returns = refl;
      later = clock.looked pid server.port w;
    })
  ]

  any_running-Answered :
      IsClock → (servers : List Server) (w : W) → Answered w (any_running machines system servers w)
  unfolding any_running ◌>>=◌
  any_running-Answered clock [] w = record { value = false; returns = refl; later = omega arith }
  any_running-Answered clock (server ∷ servers) w =
      Answered-then w (is_running machines server w)
        (λ running. elim running [ true ↦ give true | false ↦ any_running machines system servers ])
        (is_running-Answered clock server w)
        (found (is_running-Answered clock server w).value (is_running machines server w).0
          (any_running-Answered clock servers (is_running machines server w).0))
    where
      found :
          (running : Bool) (w' : W)
          → Answered w' (any_running machines system servers w')
          → Answered w' (
              (elim running as (λ x. Act W Bool) [
                | true ↦ give true
                | false ↦ any_running machines system servers
              ])
                w')
      found true w' next = record { value = true; returns = refl; later = omega arith }
      found false w' next = next

  -- The loop ended with no server seen running, or not before the deadline.
  pub record Waited (deadline : ℕ) (servers : List Server) (out : W × Result Bool) : Type 0 where
    pub in_time : out.1 ≡ ok true
    pub ended :
        ((last : W) × (any_running machines system servers last ≡ (out.0, ok false)))
        ⊎ deadline ≤ system.monotonic out.0

  -- The body of the loop, once it is known whether a server is running.
  abbrev again : ℕ → ℕ → List Server → Bool → Act W Bool
  again left deadline servers running w = elim (running && ltb (system.monotonic w) deadline) [
    | true ↦ wait_exit machines system left deadline servers (system.sleep 50 w)
    | false ↦ (w, ok true)
  ]

  wait_exit-again :
      (left deadline : ℕ) (servers : List Server) (w : W) (running : Bool)
      → any_running machines system servers w
        ≡ ((any_running machines system servers w).0, ok running)
      → wait_exit machines system (suc left) deadline servers w
        ≡ again left deadline servers running (any_running machines system servers w).0
  unfolding wait_exit ◌>>=◌
  wait_exit-again left deadline servers w running h =
      ap (λ out. after out (again left deadline servers)) h

  again-ended :
      (left deadline : ℕ) (servers : List Server) (w : W) (running : Bool) (w' : W)
      → any_running machines system servers w ≡ (w', ok running)
      → (running && ltb (system.monotonic w') deadline) ≡ false
      → Waited deadline servers (again left deadline servers running w')
  again-ended left deadline servers w running w' h stopped =
      rw (stopped, again) (record { in_time = refl; ended = why running h stopped })
    where
      why :
          (running : Bool)
          → any_running machines system servers w ≡ (w', ok running)
          → (running && ltb (system.monotonic w') deadline) ≡ false
          → ((last : W) × (any_running machines system servers last ≡ (w', ok false)))
            ⊎ deadline ≤ system.monotonic w'
      why false h stopped = inl (w, h)
      why true h stopped = inr (ground (arith, stopped))

  before_deadline :
      (running : Bool) (w : W) (deadline : ℕ)
      → (running && ltb (system.monotonic w) deadline) ≡ true
      → system.monotonic w < deadline
  before_deadline false w deadline h = cc
  before_deadline true w deadline h = ltb→lt (system.monotonic w) deadline h

  pub wait_exit-Waited :
      IsClock
      → (left deadline : ℕ) (servers : List Server) (w : W)
      → deadline ≤ system.monotonic w + 50 * left
      → Waited deadline servers (wait_exit machines system (suc left) deadline servers w)
  wait_exit-Waited clock zero deadline servers w enough =
      let a = any_running-Answered clock servers w in
      let w' = (any_running machines system servers w).0 in
      let late = before_deadline a.value w' deadline in
      subst (Waited deadline servers)
        (sym (wait_exit-again zero deadline servers w a.value a.returns))
        (elim (Bool-cases (a.value && ltb (system.monotonic w') deadline)) [
          | inl goes ↦ absurd (omega (arith, late goes, a.later, enough))
          | inr stopped ↦ again-ended zero deadline servers w a.value w' a.returns stopped
        ])
  wait_exit-Waited clock (suc left) deadline servers w enough =
      let a = any_running-Answered clock servers w in
      let w' = (any_running machines system servers w).0 in
      subst (Waited deadline servers)
        (sym (wait_exit-again (suc left) deadline servers w a.value a.returns))
        (elim (Bool-cases (a.value && ltb (system.monotonic w') deadline)) [
          | inl goes ↦
              rw (goes, again)
                (wait_exit-Waited clock left deadline servers (system.sleep 50 w')
                  (omega (arith, a.later, clock.slept 50 w', enough)))
          | inr stopped ↦ again-ended (suc left) deadline servers w a.value w' a.returns stopped
        ])
