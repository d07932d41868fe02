-- ===== src/State/Stopping/Ended.antt =====
-- How `stop` of vsearch/processes.py ends.
use distributed_vector_searc.Prelude.{
  ℕ, suc, ◌+◌, ◌≤◌, ◌≡◌, refl, ap, sym, subst, ◌∙◌, arith, Bool, true, false, List, [], ◌∷◌, length,
  ◌⊎◌, Option, none, some, Result, Error, ok, err, All, inl, inr, if◌then◌else◌,
}
use distributed_vector_searc.Actions.{Act, after, ◌>>=◌, ◌>>◌, give}
use distributed_vector_searc.State.{Server}
use distributed_vector_searc.State.Machines.{Machines, is_running}
use distributed_vector_searc.State.Stopping.{
  Signals, rounds, still_running, kill_all, any_running, wait_exit, stop,
}
use distributed_vector_searc.State.Stopping.Waiting.{
  IsClock, is_running-Answered, Waited, wait_exit-Waited,
}

module _ {W : Type 0} (machines : Machines W) (system : Signals W) where
  -- The servers of a list that were seen running, each with the world in which it was.
  abbrev pub Seen : Server → Type 0
  Seen server = (w : W) × ((is_running machines server w).1 ≡ ok true)

  -- The targets that are running: each has been seen running.
  record Found (out : W × Result (List Server)) : Type 0 where
    checked : W
    running : List Server
    returns : out ≡ (checked, ok running)
    seen : All Seen running

  kept-Seen :
      (server : Server) (w w' : W) (b : Bool) (rest : List Server)
      → is_running machines server w ≡ (w', ok b)
      → All Seen rest
      → All Seen (if b then server ∷ rest else rest)
  kept-Seen server w w' true rest h seen = ((w, ap (λ x. x.1) h), seen)
  kept-Seen server w w' false rest h seen = seen

  still_running-Found :
      IsClock machines system
      → (targets : List Server) (w : W) → Found (still_running machines system targets w)
  unfolding still_running ◌>>=◌
  still_running-Found clock [] w = record { checked = w; running = []; returns = refl; seen = tt }
  still_running-Found clock (server ∷ targets) w =
      let a = is_running-Answered machines system clock server w in
      let w' = (is_running machines server w).0 in
      let rest = still_running-Found clock targets w' in
      let kept : Bool → List Server → List Server =
        λ b servers. if b then server ∷ servers else servers in
      record {
        checked = rest.checked;
        running = kept a.value rest.running;
        returns =
            ap
              (λ out.
                after out
                  (λ b. still_running machines system targets >>= λ servers. give (kept b servers)))
              a.returns
            ∙ ap (λ out. after out (λ servers. give (kept a.value servers))) rest.returns;
        seen = kept-Seen server w w' a.value rest.running a.returns rest.seen;
      }

  -- The number of the servers is returned, when none of them was seen running or ten seconds after the signals.
  pub record Counted (running : List Server) (killed : W) (out : W × Result (Option ℕ))
      : Type 0 where
    pub returns : out.1 ≡ ok (some (length running))
    pub ended :
        ((last : W) × (any_running machines system running last ≡ (out.0, ok false)))
        ⊎ system.monotonic killed + 10000 ≤ system.monotonic out.0

  Waited-Counted :
      (running : List Server) (killed : W) (waited : W × Result Bool)
      → Waited machines system (system.monotonic killed + 10000) running waited
      → Counted running killed
          (after waited (λ ended. give (if ended then some (length running) else none)))
  Waited-Counted running killed (w, err e) h = let wrong = h.in_time in cc
  Waited-Counted running killed (w, ok false) h = let wrong = h.in_time in cc
  Waited-Counted running killed (w, ok true) h = record { returns = refl; ended = h.ended }

  -- Only servers that were seen running are signalled. Then a signal raised its error, or their number is
  -- returned.
  pub record Stopped (targets : List Server) (sig : ℕ) (w : W) (out : W × Result (Option ℕ))
      : Type 0 where
    pub checked : W
    pub running : List Server
    pub found : still_running machines system targets w ≡ (checked, ok running)
    pub seen : All Seen running
    pub ended :
        ((e : Error) × (killed : W) × (kill_all machines system sig running checked
            ≡ (killed, err e))
          × (out ≡ (killed, err e)))
        ⊎ ((killed : W) × (kill_all machines system sig running checked ≡ (killed, ok tt))
            × Counted running killed out)

  -- What `stop` does after the signals.
  abbrev wait : List Server → Act W (Option ℕ)
  wait running w =
      after (wait_exit machines system (suc rounds) (system.monotonic w + 10000) running w)
        (λ ended. give (if ended then some (length running) else none))

  stop-found :
      (targets running : List Server) (sig : ℕ) (w checked : W)
      → still_running machines system targets w ≡ (checked, ok running)
      → stop machines system targets sig w
        ≡ after (kill_all machines system sig running checked) (λ done. wait running)
  unfolding stop ◌>>=◌ ◌>>◌
  stop-found targets running sig w checked h =
      ap
        (λ out.
          after out
            (λ servers w'. after (kill_all machines system sig servers w') (λ done. wait servers)))
        h

  -- Let no look at a process set the clock back, and let a sleep last as long as it was asked to.
  -- Then stop ends within 201 looks at the servers, for any targets and signal: every server that
  -- it signals was seen running before, and it raises the error of a signal that failed, or returns
  -- how many it signalled. It returns when a last look has seen none of them running, or not before
  -- ten seconds after the signals.
  pub stop-Stopped :
      IsClock machines system
      → (targets : List Server) (sig : ℕ) (w : W)
      → Stopped targets sig w (stop machines system targets sig w)
  stop-Stopped clock targets sig w =
      let f = still_running-Found clock targets w in
      subst (Stopped targets sig w) (sym (stop-found targets f.running sig w f.checked f.returns))
        (record {
          checked = f.checked;
          running = f.running;
          found = f.returns;
          seen = f.seen;
          ended = signalled f.running (kill_all machines system sig f.running f.checked);
        })
    where
      signalled :
          (running : List Server) (kills : W × Result (Unit {0}))
          → ((e : Error) × (killed : W) × (kills ≡ (killed, err e))
              × (after kills (λ done. wait running) ≡ (killed, err e)))
            ⊎ ((killed : W) × (kills ≡ (killed, ok tt))
                × Counted running killed (after kills (λ done. wait running)))
      signalled running (killed, err e) = inl (e, killed, refl, refl)
      signalled running (killed, ok tt) = inr (
        killed,
        refl,
        Waited-Counted running killed
            (wait_exit machines system (suc rounds) (system.monotonic killed + 10000) running
              killed)
            (wait_exit-Waited machines system clock rounds (system.monotonic killed + 10000) running
              killed (omega arith)),
      )
