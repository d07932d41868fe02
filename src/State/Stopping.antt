-- ===== src/State/Stopping.antt =====
-- `stop` of vsearch/processes.py. What it does to a process and to the time is the parameter `Signals`;
-- times are in milliseconds.
pub mod Ended
pub mod Waiting
use distributed_vector_searc.Prelude.{
  ℕ, zero, suc, ◌+◌, ◌*◌, ◌≤◌, ◌≡◌, refl, ap, sym, subst, ◌∙◌, arith, Bool, true, false, ◌&&◌, ltb,
  List, [], ◌∷◌, length, Option, none, some, Result, Error, ok, err, All, Bool-cases, Option-cases,
  inl, inr, if◌then◌else◌,
}
use distributed_vector_searc.Actions.{Act, after, ◌>>=◌, ◌>>◌, give, raise}
use distributed_vector_searc.State.{Server}
use distributed_vector_searc.State.Machines.{Machines, is_running}

-- `os.kill`, `time.monotonic` and `time.sleep`.
pub record Signals (W : Type 0) : Type 0 where
  pub kill : ℕ → ℕ → Act W (Unit {0})
  pub monotonic : W → ℕ
  pub sleep : ℕ → W → W

abbrev pub rounds : ℕ
rounds = 200

module _ {W : Type 0} (machines : Machines W) (system : Signals W) where
  unfoldable pub still_running : List Server → Act W (List Server)
  unfolding is_running
  still_running [] = give []
  still_running (server ∷ targets) = do
    running ← is_running machines server
    rest ← still_running targets
    give (if running then server ∷ rest else rest)

  -- The pid None raises a `TypeError`.
  unfoldable pub kill_server : ℕ → Server → Act W (Unit {0})
  kill_server sig server = elim server.pid [
    | none ↦ raise Error.type_error
    | some pid ↦ system.kill pid sig
  ]

  unfoldable pub kill_all : ℕ → List Server → Act W (Unit {0})
  unfolding kill_server
  kill_all sig [] = give tt
  kill_all sig (server ∷ running) = kill_server sig server >> kill_all sig running

  unfoldable pub any_running : List Server → Act W Bool
  unfolding is_running
  any_running [] = give false
  any_running (server ∷ servers) = do
    running ← is_running machines server
    elim running [ true ↦ give true | false ↦ any_running servers ]

  -- The loop, with the rounds that are left: whether it ended within them.
  unfoldable pub wait_exit : ℕ → ℕ → List Server → Act W Bool
  unfolding any_running
  wait_exit zero deadline servers = give false
  wait_exit (suc left) deadline servers = do
    running ← any_running servers
    λ w. elim (running && ltb (system.monotonic w) deadline) [
      | true ↦ wait_exit left deadline servers (system.sleep 50 w)
      | false ↦ (w, ok true)
    ]

  -- How many servers were signalled, or none if the rounds do not suffice.
  unfoldable pub stop : List Server → ℕ → Act W (Option ℕ)
  unfolding still_running kill_all wait_exit
  stop targets sig = do
    running ← still_running targets
    kill_all sig running
    ended ← λ w. wait_exit (suc rounds) (system.monotonic w + 10000) running w
    give (if ended then some (length running) else none)
