-- ===== src/State/Tests.antt =====
-- A file of settings of three lines, and a cluster of two shards.
use distributed_vector_searc.Prelude.{
  ℕ, ◌+◌, arith, ltb, true, some, ok, ◌≡◌, refl, List, [], ◌∷◌, ◌++◌, map, none, some, err, Error,
}
use distributed_vector_searc.Python.Text.{Text, codes}
use distributed_vector_searc.Python.Json.{end}
use distributed_vector_searc.Actions.{◌>>=◌, ◌>>◌}
use distributed_vector_searc.State.{State, Server, pick, servers, peer_address}
use distributed_vector_searc.State.Env.{load_env_file}
use distributed_vector_searc.State.Machines.{Machines}
use distributed_vector_searc.State.Stopping.{Signals, stop}
use distributed_vector_searc.State.Stopping.Ended.{Stopped, stop-Stopped}
use distributed_vector_searc.State.Stopping.Waiting.{IsClock}

abbrev unstripped : Text → Text
unstripped text = text

abbrev settings : List Text
settings = codes "export KEY='abc'" ∷ codes "# note=1" ∷ codes "HOME=other" ∷ []

abbrev environ : List (Text × Text)
environ = (codes "HOME", codes "/root") ∷ []

load_env_file_run :
    load_env_file unstripped (some settings) environ
    ≡ (environ ++ (codes "KEY", codes "abc") ∷ [], codes "KEY" ∷ [])
unfolding load_env_file
load_env_file_run = refl

abbrev first : Server
first = record { host = none; port = 50051; peer = some (codes "shard0:50051"); pid = none }

abbrev second : Server
second = record { host = some (codes "db"); port = 50052; peer = none; pid = some 9 }

abbrev two_shards : State
two_shards = record {
  seed = some 42;
  server_args = end;
  servers = (first ∷ []) ∷ (second ∷ []) ∷ [];
  dataset = none;
  managed_by = none;
}

servers_run : servers two_shards ≡ (0, 0, first) ∷ (1, 0, second) ∷ []
unfolding servers
servers_run = refl

pick_run :
    pick two_shards 1 1
    ≡ err (Error.user_error (codes "there is no shard 1 replica 1 in this cluster"))
unfolding pick
pick_run = refl

peer_address_run :
    map peer_address (first ∷ second ∷ []) ≡ codes "shard0:50051" ∷ codes "db:50052" ∷ []
unfolding peer_address
peer_address_run = refl

-- A world that is its time: looking at a process takes 30 milliseconds, and processes run until 100.
abbrev clocks : Machines ℕ
clocks = record {
  read = λ w. (w, ok none);
  write = λ state w. w;
  status = λ address w. (w, none);
  is_ours = λ pid port w. (w + 30, ltb w 100);
  popen = λ shard replica port seed server_args w. (w, ok 9);
  wait_until_ready = λ address timeout w. (w, true);
}

abbrev signals : Signals ℕ
signals = record { kill = λ pid sig w. (w, ok tt); monotonic = λ w. w; sleep = λ time w. w + time }

signals-IsClock : IsClock clocks signals
signals-IsClock = record { looked = λ pid port w. omega arith; slept = λ time w. omega arith }

stop_run : stop clocks signals (first ∷ second ∷ []) 15 0 ≡ (140, ok (some 1))
unfolding stop ◌>>=◌ ◌>>◌
stop_run = refl

stop-Stopped_example :
    Stopped clocks signals
      (first ∷ second ∷ [])
      15
      0
      (stop clocks signals (first ∷ second ∷ []) 15 0)
stop-Stopped_example = stop-Stopped clocks signals signals-IsClock (first ∷ second ∷ []) 15 0
