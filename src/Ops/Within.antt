-- ===== src/Ops/Within.antt =====
-- What the operations change, in terms of what the world does and of the two steps that change the
-- cluster: a restart, and a repair.
use distributed_vector_searc.Prelude.{ℕ, List, none, some, inl, inr, Option-cases}
use distributed_vector_searc.Actions.Within.{Change, Within, each-Within, >>=-Within}
use distributed_vector_searc.State.{State, Server, address, servers}
use distributed_vector_searc.State.Machines.{
  Machines, cluster_health, ask_server, is_running, read_state, server_status,
}
use distributed_vector_searc.Ops.{Session, Searcher, JournalEntry, ServerKey}
use distributed_vector_searc.Python.Text.{Text}

-- A relation on sessions that a relation on worlds carries, and that writing the journal keeps.
pub record Frame (W : Type 0) : Type 1 where
  pub outer : Change W
  pub inner : Change (Session W)
  pub lifts : (s : Session W) (w : W) → outer.rel s.world w → inner.rel s (record s { world = w })
  pub journal :
      (s : Session W) (entries : List JournalEntry) → inner.rel s (record s { journal = entries })

-- The calls that only look keep a relation on worlds.
pub record Looking {W : Type 0} (c : Change W) (machines : Machines W) (searcher : Searcher W)
    : Type 0 where
  pub read : Within c machines.read
  pub status : (target : Text) (w : W) → c.rel w (machines.status target w).0
  pub is_ours : (pid port : ℕ) (w : W) → c.rel w (machines.is_ours pid port w).0
  pub search : (state : State) (dim : ℕ) → Within c (searcher.search_partial state dim)
  pub log_text : (key : ServerKey) → Within c (searcher.log_text key)
  pub clock : (w : W) → c.rel w (searcher.clock w).0

module _ {W : Type 0} (c : Change W) (machines : Machines W) (searcher : Searcher W)
    (looks : Looking c machines searcher) where
  pub read_state-Within : Within c (read_state machines)
  unfolding read_state
  read_state-Within =
      >>=-Within c machines.read _ looks.read (elim [ none ↦ c.same | some state ↦ c.same ])

  is_running-Within : (server : Server) → Within c (is_running machines server)
  unfolding is_running
  is_running-Within server w = elim (Option-cases server.pid) [
    | inl e ↦ rw e (c.same w)
    | inr (pid, e) ↦ rw e (looks.is_ours pid server.port w)
  ]

  ask_server-Within : (s : ℕ × ℕ × Server) → Within c (ask_server machines s)
  unfolding ask_server server_status
  ask_server-Within (shard, replica, server) =
      >>=-Within c (server_status machines server) _ (λ w. looks.status (address server) w)
        (λ reply.
          >>=-Within c (is_running machines server) _ (is_running-Within server)
            (λ running. c.same))

  pub cluster_health-Within : (state : State) → Within c (cluster_health machines state)
  unfolding cluster_health
  cluster_health-Within state =
      each-Within c (ask_server machines) (servers state) ask_server-Within
