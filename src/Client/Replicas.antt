-- ===== src/Client/Replicas.antt =====
-- `_replica_order` of vsearch/client.py, and the replicas of a shard by their positions in its group.
use distributed_vector_searc.Prelude.{
  ℕ, suc, ◌%◌, Bool, true, false, not, List, [], ◌∷◌, ◌++◌, none, some, Result, Error, ok, err,
  ◌>>=◌, ◌==◌, length, get_elem?, set, take, drop, keep, range, leb, nat_ord, pair_ord, list_ord,
}
use distributed_vector_searc.Python.Text.{Text}
use distributed_vector_searc.Client.{Replica, Coordinator}

-- `r.down_until <= now`, for the replica at a position of a group.
unfoldable pub is_up : List Replica → ℕ → ℕ → Bool
is_up group now i = elim (get_elem? group i) [ none ↦ false | some r ↦ leb r.down_until now ]

-- The positions of a group of `count`, from `start` on and around.
unfoldable pub rotated : ℕ → ℕ → List ℕ
rotated count start = let positions = range 0 count in drop start positions ++ take start positions

-- The replicas that are up, then those that are down.
unfoldable pub up_first : List Replica → ℕ → List ℕ → List ℕ
unfolding is_up
up_first group now order = keep (is_up group now) order ++ keep (λ i. not (is_up group now i)) order

unfoldable pub replica_order : Coordinator → ℕ → ℕ → Coordinator × Result (List ℕ)
unfolding rotated up_first
replica_order c shard now = elim (get_elem? c.replicas shard) [
  | none ↦ (c, err Error.index_error)
  | some group ↦ elim (get_elem? c.next_replica shard) [
    | none ↦ (c, err Error.index_error)
    | some start ↦ elim (length group == 0) [
      | true ↦ (c, err Error.zero_division)
      | false ↦ (
        record c { next_replica = set c.next_replica shard (suc start % length group) },
        ok (up_first group now (rotated (length group) start)),
      )
    ]
  ]
]

-- `orders`, for the shards to ask.
unfoldable pub orders_for : Coordinator → ℕ → List ℕ → Coordinator × Result (List (ℕ × List ℕ))
unfolding replica_order
orders_for c now [] = (c, ok [])
orders_for c now (shard ∷ targets) =
    let (c', order) = replica_order c shard now in
    elim order [
      | err e ↦ (c', err e)
      | ok order' ↦
          let (c'', orders) = orders_for c' now targets in
          (c'', orders >>= λ rest. ok ((shard, order') ∷ rest))
    ]

-- `self.replicas[shard][i].down_until = time`
unfoldable pub set_down : List (List Replica) → ℕ → ℕ → ℕ → List (List Replica)
set_down groups shard i time = elim (get_elem? groups shard) [
  | none ↦ groups
  | some group ↦ elim (get_elem? group i) [
    | none ↦ groups
    | some r ↦ set groups shard (set group i (record r { down_until = time }))
  ]
]

unfoldable pub address_of : List (List Replica) → ℕ → ℕ → Text
address_of groups shard i = elim (get_elem? groups shard) [
  | none ↦ []
  | some group ↦ elim (get_elem? group i) [ none ↦ [] | some r ↦ r.address ]
]
