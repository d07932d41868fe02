-- ===== src/Ops/Limits.antt =====
-- The limit on the restarts of a server in vsearch/ops.py: the counts and the starts in the world.
use distributed_vector_searc.Prelude.{
  ℕ, suc, ◌+◌, ◌≡◌, arith, true, List, [], ◌∷◌, ◌++◌, if◌then◌else◌, refl, ◌≤◌, ◌<◌, ◌⊎◌, false,
  inl, inr, Bool-cases,
}
use distributed_vector_searc.Ops.{
  ServerKey, count_of, count_up, same_key, Counter, Session, Searcher, Settings, on_world,
}
use distributed_vector_searc.State.Machines.{Machines}
use distributed_vector_searc.Actions.Within.{Change, Within}
use distributed_vector_searc.Ops.Within.{Frame, Looking}
use distributed_vector_searc.Actions.{Act}

-- How often a server is among the handles of the servers that were started.
abbrev pub times : ServerKey → List ServerKey → ℕ
times key [] = 0
times key (k ∷ keys) = let rest = times key keys in if same_key k key then suc rest else rest

pub times-append :
    (key k : ServerKey) (keys : List ServerKey)
    → times key (keys ++ k ∷ []) ≡ (if same_key k key then 1 else 0) + times key keys
times-append key k [] = ground arith
times-append key k (j ∷ keys) = ground (arith, times-append key k keys)

same_key_trans : (a b c : ServerKey) → same_key a b ≡ true → same_key b c ≡ same_key a c
same_key_trans (a, a') (b, b') (c, c') h = ground arith

same_key-right : (a b c : ServerKey) → same_key b c ≡ true → same_key a b ≡ same_key a c
same_key-right (a, a') (b, b') (c, c') h = ground arith

pub count_up_lem :
    (counter : Counter) (k key : ServerKey)
    → count_of (count_up counter k) key ≡ (if same_key k key then 1 else 0) + count_of counter key
unfolding count_of count_up
count_up_lem [] k key = ground arith
count_up_lem ((j, n) ∷ counter) k key =
    ground (arith, count_up_lem counter k key, same_key_trans j k key)

count_of-same :
    (counter : Counter) (k key : ServerKey)
    → same_key k key ≡ true
    → count_of counter k ≡ count_of counter key
unfolding count_of
count_of-same [] k key h = refl
count_of-same ((j, n) ∷ counter) k key h =
    ground (arith, count_of-same counter k key h, same_key-right j k key h)

-- No server was started more often than it was counted, nor counted more often than the limit.
pub record IsLimited {W : Type 0} (max_restarts : ℕ) (s : Session W) : Type 0 where
  pub started : (key : ServerKey) → times key s.spawned ≤ count_of s.restarts key
  pub counted : (key : ServerKey) → count_of s.restarts key ≤ max_restarts

abbrev pub keeps_limit : {W : Type 0} → ℕ → Change (Session W)
keeps_limit max_restarts = record {
  rel = λ s t. IsLimited max_restarts s → IsLimited max_restarts t;
  same = λ s h. h;
  trans = λ s t u h k l. k (h l);
}

-- Every change of the world.
abbrev pub any_change : {W : Type 0} → Change W
any_change = record { rel = λ v w. Unit {0}; same = λ w. tt; trans = λ u v w h k. tt }

abbrev pub limit_frame : {W : Type 0} → ℕ → Frame W
limit_frame max_restarts = record {
  outer = any_change;
  inner = keeps_limit max_restarts;
  lifts = λ s w h l. record { started = l.started; counted = l.counted };
  journal = λ s entries l. record { started = l.started; counted = l.counted };
}

module _ {W : Type 0} (machines : Machines W) (searcher : Searcher W) (settings : Settings) where
  pub any_looks : Looking any_change machines searcher
  any_looks = record {
    read = λ w. tt;
    status = λ target w. tt;
    is_ours = λ pid port w. tt;
    search = λ state dim w. tt;
    log_text = λ key w. tt;
    clock = λ w. tt;
  }

  abbrev pub limit : Change (Session W)
  limit = keeps_limit settings.max_restarts

  pub world-Limited : {A : Type 0} (act : Act W A) → Within limit (on_world act)
  world-Limited act s l = record { started = l.started; counted = l.counted }

  pub counted-Limited :
      (s : Session W) (key : ServerKey)
      → count_of s.restarts key < settings.max_restarts
      → IsLimited settings.max_restarts s
      → IsLimited settings.max_restarts (record s { restarts = count_up s.restarts key })
  counted-Limited s key h l = record {
    started = λ k. omega (arith, l.started k, count_up_lem s.restarts key k);
    counted = λ k. below k (Bool-cases (same_key key k));
  }
    where
      below :
          (k : ServerKey)
          → (same_key key k ≡ true) ⊎ (same_key key k ≡ false)
          → count_of (count_up s.restarts key) k ≤ settings.max_restarts
      below k (inl e) =
          let same : count_of s.restarts key ≡ count_of s.restarts k =
            count_of-same s.restarts key k e in
          ground (arith, count_up_lem s.restarts key k, e, l.counted k)
      below k (inr e) = ground (arith, count_up_lem s.restarts key k, e, l.counted k)
