-- ===== src/Prelude/Errors.antt =====
-- Python's exceptions as values. Each constructor of `Error` is an exception that the code raises
-- itself or lets through from an operation it relies on; `out_of_fuel` is none, but the end of the fuel
-- that a loop of the model runs on.
use Prim.Native.Nat.{ℕ}
use mathlib.Core.List.{List}
use mathlib.Core.Path.{◌≡◌, refl}
use mathlib.Core.Bool.{Bool, true, false, not}

pub data Error : Type 0 where
  out_of_fuel value_error key_error index_error type_error stop_iteration zero_division out_of_order
        runtime_error shape_error decode_error struct_error :
      Error
  -- `grpc.RpcError`, by the code of its status.
  rpc_unavailable rpc_deadline_exceeded rpc_failed : Error
  shard_unavailable : (shards : List ℕ) → Error
  replicas_out_of_sync : (shard : ℕ) → Error
  -- `UserError` of vsearch/state.py and `ToolError` of vsearch/mcp.py, with their texts.
  user_error tool_error : (message : List ℕ) → Error

-- What a call returns: the exception that it raises, or its value.
pub data Result {ℓ} (V : Type ℓ) : Type ℓ where
  err : (raised : Error) → Result V
  ok : (value : V) → Result V

abbrev pub guard : (test : Bool) → (raised : Error) → Result (Unit {0})
guard false raised = err raised
guard true raised = ok tt

infixl 5 ◌>>=◌
abbrev pub ◌>>=◌ {ℓ κ} : {V : Type ℓ} {W : Type κ} → Result V → (V → Result W) → Result W
err raised >>= next = err raised
ok value >>= next = next value

infixl 5 ◌>>◌
abbrev pub ◌>>◌ {κ} : {W : Type κ} → Result (Unit {0}) → Result W → Result W
first >> second = first >>= λ done. second

-- A sequence that returns: what its first call returned, and the rest.
pub >>=-eq-ok {ℓ κ} :
    {V : Type ℓ} {W : Type κ} (first : Result V) (next : V → Result W) {w : W}
    → (first >>= next) ≡ ok w
    → (v : V) × (first ≡ ok v) × (next v ≡ ok w)
>>=-eq-ok (err raised) next e = cc
>>=-eq-ok (ok v) next e = (v, refl, e)

-- Inversion of a guard.
pub guard-not {ℓ} :
    {B : Type ℓ} (b : Bool) (e : Error) (k : Result B) (r : B)
    → (guard (not b) e >> k) ≡ ok r
    → (b ≡ false) × (k ≡ ok r)
guard-not true e k r h = cc
guard-not false e k r h = (refl, h)

pub guard-true {ℓ} :
    {B : Type ℓ} (b : Bool) (e : Error) (k : Result B) (r : B)
    → (guard b e >> k) ≡ ok r
    → (b ≡ true) × (k ≡ ok r)
guard-true true e k r h = (refl, h)
guard-true false e k r h = cc
