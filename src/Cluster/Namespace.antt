-- ===== src/Cluster/Namespace.antt =====
-- Payloads and namespaces: `encode_payloads`, `shard_for_namespace`, `tag_namespace` and `plan_query`
-- of vsearch/cluster.py. A payload is a dict or None; `json.dumps` is the argument `dumps`.
pub mod Keys
pub mod Tagged
pub mod Isolation
use distributed_vector_searc.Prelude.{
  ℕ, zero, ◌%◌, Bool, true, false, ◌||◌, not, List, [], ◌∷◌, map, Option, none, some, Result, Error,
  ok, err, ◌>>=◌, ◌>>◌, guard, ◌==◌, if◌then◌else◌, length, range, replicate, any,
}
use distributed_vector_searc.Python.Text.{Text, text_eq, codes}
use distributed_vector_searc.Python.Json.{Json, str, obj, Fields, end, field}
use distributed_vector_searc.Python.Utf8.{encode}
use distributed_vector_searc.Python.Crc32.{crc32}
use distributed_vector_searc.Filtering.Key.{Filter, normalize_fields}

abbrev pub namespace_field : Text
namespace_field = codes "_namespace"

-- `name in payload`
abbrev pub has_field : Text → Fields → Bool
has_field name end = false
has_field name (field key value rest) = text_eq key name || has_field name rest

-- `dict(payload, name=value)` and `payload[name] = value`: a name that is there keeps its place.
unfoldable pub put_field : Text → Json → Fields → Fields
put_field name value end = field name value end
put_field name value (field key old rest) =
    if text_eq key name then field key value rest else field key old (put_field name value rest)

unfoldable pub shard_for_namespace : Text → ℕ → Result ℕ
unfolding encode crc32
shard_for_namespace namespace num_shards = do
  name ← encode namespace
  if num_shards == 0 then err Error.zero_division else ok (crc32 name % num_shards)

-- The `count` payloads of a write, None for a missing list.
unfoldable pub payloads_or_none : Option (List (Option Fields)) → ℕ → List (Option Fields)
payloads_or_none none count = replicate count none
payloads_or_none (some payloads) count = payloads

abbrev pub right_count : Option (List (Option Fields)) → ℕ → Bool
right_count none count = true
right_count (some payloads) count = length payloads == count

-- `payload and NAMESPACE_FIELD in payload`
abbrev pub is_reserved : Option Fields → Bool
is_reserved none = false
is_reserved (some fields) = has_field namespace_field fields

abbrev pub any_reserved : Option (List (Option Fields)) → Bool
any_reserved none = false
any_reserved (some payloads) = any is_reserved payloads

abbrev pub or_empty : Option Fields → Fields
or_empty none = end
or_empty (some fields) = fields

unfoldable pub tag : Text → Option Fields → Option Fields
unfolding put_field
tag namespace payload = some (put_field namespace_field (str namespace) (or_empty payload))

unfoldable pub tag_with :
    Option (List (Option Fields)) → ℕ → Option Text → Result (Option (List (Option Fields)))
unfolding normalize_fields payloads_or_none tag
tag_with payloads count none = ok payloads
tag_with payloads count (some []) = err Error.value_error
tag_with payloads count (some (c ∷ name)) = do
  checked ← normalize_fields (field namespace_field (str (c ∷ name)) end)
  ok (some (map (tag (c ∷ name)) (payloads_or_none payloads count)))

unfoldable pub tag_namespace :
    Option (List (Option Fields)) → ℕ → Option Text → Result (Option (List (Option Fields)))
unfolding tag_with
tag_namespace payloads count namespace = do
  guard (right_count payloads count) Error.value_error
  guard (not (any_reserved payloads)) Error.value_error
  tag_with payloads count namespace

-- `where` is a dict or None. A filter with no condition is None.
unfoldable pub normalized : Fields → Result (Option Filter)
unfolding normalize_fields
normalized end = ok none
normalized (field name value rest) = do
  filter ← normalize_fields (field name value rest)
  ok (some filter)

unfoldable pub plan_query : Option Fields → Option Text → ℕ → Result (Option Filter × List ℕ)
unfolding normalized put_field shard_for_namespace
plan_query filter none num_shards = do
  guard (not (has_field namespace_field (or_empty filter))) Error.value_error
  conditions ← normalized (or_empty filter)
  ok (conditions, range 0 num_shards)
plan_query filter (some namespace) num_shards = do
  guard (not (has_field namespace_field (or_empty filter))) Error.value_error
  conditions ← normalized (put_field namespace_field (str namespace) (or_empty filter))
  shard ← shard_for_namespace namespace num_shards
  ok (conditions, shard ∷ [])

module _ (dumps : Json → Text) where
  unfoldable pub encode_payload : Option Fields → Text
  encode_payload none = []
  encode_payload (some fields) = dumps (obj fields)

  unfoldable pub encode_payloads : Option (List (Option Fields)) → ℕ → Result (List Text)
  unfolding encode_payload
  encode_payloads none count = ok (replicate count [])
  encode_payloads (some payloads) count =
      if length payloads == count then ok (map encode_payload payloads) else err Error.value_error

-- `json.loads(text) if text else None`
module _ (loads : Text → Result Json) where
  unfoldable pub decode_payload : Text → Result (Option Json)
  decode_payload [] = ok none
  decode_payload (c ∷ text) = do payload ← loads (c ∷ text); ok (some payload)
