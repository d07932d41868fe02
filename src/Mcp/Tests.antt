-- ===== src/Mcp/Tests.antt =====
-- Runs of a server with one tool, which looks up a word.
use distributed_vector_searc.Prelude.{ℕ, suc, ◌≡◌, refl, false, [], ◌∷◌, none, some, ok}
use distributed_vector_searc.Python.Text.{codes}
use distributed_vector_searc.Python.Json.{
  pos, Json, int, str, arr, obj, nil, cons, Fields, end, field,
}
use distributed_vector_searc.Mcp.{Repr, Tool, returned, run_tool}
use distributed_vector_searc.Mcp.Values.{get}
use distributed_vector_searc.Mcp.Checked.{Ran, run_tool-Ran}
use distributed_vector_searc.Mcp.Server.{McpServer, handle, reply_to, result}
use distributed_vector_searc.Mcp.Replies.{IsRequest, Replies, handle-Replies}

abbrev pub repr : Repr
repr = record { text = λ t. t; texts = λ ts. []; value = λ v. []; plain = λ v. [] }

-- {"properties": {"word": {"type": "string"}, "k": {"type": "integer", "minimum": 1}}, "required": ["word"]}
abbrev pub schema : Fields
schema =
    field (codes "properties")
      (obj (
        field (codes "word") (obj (field (codes "type") (str (codes "string")) end)) (
          field (codes "k")
            (obj (
              field (codes "type") (str (codes "integer"))
                (field (codes "minimum") (int (pos 1)) end)))
            end)))
      (field (codes "required") (arr (cons (str (codes "word")) nil)) end)

-- The state counts the calls.
abbrev pub look_up : Tool ℕ
look_up = record {
  name = codes "look_up";
  description = [];
  input_schema = schema;
  handler = λ w arguments. (suc w, returned (codes "found"));
  mutating = false;
}

abbrev arguments : Fields
arguments = field (codes "word") (str (codes "bat")) (field (codes "k") (int (pos 3)) end)

ran : (run_tool repr look_up (obj arguments) 0).1 ≡ ok (codes "found", false)
unfolding run_tool
ran = refl

run_tool-Ran_example : Ran look_up (obj arguments) 0 (codes "found")
run_tool-Ran_example = run_tool-Ran repr look_up (obj arguments) 0 (codes "found") ran

abbrev too_small : Fields
too_small = field (codes "word") (str (codes "bat")) (field (codes "k") (int (pos 0)) end)

refused_call : (run_tool repr look_up (obj too_small) 0).0 ≡ 0
unfolding run_tool
refused_call = refl

abbrev server : McpServer ℕ
server = record { name = []; version = []; tools = look_up ∷ []; instructions = none }

abbrev ping : Fields
ping = field (codes "method") (str (codes "ping")) (field (codes "id") (int (pos 7)) end)

ping-IsRequest : IsRequest ping (codes "ping") (int (pos 7))
unfolding get
ping-IsRequest = record { has_method = refl; has_id = refl }

pong : (handle repr server (obj ping) 0).1 ≡ ok (some (reply_to (int (pos 7)) (result (obj end))))
unfolding handle
pong = refl

handle-Replies_example :
    (answer : Json) × (some (reply_to (int (pos 7)) (result (obj end))) ≡ some answer)
    × Replies (int (pos 7)) answer
handle-Replies_example =
    handle-Replies repr server ping (codes "ping") (int (pos 7)) 0
      (some (reply_to (int (pos 7)) (result (obj end)))) ping-IsRequest pong
