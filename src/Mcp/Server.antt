-- ===== src/Mcp/Server.antt =====
-- `McpServer` of vsearch/mcp.py: the answer to a decoded message. `json.loads` is an argument.
use distributed_vector_searc.Prelude.{
  zero, suc, Bool, true, false, List, [], ◌∷◌, ◌++◌, Option, none, some, Result, Error, ok, err,
  ◌>>=◌, if◌then◌else◌, any,
}
use distributed_vector_searc.Python.Text.{Text, text_eq, codes}
use distributed_vector_searc.Python.Json.{
  ℤ, pos, negsuc, Json, null, bool, int, float, str, arr, obj, Items, nil, cons, Fields, end, field,
}
use distributed_vector_searc.Mcp.{Repr, Tool, run_tool}
use distributed_vector_searc.Mcp.Values.{get, fields_of}

-- The tools have different names.
pub record McpServer (W : Type 0) : Type 0 where
  pub name : Text
  pub version : Text
  pub tools : List (Tool W)
  pub instructions : Option Text

-- `PROTOCOL_VERSIONS`, the newest first.
abbrev pub newest : Text
newest = codes "2025-06-18"

abbrev pub protocol_versions : List Text
protocol_versions = newest ∷ codes "2025-03-26" ∷ codes "2024-11-05" ∷ []

-- -32700, -32600, -32601 and -32602.
abbrev pub parse_error : ℤ
parse_error = negsuc 32699

abbrev pub invalid_request : ℤ
invalid_request = negsuc 32599

abbrev pub method_not_found : ℤ
method_not_found = negsuc 32600

abbrev pub invalid_params : ℤ
invalid_params = negsuc 32601

-- `_error`
unfoldable pub error_reply : Json → ℤ → Text → Json
error_reply request_id code message = obj (
    field (codes "jsonrpc") (str (codes "2.0")) (
      field (codes "id") request_id (
        field (codes "error")
          (obj (field (codes "code") (int code) (field (codes "message") (str message) end))) end)))

-- `_tool_result`
unfoldable pub tool_result : Text → Bool → Json
tool_result text is_error = obj (
    field (codes "content")
      (arr (
        cons (obj (field (codes "type") (str (codes "text")) (field (codes "text") (str text) end)))
          nil))
      (field (codes "isError") (bool is_error) end))

-- The result of a request, or a `_RequestError`.
pub data Answer : Type 0 where
  result : Json → Answer
  refused : ℤ → Text → Answer

-- The reply to a request that has an id.
unfoldable pub reply_to : Json → Answer → Json
unfolding error_reply
reply_to request_id (result value) = obj (
    field (codes "jsonrpc") (str (codes "2.0"))
      (field (codes "id") request_id (field (codes "result") value end)))
reply_to request_id (refused code message) = error_reply request_id code message

-- `value or {}`
unfoldable pub or_empty_dict : Option Json → Json
or_empty_dict none = obj end
or_empty_dict (some null) = obj end
or_empty_dict (some (bool false)) = obj end
or_empty_dict (some (bool true)) = bool true
or_empty_dict (some (int (pos zero))) = obj end
or_empty_dict (some (int (pos (suc n)))) = int (pos (suc n))
or_empty_dict (some (int (negsuc n))) = int (negsuc n)
or_empty_dict (some (float (pos zero) s)) = obj end
or_empty_dict (some (float (pos (suc m)) s)) = float (pos (suc m)) s
or_empty_dict (some (float (negsuc m) s)) = float (negsuc m) s
or_empty_dict (some (str [])) = obj end
or_empty_dict (some (str (c ∷ text))) = str (c ∷ text)
or_empty_dict (some (arr nil)) = obj end
or_empty_dict (some (arr (cons v items))) = arr (cons v items)
or_empty_dict (some (obj fields)) = obj fields

-- `requested if requested in PROTOCOL_VERSIONS else PROTOCOL_VERSIONS[0]`
unfoldable pub version_for : Option Json → Text
version_for (some (str requested)) =
    if any (text_eq requested) protocol_versions then requested else newest
version_for _ = newest

-- The texts of the tools, as `tools/list` gives them.
unfoldable pub tool_items : {W : Type 0} → List (Tool W) → Items
tool_items [] = nil
tool_items (tool ∷ tools) =
    cons
      (obj (
        field (codes "name") (str tool.name) (
          field (codes "description") (str tool.description)
            (field (codes "inputSchema") (obj tool.input_schema) end))))
      (tool_items tools)

-- The tool of a name in `{tool.name: tool for tool in tools}`: the last one with it.
unfoldable pub find_tool : {W : Type 0} → Text → List (Tool W) → Option (Tool W)
find_tool name [] = none
find_tool name (tool ∷ tools) =
    let later = find_tool name tools in
    elim later [
      | some other ↦ some other
      | none ↦ if text_eq tool.name name then some tool else none
    ]

-- `self.tools.get(params.get("name"))`: a list or a dict cannot be looked up.
unfoldable pub tool_for : {W : Type 0} → List (Tool W) → Option Json → Result (Option (Tool W))
unfolding find_tool
tool_for tools (some (str name)) = ok (find_tool name tools)
tool_for tools (some (arr items)) = err Error.type_error
tool_for tools (some (obj fields)) = err Error.type_error
tool_for tools _ = ok none

-- None is null.
abbrev pub or_null : Option Json → Json
or_null none = null
or_null (some value) = value

unfoldable pub instruction_fields : Option Text → Fields
instruction_fields none = end
instruction_fields (some []) = end
instruction_fields (some (c ∷ text)) = field (codes "instructions") (str (c ∷ text)) end

module _ {W : Type 0} (repr : Repr) (server : McpServer W) where
  -- `_initialize`
  unfoldable pub initialize : Fields → Json
  unfolding get version_for instruction_fields
  initialize params = obj (
      field (codes "protocolVersion") (str (version_for (get (codes "protocolVersion") params))) (
        field (codes "capabilities")
          (obj (field (codes "tools") (obj (field (codes "listChanged") (bool false) end)) end))
          (field (codes "serverInfo")
            (obj (
              field (codes "name") (str server.name)
                (field (codes "version") (str server.version) end)))
            (instruction_fields server.instructions))))

  -- `_call_tool`
  unfoldable pub call_tool : Fields → W → W × Result Answer
  unfolding get tool_for or_empty_dict run_tool tool_result
  call_tool params w = elim (tool_for server.tools (get (codes "name") params)) [
    | err e ↦ (w, err e)
    | ok none ↦ (
      w,
      ok (
          refused invalid_params
            (codes "unknown tool: " ++ repr.value (or_null (get (codes "name") params)))),
    )
    | ok (some tool) ↦
        let (w', ran) = run_tool repr tool (or_empty_dict (get (codes "arguments") params)) w in
        (w', ran >>= λ r. ok (result (tool_result r.0 r.1)))
  ]

  -- `_dispatch`. Params that are not a dict have no `get`.
  unfoldable pub dispatch : Text → Json → W → W × Result Answer
  unfolding fields_of initialize tool_items call_tool
  dispatch method params w =
      if text_eq method (codes "initialize")
      then (w, fields_of params >>= λ fields. ok (result (initialize fields)))
      else if text_eq method (codes "ping")
      then (w, ok (result (obj end)))
      else if text_eq method (codes "tools/list")
      then (w, ok (result (obj (field (codes "tools") (arr (tool_items server.tools)) end))))
      else if text_eq method (codes "tools/call")
      then (elim (fields_of params) [ err e ↦ (w, err e) | ok fields ↦ call_tool fields w ])
      else (w, ok (refused method_not_found (codes "method not found: " ++ method)))

  -- A message that is a dict.
  unfoldable pub handle_fields : Fields → W → W × Result (Option Json)
  unfolding get error_reply or_empty_dict dispatch reply_to
  handle_fields message w = elim (get (codes "method") message) [
    | some (str method) ↦ elim (get (codes "id") message) [
      | none ↦ (w, ok none)
      | some request_id ↦
          let (w', answer) = dispatch method (or_empty_dict (get (codes "params") message)) w in
          (w', answer >>= λ a. ok (some (reply_to request_id a)))
    ]
    | _ ↦ (
      w,
      ok (
          some (
            error_reply (or_null (get (codes "id") message)) invalid_request
              (codes "not a JSON-RPC request"))),
    )
  ]

  abbrev pub add_reply : Option Json → Items → Items
  add_reply none replies = replies
  add_reply (some reply) replies = cons reply replies

  -- `replies or None`
  abbrev pub batch_reply : Items → Option Json
  batch_reply nil = none
  batch_reply (cons reply replies) = some (arr (cons reply replies))

  unfoldable mutual
    unfolding handle_fields error_reply

    pub handle : Json → W → W × Result (Option Json)
    handle (arr nil) w = (w, ok (some (error_reply null invalid_request (codes "empty batch"))))
    handle (arr (cons message messages)) w =
        let (w', replies) = handle_all (cons message messages) w in
        (w', replies >>= λ rs. ok (batch_reply rs))
    handle (obj fields) w = handle_fields fields w
    handle _ w = (w, ok (some (error_reply null invalid_request (codes "not a JSON-RPC request"))))

    pub handle_all : Items → W → W × Result Items
    handle_all nil w = (w, ok nil)
    handle_all (cons message messages) w =
        let (w', reply) = handle message w in
        elim reply [
          | err e ↦ (w', err e)
          | ok r ↦
              let (w'', replies) = handle_all messages w' in
              (w'', replies >>= λ rs. ok (add_reply r rs))
        ]

  -- One line of the session that is not blank: the reply that is written, if there is one.
  unfoldable pub answer_line : (Text → Result Json) → Text → W → W × Result (Option Json)
  unfolding handle error_reply
  answer_line loads line w = elim (loads line) [
    | err e ↦ (w, ok (some (error_reply null parse_error (codes "the message is not valid JSON"))))
    | ok message ↦ handle message w
  ]

  -- `serve`: the replies to the lines, until one raises. `is_blank` is `not line.strip()`.
  unfoldable pub serve :
      (Text → Result Json) → (Text → Bool) → List Text → W → W × List Json × Option Error
  unfolding answer_line
  serve loads is_blank [] w = (w, [], none)
  serve loads is_blank (line ∷ lines) w = elim (is_blank line) [
    | true ↦ serve loads is_blank lines w
    | false ↦
        let (w', reply) = answer_line loads line w in
        elim reply [
          | err e ↦ (w', [], some e)
          | ok r ↦
              let (w'', replies, raised) = serve loads is_blank lines w' in
              (w'', (elim r [ none ↦ replies | some reply' ↦ reply' ∷ replies ]), raised)
        ]
  ]
