-- ===== src/Mcp/Replies.antt =====
-- Which messages are answered, and with which id.
use distributed_vector_searc.Prelude.{
  ◌≡◌, refl, sym, Option, none, some, ok, ◌>>=◌, >>=-eq-ok, inl, inr, ◌⊎◌,
}
use distributed_vector_searc.Python.Text.{Text, codes}
use distributed_vector_searc.Python.Json.{Json, obj, int, str, Fields, end, field}
use distributed_vector_searc.Mcp.{Repr}
use distributed_vector_searc.Mcp.Values.{get}
use distributed_vector_searc.Mcp.Server.{
  McpServer, Answer, result, refused, or_empty_dict, reply_to, error_reply, dispatch, handle,
  handle_fields,
}

-- A request: a dict with a text as its method, and an id.
pub record IsRequest (message : Fields) (method : Text) (request_id : Json) : Type 0 where
  pub has_method : get (codes "method") message ≡ some (str method)
  pub has_id : get (codes "id") message ≡ some request_id

-- The members of a reply: its version, its id, and either a result or an error.
pub record Replies (request_id : Json) (reply : Json) : Type 0 where
  pub fields : Fields
  pub is_object : reply ≡ obj fields
  pub version : get (codes "jsonrpc") fields ≡ some (str (codes "2.0"))
  pub same_id : get (codes "id") fields ≡ some request_id
  pub one_of :
      ((value : Json) × (get (codes "result") fields ≡ some value)
        × (get (codes "error") fields ≡ none))
      ⊎ ((value : Json) × (get (codes "error") fields ≡ some value)
          × (get (codes "result") fields ≡ none))

reply_to-Replies :
    (request_id : Json) (answer : Answer) → Replies request_id (reply_to request_id answer)
unfolding reply_to error_reply get
reply_to-Replies request_id (result value) = record {
  fields =
      field (codes "jsonrpc") (str (codes "2.0"))
        (field (codes "id") request_id (field (codes "result") value end));
  is_object = refl;
  version = refl;
  same_id = refl;
  one_of = inl (value, refl, refl);
}
reply_to-Replies request_id (refused code message) =
    let problem =
      obj (field (codes "code") (int code) (field (codes "message") (str message) end)) in
    record {
      fields =
          field (codes "jsonrpc") (str (codes "2.0"))
            (field (codes "id") request_id (field (codes "error") problem end));
      is_object = refl;
      version = refl;
      same_id = refl;
      one_of = inr (problem, refl, refl);
    }

module _ {W : Type 0} (repr : Repr) (server : McpServer W) where
  -- If a dict has a text as its method and an id, whatever they are, and its handling does not
  -- raise, then it is answered, by a dict with version 2.0, the same id, and either a result and no
  -- error or an error and no result.
  pub handle-Replies :
      (message : Fields) (method : Text) (request_id : Json) (w : W) (reply : Option Json)
      → IsRequest message method request_id
      → (handle repr server (obj message) w).1 ≡ ok reply
      → (answer : Json) × (reply ≡ some answer) × Replies request_id answer
  unfolding handle handle_fields
  handle-Replies message method request_id w reply r h =
      let (w', dispatched) =
        dispatch repr server method (or_empty_dict (get (codes "params") message)) w in
      let opened : (dispatched >>= λ a. ok (some (reply_to request_id a))) ≡ ok reply =
        rw (r.has_id) at (rw (r.has_method, handle_fields) at h) in
      let (answer, a, last) =
        >>=-eq-ok dispatched (λ a. ok (some (reply_to request_id a))) opened in
      let same : some (reply_to request_id answer) ≡ reply = cc in
      (reply_to request_id answer, sym same, reply_to-Replies request_id answer)

  -- A message without an id is not answered, and nothing is done.
  pub handle-notification :
      (message : Fields) (method : Text) (w : W)
      → get (codes "method") message ≡ some (str method)
      → get (codes "id") message ≡ none
      → handle repr server (obj message) w ≡ (w, ok none)
  unfolding handle handle_fields
  handle-notification message method w m i = rw (m, handle_fields) (rw i refl)
