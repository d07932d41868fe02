-- ===== src/Ops/Tools.antt =====
-- The operations of vsearch/ops.py as tools that a model can call. Every call is written to the journal.
use distributed_vector_searc.Prelude.{
  ℕ, Bool, true, false, List, [], ◌∷◌, ◌++◌, Option, none, some, Result, Error, ok, err, nat_ord,
}
use distributed_vector_searc.Python.Text.{Text, codes}
use distributed_vector_searc.Python.Json.{
  pos, Json, int, str, arr, obj, cons, nil, Fields, end, field,
}
use distributed_vector_searc.Actions.{Act, ◌>>=◌, lift}
use distributed_vector_searc.Mcp.{returned, tool_error, exception, Outcome, Tool}
use distributed_vector_searc.Ops.{max_log_lines, Searcher, Settings, Session, tool_entry}
use distributed_vector_searc.State.Machines.{Machines}
use distributed_vector_searc.Ops.Looking.{probe_search, read_server_log, cluster_status}
use distributed_vector_searc.Ops.Changing.{repair, restart_server}
use distributed_vector_searc.Mcp.Values.{get}

-- The schemas of the arguments.
abbrev pub whole_number : Json
whole_number =
    obj (field (codes "type") (str (codes "integer")) (field (codes "minimum") (int (pos 0)) end))

abbrev pub server_required : Json
server_required = arr (cons (str (codes "shard")) (cons (str (codes "replica")) nil))

abbrev pub server_schema : Fields
server_schema = field (codes "type") (str (codes "object")) (
    field (codes "properties")
      (obj (field (codes "shard") whole_number (field (codes "replica") whole_number end)))
      (field (codes "required") server_required end))

abbrev pub lines_rule : Json
lines_rule = obj (
    field (codes "type") (str (codes "integer")) (
      field (codes "minimum") (int (pos 1))
        (field (codes "maximum") (int (pos max_log_lines)) end)))

abbrev pub log_schema : Fields
log_schema = field (codes "type") (str (codes "object")) (
    field (codes "properties")
      (obj (
        field (codes "shard") whole_number
          (field (codes "replica") whole_number (field (codes "lines") lines_rule end))))
      (field (codes "required") server_required end))

abbrev pub no_arguments : Fields
no_arguments =
    field (codes "type") (str (codes "object")) (field (codes "properties") (obj end) end)

-- A number of a server, or of lines. The check of the arguments has refused every other value; the
-- functions take none but those.
unfoldable pub number_argument : Option Json → Result ℕ
number_argument (some (int (pos n))) = ok n
number_argument _ = err Error.type_error

-- `lines=40`
unfoldable pub lines_argument : Option Json → Result ℕ
unfolding number_argument
lines_argument none = ok 40
lines_argument (some value) = number_argument (some value)

module _ {W : Type 0} (searcher : Searcher W) where
  -- `self.journal.write("tool", ...)`
  unfoldable pub write_tool : Text → Fields → Text → Bool → Session W → Session W
  write_tool name arguments result error s =
      let (w, time) = searcher.clock s.world in
      record s {
        world = w;
        journal = s.journal ++ tool_entry time name arguments result error ∷ [];
      }

  -- What `journaled` does with what the function returned or raised.
  unfoldable pub written : Text → Fields → Session W × Result Text → Session W × Result Text
  unfolding write_tool
  written name arguments (s, ok result) = (write_tool name arguments result false s, ok result)
  written name arguments (s, err (Error.tool_error text)) =
      (write_tool name arguments text true s, err (Error.tool_error text))
  written name arguments (s, err (Error.user_error text)) =
      (write_tool name arguments text true s, err (Error.tool_error text))
  written name arguments (s, err e) = (s, err e)

  unfoldable pub journaled : Text → Fields → Act (Session W) Text → Act (Session W) Text
  unfolding written
  journaled name arguments function s = written name arguments (function s)

-- What a handler that returned or raised is to the caller of the tool: `describe` gives the name of the
-- type of an exception, and its text.
unfoldable pub outcome_of : (Error → Text × Text) → Result Text → Outcome
outcome_of describe (ok text) = returned text
outcome_of describe (err (Error.tool_error text)) = tool_error text
outcome_of describe (err e) = let (type, text) = describe e in exception type text

-- The arguments of a tool as a dict.
unfoldable pub dict_of : Json → Fields
dict_of (obj fields) = fields
dict_of _ = end

module _ {W : Type 0} (machines : Machines W) (searcher : Searcher W) (settings : Settings) where
  unfoldable pub call_status : Fields → Act (Session W) Text
  unfolding journaled cluster_status
  call_status arguments =
      journaled searcher (codes "cluster_status") arguments (cluster_status machines searcher)

  unfoldable pub call_restart : Fields → Act (Session W) Text
  unfolding journaled restart_server number_argument get
  call_restart arguments = journaled searcher (codes "restart_server") arguments (do
    shard ← lift (number_argument (get (codes "shard") arguments))
    replica ← lift (number_argument (get (codes "replica") arguments))
    restart_server machines searcher settings shard replica)

  unfoldable pub call_repair : Fields → Act (Session W) Text
  unfolding journaled repair
  call_repair arguments =
      journaled searcher (codes "repair") arguments (repair machines searcher settings)

  unfoldable pub call_log : Fields → Act (Session W) Text
  unfolding journaled read_server_log number_argument lines_argument get
  call_log arguments = journaled searcher (codes "read_server_log") arguments (do
    shard ← lift (number_argument (get (codes "shard") arguments))
    replica ← lift (number_argument (get (codes "replica") arguments))
    lines ← lift (lines_argument (get (codes "lines") arguments))
    read_server_log machines searcher shard replica lines)

  unfoldable pub call_probe : Fields → Act (Session W) Text
  unfolding journaled probe_search
  call_probe arguments =
      journaled searcher (codes "probe_search") arguments (probe_search machines searcher)

  -- `_tool`
  unfoldable pub make_tool :
      (Error → Text × Text)
      → Text
      → Text
      → Fields
      → (Fields → Act (Session W) Text)
      → Bool
      → Tool (Session W)
  unfolding outcome_of dict_of
  make_tool describe name description schema function mutating = record {
    name = name;
    description = description;
    input_schema = schema;
    handler = λ s arguments.
        let (s', result) = function (dict_of arguments) s in (s', outcome_of describe result);
    mutating = mutating;
  }

  unfoldable pub tools : (Error → Text × Text) → List (Tool (Session W))
  unfolding make_tool call_status call_restart call_repair call_log call_probe
  tools describe =
      make_tool describe (codes "cluster_status")
        (codes "Show every shard server (up or down, vectors held, last write applied) "
          ++ codes "and list what is wrong. Call this first, and again after changing "
          ++ codes "anything to confirm the change worked.")
        no_arguments call_status false
      ∷ make_tool describe (codes "restart_server")
          (codes "Start a shard server that is down. It recovers its data from its own "
            ++ codes "disk. Only for servers that are down; it fails on one that is up.")
          server_schema call_restart true
      ∷ make_tool describe (codes "repair")
          (codes "Bring replicas that missed writes up to date by copying from the most "
            ++ codes "advanced replica of the same shard. Needs the lagging replica to be "
            ++ codes "up, so restart servers first.")
          no_arguments call_repair true
      ∷ make_tool describe (codes "read_server_log")
          (codes "Read the last lines of one server's log, to find out why it is down "
            ++ codes "or why a restart failed.")
          log_schema call_log false
      ∷ make_tool describe (codes "probe_search")
          (codes "Run one real search across the cluster to check that every shard "
            ++ codes "answers, as a user's search would need.")
          no_arguments call_probe false
      ∷ []
