-- ===== src/Ops/Runbook.antt =====
-- `run_runbook` of vsearch/ops.py.
use distributed_vector_searc.Prelude.{
  Bool, true, false, ◌&&◌, List, [], ◌∷◌, ◌++◌, Result, Error, ok, err, if◌then◌else◌, ◌==◌,
  nat_ord, any,
}
use distributed_vector_searc.Python.Text.{Text, codes, join_with}
use distributed_vector_searc.Python.Json.{pos, int, Fields, end, field}
use distributed_vector_searc.Actions.{Act, ◌>>=◌, give}
use distributed_vector_searc.Ops.Looking.{health}
use distributed_vector_searc.State.Machines.{Machines}
use distributed_vector_searc.Health.{ServerHealth}
use distributed_vector_searc.Health.Describe.{name_of}
use distributed_vector_searc.Ops.{nothing_wrong, needs_a_person, Searcher, fixed, Settings, Session}
use distributed_vector_searc.Ops.Tools.{call_status, call_restart, call_repair, call_probe}

-- `text.startswith(prefix)`
unfoldable pub starts_with : Text → Text → Bool
starts_with [] text = true
starts_with (c ∷ prefix) [] = false
starts_with (c ∷ prefix) (d ∷ text) = (c == d) && starts_with prefix text

-- `text.rstrip('.')`
unfoldable pub strip_dots : Text → Text
strip_dots [] = []
strip_dots (c ∷ text) = elim (strip_dots text) [
  | [] ↦ if c == b'.' then [] else c ∷ []
  | d ∷ rest ↦ c ∷ d ∷ rest
]

abbrev pub could_not : Text
could_not = codes "could not"

-- The outcome of a run with these notes.
unfoldable pub outcome : List Text → Text
unfolding starts_with
outcome [] = nothing_wrong
outcome (note ∷ notes) =
    if any (starts_with could_not) (note ∷ notes) then needs_a_person else fixed

unfoldable pub notes_text : List Text → Text
unfolding join_with
notes_text [] = codes "nothing needed doing"
notes_text (note ∷ notes) = join_with (codes "; ") (note ∷ notes)

unfoldable pub runbook_report : List Text → Text
unfolding notes_text outcome
runbook_report notes =
    codes "Runbook: " ++ notes_text notes ++ codes "." ++ 10 ∷ codes "Outcome: " ++ outcome notes

unfoldable pub key_arguments : ServerHealth → Fields
key_arguments s =
    field (codes "shard") (int (pos s.shard)) (field (codes "replica") (int (pos s.replica)) end)

-- The note of a restart.
unfoldable pub restart_note : ServerHealth → Result Text → Result Text
unfolding strip_dots name_of
restart_note s (ok text) = ok (codes "restarted " ++ name_of s.shard s.replica)
restart_note s (err (Error.tool_error text)) =
    ok
      (could_not ++ codes " restart " ++ name_of s.shard s.replica ++ codes ": " ++ strip_dots text)
restart_note s (err e) = err e

-- The notes of a repair.
unfoldable pub repair_notes : Result Text → Result (List Text)
unfolding starts_with
repair_notes (ok text) = ok (
    if starts_with (codes "Nothing to repair") text
    then []
    else codes "repaired replicas that were behind" ∷ [])
repair_notes (err (Error.tool_error text)) = ok (text ∷ [])
repair_notes (err e) = err e

-- An action, and what is made of how it ended.
abbrev pub noted : {S A B : Type 0} → (Result A → Result B) → Act S A → Act S B
noted note act s = let (s', result) = act s in (s', note result)

module _ {W : Type 0} (machines : Machines W) (searcher : Searcher W) (settings : Settings) where
  unfoldable pub restart_down : List ServerHealth → Act (Session W) (List Text)
  unfolding call_restart restart_note key_arguments
  restart_down [] = give []
  restart_down (server ∷ servers) = elim server.up [
    | true ↦ restart_down servers
    | false ↦ do
      note ←
          noted (restart_note server)
            (call_restart machines searcher settings (key_arguments server))
      notes ← restart_down servers
      give (note ∷ notes)
  ]

  unfoldable pub run_runbook : Act (Session W) Text
  unfolding call_status health restart_down call_repair repair_notes call_probe runbook_report
  run_runbook = do
    status ← call_status machines searcher settings end
    servers ← health machines searcher
    restarted ← restart_down servers
    repaired ← noted repair_notes (call_repair machines searcher settings end)
    probed ← call_probe machines searcher settings end
    give (runbook_report (restarted ++ repaired))
