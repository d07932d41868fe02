-- ===== src/State/Env.antt =====
-- `load_env_file` of vsearch/state.py: the lines of a file as variables of the environment. `strip` is
-- `str.strip()`.
use distributed_vector_searc.Prelude.{
  ◌≡◌, refl, sym, ◌∙◌, map, append-nil, append_assoc, Option-cases, Bool-cases, inl, inr, ℕ, true,
  false, ◌&&◌, ◌||◌, List, [], ◌∷◌, ◌++◌, Option, none, some, if◌then◌else◌, ◌==◌, any,
}
use distributed_vector_searc.Python.Text.{Text, text_eq, codes}

-- `text.removeprefix(prefix)`: the text without the prefix, if it starts with it.
unfoldable pub after_prefix : Text → Text → Option Text
after_prefix [] text = some text
after_prefix (c ∷ prefix) [] = none
after_prefix (c ∷ prefix) (d ∷ text) =
    let rest = after_prefix prefix text in if c == d then rest else none

unfoldable pub remove_prefix : Text → Text → Text
unfolding after_prefix
remove_prefix prefix text = elim (after_prefix prefix text) [ none ↦ text | some rest ↦ rest ]

-- `line.partition("=")`, as what stands before and behind; none if there is no such sign.
unfoldable pub partition : Text → Option (Text × Text)
partition [] = none
partition (c ∷ line) =
    let rest = partition line in
    if c == b'='
    then some ([], line)
    else elim rest [ none ↦ none | some (name, value) ↦ some (c ∷ name, value) ]

-- The last character of a text that has two at least, behind its first.
abbrev pub last_of : ℕ → Text → ℕ
last_of c [] = c
last_of c (d ∷ text) = last_of d text

abbrev pub without_last : Text → Text
without_last [] = []
without_last (c ∷ []) = []
without_last (c ∷ d ∷ text) = c ∷ without_last (d ∷ text)

-- `if len(value) >= 2 and value[0] == value[-1] and value[0] in "\"'": value = value[1:-1]`
unfoldable pub unquoted : Text → Text
unquoted [] = []
unquoted (c ∷ []) = c ∷ []
unquoted (c ∷ d ∷ value) =
    if c == last_of d value && (c == b'"' || c == 39)
    then without_last (d ∷ value)
    else c ∷ d ∷ value

-- A name and a value, unless there is none to set: a comment, or no name.
abbrev pub setting : Text → Text → Option (Text × Text)
setting [] value = none
setting (c ∷ name) value = if c == b'#' then none else some (c ∷ name, value)

module _ (strip : Text → Text) where
  -- The name and the value of a line.
  unfoldable pub line_setting : Text → Option (Text × Text)
  unfolding remove_prefix partition unquoted
  line_setting line = elim (partition (strip (remove_prefix (codes "export ") (strip line)))) [
    | none ↦ none
    | some (name, value) ↦ setting (strip name) (unquoted (strip value))
  ]

  -- The environment after the lines, and the names that were set.
  unfoldable pub load_lines :
      List Text → List (Text × Text) → List Text → List (Text × Text) × List Text
  unfolding line_setting
  load_lines [] environ loaded = (environ, loaded)
  load_lines (line ∷ lines) environ loaded = elim (line_setting line) [
    | none ↦ load_lines lines environ loaded
    | some (name, value) ↦ elim (any (λ e. text_eq e.0 name) environ) [
      | true ↦ load_lines lines environ loaded
      | false ↦ load_lines lines (environ ++ (name, value) ∷ []) (loaded ++ name ∷ [])
    ]
  ]

  -- A file that is not there sets nothing.
  unfoldable pub load_env_file :
      Option (List Text) → List (Text × Text) → List (Text × Text) × List Text
  unfolding load_lines
  load_env_file none environ = (environ, [])
  load_env_file (some lines) environ = load_lines lines environ []

module _ (strip : Text → Text) where
  load_lines-front :
      (lines : List Text) (environ : List (Text × Text)) (loaded : List Text)
      → (more : List (Text × Text)) × ((load_lines strip lines environ loaded).0 ≡ environ ++ more)
        × ((load_lines strip lines environ loaded).1 ≡ loaded ++ map (λ e. e.0) more)
  unfolding load_lines
  load_lines-front [] environ loaded = ([], sym (append-nil environ), sym (append-nil loaded))
  load_lines-front (line ∷ lines) environ loaded = elim (Option-cases (line_setting strip line)) [
    | inl e ↦ rw (e, load_lines) (load_lines-front lines environ loaded)
    | inr (entry, e) ↦ elim (Bool-cases (any (λ x. text_eq x.0 entry.0) environ)) [
      | inl h ↦ rw (e, h, load_lines) (load_lines-front lines environ loaded)
      | inr h ↦
          let (more, first, second) =
            load_lines-front lines (environ ++ entry ∷ []) (loaded ++ entry.0 ∷ []) in
          (
            entry ∷ more,
            rw (e, h, load_lines) (first ∙ append_assoc environ (entry ∷ []) more),
            rw (e, h, load_lines)
                (second ∙ append_assoc loaded (entry.0 ∷ []) (map (λ x. x.0) more)),
          )
    ]
  ]

  -- Loading a file of settings changes no variable that is set already: the environment keeps what it has
  -- and gets new entries behind it, and the names of these, in order, are what is returned.
  pub load_env_file_lem :
      (file : Option (List Text)) (environ : List (Text × Text))
      → (more : List (Text × Text)) × ((load_env_file strip file environ).0 ≡ environ ++ more)
        × ((load_env_file strip file environ).1 ≡ map (λ e. e.0) more)
  unfolding load_env_file
  load_env_file_lem none environ = ([], sym (append-nil environ), refl)
  load_env_file_lem (some lines) environ = load_lines-front lines environ []
