-- ===== src/Mcp/Checked.antt =====
-- What `check_arguments` lets through.
use distributed_vector_searc.Prelude.{
  ◌≡◌, refl, ap, sym, ◌∙◌, true, false, List, [], ◌∷◌, ◌++◌, Option, none, some, Result, ok, err,
  >>=-eq-ok, All, Option-cases, Result-cases, inl, inr,
}
use distributed_vector_searc.Python.Text.{Text, codes}
use distributed_vector_searc.Python.Json.{Json, obj, str, Fields, end, field}
use distributed_vector_searc.Mcp.{
  Repr, argument_problem, missing, problems, properties_of, required_of, check_arguments, Tool,
  Outcome, returned, tool_error, exception, outcome_text, run_tool,
}
use distributed_vector_searc.Mcp.Values.{get, fields_of}
use distributed_vector_searc.Mcp.Valid.{}
use distributed_vector_searc.Mcp.Argument.{Keeps, argument_problem-Keeps, obj-fields}

-- An argument whose name has a rule in the schema, to which it keeps.
pub record Known (properties : Fields) (name : Text) (value : Json) : Type 0 where
  pub rule : Fields
  pub found : get name properties ≡ some (obj rule)
  pub keeps : Keeps value rule

-- Every argument is known and keeps to its rule.
abbrev pub AllKeep : Fields → Fields → Type 0
AllKeep properties end = Unit
AllKeep properties (field name value arguments) =
    Known properties name value × AllKeep properties arguments

-- A required name stands among the arguments.
abbrev pub HasName : Fields → Json → Type 0
HasName arguments (str name) = (value : Json) × (get name arguments ≡ some value)
HasName arguments _ = Unit

missing-none :
    (repr : Repr) (required : List Json) (arguments : Fields)
    → missing repr required arguments ≡ ok none
    → All (HasName arguments) required
unfolding missing
missing-none repr [] arguments h = tt
missing-none repr (str name ∷ required) arguments h = elim (Option-cases (get name arguments)) [
  | inl absent ↦
      let said : ok (some (codes "missing required argument " ++ repr.text name)) ≡ ok none =
        rw (absent, missing) at h in
      cc
  | inr (value, there) ↦
      ((value, there), missing-none repr required arguments (rw (there, missing) at h))
]
missing-none repr (_ ∷ required) arguments h = cc

first_none :
    (problem : Option Text) (rest : Result (Option Text))
    → (elim problem [ some text ↦ ok (some text) | none ↦ rest ]) ≡ ok none
    → (problem ≡ none) × (rest ≡ ok none)
first_none none rest h = (refl, h)
first_none (some text) rest h = cc

problems-AllKeep :
    (repr : Repr) (properties arguments : Fields)
    → problems repr properties arguments ≡ ok none
    → AllKeep properties arguments
unfolding problems
problems-AllKeep repr properties end h = tt
problems-AllKeep repr properties (field name value arguments) h =
    elim (Option-cases (get name properties)) [
      | inl absent ↦ let said : ok (some _) ≡ ok none = rw (absent, problems) at h in cc
      | inr (rule, known) ↦
          let (fields, a, h1) = >>=-eq-ok (fields_of rule) _ (rw (known, problems) at h) in
          let (problem, b, h2) = >>=-eq-ok (argument_problem repr name value fields) _ h1 in
          let (fine, last) = first_none problem (problems repr properties arguments) h2 in
          let keeps = argument_problem-Keeps repr name value fields (b ∙ ap ok fine) in
          let dict = known ∙ ap some (obj-fields rule fields a) in
          (
            record { rule = fields; found = dict; keeps = keeps },
            problems-AllKeep repr properties arguments last,
          )
    ]

-- The arguments of a call that may go ahead.
pub record IsValid (schema arguments properties : Fields) (required : List Json) : Type 0 where
  pub properties_found : properties_of schema ≡ ok properties
  pub required_found : required_of schema ≡ ok required
  pub complete : All (HasName arguments) required
  pub allowed : AllKeep properties arguments

-- What `check_arguments` has no objection to.
pub check_arguments-IsValid :
    (repr : Repr) (schema arguments : Fields)
    → check_arguments repr schema (obj arguments) ≡ ok none
    → (properties : Fields) × (required : List Json) × IsValid schema arguments properties required
unfolding check_arguments
check_arguments-IsValid repr schema arguments h =
    let (properties, a, h1) = >>=-eq-ok (properties_of schema) _ h in
    let (required, b, h2) = >>=-eq-ok (required_of schema) _ h1 in
    let (absent, c, h3) = >>=-eq-ok (missing repr required arguments) _ h2 in
    elim (Option-cases absent) [
      | inr (text, e) ↦ let said : ok (some text) ≡ ok none = rw e at h3 in cc
      | inl e ↦ (
        properties,
        required,
        record {
          properties_found = a;
          required_found = b;
          complete = missing-none repr required arguments (c ∙ ap ok e);
          allowed = problems-AllKeep repr properties arguments (rw e at h3);
        },
      )
    ]

-- A call that succeeds: valid arguments, and a handler that returned its text.
pub record Ran {W : Type 0} (tool : Tool W) (arguments : Json) (w : W) (text : Text) : Type 0 where
  pub fields : Fields
  pub properties : Fields
  pub required : List Json
  pub is_dict : arguments ≡ obj fields
  pub valid : IsValid tool.input_schema fields properties required
  pub handled : (tool.handler w arguments).1 ≡ returned text

outcome_text-returned :
    (name : Text) (outcome : Outcome) (text : Text)
    → outcome_text name outcome ≡ (text, false)
    → outcome ≡ returned text
unfolding outcome_text
outcome_text-returned name (returned t) text h = ap (λ r. returned r.0) h
outcome_text-returned name (tool_error t) text h = let raised : true ≡ false = ap (λ r. r.1) h in cc
outcome_text-returned name (exception type t) text h =
    let raised : true ≡ false = ap (λ r. r.1) h in cc

dict_of :
    (repr : Repr) (schema : Fields) (arguments : Json)
    → check_arguments repr schema arguments ≡ ok none
    → (fields : Fields) × (arguments ≡ obj fields)
unfolding check_arguments
dict_of repr schema (obj fields) h = (fields, refl)
dict_of repr schema _ h = cc

-- If a tool call reports success, then its arguments are a dict in which every name that the schema
-- requires stands; each argument has a rule in the schema, is a value of the JSON type that the
-- rule names, where a bool is no number, and is in the order of numbers at least the rule's minimum
-- and at most its maximum, where it has one; if the rule is for an array and describes its items,
-- each item is a value of the JSON type named for them, or a bool if that is integer or number; and
-- the text is what the tool's handler returned for exactly these arguments.
pub run_tool-Ran :
    {W : Type 0} (repr : Repr) (tool : Tool W) (arguments : Json) (w : W) (text : Text)
    → (run_tool repr tool arguments w).1 ≡ ok (text, false)
    → Ran tool arguments w text
unfolding run_tool
run_tool-Ran repr tool arguments w text h =
    elim (Result-cases (check_arguments repr tool.input_schema arguments)) [
      | inl (e, k) ↦ let raised : err e ≡ ok (text, false) = rw (k, run_tool) at h in cc
      | inr (problem, k) ↦ elim (Option-cases problem) [
        | inr (said, p) ↦
            let refused : ok (_, true) ≡ ok (text, false) = rw (k ∙ ap ok p, run_tool) at h in cc
        | inl p ↦
            let checked = k ∙ ap ok p in
            let (fields, same) = dict_of repr tool.input_schema arguments checked in
            let (properties, required, valid) =
              check_arguments-IsValid repr tool.input_schema fields
                (ap (check_arguments repr tool.input_schema) (sym same) ∙ checked) in
            let ran : ok (outcome_text tool.name (tool.handler w arguments).1) ≡ ok (text, false) =
              rw (checked, run_tool) at h in
            let outcome : outcome_text tool.name (tool.handler w arguments).1 ≡ (text, false) =
              cc in
            record {
              fields = fields;
              properties = properties;
              required = required;
              is_dict = same;
              valid = valid;
              handled = outcome_text-returned tool.name _ text outcome;
            }
      ]
    ]
