-- ===== src/Documents/Files.antt =====
-- `find_documents` of vsearch/ingest.py: the text files that some paths name, or that stand below them.
use distributed_vector_searc.Prelude.{
  Bool, false, not, ◌&&◌, List, [], ◌∷◌, ◌++◌, map, Error, ◌==◌, any, keep, list_ord, nat_ord,
}
use distributed_vector_searc.Python.Text.{Text, text_eq, codes}
use distributed_vector_searc.Python.Sorting.{sorted}
use distributed_vector_searc.Actions.{Act, ◌>>=◌, give, raise}
use distributed_vector_searc.Documents.{distinct_texts}

-- What `rglob` finds below a directory: the absolute path, whether it is a file, its suffix in
-- lower case, and the parts of its path below the directory.
pub record Found : Type 0 where
  pub resolved : Text
  pub is_file : Bool
  pub suffix : Text
  pub parts : List Text

-- What stands at a path.
pub data Place : Type 0 where
  directory : (below : List Found) → Place
  file : (resolved : Text) → Place
  missing : Place

-- `DOCUMENT_SUFFIXES` and `MARKDOWN_SUFFIXES`
abbrev pub markdown_suffixes : List Text
markdown_suffixes = codes ".md" ∷ codes ".markdown" ∷ []

abbrev pub document_suffixes : List Text
document_suffixes = markdown_suffixes ++ codes ".txt" ∷ codes ".rst" ∷ []

-- `part.startswith(".")`
unfoldable pub is_hidden : Text → Bool
is_hidden [] = false
is_hidden (c ∷ part) = c == b'.'

unfoldable pub is_document : Found → Bool
unfolding is_hidden
is_document f = f.is_file && any (text_eq f.suffix) document_suffixes && not (any is_hidden f.parts)

module _ {W : Type 0} (look : Text → Act W Place) where
  -- The loop over the paths: what it adds to the set.
  unfoldable pub find_all : List Text → Act W (List Text)
  unfolding is_document
  find_all [] = give []
  find_all (path ∷ paths) = do
    place ← look path
    elim place [
      | missing ↦ raise (Error.user_error (codes "no such file or directory: " ++ path))
      | file resolved ↦ do rest ← find_all paths; give (resolved ∷ rest)
      | directory below ↦ do
        rest ← find_all paths
        give (map (λ f. f.resolved) (keep is_document below) ++ rest)
    ]

  unfoldable pub find_documents : List Text → Act W (List Text)
  unfolding find_all distinct_texts sorted
  find_documents paths = do found ← find_all paths; give (sorted (distinct_texts found))
