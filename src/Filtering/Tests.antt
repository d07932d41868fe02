-- ===== src/Filtering/Tests.antt =====
-- Runs of the payload index on two payloads, one of them empty.
use distributed_vector_searc.Prelude.{
  ◌≡◌, refl, subst, ◌>>=◌, true, false, List, [], ◌∷◌, some, Result, Error, ok, err, if◌then◌else◌,
  map, All,
}
use distributed_vector_searc.Python.Text.{Text, text_eq, codes}
use distributed_vector_searc.Python.Json.{Json, str, bool, obj, end, field, arr, nil, cons}
use distributed_vector_searc.Filtering.Key.{key_of, str_key, Filter, normalize_filter}
use distributed_vector_searc.Filtering.Index.{
  PayloadIndex, new_index, payload_fields, catch_up, matching,
}
use distributed_vector_searc.Filtering.Index.Contents.{
  payload_has, Readable, IsIndexed, catch_up-IsIndexed, new_index-IsIndexed,
}
use distributed_vector_searc.Filtering.Matching.{satisfies, matching-eq-satisfies}
use distributed_vector_searc.Filtering.Wire.{
  encode_filter, decode_filter, filter_fields, decode_filter-encode_filter,
}

abbrev red : Json
red = str (codes "red")

-- The one text that is read here: a payload with the color red.
abbrev read_red : Text → Result Json
read_red text =
    if text_eq text (codes "R")
    then ok (obj (field (codes "color") red end))
    else err Error.decode_error

abbrev two_payloads : List Text
two_payloads = codes "R" ∷ [] ∷ []

abbrev red_filter : Filter
red_filter = (codes "color", red ∷ bool true ∷ []) ∷ []

normalize_filter_run :
    normalize_filter (obj (field (codes "color") (arr (cons red (cons (bool true) nil))) end))
    ≡ ok (some red_filter)
unfolding normalize_filter
normalize_filter_run = refl

two_payloads-Readable : All (Readable read_red) two_payloads
unfolding payload_fields
two_payloads-Readable = (
  record { fields = (codes "color", red) ∷ []; reads = refl },
  (record { fields = []; reads = refl }, tt),
)

catch_up-IsIndexed_example :
    ((catch_up read_red two_payloads new_index).1 ≡ ok tt)
    × IsIndexed read_red two_payloads (catch_up read_red two_payloads new_index).0
    × ((catch_up read_red two_payloads new_index).0.indexed ≡ 2)
catch_up-IsIndexed_example =
    catch_up-IsIndexed read_red two_payloads new_index two_payloads-Readable
      (new_index-IsIndexed read_red two_payloads)

abbrev full_index : PayloadIndex
full_index = (catch_up read_red two_payloads new_index).0

full_index-lem : IsIndexed read_red two_payloads full_index × (full_index.indexed ≡ 2)
full_index-lem =
    let (returns, holds, full) =
      catch_up-IsIndexed read_red two_payloads new_index two_payloads-Readable
        (new_index-IsIndexed read_red two_payloads) in
    (holds, full)

satisfies_run : map (satisfies read_red red_filter) two_payloads ≡ true ∷ false ∷ []
unfolding satisfies payload_fields key_of payload_has
satisfies_run = refl

matching-eq-satisfies_example :
    matching full_index red_filter 2 ≡ ok (map (satisfies read_red red_filter) two_payloads)
matching-eq-satisfies_example =
    matching-eq-satisfies read_red two_payloads full_index full_index-lem.0 red_filter
      full_index-lem.1

key_of_run : key_of (codes "color") red ≡ some (str_key (codes "color") (codes "red"))
unfolding key_of
key_of_run = refl

-- A client's filter, and the text that stands for it.
abbrev asked : Json
asked = obj (field (codes "color") red end)

abbrev write_filter : Json → Text
write_filter value = codes "F"

abbrev read_filter : Text → Result Json
read_filter text =
    if text_eq text (codes "F")
    then ok (obj (field (codes "color") (arr (cons red nil)) end))
    else err Error.decode_error

encode_filter_run : encode_filter write_filter asked ≡ ok (codes "F")
unfolding encode_filter normalize_filter
encode_filter_run = refl

asked_read :
    (f : Filter)
    → normalize_filter asked ≡ ok (some f)
    → read_filter (write_filter (obj (filter_fields f))) ≡ ok (obj (filter_fields f))
unfolding normalize_filter
asked_read f h =
    let same : (codes "color", red ∷ []) ∷ [] ≡ f = cc in
    subst (λ g. read_filter (write_filter (obj (filter_fields g))) ≡ ok (obj (filter_fields g)))
      same refl

decode_filter-encode_filter_example :
    (encode_filter write_filter asked >>= decode_filter read_filter) ≡ normalize_filter asked
decode_filter-encode_filter_example =
    decode_filter-encode_filter write_filter read_filter asked refl asked_read
