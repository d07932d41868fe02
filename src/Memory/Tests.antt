-- ===== src/Memory/Tests.antt =====
-- Memories in a cluster that is the list of its records.
use distributed_vector_searc.Prelude.{
  ℕ, zero, suc, ◌-◌, ◌≤◌, ◌≡◌, ◌≢◌, refl, Bool, true, false, List, [], ◌∷◌, ◌++◌, map, none, some,
  ok, length, arith, All, In, In-keep, Bool-cases, inl, inr, keep, take, take_all, length-map,
  nat_ord, subst,
}
use distributed_vector_searc.Python.Text.{Text, codes}
use distributed_vector_searc.Python.Json.{end}
use distributed_vector_searc.Actions.{◌>>=◌, ◌>>◌, attempt}
use distributed_vector_searc.State.{State, memory}
use distributed_vector_searc.State.Machines.{Machines}
use distributed_vector_searc.Documents.{Embedder}
use distributed_vector_searc.Memory.{
  MemoryHit, Memory, Payload, fact, forgotten, Where, matches, replacing,
}
use distributed_vector_searc.Memory.Operations.{Store, MemoryStore}
use distributed_vector_searc.Memory.Recall.{recall}
use distributed_vector_searc.Memory.Writing.{forget, remember}
use distributed_vector_searc.Memory.Lookups.{Truthful}
use distributed_vector_searc.Memory.Forgotten.{recall-Without}

abbrev cluster : State
cluster = record {
  seed = some 42;
  server_args = end;
  servers = (record { host = none; port = 50051; peer = none; pid = none } ∷ []) ∷ [];
  dataset = some (memory (codes "small") 1);
  managed_by = none;
}

abbrev machines : Machines (List Payload)
machines = record {
  read = λ w. (w, ok (some cluster));
  write = λ state w. w;
  status = λ target w. (w, some (record { size = 0; last_seq = 0; snapshot_seq = 0 }));
  is_ours = λ pid port w. (w, true);
  popen = λ shard replica port seed server_args w. (w, ok 7);
  wait_until_ready = λ target timeout w. (w, true);
}

abbrev embedder : Embedder ℕ
embedder = record {
  name = codes "small";
  dim = 1;
  embed_documents = map length;
  embed_query = length;
}

abbrev hit_of : Payload → MemoryHit ℕ
hit_of p = record { distance = 1; payload = p }

abbrev store : Store (List Payload) ℕ ℕ ℕ
store = record {
  search_hits = λ v k wanted w. (w, ok (take k (map hit_of (keep (matches wanted) w))));
  refresh = λ w. w;
  add = λ v payload w. (w ++ payload ∷ [], ok tt);
  embedders = λ name w. (w, ok embedder);
  clock = λ w. (w, 50);
  new_hex = λ w. (w, codes "0");
  ones = λ dim. dim;
  is_same = λ d. false;
  similarity = λ d. 10 - d;
  score = λ d now created. 10 - d;
  strip = λ text. text;
  message = λ e. [];
  show_texts = λ texts. [];
  repr = λ text. text;
}

abbrev session : List Payload → MemoryStore (List Payload) ℕ
session records = record { world = records; addresses = none; embedder_cache = [] }

abbrev tea : Payload
tea = fact (codes "m1") (codes "likes tea") [] 40 []

abbrev coffee : Payload
coffee = fact (codes "m0") (codes "likes coffee") [] 50 (codes "m1" ∷ [])

remember_run :
    (remember machines store none (codes "likes coffee") [] (codes "m1" ∷ []) (session (tea ∷ [])))
    ≡ (
      record {
        world = tea ∷ coffee ∷ [];
        addresses = some ((codes "127.0.0.1:50051" ∷ []) ∷ []);
        embedder_cache = (codes "small", embedder) ∷ [];
      },
      ok (codes "m0", true),
    )
unfolding remember matches ◌>>=◌ ◌>>◌ attempt
remember_run = refl

abbrev recalled : Memory ℕ
recalled = record {
  id = codes "m0";
  text = codes "likes coffee";
  tags = [];
  created = 50;
  similarity = 9;
  score = 9;
}

recall_run :
    (recall machines store (codes "drinks") 5 none (session (tea ∷ coffee ∷ []))).1
    ≡ ok (recalled ∷ [])
unfolding recall matches ◌>>=◌ ◌>>◌ attempt
recall_run = refl

forget_run :
    (forget machines store none (codes "m0") (session (tea ∷ coffee ∷ []))).0.world
    ≡ tea ∷ coffee ∷ forgotten (codes "f0") 50 (codes "m0" ∷ []) ∷ []
unfolding forget matches ◌>>=◌ ◌>>◌ attempt
forget_run = refl

length-keep : {A : Type 0} (p : A → Bool) (xs : List A) → length (keep p xs) ≤ length xs
length-keep p [] = omega arith
length-keep p (x ∷ xs) = elim (Bool-cases (p x)) [
  | inl e ↦ rw e (omega (arith, length-keep p xs))
  | inr e ↦ rw e (omega (arith, length-keep p xs))
]

In-payloads :
    (r : Payload) (ps : List Payload) → In r ps → In r (map (λ hit. hit.payload) (map hit_of ps))
In-payloads r [] (i, e) = cc
In-payloads r (p ∷ ps) (zero, e) = (0, e)
In-payloads r (p ∷ ps) (suc i, e) = let (j, k) = In-payloads r ps (i, e) in (suc j, k)

all_found :
    (k : ℕ) (wanted : Where) (w : List Payload) (hits : List (MemoryHit ℕ)) (r : Payload)
    → ok (take k (map hit_of (keep (matches wanted) w))) ≡ ok hits
    → length (keep (matches wanted) w) ≤ k
    → In r w
    → matches wanted r ≡ true
    → In r (map (λ hit. hit.payload) hits)
all_found k wanted w hits r h few there fits =
    let found = keep (matches wanted) w in
    let whole : take k (map hit_of found) ≡ map hit_of found =
      take_all k (map hit_of found) (omega (arith, few, length-map hit_of found)) in
    let same : map hit_of found ≡ hits = cc (whole, h) in
    subst (λ hs. In r (map (λ hit. hit.payload) hs)) same
      (In-payloads r found (In-keep (matches wanted) w r there fits))

abbrev truthful : Truthful (λ w. w) machines store
truthful = record {
  complete = λ v k wanted w hits r. all_found k wanted w hits r;
  search_same = λ v k wanted w. refl;
  read_same = λ w. refl;
  embedders_same = λ name w. refl;
}

small : (ids : List Text) → length (keep (matches (replacing ids)) (tea ∷ coffee ∷ [])) ≤ 1000
small ids = omega (arith, length-keep (matches (replacing ids)) (tea ∷ coffee ∷ []))

recall-Without_example : All (λ m. m.id ≢ codes "m1") (recalled ∷ [])
recall-Without_example =
    recall-Without (λ w. w) machines store truthful (codes "m1") coffee refl (codes "drinks") 5 none
      (session (tea ∷ coffee ∷ [])) (recalled ∷ []) small (1, refl) recall_run
