-- ===== src/Mr/Worker/Tasks.antt =====
-- What a map task leaves in the files, and what a reduce task reads of them.
use Prim.Native.String.{String}
use mit6_824_labs.Prelude.{
  ℕ, zero, suc, ◌+◌, ◌≤◌, ◌<◌, ◌≡◌, refl, ap, ◌∙◌, List, [], ◌∷◌, ◌++◌, none, some, false, length,
  get_elem?, arith, append-nil, Bool-cases, Option-cases, inl, inr,
}
use mit6_824_labs.GoMap.{string_eq, ◌==◌, lookup, insert, lookup-insert, equals_refl}
use mit6_824_labs.Raft.Types.{Bytes}
use mit6_824_labs.Mr.Types.{TaskResponse}
use mit6_824_labs.Mr.Keys.{KeyValue}
use mit6_824_labs.Mr.Worker.{Files, Json, IsJson, map_out, write_buckets, do_map, decode_all}
use mit6_824_labs.Mr.Worker.Names.{IsItoa, map_out_inj}
use mit6_824_labs.Mr.Worker.Buckets.{bucket_of, partition_lem}

module _ (itoa : ℕ → String) (sum32 : String → ℕ) (json : Json) (is_itoa : IsItoa itoa)
    (is_json : IsJson json) where
  -- The file of a map task for a reduce task holds the encoding of some pairs.
  abbrev pub Holds : Files → ℕ → ℕ → List KeyValue → Type 0
  Holds files map_id r kvs =
      (bytes : Bytes) × (json.encode kvs ≡ some bytes)
      × (lookup (map_out itoa sum32 map_id r) files ≡ some bytes)

  -- The name is that of no file of the map task.
  abbrev pub Apart : ℕ → String → Type 0
  Apart map_id name = (r : ℕ) → (map_out itoa sum32 map_id r == name) ≡ false

  other_file :
      (map_id i j : ℕ)
      → i < j
      → (map_out itoa sum32 map_id j == map_out itoa sum32 map_id i) ≡ false
  other_file map_id i j l =
      elim (Bool-cases (map_out itoa sum32 map_id j == map_out itoa sum32 map_id i)) [
        | inl same ↦ absurd (
            omega (
              arith,
              (map_out_inj itoa sum32 is_itoa map_id j map_id i
                  ((string_eq.equals_iff _ _).0 same)).1,
            ))
        | inr other ↦ other
      ]

  write_buckets_lem :
      (map_id i : ℕ) (buckets : List (List KeyValue)) (files : Files)
      → (files' : Files) × (write_buckets itoa sum32 json map_id i buckets files ≡ some files')
        × ((j : ℕ) (kvs : List KeyValue)
            → get_elem? buckets j ≡ some kvs
            → Holds files' map_id (i + j) kvs)
        × ((name : String)
            → ((j : ℕ) → i ≤ j → (map_out itoa sum32 map_id j == name) ≡ false)
            → lookup name files' ≡ lookup name files)
  unfolding write_buckets
  write_buckets_lem map_id i [] files =
      (files, refl, λ j kvs e. absurd (ground arith), λ name apart. refl)
  write_buckets_lem map_id i (bucket ∷ buckets) files = elim (Option-cases (json.encode bucket)) [
    | inl fails ↦ absurd (is_json.encodes bucket fails)
    | inr (bytes, e) ↦
        let file = map_out itoa sum32 map_id i in
        let (files', e', holds, keeps) =
          write_buckets_lem map_id (suc i) buckets (insert file bytes files) in
        let first : lookup file files' ≡ some bytes =
          keeps file (λ j l. other_file map_id i j (omega arith))
          ∙ lookup-insert file file bytes files
          ∙ rw (equals_refl file) refl in
        (
          files',
          rw e e',
          λ j kvs at. index i j kvs bucket buckets bytes files' e first holds at,
          λ name apart.
              keeps name (λ j l. apart j (omega arith))
              ∙ lookup-insert file name bytes files
              ∙ rw (apart i (omega arith)) refl,
        )
  ]
    where
      index :
          (i j : ℕ) (kvs bucket : List KeyValue) (buckets : List (List KeyValue)) (bytes : Bytes)
          (files' : Files)
          → json.encode bucket ≡ some bytes
          → lookup (map_out itoa sum32 map_id i) files' ≡ some bytes
          → ((j : ℕ) (kvs : List KeyValue)
              → get_elem? buckets j ≡ some kvs
              → Holds files' map_id (suc i + j) kvs)
          → get_elem? (bucket ∷ buckets) j ≡ some kvs
          → Holds files' map_id (i + j) kvs
      index i zero kvs bucket buckets bytes files' e first holds at =
          let same : bucket ≡ kvs = ground arith in
          let none_added : i + 0 ≡ i = omega arith in rw none_added (bytes, rw (← same) e, first)
      index i (suc j) kvs bucket buckets bytes files' e first holds at =
          let moved : i + suc j ≡ suc i + j = omega arith in rw moved (holds j kvs at)

  -- A map task whose file is there returns, with at least one reduce task, and leaves the buckets of
  -- its pairs in its files, and all others as they are.
  pub do_map_lem :
      (files : Files) (reply : TaskResponse) (mapf : String → Bytes → List KeyValue)
      (content : Bytes)
      → 0 < reply.num_reduce_tasks
      → lookup reply.x_task.file_name files ≡ some content
      → (files' : Files) × (do_map itoa sum32 json files reply mapf ≡ some files')
        × ((r : ℕ)
            → r < reply.num_reduce_tasks
            → Holds files' reply.x_task.map_id r (
                bucket_of itoa sum32 reply.num_reduce_tasks r
                  (mapf reply.x_task.file_name content)))
        × ((name : String)
            → Apart reply.x_task.map_id name
            → lookup name files' ≡ lookup name files)
  unfolding do_map
  do_map_lem files reply mapf content some_tasks at =
      let n = reply.num_reduce_tasks in
      let kvs = mapf reply.x_task.file_name content in
      let (buckets, e, size, parts) = partition_lem itoa sum32 n kvs some_tasks in
      let (files', e', holds, keeps) = write_buckets_lem reply.x_task.map_id 0 buckets files in
      (
        files',
        rw (at, e) e',
        λ r l.
            let same : 0 + r ≡ r = omega arith in
            rw same at (holds r (bucket_of itoa sum32 n r kvs) (parts r l)),
        λ name apart. keeps name (λ j l. apart j),
      )

  -- A file of a bucket decodes to the bucket.
  pub decode_all_lem :
      (kvs : List KeyValue) (bytes : Bytes)
      → json.encode kvs ≡ some bytes
      → decode_all json (length bytes) bytes ≡ kvs
  unfolding decode_all
  decode_all_lem kvs [] e =
      let (rest, d, ends, some_bytes) = is_json.decodes kvs [] e in absurd (some_bytes refl)
  decode_all_lem kvs (b ∷ bytes) e =
      let (rest, d, ends, some_bytes) = is_json.decodes kvs (b ∷ bytes) e in
      rw d (ap (λ l. kvs ++ l) (at_end (length bytes) rest ends) ∙ append-nil kvs)
    where
      at_end : (fuel : ℕ) (rest : Bytes) → json.decode rest ≡ none → decode_all json fuel rest ≡ []
      at_end zero rest ends = refl
      at_end (suc fuel) rest ends = rw (decode_all, ends) refl
