-- ===== src/Mr/Worker/Agreement.antt =====
-- The whole of MapReduce against mrsequential.go.
pub mod Runs
use Prim.Native.String.{String}
use mathlib.Core.List.Permᴰ
use mathlib.Core.List.{Permᴰ}
use mit6_824_labs.Prelude.{
  ℕ, zero, suc, ◌+◌, ◌%◌, ◌≤◌, ◌<◌, ◌≡◌, refl, sym, ap, ◌∙◌, List, [], ◌∷◌, ◌++◌, Option, none,
  some, Bool, true, false, length, get_elem?, arith, ◌>>=◌, ◌==◌, if◌then◌else◌, Bool-cases, inl,
  inr,
}
use mit6_824_labs.Prelude.Int.{pos, minus_one}
use mit6_824_labs.GoMap.{string_eq, lookup, insert, lookup-insert, equals_refl}
use mit6_824_labs.Raft.Types.{Bytes}
use mit6_824_labs.Mr.Types.{Task, TaskResponse}
use mit6_824_labs.Mr.Keys.{KeyValue}
use mit6_824_labs.Mr.Grouping.{aggregate_all}
use mit6_824_labs.Mr.Grouping.Laws.{
  values_of, lines_of, line_for, aggregate_lem, values_of-Permᴰ, line_for-Permᴰ,
}
use mit6_824_labs.Mr.Worker.{
  Files, Json, IsJson, IsSort, ihash, reduce_out, read_intermediate, do_map, do_reduce, decode_all,
  print_lines,
}
use mit6_824_labs.Mr.Worker.Names.{IsItoa}
use mit6_824_labs.Mr.Worker.Buckets.{bucket_of, values_of-bucket_of}
use mit6_824_labs.Mr.Worker.Tasks.{Holds, decode_all_lem}
use mit6_824_labs.Mr.Sequential.{map_files, sequential_lines}

-- The coordinator's replies for a task.
abbrev pub map_reply : List String → ℕ → ℕ → String → TaskResponse
map_reply names n i name = record {
  x_task = record { map_id = i; reduce_id = 0; file_name = name };
  num_map_tasks = length names;
  num_reduce_tasks = n;
  cur_num_map_tasks = pos 0;
  cur_num_reduce_tasks = pos 0;
  state = 0;
}

abbrev pub reduce_reply : List String → ℕ → ℕ → TaskResponse
reduce_reply names n r = record {
  x_task = record { map_id = 0; reduce_id = r; file_name = "" };
  num_map_tasks = length names;
  num_reduce_tasks = n;
  cur_num_map_tasks = minus_one;
  cur_num_reduce_tasks = pos 0;
  state = 1;
}

values_of-append :
    (key : String) (a b : List KeyValue)
    → values_of key (a ++ b) ≡ values_of key a ++ values_of key b
values_of-append key [] b = refl
values_of-append key (kv ∷ a) b = ground (arith, values_of-append key a b)

module _ (itoa : ℕ → String) (sum32 : String → ℕ) (json : Json) (is_itoa : IsItoa itoa)
    (is_json : IsJson json) (mapf : String → Bytes → List KeyValue) (n r : ℕ) where
  -- What a reduce task reads has, of each key, what all pairs have, or nothing.
  pub read_intermediate_lem :
      (inputs files : Files) (i : ℕ) (names : List String)
      → ((j : ℕ) (name : String)
          → get_elem? names j ≡ some name
          → (content : Bytes) × (lookup name inputs ≡ some content)
            × Holds itoa sum32 json is_itoa is_json files
                (i + j)
                r
                (bucket_of itoa sum32 n r (mapf name content)))
      → (kvs all : List KeyValue) × (read_intermediate itoa sum32 json files r i (length names)
          ≡ some kvs)
        × (map_files inputs mapf names ≡ some all)
        × ((key : String)
            → values_of key kvs ≡ (if ihash itoa sum32 key % n == r then values_of key all else []))
  unfolding read_intermediate map_files
  read_intermediate_lem inputs files i [] h = ([], [], refl, refl, λ key. ground arith)
  read_intermediate_lem inputs files i (name ∷ names) h =
      let (content, at, (bytes, e, found)) = h 0 name refl in
      let here : i + 0 ≡ i = omega arith in
      let found' = rw here at found in
      let (kvs, all, read, mapped, same) =
        read_intermediate_lem inputs files (suc i) names (λ j name' e'.
          let moved : i + suc j ≡ suc i + j = omega arith in rw (← moved) (h (suc j) name' e')) in
      let pairs = mapf name content in
      let bucket = bucket_of itoa sum32 n r pairs in
      (
        bucket ++ kvs,
        pairs ++ all,
        rw (found', read)
            (ap (λ l. some (l ++ kvs))
              (decode_all_lem itoa sum32 json is_itoa is_json bucket bytes e)),
        rw (at, mapped) refl,
        λ key. ground (
          arith,
          values_of-append key bucket kvs,
          values_of-append key pairs all,
          values_of-bucket_of itoa sum32 n r key pairs,
          same key,
        ),
      )

  module _ (sort : List KeyValue → List KeyValue) (print_line : String × Bytes → Bytes)
      (is_sort : IsSort sort) (reducef : String → List String → Bytes)
      (any_order : (key : String) (vs ws : List String)
        → Permᴰ vs ws
        → reducef key vs ≡ reducef key ws) where
    -- The loop over sorted pairs puts out for a key what it does for the values as they come.
    lines_of-sorted :
        (key : String) (kvs : List KeyValue)
        → lines_of key (aggregate_all reducef (sort kvs)) ≡ line_for reducef key (values_of key kvs)
    lines_of-sorted key kvs =
        aggregate_lem reducef (length (sort kvs)) (sort kvs) key (omega arith)
          (is_sort.ascending kvs)
        ∙ line_for-Permᴰ reducef key (values_of key (sort kvs)) (values_of key kvs)
            (λ us p. any_order key us (values_of key kvs) p)
            (values_of-Permᴰ key (sort kvs) kvs (is_sort.reorders kvs))

    -- A reduce task over the files of all map tasks returns, and prints the sequential program's
    -- lines of its keys and no others.
    pub do_reduce_lem :
        (inputs files : Files) (names : List String)
        → ((j : ℕ) (name : String)
            → get_elem? names j ≡ some name
            → (content : Bytes) × (lookup name inputs ≡ some content)
              × Holds itoa sum32 json is_itoa is_json files j r
                  (bucket_of itoa sum32 n r (mapf name content)))
        → (files' : Files) × (lines out : List (String × Bytes)) × (do_reduce itoa sum32 json sort
              print_line files
              (reduce_reply names n r)
              reducef
            ≡ some files')
          × (sequential_lines itoa sum32 json sort print_line inputs mapf reducef names
              ≡ some lines)
          × (lookup (reduce_out itoa sum32 r) files'
              ≡ some (print_lines itoa sum32 json sort print_line out))
          × ((key : String)
              → lines_of key out
                ≡ (if ihash itoa sum32 key % n == r then lines_of key lines else []))
    unfolding do_reduce sequential_lines
    do_reduce_lem inputs files names h =
        let (kvs, all, read, mapped, same) =
          read_intermediate_lem inputs files 0 names
            (λ j name e. let here : 0 + j ≡ j = omega arith in rw here (h j name e)) in
        let out = aggregate_all reducef (sort kvs) in
        let lines = aggregate_all reducef (sort all) in
        let file = reduce_out itoa sum32 r in
        let printed = print_lines itoa sum32 json sort print_line out in
        (
          insert file printed files,
          lines,
          out,
          rw read refl,
          rw mapped refl,
          lookup-insert file file printed files ∙ rw (equals_refl file) refl,
          λ key.
              lines_of-sorted key kvs
              ∙ ap (line_for reducef key) (same key)
              ∙ line_if key (ihash itoa sum32 key % n == r) (values_of key all)
              ∙ ap (λ l. if ihash itoa sum32 key % n == r then l else [])
                  (sym (lines_of-sorted key all)),
        )
      where
        line_if :
            (key : String) (b : Bool) (vs : List String)
            → line_for reducef key (if b then vs else [])
              ≡ (if b then line_for reducef key vs else [])
        line_if key true vs = refl
        line_if key false vs = refl
