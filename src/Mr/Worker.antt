-- ===== src/Mr/Worker.antt =====
-- src/mr/worker.go. Files are a map from names to contents; a temporary file that is renamed appears
-- under its name at once. `none` is the end of the process by log.Fatalf or a panic. strconv.Itoa,
-- FNV, sort.Sort, encoding/json and fmt.Fprintf are parameters.
pub mod Names
pub mod Buckets
pub mod Tasks
pub mod Agreement
pub mod Handout
use Prim.Native.String.{String, ◌++◌ as ◌<>◌}
use mathlib.Core.List.{Permᴰ}
use mit6_824_labs.Prelude.{
  ℕ, zero, suc, ◌%◌, ◌^◌, ◌≡◌, ◌≢◌, List, [], ◌∷◌, ◌++◌, Option, none, some, Bool, true, false,
  length, get_elem?, set, replicate, ◌==◌, leb, ◌>>=◌, if◌then◌else◌,
}
use mit6_824_labs.Prelude.Int.{ℤ, pos, negsuc}
use mit6_824_labs.GoMap.{GoMap, string_eq, lookup, insert}
use mit6_824_labs.Raft.Types.{Bytes}
use mit6_824_labs.Mr.Types.{Task, TaskResponse}
use mit6_824_labs.Mr.Keys.{KeyValue}
use mit6_824_labs.Mr.Grouping.{aggregate_all}
use mit6_824_labs.Mr.Grouping.Laws.{IsAscending}

abbrev pub Files : Type 0
Files = GoMap String Bytes

-- enc.Encode(kvs), and dec.Decode(&kv) with what is left of the file; `none` is an error or the end.
pub record Json : Type 0 where
  pub encode : List KeyValue → Option Bytes
  pub decode : Bytes → Option (List KeyValue × Bytes)

-- What encoding/json documents of pairs of texts: they are encoded, in some bytes, and decoding
-- gives them back and then finds the end.
pub record IsJson (json : Json) : Type 0 where
  pub encodes : (kvs : List KeyValue) → json.encode kvs ≢ none
  pub decodes :
      (kvs : List KeyValue) (bytes : Bytes)
      → json.encode kvs ≡ some bytes
      → (rest : Bytes) × (json.decode bytes ≡ some (kvs, rest))
        × (json.decode rest ≡ none)
        × (bytes ≢ [])

-- What sort.Sort documents: the pairs, reordered, and no pair before one with a lesser key.
pub record IsSort (sort : List KeyValue → List KeyValue) : Type 0 where
  pub ascending : (kvs : List KeyValue) → IsAscending (sort kvs)
  pub reorders : (kvs : List KeyValue) → Permᴰ (sort kvs) kvs

-- What the loop of Worker does with a reply.
pub data Action : Type 0 where
  maps reduces ends waits : Action

abbrev at_least_zero : ℤ → Bool
at_least_zero (pos n) = true
at_least_zero (negsuc n) = false

unfoldable pub action : TaskResponse → Action
action reply =
    if (if at_least_zero reply.cur_num_map_tasks then reply.state == 0 else false)
    then Action.maps
    else if (if at_least_zero reply.cur_num_reduce_tasks then reply.state == 1 else false)
    then Action.reduces
    else if reply.state == 2
    then Action.ends
    else Action.waits

-- The decoding loop of DoReduce, with `fuel` rounds; a file that decodes is not empty.
unfoldable pub decode_all : Json → ℕ → Bytes → List KeyValue
decode_all json zero bytes = []
decode_all json (suc fuel) bytes = elim (json.decode bytes) [
  | none ↦ []
  | some (kvs, rest) ↦ kvs ++ decode_all json fuel rest
]

module _ (itoa : ℕ → String) (sum32 : String → ℕ) where
  -- h.Sum32() & 0x7fffffff
  abbrev pub ihash : String → ℕ
  ihash key = sum32 key % 2 ^ 31

  abbrev pub map_out : ℕ → ℕ → String
  map_out map_id reduce_id = "mr-" <> (itoa map_id <> ("-" <> itoa reduce_id))

  abbrev pub reduce_out : ℕ → String
  reduce_out reduce_id = "mr-out-" <> itoa reduce_id

  -- buckets[num] = append(buckets[num], kv); a remainder by zero panics.
  unfoldable pub put_bucket : ℕ → List (List KeyValue) → KeyValue → Option (List (List KeyValue))
  put_bucket num_reduce buckets kv = if num_reduce == 0 then none else do
    bucket ← get_elem? buckets (ihash kv.key % num_reduce)
    some (set buckets (ihash kv.key % num_reduce) (bucket ++ kv ∷ []))

  unfoldable pub put_buckets :
      ℕ → List (List KeyValue) → List KeyValue → Option (List (List KeyValue))
  put_buckets num_reduce buckets [] = some buckets
  put_buckets num_reduce buckets (kv ∷ kvs) = do
    buckets' ← put_bucket num_reduce buckets kv
    put_buckets num_reduce buckets' kvs

  module _ (json : Json) where
    -- The loop that writes the buckets from `i` on.
    unfoldable pub write_buckets : ℕ → ℕ → List (List KeyValue) → Files → Option Files
    write_buckets map_id i [] files = some files
    write_buckets map_id i (bucket ∷ buckets) files = do
      bytes ← json.encode bucket
      write_buckets map_id (suc i) buckets (insert (map_out map_id i) bytes files)

    unfoldable pub do_map : Files → TaskResponse → (String → Bytes → List KeyValue) → Option Files
    do_map files reply mapf = do
      content ← lookup reply.x_task.file_name files
      buckets ←
          put_buckets reply.num_reduce_tasks (replicate reply.num_reduce_tasks [])
            (mapf reply.x_task.file_name content)
      write_buckets reply.x_task.map_id 0 buckets files

    -- The loop that reads the files of map tasks `i` on, with `n` rounds left.
    unfoldable pub read_intermediate : Files → ℕ → ℕ → ℕ → Option (List KeyValue)
    read_intermediate files reduce_id i zero = some []
    read_intermediate files reduce_id i (suc n) = do
      bytes ← lookup (map_out i reduce_id) files
      rest ← read_intermediate files reduce_id (suc i) n
      some (decode_all json (length bytes) bytes ++ rest)

    module _ (sort : List KeyValue → List KeyValue) (print_line : String × Bytes → Bytes) where
      -- Fprintf(file, "%v %v\n", key, output), line by line
      abbrev pub print_lines : List (String × Bytes) → Bytes
      print_lines [] = []
      print_lines (line ∷ lines) = print_line line ++ print_lines lines

      unfoldable pub do_reduce :
          Files → TaskResponse → (String → List String → Bytes) → Option Files
      do_reduce files reply reducef = do
        intermediate ← read_intermediate files reply.x_task.reduce_id 0 reply.num_map_tasks
        some (
            insert (reduce_out reply.x_task.reduce_id)
              (print_lines (aggregate_all reducef (sort intermediate))) files)
