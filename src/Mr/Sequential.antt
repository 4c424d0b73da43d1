-- ===== src/Mr/Sequential.antt =====
-- src/main/mrsequential.go: all files through the Map function, one sort, and one loop over the keys,
-- which is that of DoReduce, word for word. Arguments and the plug-in's two functions are parameters.
use Prim.Native.String.{String}
use mit6_824_labs.Prelude.{ℕ, List, [], ◌∷◌, ◌++◌, Option, some, ◌>>=◌}
use mit6_824_labs.GoMap.{string_eq, lookup, insert}
use mit6_824_labs.Raft.Types.{Bytes}
use mit6_824_labs.Mr.Keys.{KeyValue}
use mit6_824_labs.Mr.Grouping.{aggregate_all}
use mit6_824_labs.Mr.Worker.{Files, Json, print_lines}

-- The loop over os.Args[2:].
unfoldable pub map_files :
    Files → (String → Bytes → List KeyValue) → List String → Option (List KeyValue)
map_files files mapf [] = some []
map_files files mapf (name ∷ names) = do
  content ← lookup name files
  rest ← map_files files mapf names
  some (mapf name content ++ rest)

module _ (itoa : ℕ → String) (sum32 : String → ℕ) (json : Json)
    (sort : List KeyValue → List KeyValue) (print_line : String × Bytes → Bytes) where
  -- The lines that the program prints to mr-out-0.
  unfoldable pub sequential_lines :
      Files
      → (String → Bytes → List KeyValue)
      → (String → List String → Bytes)
      → List String
      → Option (List (String × Bytes))
  sequential_lines files mapf reducef names = do
    intermediate ← map_files files mapf names
    some (aggregate_all reducef (sort intermediate))

  -- main behind loadPlugin.
  unfoldable pub sequential :
      Files
      → (String → Bytes → List KeyValue)
      → (String → List String → Bytes)
      → List String
      → Option Files
  sequential files mapf reducef names = do
    lines ← sequential_lines files mapf reducef names
    some (insert "mr-out-0" (print_lines itoa sum32 json sort print_line lines) files)
