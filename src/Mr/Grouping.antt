-- ===== src/Mr/Grouping.antt =====
-- The loop of mrsequential.go and of DoReduce over the sorted pairs. An index that only moves forward
-- is the suffix that is left.
pub mod Laws
use Prim.Native.String.{String}
use mit6_824_labs.Prelude.{
  ℕ, zero, suc, List, [], ◌∷◌, ◌++◌, Bool, true, false, length, if◌then◌else◌,
}
use mit6_824_labs.GoMap.{string_eq, ◌==◌}
use mit6_824_labs.Raft.Types.{Bytes}
use mit6_824_labs.Mr.Keys.{KeyValue}

-- The values from i to j, and the pairs from j on, where j is the first index with another key.
unfoldable pub run_values : String → List KeyValue → List String
run_values key [] = []
run_values key (kv ∷ kvs) =
    let rest = run_values key kvs in if kv.key == key then kv.value ∷ rest else []

unfoldable pub behind_run : String → List KeyValue → List KeyValue
behind_run key [] = []
behind_run key (kv ∷ kvs) =
    let rest = behind_run key kvs in if kv.key == key then rest else kv ∷ kvs

-- The outer loop with `fuel` rounds: the keys with their outputs.
unfoldable pub aggregate :
    (String → List String → Bytes) → ℕ → List KeyValue → List (String × Bytes)
aggregate reducef zero kvs = []
aggregate reducef (suc fuel) [] = []
aggregate reducef (suc fuel) (kv ∷ kvs) =
    (kv.key, reducef kv.key (kv.value ∷ run_values kv.key kvs))
    ∷ aggregate reducef fuel (behind_run kv.key kvs)

-- A round takes a pair at least, so a round for each pair is enough.
abbrev pub aggregate_all : (String → List String → Bytes) → List KeyValue → List (String × Bytes)
aggregate_all reducef kvs = aggregate reducef (length kvs) kvs
