-- ===== src/Models.antt =====
-- src/models/kv.go: the sequential model of a key/value store, one key at a time. `Operation` of
-- porcupine is reduced to its input and output.
use Prim.Native.String.{String}
use mit6_824_labs.Prelude.{
  ℕ, List, [], ◌∷◌, ◌++◌, none, some, Bool, true, false, ◌&&◌, ◌==◌, if◌then◌else◌,
}
use mit6_824_labs.GoMap.{GoMap, string_eq, lookup, insert}
use mit6_824_labs.Raft.Types.{Bytes}

-- Op: 0 is get, 1 put, 2 append, and any other append with a return value.
pub record KvInput : Type 0 where
  pub op : ℕ
  pub key : String
  pub value : Bytes

pub record KvOutput : Type 0 where
  pub value : Bytes

abbrev pub Operation : Type 0
Operation = KvInput × KvOutput

-- out.Value == st
unfoldable pub same_bytes : Bytes → Bytes → Bool
same_bytes [] [] = true
same_bytes [] (y ∷ ys) = false
same_bytes (x ∷ xs) [] = false
same_bytes (x ∷ xs) (y ∷ ys) = (x == y) && same_bytes xs ys

-- The map m of Partition behind its first loop; its lists, in the order of the sorted keys, are the
-- partition.
unfoldable pub add_operation :
    GoMap String (List Operation) → Operation → GoMap String (List Operation)
add_operation m v = elim (lookup v.0.key m) [
  | none ↦ insert v.0.key (v ∷ []) m
  | some ops ↦ insert v.0.key (ops ++ v ∷ []) m
]

unfoldable pub partition :
    GoMap String (List Operation) → List Operation → GoMap String (List Operation)
partition m [] = m
partition m (v ∷ history) = partition (add_operation m v) history

-- The value of Init.
abbrev pub init : Bytes
init = []

unfoldable pub step : Bytes → KvInput → KvOutput → Bool × Bytes
step st inp out =
    if inp.op == 0
    then (same_bytes out.value st, st)
    else if inp.op == 1
    then (true, inp.value)
    else if inp.op == 2
    then (true, st ++ inp.value)
    else (same_bytes out.value st, st ++ inp.value)
