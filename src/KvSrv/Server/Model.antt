-- ===== src/KvSrv/Server/Model.antt =====
-- The server against the sequential model of src/models/kv.go.
use Prim.Native.String.{String}
use mit6_824_labs.Prelude.{
  ◌≡◌, refl, sym, ap, ◌∙◌, List, [], ◌∷◌, ◌++◌, none, some, Bool, true, ◌&&◌, ==_iff, arith,
  append-nil, append_assoc, if◌then◌else◌, Option-cases, inl, inr,
}
use mit6_824_labs.GoMap.{GoMap, nat_eq, string_eq, ◌==◌, lookup, lookup-insert}
use mit6_824_labs.Raft.Types.{Bytes}
use mit6_824_labs.Models.{Operation, same_bytes, add_operation, partition, step}
use mit6_824_labs.KvSrv.Server.{
  RequestType, PutAppendArgs, GetArgs, KvServer, value_at, get, put, append, forget, modify_put,
  modify_append,
}

-- A request of any client.
pub data Request : Type 0 where
  reads : GetArgs → Request
  puts appends : PutAppendArgs → Request

unfoldable pub serve : KvServer → Request → KvServer
serve kv (Request.reads args) = kv
serve kv (Request.puts args) = (put kv args).0
serve kv (Request.appends args) = (append kv args).0

-- What a request shows its client; a report is no operation.
unfoldable pub shows : KvServer → Request → List Operation
shows kv (Request.reads args) =
    (record { op = 0; key = args.key; value = [] }, record { value = (get kv args).value }) ∷ []
shows kv (Request.puts args) = elim args.request_type [
  | RequestType.report ↦ []
  | RequestType.modify ↦
      (
        record { op = 1; key = args.key; value = args.value },
        record { value = (put kv args).1.value },
      )
      ∷ []
]
shows kv (Request.appends args) = elim args.request_type [
  | RequestType.report ↦ []
  | RequestType.modify ↦
      (
        record { op = 3; key = args.key; value = args.value },
        record { value = (append kv args).1.value },
      )
      ∷ []
]

unfoldable pub history : KvServer → List Request → List Operation
history kv [] = []
history kv (r ∷ rs) = shows kv r ++ history (serve kv r) rs

-- A modification has an identifier that the server has no record of.
unfoldable pub IsNew : KvServer → Request → Type 0
IsNew kv (Request.reads args) = Unit
IsNew kv (Request.puts args) =
    args.request_type ≡ RequestType.modify → lookup args.request_id kv.message_map ≡ none
IsNew kv (Request.appends args) =
    args.request_type ≡ RequestType.modify → lookup args.request_id kv.message_map ≡ none

unfoldable pub AllNew : KvServer → List Request → Type 0
AllNew kv [] = Unit
AllNew kv (r ∷ rs) = IsNew kv r × AllNew (serve kv r) rs

-- The model takes every operation from a state on.
unfoldable pub legal : Bytes → List Operation → Bool
legal st [] = true
legal st ((inp, out) ∷ ops) = (step st inp out).0 && legal (step st inp out).1 ops

unfoldable pub operations_at : String → GoMap String (List Operation) → List Operation
operations_at key m = elim (lookup key m) [ none ↦ [] | some ops ↦ ops ]

-- The operations on a key, by themselves.
only : String → List Operation → List Operation
only key [] = []
only key (v ∷ ops) = let rest = only key ops in if v.0.key == key then v ∷ rest else rest

operations_at-add :
    (key : String) (m : GoMap String (List Operation)) (v : Operation)
    → operations_at key (add_operation m v) ≡ operations_at key m ++ only key (v ∷ [])
unfolding operations_at add_operation only
operations_at-add key m v = elim (Option-cases (lookup v.0.key m)) [
  | inl new ↦ ground (
    arith,
    lookup-insert v.0.key key (v ∷ []) m,
    string_eq.equals_iff v.0.key key,
    append-nil (operations_at key m),
  )
  | inr (ops, old) ↦ ground (
    arith,
    lookup-insert v.0.key key (ops ++ v ∷ []) m,
    string_eq.equals_iff v.0.key key,
    append-nil (operations_at key m),
  )
]

only-append : (key : String) (a b : List Operation) → only key (a ++ b) ≡ only key a ++ only key b
unfolding only
only-append key [] b = refl
only-append key (v ∷ a) b = ground (arith, only-append key a b)

-- The partition at a key is the history of that key, in order.
operations_at-partition :
    (key : String) (m : GoMap String (List Operation)) (ops : List Operation)
    → operations_at key (partition m ops) ≡ operations_at key m ++ only key ops
unfolding partition only
operations_at-partition key m [] = sym (append-nil (operations_at key m))
operations_at-partition key m (v ∷ ops) =
    operations_at-partition key (add_operation m v) ops
    ∙ ap (λ l. l ++ only key ops) (operations_at-add key m v)
    ∙ append_assoc (operations_at key m) (only key (v ∷ [])) (only key ops)
    ∙ ap (λ l. operations_at key m ++ l) (sym (only-append key (v ∷ []) ops))

same_bytes_refl : (b : Bytes) → same_bytes b b ≡ true
unfolding same_bytes
same_bytes_refl [] = refl
same_bytes_refl (x ∷ b) = ground (arith, ==_iff x x, same_bytes_refl b)

-- One request: the model takes what it shows and comes to the value behind it.
legal-shows :
    (kv : KvServer) (r : Request) (key : String) (ops : List Operation)
    → IsNew kv r
    → legal (value_at key kv.contents) (only key (shows kv r) ++ ops)
      ≡ legal (value_at key (serve kv r).contents) ops
unfolding IsNew legal only shows serve step value_at get put append forget modify_put modify_append
legal-shows kv (Request.reads args) key ops new =
    ground
      (arith, string_eq.equals_iff args.key key, same_bytes_refl (value_at args.key kv.contents))
legal-shows kv (Request.puts args) key ops new =
    ground
      (arith, lookup-insert args.key key args.value kv.contents, string_eq.equals_iff args.key key)
legal-shows kv (Request.appends args) key ops new =
    let old = value_at args.key kv.contents in
    ground (
      arith,
      lookup-insert args.key key (old ++ args.value) kv.contents,
      string_eq.equals_iff args.key key,
      same_bytes_refl old,
    )

legal-history :
    (kv : KvServer) (rs : List Request) (key : String)
    → AllNew kv rs
    → legal (value_at key kv.contents) (only key (history kv rs)) ≡ true
unfolding history AllNew legal only
legal-history kv [] key new = refl
legal-history kv (r ∷ rs) key (first, new) =
    ap (legal (value_at key kv.contents)) (only-append key (shows kv r) (history (serve kv r) rs))
    ∙ legal-shows kv r key (only key (history (serve kv r) rs)) first
    ∙ legal-history (serve kv r) rs key new

-- The server implements the model: however gets, puts, appends and reports come, as long as no
-- modification repeats an identifier that the server has a record of, the model takes the history
-- of every key, from the key's value on.
pub server_refines :
    (kv : KvServer) (rs : List Request) (key : String)
    → AllNew kv rs
    → legal (value_at key kv.contents) (operations_at key (partition [] (history kv rs))) ≡ true
unfolding operations_at lookup
server_refines kv rs key new =
    ap (legal (value_at key kv.contents)) (operations_at-partition key [] (history kv rs))
    ∙ legal-history kv rs key new
