-- ===== src/KvRaft/Server/Dedup.antt =====
-- Copies of a command: what apply() does with a request that it has applied.
use mit6_824_labs.Prelude.{ℕ, ◌≤◌, ◌≡◌, List, [], ◌∷◌, true, arith}
use mit6_824_labs.GoMap.{nat_eq, lookup-insert, equals_refl}
use mit6_824_labs.KvRaft.Types.{Op, KvServer}
use mit6_824_labs.KvRaft.Server.{is_duplicate, apply_op}

unfoldable pub apply_ops : KvServer → List Op → KvServer
apply_ops kv [] = kv
apply_ops kv (op ∷ ops) = apply_ops (apply_op kv op) ops

-- The table knows of a request that is as late.
abbrev pub Knows : KvServer → ℕ → ℕ → Type 0
Knows kv client_id sequence_id = is_duplicate kv.duptable client_id sequence_id ≡ true

apply_op-Knows : (kv : KvServer) (op : Op) → Knows (apply_op kv op) op.client_id op.sequence_id
unfolding apply_op is_duplicate
apply_op-Knows kv op = ground (
  arith,
  lookup-insert op.client_id op.client_id op.sequence_id kv.duptable,
  equals_refl op.client_id,
)

Knows-keep :
    (kv : KvServer) (op : Op) (client_id sequence_id : ℕ)
    → Knows kv client_id sequence_id
    → Knows (apply_op kv op) client_id sequence_id
unfolding apply_op is_duplicate
Knows-keep kv op client_id sequence_id h =
    ground (arith, lookup-insert op.client_id client_id op.sequence_id kv.duptable)

Knows-keep_all :
    (kv : KvServer) (ops : List Op) (client_id sequence_id : ℕ)
    → Knows kv client_id sequence_id
    → Knows (apply_ops kv ops) client_id sequence_id
unfolding apply_ops
Knows-keep_all kv [] c s h = h
Knows-keep_all kv (op ∷ ops) c s h =
    Knows-keep_all (apply_op kv op) ops c s (Knows-keep kv op c s h)

Knows-earlier : (kv : KvServer) (c s s' : ℕ) → Knows kv c s → s' ≤ s → Knows kv c s'
unfolding is_duplicate
Knows-earlier kv c s s' h le = ground arith

apply_op_known :
    (kv : KvServer) (op : Op) → Knows kv op.client_id op.sequence_id → apply_op kv op ≡ kv
unfolding apply_op
apply_op_known kv op h = rw h

-- Behind a command, and whatever commands follow it, applying it again changes nothing; nor does any
-- earlier request of the same client.
pub apply_once :
    (kv : KvServer) (op again : Op) (ops : List Op)
    → again.client_id ≡ op.client_id
    → again.sequence_id ≤ op.sequence_id
    → apply_op (apply_ops (apply_op kv op) ops) again ≡ apply_ops (apply_op kv op) ops
apply_once kv op again ops same earlier =
    let kv' = apply_ops (apply_op kv op) ops in
    let known =
      Knows-keep_all (apply_op kv op) ops op.client_id op.sequence_id (apply_op-Knows kv op) in
    let at : Knows kv' again.client_id op.sequence_id = rw same known in
    apply_op_known kv' again
      (Knows-earlier kv' again.client_id op.sequence_id again.sequence_id at earlier)
