-- ===== src/KvRaft/Server/Replicas.antt =====
-- Replicas: servers that apply the same messages.
use mit6_824_labs.Prelude.{
  ℕ, ◌≡◌, ◌∙◌, sym, List, [], ◌∷◌, some, Bool, false, leb, arith, Bool-cases, Option-cases, inl,
  inr, some_inj,
}
use mit6_824_labs.GoMap.{int_eq}
use mit6_824_labs.Raft.Types.{PersistentStatus, ApplyMsg}
use mit6_824_labs.Raft.Persist.{Codec}
use mit6_824_labs.KvRaft.Types.{Op, KvServer, SnapshotStatus}
use mit6_824_labs.KvRaft.Server.{
  apply_op, wake, take_snapshot, apply_command, apply_snapshot, apply_msg, apply,
}

-- The part of a server that the messages decide.
pub record Same (a b : KvServer) : Type 0 where
  pub contents : a.contents ≡ b.contents
  pub duptable : a.duptable ≡ b.duptable
  pub last_applied : a.last_applied ≡ b.last_applied
  pub dead : a.dead ≡ b.dead

module _ (gob : Codec (PersistentStatus Op)) (snap : Codec SnapshotStatus) where
  take_snapshot-Same :
      (index : ℕ) (kv : KvServer) {kv' : KvServer}
      → take_snapshot gob snap index kv ≡ some kv'
      → Same kv' kv
  unfolding take_snapshot
  take_snapshot-Same index kv h = ground arith

  wake-Same : (index : ℕ) (op : Op) (kv : KvServer) → Same (wake index op kv) kv
  unfolding wake
  wake-Same index op kv = ground arith

  apply_op-Same : (a b : KvServer) (op : Op) → Same a b → Same (apply_op a op) (apply_op b op)
  unfolding apply_op
  apply_op-Same a b op s = ground arith

  Same-trans : (a b c : KvServer) → Same a b → Same b c → Same a c
  Same-trans a b c s t = ground arith

  Same-sym : (a b : KvServer) → Same a b → Same b a
  Same-sym a b s = ground arith

  -- What a command makes of the part that counts.
  applied : KvServer → ApplyMsg Op → Op → KvServer
  applied kv msg op = record (apply_op kv op) { last_applied = msg.command_index }

  applied-Same :
      (a b : KvServer) (msg : ApplyMsg Op) (op : Op)
      → Same a b
      → Same (applied a msg op) (applied b msg op)
  unfolding applied
  applied-Same a b msg op s = ground (arith, apply_op-Same a b op s)

  apply_command-applied :
      (kv : KvServer) (msg : ApplyMsg Op) {kv' : KvServer}
      → apply_command gob snap kv msg ≡ some kv'
      → leb msg.command_index kv.last_applied ≡ false
      → (op : Op) × (msg.command ≡ some op) × Same kv' (applied kv msg op)
  unfolding apply_command applied
  apply_command-applied kv msg h new = elim (Option-cases msg.command) [
    | inl bad ↦ absurd (ground arith)
    | inr (op, at) ↦
        let woken = record (wake msg.command_index op (apply_op kv op)) {
          last_applied = msg.command_index;
        } in
        elim (Option-cases (take_snapshot gob snap msg.command_index woken)) [
          | inl bad ↦ absurd (ground (arith, at))
          | inr (kv₁, e) ↦ (
            op,
            at,
            ground (
              arith,
              at,
              take_snapshot-Same msg.command_index woken e,
              wake-Same msg.command_index op (apply_op kv op),
            ),
          )
        ]
  ]

  apply_command-Same :
      (a b : KvServer) (msg : ApplyMsg Op) {a' b' : KvServer}
      → Same a b
      → apply_command gob snap a msg ≡ some a'
      → apply_command gob snap b msg ≡ some b'
      → Same a' b'
  unfolding apply_command
  apply_command-Same a b msg s h k = elim (Bool-cases (leb msg.command_index a.last_applied)) [
    | inl old ↦ ground arith
    | inr new ↦
        let (op, at, left) = apply_command-applied a msg h new in
        let (op', at', right) = apply_command-applied b msg k (rw (← s.last_applied) new) in
        let same_op : op ≡ op' = some_inj (sym at ∙ at') in
        ground (arith, left, right, same_op, applied-Same a b msg op s)
  ]

  apply_snapshot-Same :
      (a b : KvServer) (msg : ApplyMsg Op)
      → Same a b
      → Same (apply_snapshot gob snap a msg).0 (apply_snapshot gob snap b msg).0
        × ((apply_snapshot gob snap a msg).1 ≡ (apply_snapshot gob snap b msg).1)
  unfolding apply_snapshot
  apply_snapshot-Same a b msg s = ground arith

  apply_msg-Same :
      (a b : KvServer) (msg : ApplyMsg Op) {a' b' : KvServer} {on on' : Bool}
      → Same a b
      → apply_msg gob snap a msg ≡ some (a', on)
      → apply_msg gob snap b msg ≡ some (b', on')
      → Same a' b' × (on ≡ on')
  unfolding apply_msg
  apply_msg-Same a b msg s h k = elim (Option-cases (apply_command gob snap a msg)) [
    | inl bad ↦ ground (arith, apply_snapshot-Same a b msg s)
    | inr (a₁, e) ↦ elim (Option-cases (apply_command gob snap b msg)) [
      | inl bad ↦ ground (arith, apply_snapshot-Same a b msg s)
      | inr (b₁, f) ↦
          ground (arith, apply_snapshot-Same a b msg s, apply_command-Same a b msg s e f)
    ]
  ]

  -- Two servers that hold the same data, table, applied index and dead flag, and apply the same
  -- messages, hold the same of each behind them.
  pub replicas_agree :
      (a b : KvServer) (msgs : List (ApplyMsg Op)) (a' b' : KvServer)
      → Same a b
      → apply gob snap a msgs ≡ some a'
      → apply gob snap b msgs ≡ some b'
      → Same a' b'
  unfolding apply
  replicas_agree a b [] a' b' s h k = ground arith
  replicas_agree a b (msg ∷ msgs) a' b' s h k = elim (Option-cases (apply_msg gob snap a msg)) [
    | inl bad ↦ absurd (ground arith)
    | inr ((a₁, on), e) ↦ elim (Option-cases (apply_msg gob snap b msg)) [
      | inl bad ↦ absurd (ground arith)
      | inr ((b₁, on'), f) ↦
          let (same, ons) = apply_msg-Same a b msg s e f in
          elim (Bool-cases on) [
            | inl goes ↦ replicas_agree a₁ b₁ msgs a' b' same (ground arith) (ground arith)
            | inr off ↦ ground (arith, same)
          ]
    ]
  ]
