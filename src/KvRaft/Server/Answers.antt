-- ===== src/KvRaft/Server/Answers.antt =====
-- What a waiting handler answers with.
use mit6_824_labs.Prelude.{
  ℕ, ◌≡◌, [], ◌∷◌, some, true, false, leb, arith, Option-cases, inl, inr, if◌then◌else◌, ◌&&◌,
}
use mit6_824_labs.Prelude.Int.{pos}
use mit6_824_labs.GoMap.{nat_eq, int_eq, string_eq, ◌==◌, lookup, lookup-insert, equals_refl}
use mit6_824_labs.Raft.Types.{ApplyMsg, PersistentStatus}
use mit6_824_labs.Raft.Persist.{Codec}
use mit6_824_labs.KvRaft.Types.{Op, KvServer, SnapshotStatus, PutAppendArgs, ReqIdentification, Err}
use mit6_824_labs.KvRaft.Server.{
  apply_command, apply_op, wake, take_snapshot, is_duplicate, put_append_end,
}

module _ (gob : Codec (PersistentStatus Op)) (snap : Codec SnapshotStatus) where
  take_snapshot_frame :
      (index : ℕ) (kv : KvServer) {kv' : KvServer}
      → take_snapshot gob snap index kv ≡ some kv'
      → (kv'.wake_client ≡ kv.wake_client) × (kv'.duptable ≡ kv.duptable)
  unfolding take_snapshot
  take_snapshot_frame index kv h = ground arith

  apply_op-wake_client : (kv : KvServer) (op : Op) → (apply_op kv op).wake_client ≡ kv.wake_client
  unfolding apply_op
  apply_op-wake_client kv op = ground arith

  apply_op-known :
      (kv : KvServer) (op : Op)
      → is_duplicate (apply_op kv op).duptable op.client_id op.sequence_id ≡ true
  unfolding apply_op is_duplicate
  apply_op-known kv op = ground (
    arith,
    lookup-insert op.client_id op.client_id op.sequence_id kv.duptable,
    equals_refl op.client_id,
  )

  -- A command that is applied while a handler waits at its index sends that handler the command's
  -- client and sequence number, and PutAppend then answers OK as leader exactly if these are its
  -- request's; the table of duplicates knows the request by then.
  pub waiter_answers :
      (kv : KvServer) (msg : ApplyMsg Op) (op : Op) (args : PutAppendArgs) (kv' : KvServer)
      → apply_command gob snap kv msg ≡ some kv'
      → leb msg.command_index kv.last_applied ≡ false
      → msg.command ≡ some op
      → lookup (pos msg.command_index) kv.wake_client ≡ some []
      → (r : ReqIdentification) × (lookup (pos msg.command_index) kv'.wake_client ≡ some (r ∷ []))
        × ((put_append_end kv' (pos msg.command_index) args (some r)).1 ≡ (
            if (op.client_id == args.client_id) && (op.sequence_id == args.sequence_id)
            then record { leader = true; err = Err.ok }
            else record { leader = false; err = Err.err_wrong_leader }))
        × (is_duplicate kv'.duptable op.client_id op.sequence_id ≡ true)
  unfolding apply_command wake put_append_end
  waiter_answers kv msg op args kv' h new at waits =
      let r : ReqIdentification = record {
        client_id = op.client_id;
        sequence_id = op.sequence_id;
        err = Err.ok;
      } in
      let woken = record (wake msg.command_index op (apply_op kv op)) {
        last_applied = msg.command_index;
      } in
      elim (Option-cases (take_snapshot gob snap msg.command_index woken)) [
        | inl bad ↦ absurd (ground (arith, bad))
        | inr (kv₁, e) ↦ (
          r,
          ground (
            arith,
            e,
            take_snapshot_frame msg.command_index woken e,
            apply_op-wake_client kv op,
            lookup-insert (pos msg.command_index) (pos msg.command_index) (r ∷ []) kv.wake_client,
            equals_refl (pos msg.command_index),
          ),
          ground arith,
          ground (arith, e, take_snapshot_frame msg.command_index woken e, apply_op-known kv op),
        )
      ]
