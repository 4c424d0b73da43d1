-- ===== src/KvRaft/Server/Snapshots.antt =====
-- A snapshot of the server, a crash and a restart.
use mit6_824_labs.Prelude.{
  ℕ, ◌-◌, ◌≤◌, ◌<◌, ◌≡◌, refl, ap, ◌∙◌, [], ◌∷◌, some, true, false, length, ltb, arith,
  Option-cases, inl, inr,
}
use mit6_824_labs.Prelude.Int.{ℤ}
use mit6_824_labs.Raft.Types.{Bytes, Raft, PersistentStatus}
use mit6_824_labs.Raft.Persist.{
  Codec, IsLossless, raft_state_size, read_snapshot, clone_lem, initial,
}
use mit6_824_labs.Raft.Persist.Saved.{IsSaved, persist-IsSaved}
use mit6_824_labs.Raft.Persist.Restart.{restarted, restart_recovers}
use mit6_824_labs.Raft.Log.{entry}
use mit6_824_labs.Raft.Snapshot.{snapshot, cut_log}
use mit6_824_labs.Raft.Snapshot.Laws.{snapshot_keeps}
use mit6_824_labs.KvRaft.Types.{Op, KvServer, SnapshotStatus}
use mit6_824_labs.KvRaft.Server.{take_snapshot, start_kv_server, read_persist, reaches_threshold}

some_bytes : (bytes : Bytes) → (bytes ≡ [] → ⊥) → ltb (length bytes) 1 ≡ false
some_bytes [] h = absurd (h refl)
some_bytes (b ∷ bytes) h = ground arith

module _ (gob : Codec (PersistentStatus Op)) (snap : Codec SnapshotStatus) where
  snapshot-IsSaved :
      IsLossless gob
      → (rf : Raft Op) (index : ℕ) (bytes : Bytes) (rf' : Raft Op)
      → snapshot gob rf index bytes ≡ some rf'
      → index ≤ rf.commit_index
      → rf.last_included_index < index
      → IsSaved gob rf'
  unfolding snapshot
  snapshot-IsSaved lossless rf index bytes rf' h committed new =
      let split = index - rf.last_included_index in
      elim (Option-cases (entry rf split)) [
        | inl bad ↦ absurd (ground arith)
        | inr (e, at) ↦
            persist-IsSaved gob lossless
              (record rf {
                last_included_index = index;
                logs = cut_log e.term split rf.logs;
                snapshot = bytes;
              })
              (ground (arith, at))
      ]

  restored :
      IsLossless snap
      → (kv : KvServer) (st : SnapshotStatus) (bytes : Bytes) → snap.encode st ≡ some bytes
      → kv.rf.persister.snapshot ≡ bytes
      → read_persist gob snap kv ≡ record kv { contents = st.contents; duptable = st.duptable }
  unfolding read_persist read_snapshot
  restored lossless kv st bytes e at = ground (
    arith,
    lossless.lossless st bytes e,
    clone_lem bytes,
    some_bytes bytes (λ none_left. lossless.nonempty st (rw none_left at e)),
  )

  -- With lossless codecs: if a server's state has reached the threshold, and Raft's commit index has
  -- come to `index` and its snapshot point has not, then the server that starts on what
  -- take_snapshot leaves on stable storage has the data and the table of duplicates of the old one.
  pub snapshot_restores :
      IsLossless gob
      → IsLossless snap
      → (kv : KvServer) (index : ℕ) (maxraftstate : ℤ) (kv' : KvServer)
      → take_snapshot gob snap index kv ≡ some kv'
      → reaches_threshold (raft_state_size kv.rf.persister) kv.maxraftstate ≡ true
      → index ≤ kv.rf.commit_index
      → kv.rf.last_included_index < index
      → (kv'' : KvServer) × (start_kv_server gob snap kv'.rf.peers kv'.rf.me kv'.rf.persister
            maxraftstate
          ≡ some kv'')
        × (kv''.contents ≡ kv.contents)
        × (kv''.duptable ≡ kv.duptable)
        × (kv''.rf ≡ restarted gob kv'.rf)
  unfolding take_snapshot start_kv_server initial
  snapshot_restores lossless snap_lossless kv index maxraftstate kv' h full committed new =
      let st : SnapshotStatus = record { contents = kv.contents; duptable = kv.duptable } in
      elim (Option-cases (snap.encode st)) [
        | inl bad ↦ absurd (snap_lossless.encodes st bad)
        | inr (bytes, e) ↦ elim (Option-cases (snapshot gob kv.rf index bytes)) [
          | inl bad ↦ absurd (ground (arith, e))
          | inr (rf, at) ↦
              let is_saved = snapshot-IsSaved lossless kv.rf index bytes rf at committed new in
              let (_, is_bytes, _, _, _, _) =
                snapshot_keeps gob kv.rf index bytes rf at committed new in
              let fresh : KvServer = record {
                me = rf.me;
                rf = restarted gob rf;
                dead = false;
                maxraftstate = maxraftstate;
                last_applied = 0;
                duptable = [];
                contents = [];
                wake_client = [];
              } in
              let same : kv'.rf ≡ rf = ground (arith, e, at) in
              let back =
                restored snap_lossless fresh st bytes e (is_saved.snapshotted ∙ is_bytes) in
              (
                record fresh { contents = kv.contents; duptable = kv.duptable },
                rw same (rw (restart_recovers gob lossless rf is_saved) (ap some back)),
                refl,
                refl,
                rw same refl,
              )
        ]
      ]
