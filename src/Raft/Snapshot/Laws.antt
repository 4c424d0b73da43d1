-- ===== src/Raft/Snapshot/Laws.antt =====
-- What the two ways to cut the log keep of it.
use mit6_824_labs.Prelude.{
  ℕ, zero, suc, ◌+◌, ◌-◌, ◌≤◌, ◌<◌, ◌≡◌, inl, inr, [], ◌∷◌, some, none, Bool, arith, length,
  get_elem?, get_elem?-drop, length-drop, get_elem?-none, ltb, leb, ◌==◌, Option-cases, ◌&&◌,
  if◌then◌else◌,
}
use mit6_824_labs.Raft.Types.{
  Bytes, Raft, LogEntry, PersistentStatus, InstallSnapshotArgs, InstallSnapshotReply,
}
use mit6_824_labs.Raft.Log.{entry_at, real_log_len}
use mit6_824_labs.Raft.Persist.{Codec, persist}
use mit6_824_labs.Raft.Persist.Frame.{persist_frame}
use mit6_824_labs.Raft.Append.Agreement.{term_at}
use mit6_824_labs.Raft.Snapshot.{
  snapshot, install_snapshot, install_point, install, obey, cut_log, find_snapshot_point,
}

module _ {C : Type 0} (gob : Codec (PersistentStatus C)) where
  -- An accepted snapshot becomes the snapshot point, keeps every entry behind it and the term of the
  -- entry at it, and the positions of the log and the commit index stay as they are.
  pub snapshot_keeps :
      (rf : Raft C) (index : ℕ) (bytes : Bytes) (rf' : Raft C)
      → snapshot gob rf index bytes ≡ some rf'
      → index ≤ rf.commit_index
      → rf.last_included_index < index
      → (rf'.last_included_index ≡ index)
        × (rf'.snapshot ≡ bytes)
        × (rf'.commit_index ≡ rf.commit_index)
        × (term_at rf' index ≡ term_at rf index)
        × ((i : ℕ) → index < i → entry_at rf' i ≡ entry_at rf i)
        × (real_log_len rf' ≡ real_log_len rf)
  unfolding snapshot persist cut_log
  snapshot_keeps rf index bytes rf' h committed new =
      let split = index - rf.last_included_index in
      (
        ground arith,
        ground arith,
        ground arith,
        ground arith,
        λ i behind. ground (arith, get_elem?-drop (split + 1) rf.logs (i - index - 1)),
        ground (arith, length-drop (split + 1) rf.logs, get_elem?-none rf.logs split),
      )

module _ {C : Type 0} where
  -- The loop finds the position of the snapshot's last index, if it is in range and entry 0 has the
  -- snapshot's term.
  find_snapshot_point_lem :
      (rf : Raft C) (args : InstallSnapshotArgs) (first : LogEntry C) (i n : ℕ)
      → get_elem? rf.logs 0 ≡ some first
      → rf.last_included_index ≤ args.last_included_index
      → let d = args.last_included_index - rf.last_included_index in
        find_snapshot_point rf args i n
        ≡ some (
            if leb i d && (ltb d (i + n) && (first.term == args.last_included_term))
            then some d
            else none)
  unfolding find_snapshot_point
  find_snapshot_point_lem rf args first i zero at le = ground arith
  find_snapshot_point_lem rf args first i (suc n) at le =
      ground (arith, find_snapshot_point_lem rf args first (suc i) n at le)

  install_point_effect :
      (rf : Raft C) (args : InstallSnapshotArgs) (first : LogEntry C) {rf' : Raft C}
      {reply : InstallSnapshotReply}
      → install_point rf args ≡ some (rf', reply)
      → get_elem? rf.logs 0 ≡ some first
      → rf.last_included_index < args.last_included_index
      → let d = args.last_included_index - rf.last_included_index in
        rf'
        ≡ install rf args (
            if ltb d (length rf.logs) && (first.term == args.last_included_term)
            then cut_log args.last_included_term d rf.logs
            else record { term = args.last_included_term; cmd = none } ∷ [])
  unfolding install_point install
  install_point_effect rf args first h at new =
      ground (arith, find_snapshot_point_lem rf args first 1 (length rf.logs - 1) at)

module _ {C : Type 0} (gob : Codec (PersistentStatus C)) where
  install_step :
      (rf : Raft C) (args : InstallSnapshotArgs) (first : LogEntry C) {rf' : Raft C}
      {reply : InstallSnapshotReply}
      → install_snapshot gob rf args ≡ some (rf', reply)
      → get_elem? rf.logs 0 ≡ some first
      → rf.current_term ≤ args.term
      → rf.last_included_index < args.last_included_index
      → rf.commit_index < args.last_included_index
      → (rf'.last_included_index ≡ args.last_included_index)
        × (rf'.commit_index ≡ args.last_included_index)
        × (rf'.last_applied ≡ args.last_included_index)
        × (rf'.snapshot ≡ args.bytes)
        × (rf'.logs ≡ (
            if ltb (args.last_included_index - rf.last_included_index) (length rf.logs)
              && (first.term == args.last_included_term)
            then cut_log args.last_included_term
                (args.last_included_index - rf.last_included_index)
                rf.logs
            else record { term = args.last_included_term; cmd = none } ∷ []))
  unfolding install_snapshot obey install
  install_step rf args first h at new ahead open_index =
      elim (Option-cases (install_point (obey rf args.term) args)) [
        | inl bad ↦ absurd (ground arith)
        | inr ((r, out), e) ↦ elim (Option-cases (persist gob r)) [
          | inl bad ↦ absurd (ground arith)
          | inr (r', f) ↦
              ground (
                arith,
                persist_frame gob r f,
                install_point_effect (obey rf args.term) args first e,
              )
        ]
      ]

  -- Whether the entries behind a snapshot stay, by entry 0 of the log.
  abbrev pub keeps_suffix : Raft C → InstallSnapshotArgs → LogEntry C → Bool
  keeps_suffix rf args first =
      ltb args.last_included_index (real_log_len rf) && (first.term == args.last_included_term)

  -- A snapshot of the current or a later term, ahead of the snapshot point and of the commit index,
  -- becomes the snapshot point, the commit index and the applied index, with its term at that
  -- position. The entries behind it stay exactly when the log reaches past it and entry 0 has the
  -- snapshot's term; else the log ends there.
  pub install_snapshot_effect :
      (rf : Raft C) (args : InstallSnapshotArgs) (first : LogEntry C) (rf' : Raft C)
      (reply : InstallSnapshotReply)
      → install_snapshot gob rf args ≡ some (rf', reply)
      → get_elem? rf.logs 0 ≡ some first
      → rf.current_term ≤ args.term
      → rf.last_included_index < args.last_included_index
      → rf.commit_index < args.last_included_index
      → (rf'.last_included_index ≡ args.last_included_index)
        × (rf'.commit_index ≡ args.last_included_index)
        × (rf'.last_applied ≡ args.last_included_index)
        × (rf'.snapshot ≡ args.bytes)
        × (term_at rf' args.last_included_index ≡ some args.last_included_term)
        × (real_log_len rf' ≡ (
            if keeps_suffix rf args first then real_log_len rf else args.last_included_index + 1))
        × ((i : ℕ)
            → args.last_included_index < i
            → entry_at rf' i ≡ (if keeps_suffix rf args first then entry_at rf i else none))
  unfolding cut_log
  install_snapshot_effect rf args first rf' reply h at new ahead open_index =
      let (point, committed, applied, kept, log) =
        install_step rf args first h at new ahead open_index in
      let d = args.last_included_index - rf.last_included_index in
      (
        point,
        committed,
        applied,
        kept,
        ground (arith, point, log),
        ground (arith, point, log, length-drop (d + 1) rf.logs),
        λ i behind.
            ground (
              arith,
              point,
              log,
              get_elem?-drop (d + 1) rf.logs (i - args.last_included_index - 1),
            ),
      )
