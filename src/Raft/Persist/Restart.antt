-- ===== src/Raft/Persist/Restart.antt =====
-- A crash and a restart: persist(), and Make on what it left.
use mit6_824_labs.Prelude.{
  ◌≡◌, ◌<◌, refl, [], ◌∷◌, some, true, arith, length, Option-cases, inl, inr, Bool-cases, ltb,
  ◌>>=◌, get_elem?-none, length-replicate,
}
use mit6_824_labs.Prelude.Int.{pos, ==ℤ_refl}
use mit6_824_labs.Raft.Types.{Bytes, Raft, PersistentStatus, RequestVoteArgs, RequestVoteReply}
use mit6_824_labs.Raft.Log.{is_log_up_to_date}
use mit6_824_labs.Raft.Persist.{
  Codec, IsLossless, clone_lem, read_persist, initial, make, read_raft_state, read_snapshot,
}
use mit6_824_labs.Raft.Persist.Saved.{IsSaved}
use mit6_824_labs.Raft.Vote.{request_vote, adopt_term, decide_vote, may_vote}
use mit6_824_labs.Raft.Node.Valid.{IsValid}
use mit6_824_labs.Raft.Node.Total.{rpc_no_panic}

empty_bytes : (bytes : Bytes) → ltb (length bytes) 1 ≡ true → bytes ≡ []
empty_bytes [] h = refl
empty_bytes (b ∷ bytes) h = absurd (ground arith)

module _ {C : Type 0} (gob : Codec (PersistentStatus C)) where
  -- The peer that Make builds from stable storage.
  abbrev pub restarted : Raft C → Raft C
  restarted rf = record (initial gob rf.peers rf.me rf.persister) {
    current_term = rf.current_term;
    voted_for = pos rf.current_term;
    logs = rf.logs;
    last_included_index = rf.last_included_index;
    commit_index = rf.last_included_index;
    last_applied = rf.last_included_index;
    snapshot = rf.snapshot;
  }

  -- If the state in memory is saved, a restart finds its term, its log, its snapshot and its
  -- snapshot point, commits and applies up to that point, and takes the term's number for the vote.
  pub restart_recovers :
      IsLossless gob
      → (rf : Raft C) → IsSaved gob rf
      → make gob rf.peers rf.me rf.persister ≡ some (restarted rf)
  unfolding make read_persist initial read_raft_state read_snapshot
  restart_recovers lossless rf s =
      let (st, at, e) = s.stored in
      let back = lossless.lossless st rf.persister.raftstate e in
      elim (Bool-cases (ltb (length rf.persister.raftstate) 1)) [
        | inl bad ↦
            let none_left : rf.persister.raftstate ≡ [] = empty_bytes rf.persister.raftstate bad in
            absurd (lossless.nonempty st (rw none_left at e))
        | inr long ↦
            rw (clone_lem rf.persister.raftstate, long, back)
              (ground (arith, s.snapshotted, clone_lem rf.persister.snapshot))
      ]

  restarted-IsValid : (rf : Raft C) → IsSaved gob rf → rf.me < rf.peers → IsValid (restarted rf)
  unfolding initial
  restarted-IsValid rf s member =
      let (st, at, e) = s.stored in
      record {
        nonempty = ground (arith, at, get_elem?-none rf.logs 0);
        covered = omega arith;
        next_sized = length-replicate rf.peers (pos 0);
        match_sized = length-replicate rf.peers 0;
        member = member;
      }

  grants_own_number :
      (rf : Raft C) (args : RequestVoteArgs) (rf' : Raft C) (reply : RequestVoteReply)
      → args.term ≡ rf.current_term
      → args.candidate_id ≡ rf.current_term
      → is_log_up_to_date rf args.last_log_term args.last_log_index ≡ some true
      → request_vote gob (restarted rf) args ≡ some (rf', reply)
      → reply.vote_granted ≡ true
  unfolding request_vote adopt_term decide_vote may_vote
  grants_own_number rf args rf' reply same number fresh h =
      ground (arith, ==ℤ_refl (pos rf.current_term))

  -- The vote that a restart makes up: a peer that has voted in its term grants, after a restart, a
  -- request of the same term from the candidate whose number is the term, if the candidate's log is
  -- up to date, whoever had the vote.
  pub restart_votes_again :
      IsLossless gob
      → (rf : Raft C) (args : RequestVoteArgs) → IsSaved gob rf
      → rf.me < rf.peers
      → args.term ≡ rf.current_term
      → args.candidate_id ≡ rf.current_term
      → is_log_up_to_date rf args.last_log_term args.last_log_index ≡ some true
      → (rf' : Raft C) × (reply : RequestVoteReply) × ((make gob rf.peers rf.me rf.persister
            >>= λ r. request_vote gob r args)
          ≡ some (rf', reply))
        × (reply.vote_granted ≡ true)
  restart_votes_again lossless rf args s member same number fresh =
      elim (Option-cases (request_vote gob (restarted rf) args)) [
        | inl panics ↦
            absurd ((rpc_no_panic gob (restarted rf) (restarted-IsValid rf s member)).0 args panics)
        | inr ((rf', reply), e) ↦ (
          rf',
          reply,
          rw (restart_recovers lossless rf s) e,
          grants_own_number rf args rf' reply same number fresh e,
        )
      ]
