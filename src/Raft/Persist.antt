-- ===== src/Raft/Persist.antt =====
-- src/raft/persister.go, and persist, readPersist and Make of src/raft/raft.go.
pub mod Frame
pub mod Saved
pub mod Restart
use mit6_824_labs.Prelude.{
  ℕ, ◌≡◌, ◌≢◌, refl, ap, List, [], ◌∷◌, Option, none, some, false, length, replicate, ltb, ◌>>=◌,
  if◌then◌else◌,
}
use mit6_824_labs.Prelude.Int.{pos}
use mit6_824_labs.Raft.Types.{Bytes, Persister, PersistentStatus, Raft, Role, LogEntry, no_vote}
use mit6_824_labs.Raft.Log.{entry}

-- labgob.NewEncoder(w).Encode and labgob.NewDecoder(r).Decode over encoding/gob at one type;
-- `none` is an error.
pub record Codec (A : Type 0) : Type 0 where
  pub encode : A → Option Bytes
  pub decode : Bytes → Option A

-- What encoding/gob documents of registered types: encoding succeeds and takes some bytes, and what
-- was encoded decodes to the same value.
pub record IsLossless {A : Type 0} (gob : Codec A) : Type 0 where
  pub encodes : (a : A) → gob.encode a ≢ none
  pub lossless : (a : A) (b : Bytes) → gob.encode a ≡ some b → gob.decode b ≡ some a
  pub nonempty : (a : A) → gob.encode a ≡ some [] → ⊥

-- copy(dst, src)
copy : Bytes → Bytes → Bytes
copy [] src = []
copy (d ∷ dst) [] = d ∷ dst
copy (d ∷ dst) (s ∷ src) = s ∷ copy dst src

unfoldable pub clone : Bytes → Bytes
unfolding copy
clone orig = copy (replicate (length orig) 0) orig

abbrev pub make_persister : Persister
make_persister = record { raftstate = []; snapshot = [] }

-- Copy shares the two slices, which no method writes to.
unfoldable pub copy_persister : Persister → Persister
copy_persister ps = record { raftstate = ps.raftstate; snapshot = ps.snapshot }

unfoldable pub save_raft_state : Bytes → Persister → Persister
unfolding clone
save_raft_state data' ps = record ps { raftstate = clone data' }

unfoldable pub read_raft_state : Persister → Bytes
unfolding clone
read_raft_state ps = clone ps.raftstate

unfoldable pub raft_state_size : Persister → ℕ
raft_state_size ps = length ps.raftstate

unfoldable pub save : Bytes → Bytes → Persister → Persister
unfolding clone
save raftstate snapshot ps = record ps { raftstate = clone raftstate; snapshot = clone snapshot }

unfoldable pub read_snapshot : Persister → Bytes
unfolding clone
read_snapshot ps = clone ps.snapshot

unfoldable pub snapshot_size : Persister → ℕ
snapshot_size ps = length ps.snapshot

pub clone_lem : (b : Bytes) → clone b ≡ b
unfolding clone
clone_lem [] = refl
clone_lem (x ∷ b) = ap (◌∷◌ x) (clone_lem b)

module _ {C : Type 0} (gob : Codec (PersistentStatus C)) where
  -- The status that persist() encodes; it reads rf.logs[0].
  abbrev pub status : Raft C → Option (PersistentStatus C)
  status rf = do
    first ← entry rf 0
    some (record {
      logs = rf.logs;
      current_term = rf.current_term;
      voted_for = rf.voted_for;
      last_included_index = rf.last_included_index;
      last_included_term = first.term;
    })

  -- An encoding error leaves the persister as it is.
  unfoldable pub persist : Raft C → Option (Raft C)
  persist rf = do
    st ← status rf
    some (elim (gob.encode st) [
      | none ↦ rf
      | some bytes ↦ record rf { persister = save bytes rf.snapshot rf.persister }
    ])

  -- A handler's body under `defer rf.persist()`.
  abbrev pub persist_after : {R : Type 0} → Option (Raft C × R) → Option (Raft C × R)
  persist_after body = do (rf, reply) ← body; rf' ← persist rf; some (rf', reply)

  -- rf.logs[0].Term = term
  abbrev pub set_first_term : ℕ → List (LogEntry C) → Option (List (LogEntry C))
  set_first_term term [] = none
  set_first_term term (e ∷ logs) = some (record e { term = term } ∷ logs)

  -- The vote is restored from the term, as the source has it.
  abbrev pub restore : Raft C → PersistentStatus C → Option (Raft C)
  restore rf st = do
    logs ← set_first_term st.last_included_term st.logs
    some (record rf {
      current_term = st.current_term;
      voted_for = pos st.current_term;
      logs = logs;
      last_included_index = st.last_included_index;
      commit_index = st.last_included_index;
      last_applied = st.last_included_index;
      snapshot = read_snapshot rf.persister;
    })

  unfoldable pub read_persist : Bytes → Raft C → Option (Raft C)
  read_persist bytes rf =
      if ltb (length bytes) 1
      then some rf
      else elim (gob.decode bytes) [ none ↦ some rf | some st ↦ restore rf st ]

  -- The literal in Make; make() fills the indices with zeros. Its four goroutines are the loops
  -- of the modules Leader, Vote and Applier.
  unfoldable pub initial : ℕ → ℕ → Persister → Raft C
  initial peers me persister = record {
    peers = peers;
    persister = persister;
    me = me;
    dead = false;
    current_term = 0;
    voted_for = no_vote;
    state = Role.follower;
    logs = record { term = 0; cmd = none } ∷ [];
    commit_index = 0;
    last_applied = 0;
    next_index = replicate peers (pos 0);
    match_index = replicate peers 0;
    snapshot = [];
    last_included_index = 0;
    replicate_pre_snapshot = false;
    events = [];
  }

  unfoldable pub make : ℕ → ℕ → Persister → Option (Raft C)
  make peers me persister = read_persist (read_raft_state persister) (initial peers me persister)
