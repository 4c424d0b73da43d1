-- ===== src/Raft/Persist/Frame.antt =====
-- What persist() changes, and what it leaves on stable storage.
use mit6_824_labs.Prelude.{◌≡◌, some, arith}
use mit6_824_labs.Raft.Types.{Raft, PersistentStatus}
use mit6_824_labs.Raft.Persist.{Codec, persist}

module _ {C : Type 0} (gob : Codec (PersistentStatus C)) where
  -- Only the persister changes.
  pub persist_frame :
      (rf : Raft C) {rf' : Raft C}
      → persist gob rf ≡ some rf'
      → rf' ≡ record rf { persister = rf'.persister }
  unfolding persist
  persist_frame rf h = ground arith
