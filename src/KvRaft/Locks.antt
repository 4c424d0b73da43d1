-- ===== src/KvRaft/Locks.antt =====
-- The goroutines of src/kvraft/server.go around kv.mu and the unbuffered wake-up channels: apply()
-- holds the lock while it sends, and a handler waits for its channel or the time-out, and then for
-- the lock. A critical section of a handler never waits, and is one step that finds the lock free.
pub mod Stuck
use mit6_824_labs.Prelude.{
  ℕ, ◌≡◌, ◌⊎◌, Option, none, some, Bool, true, false, leb, ◌==◌, if◌then◌else◌,
}
use mit6_824_labs.Prelude.Int.{ℤ, pos}
use mit6_824_labs.GoMap.{Eq, nat_eq, int_eq, lookup}
use mit6_824_labs.Raft.Types.{Raft, PersistentStatus, ApplyMsg}
use mit6_824_labs.Raft.Persist.{Codec}
use mit6_824_labs.Raft.Cluster.{update}
use mit6_824_labs.KvRaft.Types.{Op, KvServer, SnapshotStatus}
use mit6_824_labs.KvRaft.Server.{apply_msg, await, clean}

-- Where apply() is: without the lock, or with it, before the send to a handler or at it; or it has
-- returned.
pub data Loop : Type 0 where
  idle ended : Loop
  holding : ApplyMsg Op → Loop
  sending : ApplyMsg Op → ℕ → Loop

-- Where a handler is: not called, behind Start with an index, waiting on the channel of the index,
-- behind its answer, or at the deferred clean.
pub data Stage : Type 0 where
  gone : Stage
  started waiting answered cleaning : ℤ → Stage

-- `channels` has the handler that made the channel of an index last.
pub record Server : Type 0 where
  pub kv : KvServer
  pub loop : Loop
  pub stages : ℕ → Stage
  pub channels : ℤ → ℕ

-- No one holds kv.mu.
abbrev pub IsFree : Loop → Type 0
IsFree Loop.idle = Unit
IsFree Loop.ended = Unit
IsFree (Loop.holding msg) = ⊥
IsFree (Loop.sending msg h) = ⊥

abbrev is_present : {A : Type 0} → Option A → Bool
is_present none = false
is_present (some a) = true

-- apply() comes to the send: a command that is not covered, at an index with a channel.
unfoldable pub comes_to_send : KvServer → ApplyMsg Op → Bool
comes_to_send kv msg =
    if msg.command_valid
    then (if leb msg.command_index kv.last_applied
        then false
        else is_present (lookup (pos msg.command_index) kv.wake_client))
    else false

abbrev loop_of : Bool → Loop
loop_of true = Loop.idle
loop_of false = Loop.ended

abbrev with_channel : (ℤ → ℕ) → ℤ → ℕ → ℤ → ℕ
with_channel channels i h j = let rest = channels j in if int_eq.equals j i then h else rest

module _ (gob : Codec (PersistentStatus Op)) (snap : Codec SnapshotStatus) where
  -- What a message does to the server stands at the end of its critical section.
  pub data LoopStep (s s' : Server) : Type 0 where
    takes :
        (msg : ApplyMsg Op)
        → s.loop ≡ Loop.idle
        → s' ≡ record s { loop = Loop.holding msg }
        → LoopStep s s'
    applies :
        (msg : ApplyMsg Op) (kv : KvServer) (goes_on : Bool)
        → s.loop ≡ Loop.holding msg
        → comes_to_send s.kv msg ≡ false
        → apply_msg gob snap s.kv msg ≡ some (kv, goes_on)
        → s' ≡ record s { kv = kv; loop = loop_of goes_on }
        → LoopStep s s'
    begins_send :
        (msg : ApplyMsg Op)
        → s.loop ≡ Loop.holding msg
        → comes_to_send s.kv msg ≡ true
        → s' ≡ record s { loop = Loop.sending msg (s.channels (pos msg.command_index)) }
        → LoopStep s s'
    meets :
        (msg : ApplyMsg Op) (kv : KvServer) (goes_on : Bool) (h : ℕ) (i : ℤ)
        → s.loop ≡ Loop.sending msg h
        → s.stages h ≡ Stage.waiting i
        → apply_msg gob snap s.kv msg ≡ some (kv, goes_on)
        → s' ≡ record s {
          kv = kv;
          loop = loop_of goes_on;
          stages = update s.stages h (Stage.answered i);
        }
        → LoopStep s s'

-- `replies` is PutAppend's way to its clean, and `reads` that of Get, which looks the key up.
pub data HandlerStep (s s' : Server) : Type 0 where
  starts :
      (h : ℕ) (i : ℤ)
      → s.stages h ≡ Stage.gone
      → s' ≡ record s { stages = update s.stages h (Stage.started i) }
      → HandlerStep s s'
  registers :
      (h : ℕ) (i : ℤ)
      → s.stages h ≡ Stage.started i
      → IsFree s.loop
      → s' ≡ record s {
        kv = await i s.kv;
        stages = update s.stages h (Stage.waiting i);
        channels = with_channel s.channels i h;
      }
      → HandlerStep s s'
  times_out :
      (h : ℕ) (i : ℤ)
      → s.stages h ≡ Stage.waiting i
      → s' ≡ record s { stages = update s.stages h (Stage.cleaning i) }
      → HandlerStep s s'
  replies :
      (h : ℕ) (i : ℤ)
      → s.stages h ≡ Stage.answered i
      → s' ≡ record s { stages = update s.stages h (Stage.cleaning i) }
      → HandlerStep s s'
  reads :
      (h : ℕ) (i : ℤ)
      → s.stages h ≡ Stage.answered i
      → IsFree s.loop
      → s' ≡ record s { stages = update s.stages h (Stage.cleaning i) }
      → HandlerStep s s'
  cleans :
      (h : ℕ) (i : ℤ)
      → s.stages h ≡ Stage.cleaning i
      → IsFree s.loop
      → s' ≡ record s { kv = clean i s.kv; stages = update s.stages h Stage.gone }
      → HandlerStep s s'

module _ (gob : Codec (PersistentStatus Op)) (snap : Codec SnapshotStatus) where
  -- Raft runs under a lock of its own, and changes whatever it likes of its state.
  pub data Step (s s' : Server) : Type 0 where
    loops : LoopStep gob snap s s' → Step s s'
    handles : HandlerStep s s' → Step s s'
    rafts : (rf : Raft Op) → s' ≡ record s { kv = record s.kv { rf = rf } } → Step s s'

  pub data Steps (s : Server) : Server → Type 0 where
    here : Steps s s
    next : {s' s'' : Server} → Steps s s' → Step s' s'' → Steps s s''
