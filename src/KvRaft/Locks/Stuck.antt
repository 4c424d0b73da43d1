-- ===== src/KvRaft/Locks/Stuck.antt =====
-- A handler whose time-out comes while apply() is on its way to send to it.
use mit6_824_labs.Prelude.{
  ℕ, ◌≡◌, ◌≢◌, refl, sym, ap, ◌∙◌, arith, ◌==◌, ==_iff, Bool-cases, inl, inr,
}
use mit6_824_labs.Prelude.Int.{ℤ}
use mit6_824_labs.Raft.Types.{ApplyMsg, PersistentStatus}
use mit6_824_labs.Raft.Persist.{Codec}
use mit6_824_labs.Raft.Cluster.{update}
use mit6_824_labs.KvRaft.Types.{Op, KvServer, SnapshotStatus}
use mit6_824_labs.KvRaft.Locks.{Loop, Stage, Server, IsFree, LoopStep, HandlerStep, Step, Steps}

-- The handler that apply() sends to is no longer there to receive.
abbrev pub IsStuck : ApplyMsg Op → ℕ → ℤ → Server → Type 0
IsStuck msg h i s = (s.loop ≡ Loop.sending msg h) × (s.stages h ≡ Stage.cleaning i)

-- A handler that moves from another stage is another one.
cleaning_stays :
    (stages : ℕ → Stage) (h j : ℕ) (i : ℤ) (stage stage' : Stage)
    → stages h ≡ Stage.cleaning i
    → stages j ≡ stage
    → stage ≢ Stage.cleaning i
    → update stages j stage' h ≡ Stage.cleaning i
cleaning_stays stages h j i stage stage' at now other = elim (Bool-cases (h == j)) [
  | inl here ↦
      let same : h ≡ j = (==_iff h j).0 here in absurd (other (sym now ∙ ap stages (sym same) ∙ at))
  | inr there ↦ rw there at
]

-- What clients see of the server, and its channels.
abbrev pub IsFrozen : KvServer → KvServer → Type 0
IsFrozen kv kv' =
    (kv'.last_applied ≡ kv.last_applied)
    × (kv'.contents ≡ kv.contents)
    × (kv'.duptable ≡ kv.duptable)
    × (kv'.wake_client ≡ kv.wake_client)

not_free : (msg : ApplyMsg Op) (h : ℕ) (loop : Loop) → loop ≡ Loop.sending msg h → IsFree loop → ⊥
not_free msg h loop at free = let free' = rw at at free in absurd free'

-- No handler moves the loop, or one that waits for the lock.
HandlerStep-IsStuck :
    (s s' : Server) (msg : ApplyMsg Op) (h : ℕ)
    → HandlerStep s s'
    → s.loop ≡ Loop.sending msg h
    → (s'.loop ≡ Loop.sending msg h)
      × IsFrozen s.kv s'.kv
      × ((j : ℕ) (k : ℤ) → s.stages j ≡ Stage.cleaning k → s'.stages j ≡ Stage.cleaning k)
HandlerStep-IsStuck s s' msg h (HandlerStep.starts j i at e) sends = rw e (
  sends,
  (refl, refl, refl, refl),
  λ j' k now.
      cleaning_stays s.stages j' j k Stage.gone (Stage.started i) now at
        (λ x. absurd (ground (arith, x))),
)
HandlerStep-IsStuck s s' msg h (HandlerStep.registers j i at free e) sends =
    absurd (not_free msg h s.loop sends free)
HandlerStep-IsStuck s s' msg h (HandlerStep.times_out j i at e) sends = rw e (
  sends,
  (refl, refl, refl, refl),
  λ j' k now.
      cleaning_stays s.stages j' j k (Stage.waiting i) (Stage.cleaning i) now at
        (λ x. absurd (ground (arith, x))),
)
HandlerStep-IsStuck s s' msg h (HandlerStep.replies j i at e) sends = rw e (
  sends,
  (refl, refl, refl, refl),
  λ j' k now.
      cleaning_stays s.stages j' j k (Stage.answered i) (Stage.cleaning i) now at
        (λ x. absurd (ground (arith, x))),
)
HandlerStep-IsStuck s s' msg h (HandlerStep.reads j i at free e) sends =
    absurd (not_free msg h s.loop sends free)
HandlerStep-IsStuck s s' msg h (HandlerStep.cleans j i at free e) sends =
    absurd (not_free msg h s.loop sends free)

module _ (gob : Codec (PersistentStatus Op)) (snap : Codec SnapshotStatus) where
  -- The loop itself does not move.
  LoopStep-IsStuck :
      (s s' : Server) (msg : ApplyMsg Op) (h : ℕ) (i : ℤ)
      → IsStuck msg h i s
      → LoopStep gob snap s s'
      → ⊥
  LoopStep-IsStuck s s' msg h i (sends, cleans) (LoopStep.takes msg' at e) =
      absurd (ground (arith, sends, at))
  LoopStep-IsStuck s s' msg h i (sends, cleans) (LoopStep.applies msg' kv goes_on at quiet run e) =
      absurd (ground (arith, sends, at))
  LoopStep-IsStuck s s' msg h i (sends, cleans) (LoopStep.begins_send msg' at wakes e) =
      absurd (ground (arith, sends, at))
  LoopStep-IsStuck s s' msg h i (sends, cleans)
        (LoopStep.meets msg' kv goes_on h' i' at waits run e) =
      let same : h ≡ h' = sending_inj msg msg' h h' (sym sends ∙ at) in
      absurd (ground (arith, same, cleans, waits))
    where
      sending_inj :
          (msg msg' : ApplyMsg Op) (h h' : ℕ) → Loop.sending msg h ≡ Loop.sending msg' h' → h ≡ h'
      sending_inj msg msg' h h' e = ground (arith, e)

  Step-IsStuck :
      (s s' : Server) (msg : ApplyMsg Op) (h : ℕ) (i : ℤ)
      → Step gob snap s s'
      → IsStuck msg h i s
      → IsStuck msg h i s'
        × IsFrozen s.kv s'.kv
        × ((j : ℕ) (k : ℤ) → s.stages j ≡ Stage.cleaning k → s'.stages j ≡ Stage.cleaning k)
  Step-IsStuck s s' msg h i (Step.loops step) stuck =
      absurd (LoopStep-IsStuck s s' msg h i stuck step)
  Step-IsStuck s s' msg h i (Step.handles step) (sends, cleans) =
      let (sends', frozen, stays) = HandlerStep-IsStuck s s' msg h step sends in
      ((sends', stays h i cleans), frozen, stays)
  Step-IsStuck s s' msg h i (Step.rafts rf e) stuck =
      rw e (stuck, (refl, refl, refl, refl), λ j k at. at)

  -- From a state in which the loop of apply() sends to a handler whose time-out has come, so that it
  -- is at its clean: whatever runs, the loop stays at that send, no command is applied any more, no
  -- channel is made or removed, and that handler and every other that is at its clean stay there.
  pub waits_forever :
      (s s' : Server) (msg : ApplyMsg Op) (h j : ℕ) (i k : ℤ)
      → IsStuck msg h i s
      → s.stages j ≡ Stage.cleaning k
      → Steps gob snap s s'
      → IsStuck msg h i s' × (s'.stages j ≡ Stage.cleaning k) × IsFrozen s.kv s'.kv
  waits_forever s s' msg h j i k stuck at Steps.here = (stuck, at, (refl, refl, refl, refl))
  waits_forever s s' msg h j i k stuck at (Steps.next {s' = s₁} steps step) =
      let (stuck₁, at₁, frozen₁) = waits_forever s s₁ msg h j i k stuck at steps in
      let (stuck', frozen, stays) = Step-IsStuck s₁ s' msg h i step stuck₁ in
      (stuck', stays j k at₁, ground (arith, frozen, frozen₁))
