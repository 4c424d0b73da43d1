-- ===== src/Mr/Types.antt =====
-- src/mr/rpc.go and the types of src/mr/coordinator.go.
use Prim.Native.String.{String}
use mit6_824_labs.Prelude.{ℕ, List, Bool, ◌≡◌, refl, ◌⊎◌, inl, inr}
use mit6_824_labs.Prelude.Int.{ℤ}
use mit6_824_labs.GoMap.{GoMap}

pub record Task : Type 0 where
  pub map_id : ℕ
  pub reduce_id : ℕ
  pub file_name : String

-- Task{}
abbrev pub no_task : Task
no_task = record { map_id = 0; reduce_id = 0; file_name = "" }

-- `time` is in Unix seconds.
pub record TaskState : Type 0 where
  pub time : ℕ
  pub fin : Bool

-- Both channels are the lists of what they hold, the oldest first. The channels' capacities are
-- the numbers of files and of reduce tasks.
pub record Coordinator : Type 0 where
  pub state : ℕ  -- 0 Map, 1 Reduce, 2 finished
  pub num_map_tasks : ℕ
  pub num_reduce_tasks : ℕ
  pub map_task : List Task
  pub reduce_task : List Task
  pub map_task_states : GoMap ℕ TaskState
  pub reduce_task_states : GoMap ℕ TaskState
  pub files : List String

pub record TaskResponse : Type 0 where
  pub x_task : Task
  pub num_map_tasks : ℕ
  pub num_reduce_tasks : ℕ
  pub cur_num_map_tasks : ℤ
  pub cur_num_reduce_tasks : ℤ
  pub state : ℕ

-- How a method ends: it returns, waits for ever on a full channel if no one receives, or panics.
pub data Run {ℓ} (A : Type ℓ) : Type ℓ where
  ok : A → Run A
  blocks panics : Run A

infixl 10 ◌>>=◌
abbrev pub ◌>>=◌ {ℓ κ} : {A : Type ℓ} {B : Type κ} → Run A → (A → Run B) → Run B
Run.ok a >>= f = f a
Run.blocks >>= f = Run.blocks
Run.panics >>= f = Run.panics

pub Run-cases {ℓ} :
    {A : Type ℓ} (r : Run A) → ((a : A) × (r ≡ Run.ok a)) ⊎ ((r ≡ Run.blocks) ⊎ (r ≡ Run.panics))
Run-cases (Run.ok a) = inl (a, refl)
Run-cases Run.blocks = inr (inl refl)
Run-cases Run.panics = inr (inr refl)

pub >>=-eq-ok {ℓ κ} :
    {A : Type ℓ} {B : Type κ} (m : Run A) (f : A → Run B) {b : B}
    → (m >>= f) ≡ Run.ok b
    → (a : A) × (m ≡ Run.ok a) × (f a ≡ Run.ok b)
>>=-eq-ok (Run.ok a) f h = (a, refl, h)
>>=-eq-ok Run.blocks f h = cc
>>=-eq-ok Run.panics f h = cc
