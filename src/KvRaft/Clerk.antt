-- ===== src/KvRaft/Clerk.antt =====
-- src/kvraft/client.go: a clerk that asks one server after another until one answers as leader.
pub mod Retry
use Prim.Native.String.{String}
use mit6_824_labs.Prelude.{
  ℕ, zero, suc, ◌+◌, ◌%◌, List, [], Option, none, some, Bool, ◌>>=◌, if◌then◌else◌,
}
use mit6_824_labs.Raft.Types.{Bytes}
use mit6_824_labs.KvRaft.Types.{PutAppendArgs, PutAppendReply, GetArgs, GetReply, put_op, append_op}

-- `servers` is len(ck.servers).
pub record Clerk : Type 0 where
  pub servers : ℕ
  pub leader : ℕ
  pub client_id : ℕ
  pub sequence_id : ℕ

-- The random number of nrand() is an argument.
unfoldable pub make_clerk : ℕ → ℕ → Clerk
make_clerk servers nrand = record {
  servers = servers;
  leader = 0;
  client_id = nrand;
  sequence_id = 0;
}

-- The loop of both calls, with `fuel` rounds: `call k s` is what labrpc's Call gives in round k at
-- server s, `none` if it fails, and `leads` reads reply.Leader. The answer comes with its server.
unfoldable pub retry :
    {R : Type 0} → (ℕ → ℕ → Option R) → (R → Bool) → ℕ → ℕ → ℕ → ℕ → Option (R × ℕ)
retry call leads servers zero round server = none
retry call leads servers (suc fuel) round server =
    let rest = retry call leads servers fuel (suc round) ((server + 1) % servers) in
    elim (call round server) [
      | none ↦ rest
      | some reply ↦ if leads reply then some (reply, server) else rest
    ]

unfoldable pub get :
    (GetArgs → ℕ → ℕ → Option GetReply) → ℕ → Clerk → String → Option (Clerk × Bytes)
get call fuel ck key = do
  (reply, server) ←
      retry (call (record { key = key; client_id = ck.client_id; sequence_id = ck.sequence_id }))
        (λ r. r.leader) ck.servers fuel 0 ck.leader
  some (record ck { leader = server; sequence_id = ck.sequence_id + 1 }, reply.value)

unfoldable pub put_append :
    (PutAppendArgs → ℕ → ℕ → Option PutAppendReply)
    → ℕ
    → Clerk
    → String
    → Bytes
    → String
    → Option Clerk
put_append call fuel ck key value op = do
  (reply, server) ←
      retry
        (call (record {
          key = key;
          value = value;
          op = op;
          client_id = ck.client_id;
          sequence_id = ck.sequence_id;
        }))
        (λ r. r.leader) ck.servers fuel 0 ck.leader
  some (record ck { leader = server; sequence_id = ck.sequence_id + 1 })

unfoldable pub put :
    (PutAppendArgs → ℕ → ℕ → Option PutAppendReply) → ℕ → Clerk → String → Bytes → Option Clerk
put call fuel ck key value = put_append call fuel ck key value put_op

unfoldable pub append :
    (PutAppendArgs → ℕ → ℕ → Option PutAppendReply) → ℕ → Clerk → String → Bytes → Option Clerk
append call fuel ck key value = put_append call fuel ck key value append_op
