-- ===== src/Labrpc/Deleted.antt =====
-- A server that is deleted while a request waits, as the tests do to crash it.
use mit6_824_labs.Prelude.{
  ℕ, ◌≡◌, ◌≢◌, refl, List, [], ◌∷◌, Option, none, some, Bool, true, false, arith, ==_iff,
  Bool-cases, Option-cases, inl, inr,
}
use mit6_824_labs.GoMap.{Eq, lookup, insert, lookup-insert, equals_refl, ◌==◌ as ◌=?◌}
use mit6_824_labs.Raft.Types.{Bytes}
use mit6_824_labs.Labrpc.{
  Network, Sent, Tick, failed, join, is_address, add_server, delete_server, connect, enable, target,
  is_server_dead, await_reply, answer, process_req, deliver,
}

-- What else happens to the network's servers and connections.
pub data Change (End Name : Type 0) : Type 0 where
  adds : Name → ℕ → Change End Name
  deletes : Name → Change End Name
  connects : End → Name → Change End Name
  enables : End → Bool → Change End Name

module _ {End Name : Type 0} ⦃ends : Eq End⦄ ⦃names : Eq Name⦄ where
  abbrev pub change : Network End Name → Change End Name → Network End Name
  change rn (Change.adds name rs) = add_server rn name rs
  change rn (Change.deletes name) = delete_server rn name
  change rn (Change.connects endname name) = connect rn endname name
  change rn (Change.enables endname enabled) = enable rn endname enabled

  abbrev pub changes : Network End Name → List (Change End Name) → Network End Name
  changes rn [] = rn
  changes rn (c ∷ cs) = changes (change rn c) cs

  -- The server is not added again.
  abbrev pub NeverAdds : ℕ → List (Change End Name) → Type 0
  NeverAdds server [] = Unit
  NeverAdds server (Change.adds name rs ∷ cs) = (rs ≢ server) × NeverAdds server cs
  NeverAdds server (c ∷ cs) = NeverAdds server cs

  abbrev IsGone : Network End Name → Name → ℕ → Type 0
  IsGone rn name server = is_address (join (lookup name rn.servers)) server ≡ false

  -- An entry that is not the server does not bring it back.
  insert-IsGone :
      (rn : Network End Name) (key name : Name) (entry : Option ℕ) (server : ℕ)
      → is_address entry server ≡ false
      → IsGone rn name server
      → IsGone (record rn { servers = insert key entry rn.servers }) name server
  insert-IsGone rn key name entry server other gone = elim (Bool-cases (key =? name)) [
    | inl same ↦ rw (lookup-insert key name entry rn.servers, same) other
    | inr differ ↦ rw (lookup-insert key name entry rn.servers, differ) gone
  ]

  delete_server-IsGone :
      (rn : Network End Name) (name : Name) (server : ℕ)
      → IsGone (delete_server rn name) name server
  unfolding delete_server
  delete_server-IsGone rn name server =
      rw (lookup-insert name name none rn.servers, equals_refl name) refl

  changes-IsGone :
      (rn : Network End Name) (cs : List (Change End Name)) (name : Name) (server : ℕ)
      → NeverAdds server cs
      → IsGone rn name server
      → IsGone (changes rn cs) name server
  unfolding add_server delete_server connect enable
  changes-IsGone rn [] name server never gone = gone
  changes-IsGone rn (Change.adds key rs ∷ cs) name server (other, never) gone =
      changes-IsGone (add_server rn key rs) cs name server never
        (insert-IsGone rn key name (some rs) server (ground (arith, other, ==_iff rs server)) gone)
  changes-IsGone rn (Change.deletes key ∷ cs) name server never gone =
      changes-IsGone (delete_server rn key) cs name server never
        (insert-IsGone rn key name none server refl gone)
  changes-IsGone rn (Change.connects endname key ∷ cs) name server never gone =
      changes-IsGone (connect rn endname key) cs name server never gone
  changes-IsGone rn (Change.enables endname enabled ∷ cs) name server never gone =
      changes-IsGone (enable rn endname enabled) cs name server never gone

  IsGone-is_dead :
      (rn : Network End Name) (endname : End) (name : Name) (server : ℕ)
      → IsGone rn name server
      → is_server_dead rn endname name server ≡ true
  unfolding is_server_dead
  IsGone-is_dead rn endname name server gone = ground (arith, gone)

  -- When a request has been taken for a server, and the server is deleted before processReq's last
  -- look at the network and not added again by then, whatever else is added, deleted, connected or
  -- enabled: processReq sends a failure at once, and the caller gets that and no reply, whatever the
  -- network is at the send and though the handler may have run.
  pub deleted_answers_nothing :
      (rn rn₁ rn₂ : Network End Name) (endname : End) (name : Name) (server : ℕ)
      (cs : List (Change End Name)) (drop_request drop_reply reorder : Bool)
      (ticks : List (Tick End Name)) (reply : Bytes) (sent : Sent)
      → target rn endname ≡ some (name, server)
      → NeverAdds server cs
      → process_req rn
          (changes (delete_server rn₁ name) cs)
          endname
          drop_request
          drop_reply
          reorder
          ticks
          reply
        ≡ some sent
      → (sent.delayed ≡ false) × (deliver rn₂ sent ≡ (rn₂, failed))
  unfolding process_req answer deliver
  deleted_answers_nothing rn rn₁ rn₂ endname name server cs drop_request drop_reply reorder ticks
        reply sent at never h =
      let rn' = changes (delete_server rn₁ name) cs in
      let dead = IsGone-is_dead rn' endname name server (
        changes-IsGone (delete_server rn₁ name) cs name server never
          (delete_server-IsGone rn₁ name server)) in
      elim (Option-cases (await_reply endname name server ticks)) [
        | inl e ↦ ground (arith, h, at, dead, e)
        | inr (reply_ok, e) ↦ ground (arith, h, at, dead, e)
      ]
