-- ===== src/KvSrv/Clerk/Once.antt =====
-- A clerk's modification that is sent more than once.
use mit6_824_labs.Prelude.{
  ℕ, ◌≡◌, ap, ◌∙◌, sym, List, [], ◌∷◌, ◌++◌, none, some, false, arith, Option-cases, inl, inr,
}
use mit6_824_labs.GoMap.{nat_eq, string_eq, ◌==◌, lookup, lookup-insert, lookup-delete, equals_refl}
use mit6_824_labs.KvSrv.Server.{
  RequestType, PutAppendArgs, PutAppendReply, KvServer, put, append, modify_put, modify_append,
  forget, value_at,
}
use mit6_824_labs.KvSrv.Clerk.{Method, put_op, append_op, Event, handle, call_until}

-- The requests of the other clients, in the order in which they are served.
unfoldable pub others : List Event → List (Method × PutAppendArgs)
others [] = []
others (Event.lost ∷ es) = others es
others (Event.reply_lost ∷ es) = others es
others (Event.delivered ∷ es) = others es
others (Event.other op args ∷ es) = (op, args) ∷ others es

unfoldable pub serve : KvServer → List (Method × PutAppendArgs) → KvServer
serve kv [] = kv
serve kv ((op, args) ∷ reqs) = serve (handle op args kv).0 reqs

-- No other client uses the identifier.
unfoldable pub Unused : ℕ → List Event → Type 0
Unused id [] = Unit
Unused id (Event.lost ∷ es) = Unused id es
Unused id (Event.reply_lost ∷ es) = Unused id es
Unused id (Event.delivered ∷ es) = Unused id es
Unused id (Event.other op args ∷ es) = ((args.request_id == id) ≡ false) × Unused id es

handle-lookup :
    (op : Method) (args : PutAppendArgs) (kv : KvServer) (id : ℕ)
    → (args.request_id == id) ≡ false
    → lookup id (handle op args kv).0.message_map ≡ lookup id kv.message_map
unfolding handle put append modify_put modify_append forget
handle-lookup put_op args kv id ne = ground (
  arith,
  lookup-insert args.request_id id args.value kv.message_map,
  lookup-delete args.request_id id kv.message_map,
)
handle-lookup append_op args kv id ne =
    elim (Option-cases (lookup args.request_id kv.message_map)) [
      | inl new ↦ ground (
        arith,
        lookup-insert args.request_id id (value_at args.key kv.contents) kv.message_map,
        lookup-delete args.request_id id kv.message_map,
      )
      | inr (v, old) ↦ ground (arith, lookup-delete args.request_id id kv.message_map)
    ]

-- Serving the request now changes nothing and gives the answer.
abbrev Settled : Method → PutAppendArgs → PutAppendReply → KvServer → Type 0
Settled op args reply kv = handle op args kv ≡ (kv, reply)

handle-Settled :
    (op : Method) (args : PutAppendArgs) (kv : KvServer)
    → args.request_type ≡ RequestType.modify
    → lookup args.request_id kv.message_map ≡ none
    → Settled op args (handle op args kv).1 (handle op args kv).0
unfolding handle put append modify_put modify_append
handle-Settled put_op args kv is_modify new = ground (
  arith,
  lookup-insert args.request_id args.request_id args.value kv.message_map,
  equals_refl args.request_id,
)
handle-Settled append_op args kv is_modify new =
    let old = value_at args.key kv.contents in
    ground (
      arith,
      lookup-insert args.request_id args.request_id old kv.message_map,
      equals_refl args.request_id,
    )

Settled-keep :
    (op op' : Method) (args args' : PutAppendArgs) (reply : PutAppendReply) (kv : KvServer)
    → args.request_type ≡ RequestType.modify
    → (args'.request_id == args.request_id) ≡ false
    → (lookup args.request_id kv.message_map ≡ none → ⊥)
    → Settled op args reply kv
    → Settled op args reply (handle op' args' kv).0
unfolding handle put append modify_put modify_append
Settled-keep put_op op' args args' reply kv is_modify ne known settled =
    ground (arith, handle-lookup op' args' kv args.request_id ne)
Settled-keep append_op op' args args' reply kv is_modify ne known settled =
    ground (arith, handle-lookup op' args' kv args.request_id ne)

-- Once the request is settled, the rest of a call serves other clients only and gives the answer.
Settled-call :
    (op : Method) (args : PutAppendArgs) (reply : PutAppendReply) (kv : KvServer) (es : List Event)
    {kv' : KvServer} {r : PutAppendReply} {rest : List Event}
    → args.request_type ≡ RequestType.modify
    → Unused args.request_id es
    → (lookup args.request_id kv.message_map ≡ none → ⊥)
    → Settled op args reply kv
    → call_until op args kv es ≡ some (kv', r, rest)
    → (after : List (Method × PutAppendArgs)) × (kv' ≡ serve kv after)
      × (r ≡ reply)
      × (others es ≡ after ++ others rest)
unfolding call_until serve others Unused
Settled-call op args reply kv [] m u k s h = absurd (ground arith)
Settled-call op args reply kv (Event.lost ∷ es) m u k s h =
    Settled-call op args reply kv es m u k s h
Settled-call op args reply kv (Event.reply_lost ∷ es) m u k s h =
    Settled-call op args reply kv es m u k s (rw s at h)
Settled-call op args reply kv (Event.delivered ∷ es) m u k s h =
    ([], ground arith, ground arith, ground arith)
Settled-call op args reply kv (Event.other op' args' ∷ es) m (ne, u) k s h =
    let kv₁ = (handle op' args' kv).0 in
    let known : lookup args.request_id kv₁.message_map ≡ none → ⊥ =
      λ no. k (sym (handle-lookup op' args' kv args.request_id ne) ∙ no) in
    let (after, served, same, taken) =
      Settled-call op args reply kv₁ es m u known (Settled-keep op op' args args' reply kv m ne k s)
        h in
    ((op', args') ∷ after, served, same, ap (λ x. (op', args') ∷ x) taken)

settled_first :
    (op : Method) (args : PutAppendArgs) (kv : KvServer)
    → args.request_type ≡ RequestType.modify
    → lookup args.request_id kv.message_map ≡ none
    → lookup args.request_id (handle op args kv).0.message_map ≡ none
    → ⊥
unfolding handle put append modify_put modify_append
settled_first put_op args kv m new gone = ground (
  arith,
  lookup-insert args.request_id args.request_id args.value kv.message_map,
  equals_refl args.request_id,
)
settled_first append_op args kv m new gone = ground (
  arith,
  lookup-insert args.request_id args.request_id (value_at args.key kv.contents) kv.message_map,
  equals_refl args.request_id,
)

-- A call of Put or Append that returns, with an identifier that is new to the server and that no
-- other client uses, has had its request served in effect once: the requests of the other clients
-- split into those before it and those behind it, the state is that of serving them and the request
-- once in between, and the answer is that of this one time.
pub call_once :
    (op : Method) (args : PutAppendArgs) (kv : KvServer) (es : List Event) {kv' : KvServer}
    {r : PutAppendReply} {rest : List Event}
    → args.request_type ≡ RequestType.modify
    → Unused args.request_id es
    → lookup args.request_id kv.message_map ≡ none
    → call_until op args kv es ≡ some (kv', r, rest)
    → (before after : List (Method × PutAppendArgs)) × (others es ≡ before ++ after ++ others rest)
      × (kv' ≡ serve (handle op args (serve kv before)).0 after)
      × (r ≡ (handle op args (serve kv before)).1)
unfolding call_until serve others Unused
call_once op args kv [] m u new h = absurd (ground arith)
call_once op args kv (Event.lost ∷ es) m u new h = call_once op args kv es m u new h
call_once op args kv (Event.reply_lost ∷ es) m u new h =
    let kv₁ = (handle op args kv).0 in
    let (after, served, same, taken) =
      Settled-call op args (handle op args kv).1 kv₁ es m u (settled_first op args kv m new)
        (handle-Settled op args kv m new) h in
    ([], after, taken, served, same)
call_once op args kv (Event.delivered ∷ es) m u new h =
    ([], [], ground arith, ground arith, ground arith)
call_once op args kv (Event.other op' args' ∷ es) m (ne, u) new h =
    let (before, after, taken, served, same) =
      call_once op args (handle op' args' kv).0 es m u
        (handle-lookup op' args' kv args.request_id ne ∙ new) h in
    ((op', args') ∷ before, after, ap (λ x. (op', args') ∷ x) taken, served, same)
