-- ===== src/Server/Orderly.antt =====
-- The stages, the table and the tasks of src/net/TcpServer.cc, step by step.
use reactor_chat_server.Common.{
  ℕ, ◌+◌, ◌≤◌, ◌≡◌, ◌≢◌, refl, sym, ap, ◌∙◌, Bool, List, [], ◌∷◌, ◌++◌, none, some, Bytes, arith,
  inl, inr, Bool-cases, bytes_eq, bytes_eq→≡, ◌==◌, true, if◌then◌else◌,
}
use reactor_chat_server.Pool.{EventLoopThreadPool}
use reactor_chat_server.Server.{
  Kind, establish, remove, destroy, Member, Posting, new_server, conn_name, new_member,
  new_connection_on, remove_connection, run_remove,
}
use reactor_chat_server.Server.Names.{conn_name-injective}
use reactor_chat_server.Server.Life.{
  Stage, unborn, opening, opened, closing, dying, gone, same_kind, count, due, is_listed, is_some,
  Served, set_stage, Step, accepted, established, closed, removed, destroyed, Reach, here, next,
  IsOrderly,
}
use reactor_chat_server.Server.Tasks.{
  count-snoc, at_establish, at_remove, at_destroy, posted_one, taken, opening_due, closing_due,
  dying_due,
}

module _ (x : Served) (o : IsOrderly x) where
  -- A name that has a stage is none of those to come.
  kept_fresh :
      (name : Bytes) (st st' : Stage)
      → x.stage name ≡ st
      → st ≢ unborn
      → (id : ℕ) → x.server.next_conn_id ≤ id
      → set_stage name st' x.stage (conn_name x.server.name id) ≡ unborn
  kept_fresh name st st' at born id later =
      elim (Bool-cases (bytes_eq (conn_name x.server.name id) name)) [
        | inl hit ↦
            absurd (born (sym at ∙ sym (ap x.stage (bytes_eq→≡ _ name hit)) ∙ o.fresh id later))
        | inr miss ↦
            ap (λ b. if b then st' else x.stage (conn_name x.server.name id)) miss
            ∙ o.fresh id later
      ]

  -- A step that leaves the table.
  kept_table :
      (name : Bytes) (st st' : Stage)
      → x.stage name ≡ st
      → is_listed st ≡ is_listed st'
      → (n : Bytes) → is_some (x.server.connections n) ≡ is_listed (set_stage name st' x.stage n)
  kept_table name st st' at same n = elim (Bool-cases (bytes_eq n name)) [
    | inl hit ↦
        o.table n
        ∙ ap is_listed (ap x.stage (bytes_eq→≡ n name hit) ∙ at)
        ∙ same
        ∙ sym (ap (λ b. is_listed (if b then st' else x.stage n)) hit)
    | inr miss ↦ o.table n ∙ sym (ap (λ b. is_listed (if b then st' else x.stage n)) miss)
  ]

  -- The tasks in a stage that has none.
  no_task :
      (name : Bytes) (st' : Stage) (k : Kind) (n : Bytes)
      → due st' k ≡ 0
      → (if bytes_eq n name then 0 else due (x.stage n) k) ≡ due (set_stage name st' x.stage n) k
  no_task name st' k n none_due = elim (Bool-cases (bytes_eq n name)) [
    | inl hit ↦ rw hit (sym none_due)
    | inr miss ↦ rw miss
  ]

  -- The tasks of a stage that has one, when that is posted.
  one_task :
      (kind : Kind) (m : Member) (st' : Stage) (ps : List Posting) (k : Kind) (n : Bytes)
      → count k n ps ≡ (if bytes_eq n m.name then 0 else due (x.stage n) k)
      → due st' k ≡ (if same_kind k kind then 1 else 0)
      → count k n (ps ++ record { kind = kind; member = m } ∷ [])
        ≡ due (set_stage m.name st' x.stage n) k
  one_task kind m st' ps k n before only =
      let snoc = count-snoc k n ps (record { kind = kind; member = m }) in
      elim (Bool-cases (bytes_eq n m.name)) [
        | inl hit ↦ ground (arith, snoc, before, only, hit)
        | inr miss ↦ ground (arith, snoc, before, only, miss)
      ]

  -- The tasks of a stage in which none is posted.
  idle_tasks :
      (name : Bytes) (st : Stage) (k : Kind) (n : Bytes)
      → x.stage name ≡ st
      → due st k ≡ 0
      → count k n x.server.posted ≡ (if bytes_eq n name then 0 else due (x.stage n) k)
  idle_tasks name st k n at none_due = elim (Bool-cases (bytes_eq n name)) [
    | inl hit ↦
        rw hit
          (o.tasks k n ∙ ap (λ t. due t k) (ap x.stage (bytes_eq→≡ n name hit) ∙ at) ∙ none_due)
    | inr miss ↦ rw miss (o.tasks k n)
  ]

  -- The table behind a removal.
  out_of_table :
      (name n : Bytes)
      → is_some (if bytes_eq n name then none else x.server.connections n)
        ≡ is_listed (set_stage name dying x.stage n)
  out_of_table name n = elim (Bool-cases (bytes_eq n name)) [
    | inl hit ↦ rw hit
    | inr miss ↦ rw miss (o.table n)
  ]

  -- The table and the names to come behind an accept.
  in_table :
      (name : Bytes) (st : Stage) (m : Member) (n : Bytes)
      → is_listed st ≡ true
      → is_some (if bytes_eq n name then some m else x.server.connections n)
        ≡ is_listed (set_stage name st x.stage n)
  in_table name st m n listed = elim (Bool-cases (bytes_eq n name)) [
    | inl hit ↦ rw hit (sym listed)
    | inr miss ↦ rw miss (o.table n)
  ]

  next_fresh :
      (st : Stage) (id : ℕ)
      → x.server.next_conn_id + 1 ≤ id
      → set_stage
          (conn_name x.server.name x.server.next_conn_id)
          st
          x.stage
          (conn_name x.server.name id)
        ≡ unborn
  next_fresh st id later =
      let name = conn_name x.server.name x.server.next_conn_id in
      elim (Bool-cases (bytes_eq (conn_name x.server.name id) name)) [
        | inl hit ↦
            let same =
              conn_name-injective x.server.name id x.server.next_conn_id (bytes_eq→≡ _ name hit) in
            absurd (omega (arith, same, later))
        | inr miss ↦
            ap (λ b. if b then st else x.stage (conn_name x.server.name id)) miss
            ∙ o.fresh id (omega (arith, later))
      ]

Step-IsOrderly : {x y : Served} → Step x y → IsOrderly x → IsOrderly y
unfolding new_connection_on new_member remove_connection run_remove
Step-IsOrderly {x} (accepted sockfd loop pool small) o =
    let m = new_member sockfd loop x.server in
    let at : x.stage m.name ≡ unborn = o.fresh x.server.next_conn_id (omega arith) in
    elim (Bool-cases (loop == pool.base_loop)) [
      | inr other ↦ rw other (record {
        tasks = λ k n.
            one_task x o establish m opening x.server.posted k n
              (idle_tasks x o m.name unborn k n at refl) (opening_due k);
        table = λ n. in_table x o m.name opening m n refl;
        fresh = next_fresh x o opening;
      })
      | inl own ↦ rw own (record {
        tasks =
            λ k n. idle_tasks x o m.name unborn k n at refl ∙ no_task x o m.name opened k n refl;
        table = λ n. in_table x o m.name opened m n refl;
        fresh = next_fresh x o opened;
      })
    ]
Step-IsOrderly {x} (established m front back e) o =
    let at = at_establish (x.stage m.name) (posted_one x establish m front back o e) in
    record {
      tasks = λ k n.
          taken x establish m opening front back o e at opening_due k n
          ∙ no_task x o m.name opened k n refl;
      table = kept_table x o m.name opening opened at refl;
      fresh = kept_fresh x o m.name opening opened at (λ q. cc);
    }
Step-IsOrderly {x} (closed m at) o = elim (Bool-cases (m.loop == x.server.pool.base_loop)) [
  | inr other ↦ rw other (record {
    tasks = λ k n.
        one_task x o remove m closing x.server.posted k n (idle_tasks x o m.name opened k n at refl)
          (closing_due k);
    table = kept_table x o m.name opened closing at refl;
    fresh = kept_fresh x o m.name opened closing at (λ q. cc);
  })
  | inl own ↦ rw own (record {
    tasks = λ k n.
        one_task x o destroy m dying x.server.posted k n (idle_tasks x o m.name opened k n at refl)
          (dying_due k);
    table = out_of_table x o m.name;
    fresh = kept_fresh x o m.name opened dying at (λ q. cc);
  })
]
Step-IsOrderly {x} (removed m front back e) o =
    let at = at_remove (x.stage m.name) (posted_one x remove m front back o e) in
    record {
      tasks = λ k n.
          one_task x o destroy m dying (front ++ back) k n
            (taken x remove m closing front back o e at closing_due k n) (dying_due k);
      table = out_of_table x o m.name;
      fresh = kept_fresh x o m.name closing dying at (λ q. cc);
    }
Step-IsOrderly {x} (destroyed m front back e) o =
    let at = at_destroy (x.stage m.name) (posted_one x destroy m front back o e) in
    record {
      tasks = λ k n.
          taken x destroy m dying front back o e at dying_due k n
          ∙ no_task x o m.name gone k n refl;
      table = kept_table x o m.name dying gone at refl;
      fresh = kept_fresh x o m.name dying gone at (λ q. cc);
    }

-- A server as it is constructed.
abbrev pub first : Bytes → Bool → EventLoopThreadPool → Served
first name et pool = record { server = new_server name et pool; stage = λ _. unborn }

-- In every history of a server in which nextConnId_ stays within an int, with each connection
-- closing once and with the loops running the posted tasks in any order: each connection has
-- exactly one task posted while it waits to be established, to be taken out of the table or to be
-- destroyed, and none otherwise, where one of the base loop waits for the last of these only; the
-- table has it exactly from the accept until its removal; and no name that is still to be given is
-- in use.
pub Reach-IsOrderly :
    (name : Bytes) (et : Bool) (pool : EventLoopThreadPool) {x : Served}
    → Reach (first name et pool) x
    → IsOrderly x
unfolding new_server count
Reach-IsOrderly name et pool here = record {
  tasks = λ k n. refl;
  table = λ n. refl;
  fresh = λ id later. refl;
}
Reach-IsOrderly name et pool (next r s) = Step-IsOrderly s (Reach-IsOrderly name et pool r)
