-- ===== src/Feed/Apart.antt =====
-- runner.py and hub.py: the runs of a thread in the history of its hub.
use fastapi_agent_protocol.Base.{String, sym, subst, Option, [], string_eq, nat_eq}
use fastapi_agent_protocol.Value.{Value, Fields}
use fastapi_agent_protocol.Feed.{
  Feed, log_in, publish_on, Step, begins, fails, launches, publishes, listens, registers, cancels,
  settles, clears, Reachable, at_first, after,
}
use fastapi_agent_protocol.Feed.Sections.{InSections}
use fastapi_agent_protocol.Feed.Recording.{
  Records, new_hub-Records, other-Records, publish_on-Records, listens-Records,
}
use fastapi_agent_protocol.Feed.Steps.{
  log_in-nil, log_in-insert, log_in-insert_self, by_thread, Reachable-both,
}

module _ {G : Type 0} (loads : String → Option Value) (repr : Value → String)
    (message_to_dict : Value → Option (Fields × Value)) where
  abbrev AllRecords : Feed G → Type 0
  AllRecords a = (thread_id : String) → Records a.hubs thread_id (log_in a.logs thread_id)

  Step-AllRecords :
      {a b : Feed G} → Step loads repr message_to_dict a b → AllRecords a → AllRecords b
  unfolding publish_on
  Step-AllRecords {a} (publishes n task output later now found busy left) records =
      by_thread _ task.thread_id
        (subst (Records (publish_on a.hubs task.thread_id now output) task.thread_id)
          (sym (log_in-insert_self a.logs task.thread_id _))
          (publish_on-Records a.hubs task.thread_id now output _ (records task.thread_id)))
        (λ t apart.
          subst (Records (publish_on a.hubs task.thread_id now output) t)
            (sym (log_in-insert a.logs task.thread_id t _ apart))
            (other-Records a.hubs task.thread_id t _ _ apart (records t)))
  Step-AllRecords {a} (listens thread_id subscribers next_sid) records =
      by_thread _ thread_id
        (listens-Records a.hubs thread_id subscribers next_sid _ (records thread_id))
        (λ t apart. other-Records a.hubs thread_id t _ _ apart (records t))
  Step-AllRecords (begins run m t id run_id e) records = records
  Step-AllRecords (fails n run e input config metadata waiting) records = records
  Step-AllRecords (launches n run graph input config outputs waiting fresh) records = records
  Step-AllRecords (registers n task interrupts found busy) records = records
  Step-AllRecords (cancels t run_id) records = records
  Step-AllRecords (settles n task found busy left) records = records
  Step-AllRecords (clears n task run found over owns same) records = records

  Reachable-AllRecords : {a : Feed G} → Reachable loads repr message_to_dict a → AllRecords a
  Reachable-AllRecords (at_first replay_size) = λ t.
      subst (Records (record { replay_size = replay_size; hubs = [] }) t) (sym (log_in-nil t))
        (new_hub-Records replay_size t)
  Reachable-AllRecords (after r step) = Step-AllRecords step (Reachable-AllRecords r)

  -- In every reachable state, what was published for a thread is the outputs of whole runs, one run
  -- after the other, and then what the thread's task that is not done has published of its run, if
  -- there is one. The history of the thread's hub is the events of these outputs, in their order, each
  -- with its data. So the events of two runs of a thread never mix.
  pub runs_apart :
      (a : Feed G) (thread_id : String)
      → Reachable loads repr message_to_dict a
      → InSections loads repr message_to_dict a.manager a.rest thread_id (log_in a.logs thread_id)
        × Records a.hubs thread_id (log_in a.logs thread_id)
  runs_apart a thread_id r =
      ((Reachable-both loads repr message_to_dict r).1 thread_id, Reachable-AllRecords r thread_id)
