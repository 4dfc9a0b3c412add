-- ===== src/Server/Launching.antt =====
-- router.py with runner.py and threads.py: a start that is accepted, up to its graph and from there.
use fastapi_agent_protocol.Base.{
  ℕ, String, ◌≡◌, inl, inr, subst, ap, sym, ◌∙◌, Bool, true, false, some, arith, ◌==◌, nat_eq,
  string_eq, Bool-cases,
}
use fastapi_agent_protocol.Base.Dict
use fastapi_agent_protocol.Base.Dict.{Dict, lookup-insert, lookup-insert_self, lookup-erase}
use fastapi_agent_protocol.Failure.{ok}
use fastapi_agent_protocol.Value.{Value, text_truthy}
use fastapi_agent_protocol.Manager.{
  ActiveRun, Input, Manager, last_assistant, start_begin, launch, release, reservation, reserve,
}
use fastapi_agent_protocol.Runner.System.{Sound, Keeps}
use fastapi_agent_protocol.Runner.Taking.{
  begins-Sound, reserve-Sound, start_begin_taken, flying_apart,
}
use fastapi_agent_protocol.Runner.Ending.{launch-Sound, fails-Sound}
use fastapi_agent_protocol.Threads.{ThreadRecord}
use fastapi_agent_protocol.Threads.Store.{ThreadStore}
use fastapi_agent_protocol.Router.{Libraries, assistant_of}
use fastapi_agent_protocol.Server.{EventLoop, assistant_in, launched, managed}
use fastapi_agent_protocol.Server.Binding.{Bound, quiet-Bound}
use fastapi_agent_protocol.Server.Quiet.{release-IsQuiet}

module _ {G S : Type 0} (store : ThreadStore S) (libraries : Libraries G) where
  begun-Bound :
      (w : EventLoop G S) (thread_id assistant_id run_id : String) (resumes : Bool)
      (r : ThreadRecord)
      → let run = reservation w.server.manager thread_id assistant_id run_id in
        Bound store libraries w
        → Sound (reserve w.server.manager run) (Dict.insert run.object run w.flying)
        → store.get w.server.threads thread_id ≡ some r
        → text_truthy assistant_id ≡ true
        → (resumes ≡ true
            → assistant_in store libraries w.server.threads thread_id ≡ some assistant_id)
        → Bound store libraries (launched w (reserve w.server.manager run) run resumes)
  unfolding last_assistant
  begun-Bound w thread_id assistant_id run_id resumes r b s there truth same = record {
    sound = s;
    named = b.named;
    running = b.running;
    ran = b.ran;
    pending = b.pending;
    waiting = λ n run h. elim (Bool-cases (n == w.server.manager.next)) [
      | inl new ↦ (r, grind (arith, lookup-insert, there), grind (arith, lookup-insert, truth))
      | inr old ↦ b.waiting n run (grind (arith, lookup-insert))
    ];
    resumed = λ n run h again. elim (Bool-cases (n == w.server.manager.next)) [
      | inl new ↦ grind (arith, lookup-insert, same)
      | inr old ↦ b.resumed n run (grind (arith, lookup-insert)) (grind (arith, lookup-insert))
    ];
  }

  -- The slot is reserved.
  pub begins-Bound :
      (w : EventLoop G S) (thread_id assistant_id run_id : String) (resumes : Bool)
      (r : ThreadRecord) (run : ActiveRun) (m : Manager G)
      → Bound store libraries w
      → start_begin w.server.manager thread_id assistant_id run_id ≡ (ok run, m)
      → store.get w.server.threads thread_id ≡ some r
      → text_truthy assistant_id ≡ true
      → (resumes ≡ true
          → assistant_in store libraries w.server.threads thread_id ≡ some assistant_id)
      → Bound store libraries (launched w m run resumes)
  begins-Bound w thread_id assistant_id run_id resumes r run m b e there truth same =
      let (is, left, idle) =
        start_begin_taken w.server.manager m run thread_id assistant_id run_id e in
      let bound =
        begun-Bound w thread_id assistant_id run_id resumes r b
          (reserve-Sound w.server.manager w.flying thread_id assistant_id run_id b.sound idle) there
          truth same in
      subst (λ x. Bound store libraries (launched w m x resumes)) is
        (subst
          (λ x.
            Bound store libraries
              (launched w x (reservation w.server.manager thread_id assistant_id run_id) resumes))
          left bound)

  -- The task is made, and the thread's record has its assistant.
  pub launch-Bound :
      (w : EventLoop G S) (n : ℕ) (run : ActiveRun) (graph : G) (input : Input)
      (config : Dict String Value) (threads : S)
      → Bound store libraries w
      → Dict.lookup n w.flying ≡ some run
      → assistant_in store libraries threads run.thread_id ≡ some run.assistant_id
      → ((other : String)
          → (other == run.thread_id) ≡ false
          → store.get threads other ≡ store.get w.server.threads other)
      → Bound store libraries (record w {
        server = record w.server {
          manager = launch w.server.manager run graph input config;
          threads = threads;
        };
        flying = Dict.erase n w.flying;
      })
  unfolding last_assistant launch
  launch-Bound w n run graph input config threads b waiting mine others =
      let (record_of, there, truth) = b.waiting n run waiting in
      let (same, slot, untasked) = b.sound.flying n run waiting in
      record {
        sound = launch-Sound w.server.manager w.flying n run graph input config b.sound waiting;
        named = λ t a h. elim (Bool-cases (t == run.thread_id)) [
          | inl own ↦ (grind (arith, lookup-insert, mine), grind (arith, lookup-insert, truth))
          | inr apart ↦
              let (is, text) = b.named t a (grind (arith, lookup-insert)) in
              (ap (assistant_of store libraries) (others t apart) ∙ is, text)
        ];
        running = λ k t h d. elim (Bool-cases (k == w.server.manager.next)) [
          | inl new ↦ grind (arith, lookup-insert)
          | inr old ↦
              let found : Dict.lookup k w.server.manager.tasks ≡ some t =
                grind (arith, lookup-insert) in
              let (holder, held, tasked) = b.sound.live k t found d in
              grind (arith, lookup-insert, b.running k t found d, held, tasked, slot, untasked)
        ];
        ran = λ k t h. elim (Bool-cases (t.thread_id == run.thread_id)) [
          | inl own ↦ (run.assistant_id, grind (arith, lookup-insert))
          | inr apart ↦
              let (a, is) = b.ran k t (grind (arith, lookup-insert)) in
              (a, grind (arith, lookup-insert, is))
        ];
        pending = λ t p h. elim (Bool-cases (t == run.thread_id)) [
          | inl own ↦ absurd (grind (arith, lookup-erase))
          | inr apart ↦
              let (a, is) = b.pending t p (grind (arith, lookup-erase)) in
              (a, grind (arith, lookup-insert, is))
        ];
        waiting = λ k r h.
            let (p, q) : (Dict.lookup k w.flying ≡ some r) × ((k == n) ≡ false) =
              grind (arith, lookup-erase) in
            let apart = flying_apart w.server.manager w.flying n k run r b.sound waiting p q in
            let (x, is, text) = b.waiting k r p in (x, others r.thread_id apart ∙ is, text);
        resumed = λ k r h again.
            let (p, q) : (Dict.lookup k w.flying ≡ some r) × ((k == n) ≡ false) =
              grind (arith, lookup-erase) in
            let apart = flying_apart w.server.manager w.flying n k run r b.sound waiting p q in
            ap (assistant_of store libraries) (others r.thread_id apart) ∙ b.resumed k r p again;
      }

  -- A reservation that is given up at once.
  pub refuses-Bound :
      (w : EventLoop G S) (thread_id run_id : String) (run : ActiveRun) (m : Manager G)
      → start_begin w.server.manager thread_id "" run_id ≡ (ok run, m)
      → Bound store libraries w
      → Bound store libraries (managed w (release m run))
  refuses-Bound w thread_id run_id run m e b =
      let (is, left, idle) = start_begin_taken w.server.manager m run thread_id "" run_id e in
      let fly = Dict.insert run.object run w.flying in
      let s = begins-Sound w.server.manager m w.flying run thread_id "" run_id b.sound e in
      let ended = fails-Sound m fly run.object run s (lookup-insert_self run.object run w.flying) in
      let (kept, last, same) = release-IsQuiet m run in
      quiet-Bound store libraries w (release m run) w.flying b
        (
          subst (λ x. Keeps x.tasks (release m run).tasks) (sym left) kept,
          last ∙ ap (λ x. x.last_assistants) (sym left),
          same ∙ ap (λ x. x.pending_inputs) (sym left),
        )
        (record {
          numbered = ended.numbered;
          placed = ended.placed;
          owned = ended.owned;
          live = ended.live;
          flying = λ k r h.
              let (own, held, untasked) = b.sound.flying k r h in
              let (older, on) = b.sound.placed r.thread_id r held in
              ended.flying k r (grind (arith, lookup-erase, lookup-insert, own, older, is));
        })
        (λ k r h. h)
