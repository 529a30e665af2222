-- ===== src/Saga/Engine/Refinement.antt =====
-- core/spakky-saga/src/spakky/saga/engine.py: the run of a list of items refines the abstract saga:
-- all items forward, or some items forward, one that ends the saga, and everything that committed
-- compensated backwards.
use spakky_framework.Common.{
  String, ◌≡◌, refl, sym, ap, ◌∙◌, subst, true, false, inl, inr, Option, none, some, List, [], ◌∷◌,
  ◌++◌, reverse, append_assoc, append-nil, map-reverse,
}
use spakky_framework.Effects.{Exn, Result, returned, raised, Result-cases}
use spakky_framework.Saga.Strategy.{completed, failed, SagaResult}
use spakky_framework.Saga.Flow.{SagaData, Callable}
use spakky_framework.Saga.Auth.{SagaAuthExecutionContext}
use spakky_framework.Saga.Engine.Normalize.{NormalizedItem}
use spakky_framework.Saga.Engine.State.{Asyncio, CompensableStep, Executor}
use spakky_framework.Saga.Engine.Run.{
  execute_item, run_items, conclude, run_compensation, saga_result,
}
use spakky_framework.Saga.Engine.Trace.{Event, events, names, compensations}
use spakky_framework.Saga.Engine.Forward.{
  ItemTrace, Forward, nothing, next, Executed, execute_item-Executed,
}
use spakky_framework.Saga.Engine.Undoing.{compensated_events, Undone, CompensationRun}
use spakky_framework.Saga.Engine.Compensation.{run_compensation-CompensationRun}

-- How a run from `s` to `t` that returned `r` went. The items were executed from world to world, with
-- the calls that they make. Backward, `item` ended the saga in `s2`: what had
-- been remembered by then is what `s` remembered and what committed since, and all of it was called
-- from there to `t`, the last first, with the data reached.
pub data Finish {P W : Type 0} (asyncio : Asyncio P W) (auth : SagaAuthExecutionContext W)
    (handler : Option (Callable P W)) (items : List (NormalizedItem P W)) (s t : Executor P W)
    (r : SagaResult (SagaData P)) : Type 0 where
  forward :
      (evs : List Event) (ns : List (CompensableStep P W))
      → r.status ≡ completed
      → r.failed_step ≡ none
      → r.result_data ≡ t.saga_data
      → Forward asyncio auth items evs ns s.world t.world
      → events r.history ≡ events s.history ++ evs
      → t.compensable ≡ s.compensable ++ ns
      → Finish asyncio auth handler items s t r
  backward :
      (before after : List (NormalizedItem P W)) (item : NormalizedItem P W) (evs evs' : List Event)
      (ns ns' : List (CompensableStep P W)) (name : String) (error : Exn) (s1 s2 : Executor P W)
      → r.status ≡ failed
      → r.failed_step ≡ some name
      → r.error ≡ some error
      → r.result_data ≡ s2.saga_data
      → items ≡ before ++ item ∷ after
      → Forward asyncio auth before evs ns s.world s1.world
      → ItemTrace asyncio auth item false evs' ns' s1.world s2.world
      → execute_item asyncio auth handler item s1 ≡ (returned (some (name, error)), s2)
      → s2.compensable ≡ s.compensable ++ (ns ++ ns')
      → Undone auth s2.saga_data (reverse s2.compensable) s2.world t.world
      → events r.history
        ≡ events s.history ++ (evs ++ (evs' ++ compensations (reverse (names s2.compensable))))
      → Finish asyncio auth handler items s t r

module _ {P W : Type 0} (asyncio : Asyncio P W) (auth : SagaAuthExecutionContext W)
    (handler : Option (Callable P W)) where
  -- One more item in front of a run.
  Finish-cons :
      (item : NormalizedItem P W) {items : List (NormalizedItem P W)} {s s' t : Executor P W}
      {r : SagaResult (SagaData P)}
      → Executed asyncio auth item true s s'
      → Finish asyncio auth handler items s' t r
      → Finish asyncio auth handler (item ∷ items) s t r
  Finish-cons item {s = s} {s' = s'} {t = t} done (forward evs ns st fs da fw eq kept) =
      forward (done.evs ++ evs) (done.ns ++ ns) st fs da
        (next done.evs evs done.ns ns s.world s'.world t.world done.trace fw)
        (eq ∙ rw done.events_eq (append_assoc _ done.evs evs))
        (kept ∙ rw done.compensable_eq (append_assoc s.compensable done.ns ns))
  Finish-cons first {s = s} {s' = s'} done
        (backward before after item evs evs' ns ns' name error s1 s2 st nm er da split fw last ran
          kept calls eq) =
      backward (first ∷ before) after item (done.evs ++ evs) evs' (done.ns ++ ns) ns' name error s1
        s2 st nm er da (ap (λ l. first ∷ l) split)
        (next done.evs evs done.ns ns s.world s'.world s1.world done.trace fw) last ran
        (kept ∙ rw done.compensable_eq (simp append_assoc)) calls
        (eq ∙ rw done.events_eq (simp append_assoc))

  all_done :
      (s t : Executor P W) (u : Unit {0})
      (run : CompensationRun auth handler (reverse s.compensable) s t (returned u))
      → run.done ≡ reverse s.compensable
  all_done s t u run =
      sym (append-nil run.done) ∙ ap (λ l. run.done ++ l) (sym run.ended.0) ∙ sym run.split

  -- After compensations that all ran, the journal ends with one for each remembered step.
  pub CompensationRun-all :
      (s t : Executor P W) (u : Unit {0})
      → CompensationRun auth handler (reverse s.compensable) s t (returned u)
      → events t.history ≡ events s.history ++ compensations (reverse (names s.compensable))
  CompensationRun-all s t u run =
      run.events_eq
      ∙ rw (run.ended.1, append-nil)
          (ap (λ cs. events s.history ++ compensated_events cs) (all_done s t u run)
            ∙ ap (λ ns. events s.history ++ compensations ns) (map-reverse _ s.compensable))

  -- They were all called, in the reverse order.
  pub CompensationRun-Undone :
      (s t : Executor P W) (u : Unit {0})
      → CompensationRun auth handler (reverse s.compensable) s t (returned u)
      → Undone auth s.saga_data (reverse s.compensable) s.world t.world
  CompensationRun-Undone s t u run =
      subst (λ cs. Undone auth s.saga_data cs s.world t.world) (all_done s t u run)
        (subst (λ w. Undone auth s.saga_data run.done s.world w) run.ended.2 run.calls)

  -- An item that ends the saga, and the compensations after it.
  Finish-last :
      (item : NormalizedItem P W) (items : List (NormalizedItem P W)) (name : String) (error : Exn)
      (s s' t : Executor P W) {r : SagaResult (SagaData P)}
      → Executed asyncio auth item false s s'
      → execute_item asyncio auth handler item s ≡ (returned (some (name, error)), s')
      → (result : Result (Unit {0}))
      → CompensationRun auth handler (reverse s'.compensable) s' t result
      → (conclude asyncio auth handler failed (some name) (some error) (result, t)).0 ≡ returned r
      → Finish asyncio auth handler
          (item ∷ items)
          s
          (conclude asyncio auth handler failed (some name) (some error) (result, t)).1
          r
  unfolding conclude saga_result
  Finish-last item items name error s s' t done ran (raised e) run h = absurd (cc h)
  Finish-last item items name error s s' t {r} done ran (returned u) run h =
      backward [] items item [] done.evs [] done.ns name error s s' (cc h) (cc h) (cc h)
        (cc h ∙ run.data_eq) refl (nothing s.world) done.trace ran done.compensable_eq
        (CompensationRun-Undone s' t u run)
        (cc h
          ∙ CompensationRun-all s' t u run
          ∙ rw done.events_eq (append_assoc (events s.history) done.evs _))

  -- Every run of items that returns a result is a saga that went forward through all items, making
  -- their calls in turn, and completed, or one that went forward through the items before some item which ended it, failed
  -- under a name and an error, and then called the compensation of every remembered step in the
  -- reverse order, each authorized before and all of them returning.
  pub run_items-Finish :
      (items : List (NormalizedItem P W)) (s : Executor P W) (r : SagaResult (SagaData P))
      → (run_items asyncio auth handler items s).0 ≡ returned r
      → Finish asyncio auth handler items s (run_items asyncio auth handler items s).1 r
  unfolding run_items saga_result
  run_items-Finish [] s r h =
      forward [] [] (cc h) (cc h) (cc h) (nothing s.world) (cc h ∙ sym (append-nil _))
        (sym (append-nil _))
  run_items-Finish (item ∷ items) s r h =
      elim (Result-cases (execute_item asyncio auth handler item s).0) [
        | inr (e, broke) ↦ absurd (cc (rw (broke, run_items) at h))
        | inl (none, ok) ↦
            rw (ok, run_items)
              (Finish-cons item (execute_item-Executed asyncio auth handler item s none ok)
                (run_items-Finish items _ r (rw (ok, run_items) at h)))
        | inl (some (name, error), ok) ↦
            let s' = (execute_item asyncio auth handler item s).1 in
            rw (ok, run_items)
              (Finish-last item items name error s s' _
                (execute_item-Executed asyncio auth handler item s (some (name, error)) ok)
                (λ i. (ok i, s')) (run_compensation asyncio auth handler s').0
                (run_compensation-CompensationRun asyncio auth handler s')
                (rw (ok, run_items) at h))
      ]
