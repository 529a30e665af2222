-- ===== src/Event/Tests.antt =====
-- core/spakky-event/src/spakky/event: small use cases, with numbers for events and a log for the
-- world.
use spakky_framework.Common.{ℕ, true, ◌≡◌, refl, List, [], ◌∷◌, ◌++◌, keep}
use spakky_framework.Effects.{Exn, returned, raised, Io}
use spakky_framework.Aop.Advisor.{Func}
use spakky_framework.Data.Transaction.{Transaction}
use spakky_framework.Event.Aggregates.{
  Store, assign, set_events, clear_events, set_collected, add_event, collect, clear,
}
use spakky_framework.Event.Mediator.{Event, Kind, Handler, dispatch}
use spakky_framework.Event.Publishing.{
  publish_each, publish_events, publish_aggregates, publish_collected,
}
use spakky_framework.Event.Once.{distinct, all_events, on_outside, seen, publish_collected-once}
use spakky_framework.Event.Registrations.{
  register_all, registered, run_through, dispatch-registered,
}
use spakky_framework.Event.Commit.{use_case, use_case-publishes_first}

abbrev Log : Type 0
Log = List ℕ

abbrev log : ℕ → Io Log (Unit {0})
log n w = (returned tt, w ++ (n ∷ []))

abbrev empty : Store ℕ Log
empty = record { collected = []; events_of = λ aggregate. []; outside = [] }

-- Aggregate 1 raised the events 11 and 12, aggregate 2 the event 21; 1 was saved twice.
abbrev saved : Store ℕ Log
saved = record {
  collected = 1 ∷ 2 ∷ 1 ∷ [];
  events_of = assign 1 (11 ∷ 12 ∷ []) (assign 2 (21 ∷ []) (λ aggregate. []));
  outside = [];
}

publish_collected-publishes :
    seen (publish_collected (on_outside log) saved) ≡ (returned tt, 11 ∷ 12 ∷ 21 ∷ [])
unfolding publish_collected publish_aggregates publish_events publish_each clear_events set_events
    assign
publish_collected-publishes = refl

publish_collected-once_example :
    seen (publish_collected (on_outside log) saved)
    ≡ publish_each log (all_events saved.events_of (distinct (1 ∷ 2 ∷ 1 ∷ []))) []
publish_collected-once_example = publish_collected-once log saved

abbrev good : ℕ → Handler ℕ Log
good n event = log n

abbrev bad : ℕ → Handler ℕ Log
bad n event w = (raised (Exn.exception n), w ++ (n ∷ []))

abbrev registrations : List (ℕ × Handler ℕ Log)
registrations = (0, bad 1) ∷ (5, good 2) ∷ (0, good 3) ∷ []

abbrev created : Event ℕ
created = record { kind = Kind.domain_event; event_type = 0; payload = 4 }

dispatch-registered_example :
    dispatch (register_all registrations []) created []
    ≡ (returned tt, run_through (registered 0 registrations) created [])
unfolding keep
dispatch-registered_example =
    dispatch-registered registrations created [] (λ w. refl, (λ w. tt, tt))

abbrev logged : ℕ → Io (Store ℕ Log) (Unit {0})
logged n s = (
  returned tt,
  record { collected = s.collected; events_of = s.events_of; outside = s.outside ++ (n ∷ []) },
)

-- A database whose commit fails: 1 opens, 2 commits, 3 rolls back and 4 closes.
abbrev failing : Transaction (Store ℕ Log)
failing = record {
  autocommit_enabled = true;
  initialize = logged 1;
  dispose = logged 4;
  commit = λ s. (raised (Exn.exception 0), (logged 2 s).1);
  rollback = logged 3;
}

abbrev create : Func ℕ (Store ℕ Log) ℕ
create n s = (returned n, collect 7 (add_event 7 n s))

-- The event 50 is published before the commit that fails.
use_case-publishes_first_example : use_case failing logged create 50 empty ≡ (
  raised (Exn.exception 0),
  record {
    collected = [];
    events_of = assign 7 [] (assign 7 (50 ∷ []) (λ aggregate. []));
    outside = 1 ∷ 50 ∷ 2 ∷ 3 ∷ 4 ∷ [];
  },
)
unfolding publish_collected publish_aggregates publish_events publish_each clear_events set_events
    collect add_event clear set_collected assign
use_case-publishes_first_example =
    let s1 = (create 50 (logged 1 empty).1).1 in
    let s2 = (publish_collected logged s1).1 in
    let s3 = (logged 2 (clear s2)).1 in
    let s4 = (logged 3 s3).1 in
    use_case-publishes_first failing logged create 50 50 (Exn.exception 0) empty (logged 1 empty).1
      s1 s2 s3 s4 (logged 4 s4).1 refl refl refl refl refl refl refl
