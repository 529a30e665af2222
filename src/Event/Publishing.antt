-- ===== src/Event/Publishing.antt =====
-- core/spakky-event/src/spakky/event/aspects/transactional_event_publishing.py: the events of the
-- collected aggregates are published after the method returned.
use spakky_framework.Common.{ℕ, List, [], ◌∷◌}
use spakky_framework.Effects.{returned, Io, and_then, return_}
use spakky_framework.Aop.Advisor.{IAspect}
use spakky_framework.Event.Aggregates.{Store, clear_events, clear}

module _ {E V : Type 0} (publish : E → Io V (Unit {0})) where
  -- `for event in events: publish(event)`
  unfoldable pub publish_each : List E → Io V (Unit {0})
  publish_each [] = return_ tt
  publish_each (event ∷ rest) = and_then (publish event) (λ _. publish_each rest)

module _ {E W : Type 0} where
  module _ (publish : E → Io (Store E W) (Unit {0})) where
    -- The body of the loop: `aggregate.events` is a copy.
    unfoldable pub publish_events : ℕ → Io (Store E W) (Unit {0})
    unfolding publish_each clear_events
    publish_events aggregate s =
        and_then (publish_each publish (s.events_of aggregate))
          (λ _ s1. (returned tt, clear_events aggregate s1)) s

    unfoldable pub publish_aggregates : List ℕ → Io (Store E W) (Unit {0})
    unfolding publish_events
    publish_aggregates [] = return_ tt
    publish_aggregates (aggregate ∷ rest) =
        and_then (publish_events aggregate) (λ _. publish_aggregates rest)

    -- `after_returning`: `collector.all()` is a copy.
    unfoldable pub publish_collected : Io (Store E W) (Unit {0})
    unfolding publish_aggregates
    publish_collected s = publish_aggregates s.collected s

    -- TransactionalEventPublishingAspect and its asynchronous counterpart.
    unfoldable pub event_publishing_aspect : {X A : Type 0} → IAspect X (Store E W) A
    unfolding publish_collected clear
    event_publishing_aspect = record {
      before = λ _. return_ tt;
      around = λ joinpoint x. joinpoint x;
      after_returning = λ _. publish_collected;
      after_raising = λ _. return_ tt;
      after = λ s. (returned tt, clear s);
    }
