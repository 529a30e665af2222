-- ===== src/Event/Aggregates.antt =====
-- core/spakky-domain/src/spakky/domain/models/aggregate_root.py and
-- core/spakky-data/src/spakky/data/persistency/aggregate_collector.py: aggregates, by reference,
-- with the events that they raised, and those that a transaction saved.
use spakky_framework.Common.{ℕ, List, [], ◌∷◌, ◌++◌, nat_eq, if◌then◌else◌}

-- `events_of` is the field `__events` of every aggregate, `collected` the collector's list.
pub record Store (E W : Type 0) : Type 0 where
  pub collected : List ℕ
  pub events_of : ℕ → List E
  pub outside : W

-- The store's events where those of `aggregate` are assigned.
unfoldable pub assign : {E : Type 0} → ℕ → List E → (ℕ → List E) → ℕ → List E
assign aggregate events events_of other = if nat_eq other aggregate then events else events_of other

module _ {E W : Type 0} where
  unfoldable pub set_events : ℕ → List E → Store E W → Store E W
  unfolding assign
  set_events aggregate events s = record {
    collected = s.collected;
    events_of = assign aggregate events s.events_of;
    outside = s.outside;
  }

  -- AbstractAggregateRoot
  unfoldable pub add_event : ℕ → E → Store E W → Store E W
  unfolding set_events
  add_event aggregate event s = set_events aggregate (s.events_of aggregate ++ (event ∷ [])) s

  unfoldable pub clear_events : ℕ → Store E W → Store E W
  unfolding set_events
  clear_events aggregate s = set_events aggregate [] s

  -- AggregateCollector
  unfoldable pub set_collected : List ℕ → Store E W → Store E W
  set_collected collected s = record {
    collected = collected;
    events_of = s.events_of;
    outside = s.outside;
  }

  unfoldable pub collect : ℕ → Store E W → Store E W
  unfolding set_collected
  collect aggregate s = set_collected (s.collected ++ (aggregate ∷ [])) s

  unfoldable pub clear : Store E W → Store E W
  unfolding set_collected
  clear s = set_collected [] s
