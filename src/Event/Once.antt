-- ===== src/Event/Once.antt =====
-- core/spakky-event/src/spakky/event/aspects/transactional_event_publishing.py: how often each event
-- is published.
use spakky_framework.Common.{
  ℕ, not, ◌≡◌, ◌∙◌, refl, sym, ap, inl, inr, List, [], ◌∷◌, ◌++◌, nat_eq, keep, Bool-cases,
}
use spakky_framework.Effects.{Result, returned, raised, Io, and_then, and_then-ap, and_then_assoc}
use spakky_framework.Event.Aggregates.{Store, assign, set_events, clear_events}
use spakky_framework.Event.Publishing.{
  publish_each, publish_events, publish_aggregates, publish_collected,
}

-- The aggregates without repetition, each where it stands first.
abbrev pub distinct : List ℕ → List ℕ
distinct [] = []
distinct (r ∷ rs) = r ∷ keep (λ other. not (nat_eq other r)) (distinct rs)

abbrev pub all_events : {E : Type 0} → (ℕ → List E) → List ℕ → List E
all_events events_of [] = []
all_events events_of (r ∷ rs) = events_of r ++ all_events events_of rs

all_events-assign :
    {E : Type 0} (r : ℕ) (events_of : ℕ → List E) (rs : List ℕ)
    → all_events (assign r [] events_of) rs
      ≡ all_events events_of (keep (λ other. not (nat_eq other r)) rs)
unfolding assign keep
all_events-assign r events_of [] = refl
all_events-assign r events_of (other ∷ rs) = elim (Bool-cases (nat_eq other r)) [
  | inl same ↦ rw same (all_events-assign r events_of rs)
  | inr apart ↦ rw apart (ap (λ es. events_of other ++ es) (all_events-assign r events_of rs))
]

module _ {E V : Type 0} (publish : E → Io V (Unit {0})) where
  publish_each-append :
      (es es' : List E) (w : V)
      → publish_each publish (es ++ es') w
        ≡ and_then (publish_each publish es) (λ _. publish_each publish es') w
  unfolding publish_each
  publish_each-append [] es' w = refl
  publish_each-append (e ∷ es) es' w =
      and_then-ap (publish e) (λ _. publish_each publish (es ++ es'))
        (λ _. and_then (publish_each publish es) (λ _. publish_each publish es')) w
        (λ _ w1. publish_each-append es es' w1)
      ∙ sym (
          and_then_assoc (publish e) (λ _. publish_each publish es) (λ _. publish_each publish es')
            w)

abbrev with_outside : {E W : Type 0} → Store E W → W → Store E W
with_outside s w = record { collected = s.collected; events_of = s.events_of; outside = w }

-- How a call ended that acts on the outside world alone.
abbrev lift : {E W A : Type 0} → Store E W → Result A × W → Result A × Store E W
lift s (outcome, w) = (outcome, with_outside s w)

-- `publish` where it changes neither the aggregates nor the collector.
abbrev pub on_outside : {E W : Type 0} → (E → Io W (Unit {0})) → E → Io (Store E W) (Unit {0})
on_outside publish e s = lift s (publish e s.outside)

-- What the caller and the outside world see of a call.
abbrev pub seen : {E W A : Type 0} → Result A × Store E W → Result A × W
seen (outcome, s) = (outcome, s.outside)

and_then-lift :
    {E W A B : Type 0} (s : Store E W) (f : A → Io (Store E W) B) (g : A → Io W B)
    (r : Result A × W)
    → ((a : A) (w : W) → f a (with_outside s w) ≡ lift s (g a w))
    → and_then (λ _. lift s r) f s ≡ lift s (and_then (λ _. r) g s.outside)
and_then-lift s f g (returned a, w) same = same a w
and_then-lift s f g (raised e, w) same = refl

module _ {E W : Type 0} (publish : E → Io W (Unit {0})) where
  publish_each-on_outside :
      (es : List E) (s : Store E W)
      → publish_each (on_outside publish) es s ≡ lift s (publish_each publish es s.outside)
  unfolding publish_each
  publish_each-on_outside [] s = refl
  publish_each-on_outside (e ∷ es) s =
      and_then-lift s (λ _. publish_each (on_outside publish) es) (λ _. publish_each publish es)
        (publish e s.outside) (λ _ w. publish_each-on_outside es (with_outside s w))

  seen-and_then :
      (s : Store E W) (f : Io (Store E W) (Unit {0})) (g : Io W (Unit {0})) (r : ℕ)
      (q : Result (Unit {0}) × W)
      → ((w : W) → seen (f (clear_events r (with_outside s w))) ≡ g w)
      → seen (
          and_then
            (and_then (λ _. lift s q) (λ _ s1. (returned (tt {0}), clear_events r s1)))
            (λ _. f)
            s)
        ≡ and_then (λ _. q) (λ _. g) s.outside
  unfolding clear_events
  seen-and_then s f g r (returned _, w) same = same w
  seen-and_then s f g r (raised e, w) same = refl

  publish_aggregates-once :
      (rs : List ℕ) (s : Store E W)
      → seen (publish_aggregates (on_outside publish) rs s)
        ≡ publish_each publish (all_events s.events_of (distinct rs)) s.outside
  unfolding publish_aggregates publish_events publish_each set_events clear_events
  publish_aggregates-once [] s = refl
  publish_aggregates-once (r ∷ rs) s =
      let later = all_events (assign r [] s.events_of) (distinct rs) in
      ap
        (λ q. seen (
          and_then (and_then (λ _. q) (λ _ s1. (returned (tt {0}), clear_events r s1)))
            (λ _. publish_aggregates (on_outside publish) rs) s))
        (publish_each-on_outside (s.events_of r) s)
      ∙ seen-and_then s (publish_aggregates (on_outside publish) rs) (publish_each publish later) r
          (publish_each publish (s.events_of r) s.outside)
          (λ w. publish_aggregates-once rs (clear_events r (with_outside s w)))
      ∙ sym (publish_each-append publish (s.events_of r) later s.outside)
      ∙ ap (λ es. publish_each publish (s.events_of r ++ es) s.outside)
          (all_events-assign r s.events_of (distinct rs))

  -- The events of the collected aggregates are published in the order in which the aggregates were
  -- first collected, those of each aggregate in the order in which it raised them: what is returned
  -- or raised, and what becomes of the outside world, is that of publishing this list, in which an
  -- aggregate stands once however often it was collected. It holds for a publisher that changes
  -- neither the aggregates nor the collector.
  pub publish_collected-once :
      (s : Store E W)
      → seen (publish_collected (on_outside publish) s)
        ≡ publish_each publish (all_events s.events_of (distinct s.collected)) s.outside
  unfolding publish_collected
  publish_collected-once s = publish_aggregates-once s.collected s
