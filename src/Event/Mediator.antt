-- ===== src/Event/Mediator.antt =====
-- core/spakky-event/src/spakky/event/mediator/domain_event_mediator.py and
-- publisher/domain_event_publisher.py: the registry of handlers, and where an event goes.
use spakky_framework.Common.{ℕ, List, [], ◌∷◌, ◌++◌, nat_eq, if◌then◌else◌}
use spakky_framework.Effects.{is_exception, returned, raised, Io, raise, unknown_event_type}

-- An event by its class, which the kind of event and the registry look at.
pub data Kind : Type 0 where
  domain_event integration_event other_event : Kind

pub record Event (P : Type 0) : Type 0 where
  pub kind : Kind
  pub event_type : ℕ
  pub payload : P

abbrev pub Handler : Type 0 → Type 0 → Type 0
Handler P W = Event P → Io W (Unit {0})

-- The dict from event types to handlers, in the order of insertion.
abbrev pub Handlers : Type 0 → Type 0 → Type 0
Handlers P W = List (ℕ × List (Handler P W))

module _ {P W : Type 0} where
  -- `if event not in handlers: handlers[event] = []`, then `handlers[event].append(handler)`
  unfoldable pub register : ℕ → Handler P W → Handlers P W → Handlers P W
  register event handler [] = (event, handler ∷ []) ∷ []
  register event handler ((other, hs) ∷ rest) =
      let added = register event handler rest in
      if nat_eq other event then (other, hs ++ (handler ∷ [])) ∷ rest else (other, hs) ∷ added

  -- `handlers.get(event_type, [])`
  unfoldable pub get_handlers : ℕ → Handlers P W → List (Handler P W)
  get_handlers event [] = []
  get_handlers event ((other, hs) ∷ rest) =
      let found = get_handlers event rest in if nat_eq other event then hs else found

  -- The loop of `dispatch`: what a handler raises is logged where it is an Exception.
  unfoldable pub handle_each : List (Handler P W) → Event P → Io W (Unit {0})
  handle_each [] event w = (returned tt, w)
  handle_each (h ∷ hs) event w =
      let (outcome, w1) = h event w in
      let rest = handle_each hs event w1 in
      elim outcome [
        | returned _ ↦ rest
        | raised e ↦ if is_exception e then rest else (raised e, w1)
      ]

  unfoldable pub dispatch : Handlers P W → Event P → Io W (Unit {0})
  unfolding handle_each get_handlers
  dispatch handlers event = handle_each (get_handlers event.event_type handlers) event

  -- EventPublisher.publish, with UnknownEventTypeError as an Exception.
  unfoldable pub publish_event :
      (Event P → Io W (Unit {0})) → (Event P → Io W (Unit {0})) → Event P → Io W (Unit {0})
  publish_event dispatcher bus event = elim event.kind [
    | domain_event ↦ dispatcher event
    | integration_event ↦ bus event
    | other_event ↦ raise (unknown_event_type event.event_type)
  ]
