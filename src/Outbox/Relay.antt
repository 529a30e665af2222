-- ===== src/Outbox/Relay.antt =====
-- core/spakky-outbox/src/spakky/outbox/relay/relay.py: one batch of the relay. The storage and the
-- transport are ports: records of functions. A time or an id is a number.
use spakky_framework.Common.{ℕ, String, true, false, Option, List, [], ◌∷◌}
use spakky_framework.Effects.{is_exception, returned, raised, Io}

-- common/message.py
pub record OutboxMessage : Type 0 where
  pub id : ℕ
  pub event_name : String
  pub payload : List ℕ
  pub headers : List (String × String)
  pub created_at : ℕ
  pub published_at : Option ℕ
  pub retry_count : ℕ
  pub claimed_at : Option ℕ

-- ports/storage.py
pub record OutboxStorage (W : Type 0) : Type 0 where
  pub fetch_pending : ℕ → ℕ → Io W (List OutboxMessage)
  pub mark_published : ℕ → Io W (Unit {0})
  pub increment_retry : ℕ → Io W (Unit {0})

abbrev pub EventTransport : Type 0 → Type 0
EventTransport W = String → List ℕ → List (String × String) → Io W (Unit {0})

-- common/config.py
pub record OutboxConfig : Type 0 where
  pub batch_size : ℕ
  pub max_retry_count : ℕ

module _ {W : Type 0} (storage : OutboxStorage W) (send : EventTransport W) where
  -- The body of `try`.
  unfoldable pub publish : OutboxMessage → Io W (Unit {0})
  publish message w =
      let (sent, w') = send message.event_name message.payload message.headers w in
      elim sent [ returned _ ↦ storage.mark_published message.id w' | raised e ↦ (raised e, w') ]

  -- The body of the loop: `except Exception` counts the failure.
  unfoldable pub relay_one : OutboxMessage → Io W (Unit {0})
  relay_one message w =
      let (published, w') = publish message w in
      elim published [
        | returned _ ↦ (returned tt, w')
        | raised e ↦ elim (is_exception e) [
          | true ↦ storage.increment_retry message.id w'
          | false ↦ (raised e, w')
        ]
      ]

  unfoldable pub relay_each : List OutboxMessage → Io W (Unit {0})
  relay_each [] w = (returned tt, w)
  relay_each (message ∷ rest) w =
      let (relayed, w') = relay_one message w in
      elim relayed [ returned _ ↦ relay_each rest w' | raised e ↦ (raised e, w') ]

  unfoldable pub relay_batch : OutboxConfig → Io W (Unit {0})
  unfolding relay_each relay_one publish
  relay_batch config w =
      let (fetched, w') = storage.fetch_pending config.batch_size config.max_retry_count w in
      elim fetched [ returned messages ↦ relay_each messages w' | raised e ↦ (raised e, w') ]
