-- ===== src/Outbox/Tests.antt =====
-- A batch of two messages, of which one cannot be sent, and the theorems about the relay applied to
-- it. The world counts: 1 for each message marked, 10 for each retry.
use spakky_framework.Common.{
  ℕ, ◌+◌, String, ◌≡◌, refl, sym, ap, Bool, true, false, none, List, [], ◌∷◌, ◌==◌, string_has_eq,
  Bool-cases, inl, inr,
}
use spakky_framework.Effects.{Exn, is_exception, exception, Result, returned, raised}
use spakky_framework.Outbox.Relay.{
  OutboxMessage, OutboxStorage, EventTransport, OutboxConfig, publish, relay_one, relay_each,
  relay_batch,
}
use spakky_framework.Outbox.Delivery.{AllSettled, relay_batch-AllSettled, relay_batch-returns}

abbrev message : ℕ → String → OutboxMessage
message id name = record {
  id = id;
  event_name = name;
  payload = [];
  headers = [];
  created_at = 0;
  published_at = none;
  retry_count = 0;
  claimed_at = none;
}

abbrev batch : List OutboxMessage
batch = message 1 "bad" ∷ message 2 "good" ∷ []

abbrev counting : OutboxStorage ℕ
counting = record {
  fetch_pending = λ limit max_retry w. (returned batch, w);
  mark_published = λ id w. (returned tt, w + 1);
  increment_retry = λ id w. (returned tt, w + 10);
}

refuse : Bool → ℕ → Result (Unit {0}) × ℕ
refuse true w = (raised (exception 7), w)
refuse false w = (returned tt, w)

abbrev picky : EventTransport ℕ
picky name payload headers w = refuse (name == "bad") w

abbrev config : OutboxConfig
config = record { batch_size = 100; max_retry_count = 5 }

relayed : relay_batch counting picky config 0 ≡ (returned tt, 11)
unfolding relay_batch relay_each relay_one publish refuse
relayed = refl

relay_batch-AllSettled_example :
    (ms : List OutboxMessage) × (w1 : ℕ) × (counting.fetch_pending 100 5 0 ≡ (returned ms, w1))
    × AllSettled counting picky ms w1 11
relay_batch-AllSettled_example = relay_batch-AllSettled counting picky config 0 11 relayed

abbrev ordinary_or : Result (Unit {0}) → Bool
ordinary_or (returned _) = true
ordinary_or (raised e) = is_exception e

ordinary :
    (m : OutboxMessage) (w : ℕ) (e : Exn)
    → (publish counting picky m w).0 ≡ raised e
    → is_exception e ≡ true
unfolding publish refuse
ordinary m w e h = elim (Bool-cases (m.event_name == "bad")) [
  | inl bad ↦ sym (ap ordinary_or (rw (bad, publish, refuse) at h))
  | inr good ↦ absurd (cc (rw (good, publish, refuse) at h))
]

relay_batch-returns_example : (relay_batch counting picky config 0).0 ≡ returned (tt {0})
relay_batch-returns_example =
    relay_batch-returns counting picky config 0 batch refl ordinary (λ id w. refl)
