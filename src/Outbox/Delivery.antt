-- ===== src/Outbox/Delivery.antt =====
-- core/spakky-outbox/src/spakky/outbox/relay/relay.py: what becomes of each message of a batch.
use spakky_framework.Common.{
  ℕ, subst, ◌≡◌, ◌∙◌, refl, ap, inl, inr, true, List, [], ◌∷◌, Bool-cases,
}
use spakky_framework.Effects.{Exn, is_exception, Result, returned, raised, Result-cases}
use spakky_framework.Outbox.Relay.{
  OutboxMessage, OutboxStorage, EventTransport, OutboxConfig, publish, relay_one, relay_each,
  relay_batch,
}

module _ {W : Type 0} (storage : OutboxStorage W) (send : EventTransport W) where
  abbrev pub after_send : OutboxMessage → W → Result (Unit {0}) × W
  after_send m w = send m.event_name m.payload m.headers w

  -- A message was sent and then marked; or the sending or the marking failed by an Exception, and
  -- the failure was counted.
  pub data Settled (m : OutboxMessage) (w w' : W) : Type 0 where
    published :
        (after_send m w).0 ≡ returned (tt {0})
        → storage.mark_published m.id (after_send m w).1 ≡ (returned (tt {0}), w')
        → Settled m w w'
    unsent :
        (e : Exn)
        → (after_send m w).0 ≡ raised e
        → is_exception e ≡ true
        → storage.increment_retry m.id (after_send m w).1 ≡ (returned (tt {0}), w')
        → Settled m w w'
    unmarked :
        (e : Exn)
        → (after_send m w).0 ≡ returned (tt {0})
        → (storage.mark_published m.id (after_send m w).1).0 ≡ raised e
        → is_exception e ≡ true
        → storage.increment_retry m.id (storage.mark_published m.id (after_send m w).1).1
          ≡ (returned (tt {0}), w')
        → Settled m w w'

  -- The messages were settled one after the other, from `w` to `w'`.
  pub data AllSettled : List OutboxMessage → W → W → Type 0 where
    none_left : (w : W) → AllSettled [] w w
    settled :
        (m : OutboxMessage) (ms : List OutboxMessage) (w w1 w2 : W)
        → Settled m w w1
        → AllSettled ms w1 w2
        → AllSettled (m ∷ ms) w w2

  -- A call that returned, as a pair.
  as_pair : {A : Type 0} {r : Result A} (x : Result A × W) → x.0 ≡ r → x ≡ (r, x.1)
  as_pair x h = λ i. (h i, x.1)

  publish-unsent :
      (m : OutboxMessage) (w : W) (e : Exn)
      → (after_send m w).0 ≡ raised e
      → publish storage send m w ≡ (raised e, (after_send m w).1)
  unfolding publish
  publish-unsent m w e broke = rw (broke, publish)

  publish-sent :
      (m : OutboxMessage) (w : W)
      → (after_send m w).0 ≡ returned (tt {0})
      → publish storage send m w ≡ storage.mark_published m.id (after_send m w).1
  unfolding publish
  publish-sent m w sent = rw (sent, publish)

  -- How `relay_one` ends when the body of `try` raised.
  relay_one-failed :
      (m : OutboxMessage) (w w' w1 : W) (e : Exn)
      → publish storage send m w ≡ (raised e, w1)
      → relay_one storage send m w ≡ (returned tt, w')
      → (is_exception e ≡ true) × (storage.increment_retry m.id w1 ≡ (returned (tt {0}), w'))
  unfolding relay_one
  relay_one-failed m w w' w1 e broke h = elim (Bool-cases (is_exception e)) [
    | inl caught ↦ (caught, rw broke at (rw caught at (rw (broke, relay_one) at h)))
    | inr passed ↦ absurd (cc (rw passed at (rw (broke, relay_one) at h)))
  ]

  relay_one-Settled :
      (m : OutboxMessage) (w w' : W)
      → relay_one storage send m w ≡ (returned tt, w')
      → Settled m w w'
  unfolding relay_one
  relay_one-Settled m w w' h = elim (Result-cases (after_send m w).0) [
    | inr (e, broke) ↦
        let (caught, counted) =
          relay_one-failed m w w' (after_send m w).1 e (publish-unsent m w e broke) h in
        unsent e broke caught counted
    | inl (_, sent) ↦ elim (Result-cases (storage.mark_published m.id (after_send m w).1).0) [
      | inl (_, marked) ↦ published sent (
          as_pair _ marked
          ∙ (rw (publish-sent m w sent) at
              (rw marked at (rw (publish-sent m w sent, relay_one) at h))))
      | inr (e, broke) ↦
          let (caught, counted) =
            relay_one-failed m w w' (storage.mark_published m.id (after_send m w).1).1 e
              (publish-sent m w sent ∙ as_pair _ broke) h in
          unmarked e sent broke caught counted
    ]
  ]

  relay_each-AllSettled :
      (ms : List OutboxMessage) (w w' : W)
      → relay_each storage send ms w ≡ (returned tt, w')
      → AllSettled ms w w'
  unfolding relay_each
  relay_each-AllSettled [] w w' h = subst (λ x. AllSettled [] w x) (ap (λ x. x.1) h) (none_left w)
  relay_each-AllSettled (m ∷ ms) w w' h = elim (Result-cases (relay_one storage send m w).0) [
    | inr (e, broke) ↦ absurd (cc (rw (broke, relay_each) at h))
    | inl (_, ok) ↦
        settled m ms w (relay_one storage send m w).1 w'
          (relay_one-Settled m w (relay_one storage send m w).1 (as_pair _ ok))
          (relay_each-AllSettled ms (relay_one storage send m w).1 w' (rw (ok, relay_each) at h))
  ]

  -- A batch that returns has fetched messages and settled each of them in turn: the message was sent
  -- and then marked as published, or its sending or its marking failed by an Exception and its retry
  -- count was incremented. In particular a message is marked only after it was sent.
  pub relay_batch-AllSettled :
      (config : OutboxConfig) (w w' : W)
      → relay_batch storage send config w ≡ (returned tt, w')
      → (ms : List OutboxMessage) × (w1 : W) × (storage.fetch_pending config.batch_size
            config.max_retry_count w
          ≡ (returned ms, w1))
        × AllSettled ms w1 w'
  unfolding relay_batch
  relay_batch-AllSettled config w w' h =
      elim (Result-cases (storage.fetch_pending config.batch_size config.max_retry_count w).0) [
        | inr (e, broke) ↦ absurd (cc (rw (broke, relay_batch) at h))
        | inl (ms, fetched) ↦ (
          ms,
          (storage.fetch_pending config.batch_size config.max_retry_count w).1,
          as_pair _ fetched,
          relay_each-AllSettled ms _ w' (rw (fetched, relay_batch) at h),
        )
      ]

  relay_one-returns :
      (m : OutboxMessage) (w : W)
      → ((w : W) (e : Exn) → (publish storage send m w).0 ≡ raised e → is_exception e ≡ true)
      → ((w : W) → (storage.increment_retry m.id w).0 ≡ returned (tt {0}))
      → (relay_one storage send m w).0 ≡ returned (tt {0})
  unfolding relay_one
  relay_one-returns m w ordinary counts = elim (Result-cases (publish storage send m w).0) [
    | inl (_, ok) ↦ rw (ok, relay_one) refl
    | inr (e, broke) ↦ rw (broke, relay_one) (rw (ordinary w e broke) (counts _))
  ]

  relay_each-returns :
      (ms : List OutboxMessage) (w : W)
      → ((m : OutboxMessage) (w : W) (e : Exn)
          → (publish storage send m w).0 ≡ raised e
          → is_exception e ≡ true)
      → ((id : ℕ) (w : W) → (storage.increment_retry id w).0 ≡ returned (tt {0}))
      → (relay_each storage send ms w).0 ≡ returned (tt {0})
  unfolding relay_each
  relay_each-returns [] w ordinary counts = refl
  relay_each-returns (m ∷ ms) w ordinary counts =
      rw (relay_one-returns m w (ordinary m) (counts m.id), relay_each)
        (relay_each-returns ms _ ordinary counts)

  -- No message stops a batch: if the messages can be fetched, sending and marking raise nothing but
  -- Exceptions, and retries can be counted, then the batch returns.
  pub relay_batch-returns :
      (config : OutboxConfig) (w : W) (ms : List OutboxMessage)
      → (storage.fetch_pending config.batch_size config.max_retry_count w).0 ≡ returned ms
      → ((m : OutboxMessage) (w : W) (e : Exn)
          → (publish storage send m w).0 ≡ raised e
          → is_exception e ≡ true)
      → ((id : ℕ) (w : W) → (storage.increment_retry id w).0 ≡ returned (tt {0}))
      → (relay_batch storage send config w).0 ≡ returned (tt {0})
  unfolding relay_batch
  relay_batch-returns config w ms fetched ordinary counts =
      rw (fetched, relay_batch) (relay_each-returns ms _ ordinary counts)
