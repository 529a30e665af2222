-- ===== src/Event/Registrations.antt =====
-- core/spakky-event/src/spakky/event/mediator/domain_event_mediator.py: which handlers an event
-- reaches.
use spakky_framework.Common.{
  ℕ, true, false, ◌≡◌, ◌∙◌, refl, sym, ap, inl, inr, List, [], ◌∷◌, ◌++◌, nat_eq, nat_eq_iff, subst,
  keep, map, All, Bool-cases, if◌then◌else◌, append_assoc, append-nil, arith,
}
use spakky_framework.Effects.{is_exception, returned, Result-cases, Ordinary}
use spakky_framework.Event.Mediator.{
  Event, Handler, Handlers, register, get_handlers, handle_each, dispatch,
}

module _ {P W : Type 0} where
  -- The registry after a list of registrations, the first of which is made first.
  abbrev pub register_all : List (ℕ × Handler P W) → Handlers P W → Handlers P W
  register_all [] handlers = handlers
  register_all ((event, handler) ∷ rest) handlers =
      register_all rest (register event handler handlers)

  -- The handlers registered for an event type, in that order.
  abbrev pub registered : ℕ → List (ℕ × Handler P W) → List (Handler P W)
  registered event rs = map (λ r. r.1) (keep (λ r. nat_eq r.0 event) rs)

  get_handlers-register :
      (t u : ℕ) (h : Handler P W) (handlers : Handlers P W)
      → get_handlers t (register u h handlers)
        ≡ get_handlers t handlers ++ (if nat_eq u t then h ∷ [] else [])
  unfolding get_handlers register
  get_handlers-register t u h [] = refl
  get_handlers-register t u h ((other, hs) ∷ rest) = elim (Bool-cases (nat_eq other u)) [
    | inl same ↦
        let names : nat_eq u t ≡ nat_eq other t =
          ap (λ n. nat_eq n t) (sym ((nat_eq_iff other u).0 same)) in
        elim (Bool-cases (nat_eq other t)) [
          | inl hit ↦ rw (same, names, hit) refl
          | inr miss ↦ rw (same, names, miss, append-nil (get_handlers t rest)) refl
        ]
    | inr apart ↦ elim (Bool-cases (nat_eq other t)) [
      | inl hit ↦
          let miss : nat_eq u t ≡ false = ground arith in rw (apart, hit, miss, append-nil hs) refl
      | inr miss ↦ rw (apart, miss) (get_handlers-register t u h rest)
    ]
  ]

  get_handlers-register_all :
      (t : ℕ) (rs : List (ℕ × Handler P W)) (handlers : Handlers P W)
      → get_handlers t (register_all rs handlers) ≡ get_handlers t handlers ++ registered t rs
  unfolding keep
  get_handlers-register_all t [] handlers = sym (append-nil (get_handlers t handlers))
  get_handlers-register_all t ((u, h) ∷ rs) handlers =
      get_handlers-register_all t rs (register u h handlers)
      ∙ ap (λ hs. hs ++ registered t rs) (get_handlers-register t u h handlers)
      ∙ append_assoc (get_handlers t handlers) (if nat_eq u t then h ∷ [] else []) (registered t rs)
      ∙ ap (λ hs. get_handlers t handlers ++ hs)
          (elim (Bool-cases (nat_eq u t)) [ inl hit ↦ rw hit refl | inr miss ↦ rw miss refl ])

  -- The world after the handlers, one after the other.
  abbrev pub run_through : List (Handler P W) → Event P → W → W
  run_through [] event w = w
  run_through (h ∷ hs) event w = run_through hs event (h event w).1

  handle_each-run_through :
      (hs : List (Handler P W)) (event : Event P) (w : W)
      → All (λ h. (w1 : W) → Ordinary {A = Unit {0}} (h event w1).0) hs
      → handle_each hs event w ≡ (returned tt, run_through hs event w)
  unfolding handle_each
  handle_each-run_through [] event w _ = refl
  handle_each-run_through (h ∷ hs) event w (p, ps) = elim (Result-cases (h event w).0) [
    | inl (_, q) ↦ rw q (handle_each-run_through hs event (h event w).1 ps)
    | inr (e, q) ↦
        let ordinary : is_exception e ≡ true = subst (Ordinary {A = Unit {0}}) q (p w) in
        rw (q, ordinary) (handle_each-run_through hs event (h event w).1 ps)
  ]

  -- `dispatch` calls every handler that was registered for the event's type and no other, in the
  -- order of the registrations, and returns, whatever Exceptions the handlers raise. It holds where
  -- they raise nothing but Exceptions.
  pub dispatch-registered :
      (rs : List (ℕ × Handler P W)) (event : Event P) (w : W)
      → All
          (λ h. (w1 : W) → Ordinary {A = Unit {0}} (h event w1).0)
          (registered event.event_type rs)
      → dispatch (register_all rs []) event w
        ≡ (returned tt, run_through (registered event.event_type rs) event w)
  unfolding dispatch
  dispatch-registered rs event w ordinary =
      rw (get_handlers-register_all event.event_type rs [])
        (handle_each-run_through (registered event.event_type rs) event w ordinary)
