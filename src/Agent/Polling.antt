-- ===== src/Agent/Polling.antt =====
-- core/spakky-agent/src/spakky/agent/signal_consumption.py: which signals a poll consumes.
use spakky_framework.Common.{
  ℕ, ◌≤◌, if◌then◌else◌, String, ◌≡◌, subst, refl, ap, ◌∙◌, sym, inl, inr, Bool, true, false,
  Option, none, some, List, [], ◌∷◌, ◌++◌, append_assoc, length-append, All, All-append, Bool-cases,
  arith,
}
use spakky_framework.Effects.{
  returned, Io, and_then, return_, raise, agent_definition_error, and_then-inversion,
  returned-injective,
}
use spakky_framework.Agent.State.{AgentSignal, AgentSignalKind}
use spakky_framework.Agent.Signals.{
  AgentSignalPollPoint, AgentSignalConsumptionBatch, SignalRepository, is_full, is_accepted,
  select_consumable_prefix, NextWaits, IsAccepted, Within, mark_all, consume_pending_agent_signals,
}

Within-append :
    (limit : Option ℕ) (selected : List AgentSignal) (signal : AgentSignal)
    → is_full limit selected ≡ false
    → Within limit (selected ++ (signal ∷ []))
Within-append none selected signal h = tt
Within-append (some n) selected signal h = ground (arith, length-append selected (signal ∷ []))

module _ (accepted : Option (List AgentSignalKind)) (limit : Option ℕ) where
  -- What the loop returns, split off what is pending.
  abbrev Split : List AgentSignal → List AgentSignal → Type 0
  Split pending selected =
      (rest : List AgentSignal) × (selected ++ rest ≡ pending)
      × All (IsAccepted accepted) selected
      × Within limit selected
      × NextWaits accepted limit selected rest

  at_limit :
      (selected : List AgentSignal) (signal : AgentSignal) (rest : List AgentSignal)
      → is_full limit selected ≡ true
      → select_consumable_prefix accepted limit selected (signal ∷ rest) ≡ selected
  unfolding select_consumable_prefix
  at_limit selected signal rest full = simp (full)

  at_refused :
      (selected : List AgentSignal) (signal : AgentSignal) (rest : List AgentSignal)
      → is_full limit selected ≡ false
      → is_accepted accepted signal.kind ≡ false
      → select_consumable_prefix accepted limit selected (signal ∷ rest) ≡ selected
  unfolding select_consumable_prefix
  at_refused selected signal rest space refused = simp (space, refused)

  at_selected :
      (selected : List AgentSignal) (signal : AgentSignal) (rest : List AgentSignal)
      → is_full limit selected ≡ false
      → is_accepted accepted signal.kind ≡ true
      → select_consumable_prefix accepted limit selected (signal ∷ rest)
        ≡ select_consumable_prefix accepted limit (selected ++ (signal ∷ [])) rest
  unfolding select_consumable_prefix
  at_selected selected signal rest space fits = simp (space, fits)

  select_consumable_prefix-Split :
      (selected pending : List AgentSignal)
      → All (IsAccepted accepted) selected
      → Within limit selected
      → Split (selected ++ pending) (select_consumable_prefix accepted limit selected pending)
  unfolding select_consumable_prefix
  select_consumable_prefix-Split selected [] ok within = ([], refl, ok, within, tt)
  select_consumable_prefix-Split selected (signal ∷ rest) ok within =
      elim (Bool-cases (is_full limit selected)) [
        | inl full ↦
            subst (Split (selected ++ (signal ∷ rest))) (sym (at_limit selected signal rest full))
              (signal ∷ rest, refl, ok, within, inl full)
        | inr space ↦ elim (Bool-cases (is_accepted accepted signal.kind)) [
          | inr refused ↦
              subst (Split (selected ++ (signal ∷ rest)))
                (sym (at_refused selected signal rest space refused))
                (signal ∷ rest, refl, ok, within, inr refused)
          | inl fits ↦
              rw
                (
                  at_selected selected signal rest space fits,
                  sym (append_assoc selected (signal ∷ []) rest),
                )
                (select_consumable_prefix-Split (selected ++ (signal ∷ [])) rest
                  (All-append (IsAccepted accepted) selected (signal ∷ []) ok (fits, tt))
                  (Within-append limit selected signal space))
        ]
      ]

-- A poll never lets a signal overtake another: what it selects is the start of the pending signals,
-- of accepted kinds and within the limit, and it stops only where nothing is left, the limit is
-- reached, or the next signal is of another kind.
pub select_consumable_prefix-NextWaits :
    (accepted : Option (List AgentSignalKind)) (limit : Option ℕ) (pending : List AgentSignal)
    → (rest : List AgentSignal) × (select_consumable_prefix accepted limit [] pending ++ rest
        ≡ pending)
      × All (IsAccepted accepted) (select_consumable_prefix accepted limit [] pending)
      × Within limit (select_consumable_prefix accepted limit [] pending)
      × NextWaits accepted limit (select_consumable_prefix accepted limit [] pending) rest
select_consumable_prefix-NextWaits accepted none pending =
    select_consumable_prefix-Split accepted none [] pending tt tt
select_consumable_prefix-NextWaits accepted (some n) pending =
    select_consumable_prefix-Split accepted (some n) [] pending tt (omega arith)

-- A guard that raises did not hold where the call returned.
passed :
    {W A : Type 0} (b : Bool) (body : Io W A) (w w' : W) (a : A)
    → (if b then raise agent_definition_error else body) w ≡ (returned a, w')
    → (b ≡ false) × (body w ≡ (returned a, w'))
passed true body w w' a h = absurd (cc (ap (λ q. q.0) h))
passed false body w w' a h = (refl, h)

-- A limit, if there is one, is at least 1.
abbrev pub Positive : Option ℕ → Type 0
Positive none = Unit
Positive (some n) = 1 ≤ n

not_full-Positive : (limit : Option ℕ) → is_full limit [] ≡ false → Positive limit
not_full-Positive none h = tt
not_full-Positive (some n) h = ground arith

module _ {W : Type 0} (repository : SignalRepository W) where
  -- Each signal was marked as consumed, one after the other, and this is what the repository
  -- answered.
  abbrev pub Marked : List AgentSignal → List AgentSignal → W → W → Type 0
  Marked [] [] w w' = w ≡ w'
  Marked (signal ∷ selected) (answer ∷ answers) w w' =
      (w1 : W) × (repository.mark_consumed signal.id w ≡ (returned answer, w1))
      × Marked selected answers w1 w'
  Marked _ _ w w' = ⊥

  mark_all-Marked :
      (selected : List AgentSignal) (w w' : W) (consumed : List AgentSignal)
      → mark_all repository selected w ≡ (returned consumed, w')
      → Marked selected consumed w w'
  unfolding mark_all
  mark_all-Marked [] w w' consumed h =
      let none_left : [] ≡ consumed = cc (ap (λ q. q.0) h) in
      subst (λ cs. Marked [] cs w w') none_left (ap (λ q. q.1) h)
  mark_all-Marked (signal ∷ rest) w w' consumed h =
      let (first, w1, called, h1) =
        and_then-inversion (repository.mark_consumed signal.id)
          (λ c. and_then (mark_all repository rest) (λ more. return_ (c ∷ more))) w w' consumed h in
      let (more, w2, marked, h2) =
        and_then-inversion (mark_all repository rest) (λ more. return_ (first ∷ more)) w1 w'
          consumed h1 in
      let whole : first ∷ more ≡ consumed = cc (ap (λ q. q.0) h2) in
      subst (λ cs. Marked (signal ∷ rest) cs w w') whole
        (
          w1,
          called,
          subst (Marked rest more w1) (ap (λ q. q.1) h2) (mark_all-Marked rest w1 w2 more marked),
        )

  -- A poll that returns was for a state with a name and for a positive limit, if any. It listed the
  -- pending signals and marked each of `selected` as consumed, one after the other and nothing else:
  -- the start of the pending signals, of accepted kinds and within the limit, up to where nothing is
  -- left, the limit is reached or the next signal is of another kind. Its batch is of that state and
  -- poll point, with the answers of the repository.
  pub consume_pending-Marked :
      (is_blank : String → Bool) (state_id : String) (point : AgentSignalPollPoint)
      → (accepted : Option (List AgentSignalKind)) (limit : Option ℕ) (w w' : W)
      → (batch : AgentSignalConsumptionBatch)
      → consume_pending_agent_signals repository is_blank state_id point accepted limit w
        ≡ (returned batch, w')
      → (is_blank state_id ≡ false)
        × Positive limit
        × (batch.state_id ≡ state_id)
        × (batch.poll_point ≡ point)
        × (selected : List AgentSignal) × (rest : List AgentSignal) × (w1 : W)
        × (repository.list_pending state_id w ≡ (returned (selected ++ rest), w1))
        × All (IsAccepted accepted) selected
        × Within limit selected
        × NextWaits accepted limit selected rest
        × Marked selected batch.signals w1 w'
  unfolding consume_pending_agent_signals
  consume_pending-Marked is_blank state_id point accepted limit w w' batch h =
      let built_from : List AgentSignal → AgentSignalConsumptionBatch =
        λ consumed. record { state_id = state_id; poll_point = point; signals = consumed } in
      let marking : List AgentSignal → Io W AgentSignalConsumptionBatch = λ pending.
        and_then (mark_all repository (select_consumable_prefix accepted limit [] pending))
          (λ consumed. return_ (built_from consumed)) in
      let polling = and_then (repository.list_pending state_id) marking in
      let (named, h1) =
        passed (is_blank state_id)
          (if is_full limit [] then raise agent_definition_error else polling) w w' batch h in
      let (positive, h2) = passed (is_full limit []) polling w w' batch h1 in
      let (pending, w1, listed, h3) =
        and_then-inversion (repository.list_pending state_id) marking w w' batch h2 in
      let selected = select_consumable_prefix accepted limit [] pending in
      let (consumed, w2, marked, h4) =
        and_then-inversion (mark_all repository selected)
          (λ consumed. return_ (built_from consumed)) w1 w' batch h3 in
      let built = returned-injective (ap (λ q. q.0) h4) in
      let (rest, split, fit, within, waits) =
        select_consumable_prefix-NextWaits accepted limit pending in
      (
        named,
        not_full-Positive limit positive,
        ap (λ b. b.state_id) (sym built),
        ap (λ b. b.poll_point) (sym built),
        selected,
        rest,
        w1,
        listed ∙ (λ i. (returned (sym split i), w1)),
        fit,
        within,
        waits,
        mark_all-Marked selected w1 w' batch.signals
            (marked ∙ λ i. (returned (built i).signals, (h4 i).1)),
      )
