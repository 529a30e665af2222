-- ===== src/Data/Atomicity.antt =====
-- core/spakky-data/src/spakky/data/persistency/transaction.py: what a transaction leaves in the
-- database.
use spakky_framework.Common.{subst, ◌≡◌, ◌∙◌, some, none, inl, inr, Bool-cases, if◌then◌else◌}
use spakky_framework.Effects.{Exn, Result, returned, raised, Io, except_all, and_then, raise}
use spakky_framework.Data.Transaction.{Transaction, enter, autocommit, exit, leave, within}

-- What the call leaves of `committed`, when it returned and when it raised.
abbrev pub Leaves : {W A S : Type 0} → (W → S) → S → S → Result A × W → Type 0
Leaves committed done undone (returned _, w) = committed w ≡ done
Leaves committed done undone (raised _, w) = committed w ≡ undone

abbrev pub Returns : {W A : Type 0} → Result A × W → Type 0
Returns (returned _, w) = Unit
Returns (raised _, w) = ⊥

-- A database as its plugin documents it: only a commit that returns changes what is committed, and
-- makes that what is pending; closing a session does not fail.
pub record Session {W S : Type 0} (transaction : Transaction W) (committed pending : W → S)
    : Type 0 where
  pub initialize-keeps : (w : W) → committed (transaction.initialize w).1 ≡ committed w
  pub rollback-keeps : (w : W) → committed (transaction.rollback w).1 ≡ committed w
  pub dispose-keeps : (w : W) → committed (transaction.dispose w).1 ≡ committed w
  pub dispose-returns : (w : W) → Returns (transaction.dispose w)
  pub commit-commits : (w : W) → Leaves committed (pending w) (committed w) (transaction.commit w)

module _ {W S : Type 0} (committed : W → S) (done undone : S) where
  -- Closing the session after `outcome`.
  Leaves-dispose :
      {A : Type 0} (outcome : Result A × W) (told : Result (Unit {0}) × W)
      → Returns told
      → committed told.1 ≡ committed outcome.1
      → Leaves {A = A} committed done undone outcome
      → Leaves {A = A} committed done undone
          (elim told.0 [ returned _ ↦ (outcome.0, told.1) | raised e ↦ (raised e, told.1) ])
  Leaves-dispose (returned a, w) (returned _, w') _ same left = same ∙ left
  Leaves-dispose (raised e, w) (returned _, w') _ same left = same ∙ left
  Leaves-dispose outcome (raised e, w') impossible same left = absurd impossible

  -- What is raised after `told`, whether it returned or not.
  Leaves-raise :
      (A : Type 0) {B : Type 0} (e : Exn) (told : Result B × W)
      → committed told.1 ≡ undone
      → Leaves {A = A} committed done undone
          (elim told.0 [ returned _ ↦ (raised e, told.1) | raised e' ↦ (raised e', told.1) ])
  Leaves-raise A e (returned _, w) same = same
  Leaves-raise A e (raised e', w) same = same

  Leaves-result :
      {A B : Type 0} (a : A) (told : Result B × W)
      → Leaves {A = B} committed done undone told
      → Leaves {A = A} committed done undone
          (elim told.0 [ returned _ ↦ (returned a, told.1) | raised e ↦ (raised e, told.1) ])
  Leaves-result a (returned _, w) left = left
  Leaves-result a (raised e, w) left = left

module _ {W S : Type 0} (transaction : Transaction W) (committed pending : W → S)
    (session : Session transaction committed pending) where
  -- The rollback where the commit raised.
  Leaves-commit :
      (done undone : S) (told : Result (Unit {0}) × W)
      → Leaves {A = Unit {0}} committed done undone told
      → Leaves {A = Unit {0}} committed done undone (elim told.0 [
        | returned a ↦ (returned a, told.1)
        | raised e ↦ and_then transaction.rollback (λ _. raise {A = Unit {0}} e) told.1
      ])
  Leaves-commit done undone (returned _, w) left = left
  Leaves-commit done undone (raised e, w) left =
      Leaves-raise committed done undone (Unit {0}) e (transaction.rollback w)
        (session.rollback-keeps w ∙ left)

  -- `exit` after a body that returned.
  exit-none :
      (w : W) (undone : S)
      → committed w ≡ undone
      → Leaves {A = Unit {0}} committed
          (if transaction.autocommit_enabled then pending w else undone)
          undone
          (exit transaction none w)
  unfolding exit autocommit
  exit-none w undone same = elim (Bool-cases transaction.autocommit_enabled) [
    | inl on ↦
        let tried =
          except_all transaction.commit
            (λ e. and_then transaction.rollback (λ _. raise {A = Unit {0}} e)) w in
        rw on (
          Leaves-dispose committed (pending w) undone tried (transaction.dispose tried.1)
            (session.dispose-returns tried.1) (session.dispose-keeps tried.1)
            (Leaves-commit (pending w) undone (transaction.commit w) (
              subst (λ s. Leaves committed (pending w) s (transaction.commit w)) same
                (session.commit-commits w))))
    | inr off ↦ rw off (
        Leaves-dispose committed undone undone (returned tt, w) (transaction.dispose w)
          (session.dispose-returns w) (session.dispose-keeps w) same)
  ]

  keeps-dispose :
      (told : Result (Unit {0}) × W) (undone : S)
      → committed told.1 ≡ undone
      → (let closed : Result (Unit {0}) × W = elim told.0 [
        | returned _ ↦ transaction.dispose told.1
        | raised e ↦ (raised e, told.1)
      ] in
          committed closed.1 ≡ undone)
  keeps-dispose (returned _, w) undone same = session.dispose-keeps w ∙ same
  keeps-dispose (raised e, w) undone same = same

  -- `exit` after a body that raised.
  exit-some :
      (e : Exn) (w : W) (undone : S)
      → committed w ≡ undone
      → committed (exit transaction (some e) w).1 ≡ undone
  unfolding exit
  exit-some e w undone same =
      keeps-dispose (transaction.rollback w) undone (session.rollback-keeps w ∙ same)

  body-Leaves :
      {A : Type 0} (outcome : Result A × W) (undone : S)
      → committed outcome.1 ≡ undone
      → Leaves {A = A} committed
          (if transaction.autocommit_enabled then pending outcome.1 else undone)
          undone
          (leave transaction outcome.0 outcome.1)
  unfolding leave
  body-Leaves (returned a, w) undone same =
      Leaves-result committed (if transaction.autocommit_enabled then pending w else undone) undone
        a (exit transaction none w) (exit-none w undone same)
  body-Leaves {A} (raised e, w) undone same =
      Leaves-raise committed (if transaction.autocommit_enabled then pending w else undone) undone A
        e (exit transaction (some e) w) (exit-some e w undone same)

  within-Leaves :
      {A : Type 0} (body : Io W A) (entered : Result (Unit {0}) × W) (undone : S)
      → committed entered.1 ≡ undone
      → committed (body entered.1).1 ≡ committed entered.1
      → Leaves {A = A} committed
          (if transaction.autocommit_enabled then pending (body entered.1).1 else undone)
          undone
          (elim entered.0 [
            | returned _ ↦ leave transaction (body entered.1).0 (body entered.1).1
            | raised e ↦ (raised e, entered.1)
          ])
  within-Leaves body (returned _, w) undone same keeps = body-Leaves (body w) undone (keeps ∙ same)
  within-Leaves body (raised e, w) undone same keeps = same

  -- A transaction is atomic: for a body that writes only to its session, what is committed after a
  -- `with` that raised is what it was before it, and after one that returned what was pending at
  -- the end of the body, or what it was before it where autocommit is off.
  pub within-atomic :
      {A : Type 0} (body : Io W A) (w : W)
      → committed (body (transaction.initialize w).1).1 ≡ committed (transaction.initialize w).1
      → Leaves {A = A} committed
          (if transaction.autocommit_enabled
            then pending (body (transaction.initialize w).1).1
            else committed w)
          (committed w)
          (within transaction body w)
  unfolding within enter
  within-atomic body w keeps =
      within-Leaves body (transaction.initialize w) (committed w) (session.initialize-keeps w) keeps
