-- ===== src/Event/Commit.antt =====
-- core/spakky-data/src/spakky/data/aspects/transactional.py and core/spakky-event/src/spakky/event/
-- aspects/transactional_event_publishing.py on one method: `@Order(0)` and `@Order(1)`.
use spakky_framework.Common.{
  Bool, true, false, none, ◌∙◌, ◌≡◌, refl, ap, [], ◌∷◌, keep, if◌then◌else◌,
}
use spakky_framework.Effects.{
  Exn, is_exception, Result, returned, raised, Io, except_all, and_then, and_then-returned,
  and_then-raised, except_all-raised, finally_do-returned, raise, return_,
}
use spakky_framework.Aop.Advisor.{IAspect, Func, advise, attempt, catch, finally}
use spakky_framework.Aop.Weaving.{Aspect, insert, sort, wrap, call}
use spakky_framework.Data.Transaction.{
  Transaction, enter, autocommit, exit, leave, within, transactional_aspect,
}
use spakky_framework.Event.Aggregates.{Store, clear}
use spakky_framework.Event.Publishing.{publish_collected, event_publishing_aspect}

within-commit_failed :
    {W A : Type 0} (transaction : Transaction W) (body : Io W A) {a : A} {e : Exn}
    {w w0 w1 w2 w3 w4 : W}
    → transaction.initialize w ≡ (returned tt, w0)
    → body w0 ≡ (returned a, w1)
    → transaction.autocommit_enabled ≡ true
    → transaction.commit w1 ≡ (raised e, w2)
    → transaction.rollback w2 ≡ (returned tt, w3)
    → transaction.dispose w3 ≡ (returned tt, w4)
    → within transaction body w ≡ (raised e, w4)
unfolding within leave enter exit autocommit
within-commit_failed {W = W} transaction body {a = a} {e = e} {w1 = w1} h0 h1 on h2 h3 h4 =
    let undo : Exn → Io W (Unit {0}) =
      λ e. and_then transaction.rollback (λ _. raise {A = Unit {0}} e) in
    let tried = except_all (autocommit transaction) undo in
    and_then-returned (enter transaction) (λ _ w'. leave transaction (body w').0 (body w').1) h0
    ∙ ap (λ r. leave transaction r.0 r.1) h1
    ∙ and_then-raised (exit transaction none) (λ _. return_ a)
        (finally_do-returned tried transaction.dispose
          (except_all-raised (autocommit transaction) undo
              (ap (λ b. (if b then transaction.commit else return_ tt) w1) on ∙ h2)
            ∙ and_then-returned transaction.rollback (λ _. raise e) h3)
          h4)

module _ {W X A : Type 0} where
  -- `@Order(0)`
  unfoldable pub transactional : Transaction W → Aspect X W A
  unfolding transactional_aspect
  transactional transaction = record {
    order = 0;
    matches = true;
    instance_ = transactional_aspect transaction;
  }

either_way :
    {B : Type 0} (test : Bool) (b : B) → (elim test as (λ _. B) [ true ↦ b | false ↦ b ]) ≡ b
either_way true b = refl
either_way false b = refl

module _ {W A : Type 0} (X : Type 0) (transaction : Transaction W) where
  catch-silent :
      (e : Exn) (s : W)
      → catch (transactional_aspect {X = X} {A = A} transaction) (raised e, s) ≡ (raised e, s)
  unfolding catch transactional_aspect
  catch-silent e s = either_way (is_exception e) (raised e, s)

  -- The other advice of the transaction's aspect adds nothing to a call that ended with `r`.
  within_alone :
      (r : Result A × W)
      → finally (transactional_aspect {X = X} transaction) (
          catch
            (transactional_aspect {X = X} transaction)
            (elim r.0 [ raised e ↦ (raised e, r.1) | returned a ↦ (returned a, r.1) ]))
        ≡ r
  unfolding catch finally transactional_aspect
  within_alone (returned a, s) = refl
  within_alone (raised e, s) =
      ap (finally (transactional_aspect {X = X} transaction)) (catch-silent e s)

module _ {E W X A : Type 0} where
  -- `@Order(1)`
  unfoldable pub event_publishing : (E → Io (Store E W) (Unit {0})) → Aspect X (Store E W) A
  unfolding event_publishing_aspect
  event_publishing publish = record {
    order = 1;
    matches = true;
    instance_ = event_publishing_aspect publish;
  }

  -- A method marked `@transactional`, called through the proxy of its Pod.
  unfoldable pub use_case :
      Transaction (Store E W)
      → (E → Io (Store E W) (Unit {0}))
      → Func X (Store E W) A
      → Func X (Store E W) A
  unfolding call transactional event_publishing
  use_case transaction publish method =
      call (event_publishing publish ∷ transactional transaction ∷ []) method

  module _ (transaction : Transaction (Store E W)) (publish : E → Io (Store E W) (Unit {0})) where
    advise-published :
        (method : Func X (Store E W) A) (x : X) (a : A) (s0 s1 s2 : Store E W)
        → method x s0 ≡ (returned a, s1)
        → publish_collected publish s1 ≡ (returned tt, s2)
        → advise (event_publishing_aspect publish) method x s0 ≡ (returned a, clear s2)
    unfolding advise attempt catch finally event_publishing_aspect
    advise-published method x a s0 s1 s2 h k =
        let aspect : IAspect X (Store E W) A = event_publishing_aspect publish in
        ap (λ r. finally aspect (catch aspect (attempt aspect (λ x s. r) x s0))) h
        ∙ ap
            (λ r. finally aspect (
              catch aspect (elim r.0 as (λ _. Result A × Store E W) [
                | returned _ ↦ (returned a, r.1)
                | raised e ↦ (raised e, r.1)
              ])))
            k

    -- The transaction surrounds the publication: the aspects of a use case run the method and then
    -- publish its events within the transaction, whatever the order in which they are listed.
    pub use_case-within :
        (method : Func X (Store E W) A) (x : X) (s : Store E W)
        → use_case transaction publish method x s
          ≡ within transaction (advise (event_publishing_aspect publish) method x) s
    unfolding use_case call transactional event_publishing sort insert wrap keep advise attempt
        catch finally transactional_aspect
    use_case-within method x s =
        within_alone X transaction
          (within transaction (advise (event_publishing_aspect publish) method x) s)

    -- The events of a use case are published before its commit: where the commit raises `e`, the
    -- use case raises `e` after a rollback, and the state it leaves is the one that the publication
    -- made, with the collector cleared, committed in vain, rolled back and closed. It holds where
    -- all but the commit return.
    pub use_case-publishes_first :
        (method : Func X (Store E W) A) (x : X) (a : A) (e : Exn) (s s0 s1 s2 s3 s4 s5 : Store E W)
        → transaction.autocommit_enabled ≡ true
        → transaction.initialize s ≡ (returned tt, s0)
        → method x s0 ≡ (returned a, s1)
        → publish_collected publish s1 ≡ (returned tt, s2)
        → transaction.commit (clear s2) ≡ (raised e, s3)
        → transaction.rollback s3 ≡ (returned tt, s4)
        → transaction.dispose s4 ≡ (returned tt, s5)
        → use_case transaction publish method x s ≡ (raised e, s5)
    use_case-publishes_first method x a e s s0 s1 s2 s3 s4 s5 on h0 h1 h2 h3 h4 h5 =
        use_case-within method x s
        ∙ within-commit_failed transaction (advise (event_publishing_aspect publish) method x) h0
            (advise-published method x a s0 s1 s2 h1 h2) on h3 h4 h5
