-- ===== src/Data/Transaction.antt =====
-- core/spakky-data/src/spakky/data/persistency/transaction.py and aspects/transactional.py.
use spakky_framework.Common.{Bool, Option, none, some, if◌then◌else◌}
use spakky_framework.Effects.{
  Exn, Result, returned, raised, Io, and_then, except_all, finally_do, return_, raise,
}
use spakky_framework.Aop.Advisor.{IAspect}

-- AbstractTransaction, and AbstractAsyncTransaction, whose code is the same with awaits: the
-- abstract methods are those of the database's plugin.
pub record Transaction (W : Type 0) : Type 0 where
  pub autocommit_enabled : Bool
  pub initialize : Io W (Unit {0})
  pub dispose : Io W (Unit {0})
  pub commit : Io W (Unit {0})
  pub rollback : Io W (Unit {0})

module _ {W : Type 0} where
  unfoldable pub enter : Transaction W → Io W (Unit {0})
  enter transaction = transaction.initialize

  -- `if self.autocommit_enabled: self.commit()`
  unfoldable pub autocommit : Transaction W → Io W (Unit {0})
  autocommit transaction = if transaction.autocommit_enabled then transaction.commit else return_ tt

  -- `__exit__`, on the exception that the body raised, if any.
  unfoldable pub exit : Transaction W → Option Exn → Io W (Unit {0})
  unfolding autocommit
  exit transaction (some e) = and_then transaction.rollback (λ _. transaction.dispose)
  exit transaction none =
      finally_do
        (except_all (autocommit transaction) (λ e. and_then transaction.rollback (λ _. raise e)))
        transaction.dispose

  -- The end of a `with` whose body ended so. `__exit__` returns None, so that an exception goes on.
  unfoldable pub leave : {A : Type 0} → Transaction W → Result A → Io W A
  unfolding exit
  leave transaction (returned a) = and_then (exit transaction none) (λ _. return_ a)
  leave transaction (raised e) = and_then (exit transaction (some e)) (λ _. raise e)

  -- `with transaction: return body()`
  unfoldable pub within : {A : Type 0} → Transaction W → Io W A → Io W A
  unfolding enter leave
  within transaction body =
      and_then (enter transaction)
        (λ _ w. let (outcome, w1) = body w in leave transaction outcome w1)

-- TransactionalAspect and AsyncTransactionalAspect.
unfoldable pub transactional_aspect : {W X A : Type 0} → Transaction W → IAspect X W A
unfolding within
transactional_aspect transaction = record {
  before = λ _. return_ tt;
  around = λ joinpoint x. within transaction (joinpoint x);
  after_returning = λ _. return_ tt;
  after_raising = λ _. return_ tt;
  after = return_ tt;
}
