-- ===== src/Data/Tests.antt =====
-- core/spakky-data/src/spakky/data: a transaction on a database that holds one number.
use spakky_framework.Common.{ℕ, true, ◌≡◌, refl}
use spakky_framework.Effects.{Exn, returned, raised, Io}
use spakky_framework.Data.Transaction.{Transaction, within, enter, leave, exit, autocommit}
use spakky_framework.Data.Atomicity.{Leaves, Session, within-atomic}

-- What is committed, and what is pending.
abbrev Database : Type 0
Database = ℕ × ℕ

abbrev committed : Database → ℕ
committed w = w.0

abbrev pending : Database → ℕ
pending w = w.1

abbrev numbers : Transaction Database
numbers = record {
  autocommit_enabled = true;
  initialize = λ w. (returned tt, (w.0, w.0));
  dispose = λ w. (returned tt, w);
  commit = λ w. (returned tt, (w.1, w.1));
  rollback = λ w. (returned tt, (w.0, w.0));
}

numbers-Session : Session numbers committed pending
numbers-Session = record {
  initialize-keeps = λ w. refl;
  rollback-keeps = λ w. refl;
  dispose-keeps = λ w. refl;
  dispose-returns = λ w. tt;
  commit-commits = λ w. refl;
}

abbrev write : ℕ → Io Database ℕ
write n w = (returned n, (w.0, n))

abbrev write_and_fail : ℕ → Io Database ℕ
write_and_fail n w = (raised (Exn.exception 0), (w.0, n))

within-returns : within numbers (write 7) (3, 0) ≡ (returned 7, (7, 7))
unfolding within enter leave exit autocommit
within-returns = refl

within-raises : within numbers (write_and_fail 7) (3, 0) ≡ (raised (Exn.exception 0), (3, 3))
unfolding within enter leave exit autocommit
within-raises = refl

within-atomic_example : Leaves committed 7 3 (within numbers (write 7) (3, 0))
within-atomic_example =
    within-atomic numbers committed pending numbers-Session (write 7) (3, 0) refl
