-- ===== src/Register/Synchronization.antt =====
-- `register_test`, `register_wait`, `register_barrier` and `register_ibarrier` of
-- interpol-rs/src/interpol.rs.
use interpol.Base.{Bool}
use interpol.Types.{MpiCallType, MpiComm, MpiRank, MpiReq, Tsc}
use interpol.Event.{box}
use interpol.Builder.{Setting, DeriveBuilder}
use interpol.Vector.{Memory}
use interpol.Machine.{M, ◌>>=◌, with_guard}
use interpol.Register.{◌▸◌, built, append}

module _ (db : DeriveBuilder) where
  unfoldable pub register_test : Memory → MpiRank → MpiReq → Bool → Tsc → Tsc → M (Unit {0})
  register_test memory current_rank req finished tsc duration = do
    test_event ← built db (
        db.default MpiCallType.test
        ▸ db.set (Setting.current_rank current_rank)
        ▸ db.set (Setting.req req)
        ▸ db.set (Setting.finished finished)
        ▸ db.set (Setting.tsc tsc)
        ▸ db.set (Setting.duration duration))
    with_guard "failed to take the lock on vector for `MpiTest` event"
        (append memory (box MpiCallType.test test_event))

  unfoldable pub register_wait : Memory → MpiRank → MpiReq → Tsc → Tsc → M (Unit {0})
  register_wait memory current_rank req tsc duration = do
    wait_event ← built db (
        db.default MpiCallType.wait
        ▸ db.set (Setting.current_rank current_rank)
        ▸ db.set (Setting.req req)
        ▸ db.set (Setting.tsc tsc)
        ▸ db.set (Setting.duration duration))
    with_guard "failed to take the lock on vector for `MpiWait` event"
        (append memory (box MpiCallType.wait wait_event))

  unfoldable pub register_barrier : Memory → MpiRank → MpiComm → Tsc → Tsc → M (Unit {0})
  register_barrier memory current_rank comm tsc duration = do
    barrier_event ← built db (
        db.default MpiCallType.barrier
        ▸ db.set (Setting.current_rank current_rank)
        ▸ db.set (Setting.comm comm)
        ▸ db.set (Setting.tsc tsc)
        ▸ db.set (Setting.duration duration))
    with_guard "failed to take the lock on vector for `MpiBarrier` event"
        (append memory (box MpiCallType.barrier barrier_event))

  unfoldable pub register_ibarrier : Memory → MpiRank → MpiComm → MpiReq → Tsc → Tsc → M (Unit {0})
  register_ibarrier memory current_rank comm req tsc duration = do
    ibarrier_event ← built db (
        db.default MpiCallType.ibarrier
        ▸ db.set (Setting.current_rank current_rank)
        ▸ db.set (Setting.comm comm)
        ▸ db.set (Setting.req req)
        ▸ db.set (Setting.tsc tsc)
        ▸ db.set (Setting.duration duration))
    with_guard "failed to take the lock on vector for `MpiIbarrier` event"
        (append memory (box MpiCallType.ibarrier ibarrier_event))
