-- ===== src/Register/Management.antt =====
-- `register_init`, `register_init_thread` and `register_finalize` of
-- interpol-rs/src/interpol.rs.
use interpol.Types.{I32, MpiCallType, MpiRank, Tsc, Usecs}
use interpol.Event.{box}
use interpol.Builder.{Setting, DeriveBuilder}
use interpol.Vector.{Memory}
use interpol.Files.{WriteFaults}
use interpol.Json.{SerdeJson}
use interpol.Serialize.{serialize}
use interpol.Machine.{M, ◌>>=◌, ◌>>◌, with_guard}
use interpol.Register.{◌▸◌, built, append}

module _ (db : DeriveBuilder) where
  unfoldable pub register_init : Memory → MpiRank → Tsc → Usecs → M (Unit {0})
  register_init memory current_rank tsc time = do
    init_event ← built db (
        db.default MpiCallType.init
        ▸ db.set (Setting.current_rank current_rank)
        ▸ db.set (Setting.tsc tsc)
        ▸ db.set (Setting.time time))
    with_guard "failed to take the lock on vector for `MpiInit` event"
        (append memory (box MpiCallType.init init_event))

  unfoldable pub register_init_thread : Memory → MpiRank → I32 → I32 → Tsc → Usecs → M (Unit {0})
  register_init_thread memory current_rank required_thread_lvl provided_thread_lvl tsc time = do
    init_thread_event ← built db (
        db.default MpiCallType.initthread
        ▸ db.set (Setting.current_rank current_rank)
        ▸ db.set (Setting.required_thread_lvl required_thread_lvl)
        ▸ db.set (Setting.provided_thread_lvl provided_thread_lvl)
        ▸ db.set (Setting.tsc tsc)
        ▸ db.set (Setting.time time))
    with_guard "failed to take the lock on vector for `MpiInitThread` event"
        (append memory (box MpiCallType.initthread init_thread_event))

  unfoldable pub register_finalize :
      SerdeJson → Memory → WriteFaults → MpiRank → Tsc → Usecs → M (Unit {0})
  register_finalize json memory faults current_rank tsc time = do
    finalize_event ← built db (
        db.default MpiCallType.finalize
        ▸ db.set (Setting.current_rank current_rank)
        ▸ db.set (Setting.tsc tsc)
        ▸ db.set (Setting.time time))
    with_guard "failed to take the lock on vector for `MpiFinalize` event" (
        append memory (box MpiCallType.finalize finalize_event)
        >> serialize json faults current_rank)
