-- ===== src/Register/Collectives.antt =====
-- `register_ibcast`, `register_igather`, `register_ireduce` and `register_iscatter` of
-- interpol-rs/src/interpol.rs.
use interpol.Types.{MpiCallType, MpiComm, MpiOp, MpiRank, MpiReq, Tsc, U32}
use interpol.Event.{box}
use interpol.Builder.{Setting, DeriveBuilder}
use interpol.Vector.{Memory}
use interpol.Machine.{M, ◌>>=◌, with_guard}
use interpol.Register.{◌▸◌, built, append}

module _ (db : DeriveBuilder) where
  unfoldable pub register_ibcast :
      Memory → MpiRank → MpiRank → U32 → MpiComm → MpiReq → Tsc → Tsc → M (Unit {0})
  register_ibcast memory current_rank partner_rank nb_bytes comm req tsc duration = do
    ibcast_event ← built db (
        db.default MpiCallType.ibcast
        ▸ db.set (Setting.current_rank current_rank)
        ▸ db.set (Setting.partner_rank partner_rank)
        ▸ db.set (Setting.nb_bytes nb_bytes)
        ▸ db.set (Setting.comm comm)
        ▸ db.set (Setting.req req)
        ▸ db.set (Setting.tsc tsc)
        ▸ db.set (Setting.duration duration))
    with_guard "failed to take the lock on vector for `MpiIbcast` event"
        (append memory (box MpiCallType.ibcast ibcast_event))

  unfoldable pub register_igather :
      Memory → MpiRank → MpiRank → U32 → U32 → MpiComm → MpiReq → Tsc → Tsc → M (Unit {0})
  register_igather memory current_rank partner_rank nb_bytes_send nb_bytes_recv comm req tsc
        duration =
      do
        igather_event ← built db (
            db.default MpiCallType.igather
            ▸ db.set (Setting.current_rank current_rank)
            ▸ db.set (Setting.partner_rank partner_rank)
            ▸ db.set (Setting.nb_bytes_send nb_bytes_send)
            ▸ db.set (Setting.nb_bytes_recv nb_bytes_recv)
            ▸ db.set (Setting.comm comm)
            ▸ db.set (Setting.req req)
            ▸ db.set (Setting.tsc tsc)
            ▸ db.set (Setting.duration duration))
        with_guard "failed to take the lock on vector for `MpiIbcast` event"
            (append memory (box MpiCallType.igather igather_event))

  unfoldable pub register_ireduce :
      Memory → MpiRank → MpiRank → U32 → MpiOp → MpiComm → MpiReq → Tsc → Tsc → M (Unit {0})
  register_ireduce memory current_rank partner_rank nb_bytes op_type comm req tsc duration = do
    ireduce_event ← built db (
        db.default MpiCallType.ireduce
        ▸ db.set (Setting.current_rank current_rank)
        ▸ db.set (Setting.partner_rank partner_rank)
        ▸ db.set (Setting.nb_bytes nb_bytes)
        ▸ db.set (Setting.op_type op_type)
        ▸ db.set (Setting.comm comm)
        ▸ db.set (Setting.req req)
        ▸ db.set (Setting.tsc tsc)
        ▸ db.set (Setting.duration duration))
    with_guard "failed to take the lock on vector for `MpiIbcast` event"
        (append memory (box MpiCallType.ireduce ireduce_event))

  unfoldable pub register_iscatter :
      Memory → MpiRank → MpiRank → U32 → U32 → MpiComm → MpiReq → Tsc → Tsc → M (Unit {0})
  register_iscatter memory current_rank partner_rank nb_bytes_send nb_bytes_recv comm req tsc
        duration =
      do
        iscatter_event ← built db (
            db.default MpiCallType.iscatter
            ▸ db.set (Setting.current_rank current_rank)
            ▸ db.set (Setting.partner_rank partner_rank)
            ▸ db.set (Setting.nb_bytes_send nb_bytes_send)
            ▸ db.set (Setting.nb_bytes_recv nb_bytes_recv)
            ▸ db.set (Setting.comm comm)
            ▸ db.set (Setting.req req)
            ▸ db.set (Setting.tsc tsc)
            ▸ db.set (Setting.duration duration))
        with_guard "failed to take the lock on vector for `MpiIbcast` event"
            (append memory (box MpiCallType.iscatter iscatter_event))
