-- ===== src/Register/PointToPoint.antt =====
-- `register_send`, `register_recv`, `register_isend` and `register_irecv` of
-- interpol-rs/src/interpol.rs.
use interpol.Types.{MpiCallType, MpiComm, MpiRank, MpiReq, MpiTag, Tsc, U32}
use interpol.Event.{box}
use interpol.Builder.{Setting, DeriveBuilder}
use interpol.Vector.{Memory}
use interpol.Machine.{M, ◌>>=◌, with_guard}
use interpol.Register.{◌▸◌, built, append}

module _ (db : DeriveBuilder) where
  unfoldable pub register_send :
      Memory → MpiRank → MpiRank → U32 → MpiComm → MpiTag → Tsc → Tsc → M (Unit {0})
  register_send memory current_rank partner_rank nb_bytes comm tag tsc duration = do
    send_event ← built db (
        db.default MpiCallType.send
        ▸ db.set (Setting.current_rank current_rank)
        ▸ db.set (Setting.partner_rank partner_rank)
        ▸ db.set (Setting.nb_bytes nb_bytes)
        ▸ db.set (Setting.comm comm)
        ▸ db.set (Setting.tag tag)
        ▸ db.set (Setting.tsc tsc)
        ▸ db.set (Setting.duration duration))
    with_guard "failed to take the lock on vector for `MpiSend` event"
        (append memory (box MpiCallType.send send_event))

  unfoldable pub register_recv :
      Memory → MpiRank → MpiRank → U32 → MpiComm → MpiTag → Tsc → Tsc → M (Unit {0})
  register_recv memory current_rank partner_rank nb_bytes comm tag tsc duration = do
    recv_event ← built db (
        db.default MpiCallType.recv
        ▸ db.set (Setting.current_rank current_rank)
        ▸ db.set (Setting.partner_rank partner_rank)
        ▸ db.set (Setting.nb_bytes nb_bytes)
        ▸ db.set (Setting.comm comm)
        ▸ db.set (Setting.tag tag)
        ▸ db.set (Setting.tsc tsc)
        ▸ db.set (Setting.duration duration))
    with_guard "failed to take the lock on vector for `MpiRecv` event"
        (append memory (box MpiCallType.recv recv_event))

  unfoldable pub register_isend :
      Memory → MpiRank → MpiRank → U32 → MpiComm → MpiReq → MpiTag → Tsc → Tsc → M (Unit {0})
  register_isend memory current_rank partner_rank nb_bytes comm req tag tsc duration = do
    isend_event ← built db (
        db.default MpiCallType.isend
        ▸ db.set (Setting.current_rank current_rank)
        ▸ db.set (Setting.partner_rank partner_rank)
        ▸ db.set (Setting.nb_bytes nb_bytes)
        ▸ db.set (Setting.comm comm)
        ▸ db.set (Setting.req req)
        ▸ db.set (Setting.tag tag)
        ▸ db.set (Setting.tsc tsc)
        ▸ db.set (Setting.duration duration))
    with_guard "failed to take the lock on vector for `MpiIsend` event"
        (append memory (box MpiCallType.isend isend_event))

  unfoldable pub register_irecv :
      Memory → MpiRank → MpiRank → U32 → MpiComm → MpiReq → MpiTag → Tsc → Tsc → M (Unit {0})
  register_irecv memory current_rank partner_rank nb_bytes comm req tag tsc duration = do
    irecv_event ← built db (
        db.default MpiCallType.irecv
        ▸ db.set (Setting.current_rank current_rank)
        ▸ db.set (Setting.partner_rank partner_rank)
        ▸ db.set (Setting.nb_bytes nb_bytes)
        ▸ db.set (Setting.comm comm)
        ▸ db.set (Setting.req req)
        ▸ db.set (Setting.tag tag)
        ▸ db.set (Setting.tsc tsc)
        ▸ db.set (Setting.duration duration))
    with_guard "failed to take the lock on vector for `MpiIrecv` event"
        (append memory (box MpiCallType.irecv irecv_event))
