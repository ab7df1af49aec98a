-- ===== src/UnitTests/Passes.antt =====
-- The unit tests of interpol-rs/src/mpi_events pass, whatever `derive_builder` and `serde_json` do
-- beyond their documented behaviour.
mod Management
mod PointToPoint
mod Synchronization
mod Collectives
use interpol.Base.{List}
use interpol.Types.{MpiCallType}
use interpol.Builder.{DeriveBuilder, IsBuilder}
use interpol.Json.Structs.{StructJson, IsStructJson}
use interpol.UnitTests.{Test, AllPass}
use interpol.UnitTests.Management.{mpi_init_tests, mpi_init_thread_tests, mpi_finalize_tests}
use interpol.UnitTests.Passes.Management.{
  mpi_init_tests-AllPass, mpi_init_thread_tests-AllPass, mpi_finalize_tests-AllPass,
}
use interpol.UnitTests.PointToPoint.{
  mpi_send_tests, mpi_recv_tests, mpi_isend_tests, mpi_irecv_tests,
}
use interpol.UnitTests.Passes.PointToPoint.{
  mpi_send_tests-AllPass, mpi_recv_tests-AllPass, mpi_isend_tests-AllPass, mpi_irecv_tests-AllPass,
}
use interpol.UnitTests.Synchronization.{
  mpi_test_tests, mpi_wait_tests, mpi_barrier_tests, mpi_ibarrier_tests,
}
use interpol.UnitTests.Passes.Synchronization.{
  mpi_test_tests-AllPass, mpi_wait_tests-AllPass, mpi_barrier_tests-AllPass,
  mpi_ibarrier_tests-AllPass,
}
use interpol.UnitTests.Collectives.{
  mpi_ibcast_tests, mpi_igather_tests, mpi_ireduce_tests, mpi_iscatter_tests,
}
use interpol.UnitTests.Passes.Collectives.{
  mpi_ibcast_tests-AllPass, mpi_igather_tests-AllPass, mpi_ireduce_tests-AllPass,
  mpi_iscatter_tests-AllPass,
}

-- The tests of the file of each struct.
unfoldable pub unit_tests : DeriveBuilder → StructJson → MpiCallType → List Test
unit_tests db json MpiCallType.init = mpi_init_tests db json
unit_tests db json MpiCallType.initthread = mpi_init_thread_tests db json
unit_tests db json MpiCallType.finalize = mpi_finalize_tests db json
unit_tests db json MpiCallType.send = mpi_send_tests db json
unit_tests db json MpiCallType.recv = mpi_recv_tests db json
unit_tests db json MpiCallType.isend = mpi_isend_tests db json
unit_tests db json MpiCallType.irecv = mpi_irecv_tests db json
unit_tests db json MpiCallType.test = mpi_test_tests db json
unit_tests db json MpiCallType.wait = mpi_wait_tests db json
unit_tests db json MpiCallType.barrier = mpi_barrier_tests db json
unit_tests db json MpiCallType.ibarrier = mpi_ibarrier_tests db json
unit_tests db json MpiCallType.ibcast = mpi_ibcast_tests db json
unit_tests db json MpiCallType.igather = mpi_igather_tests db json
unit_tests db json MpiCallType.ireduce = mpi_ireduce_tests db json
unit_tests db json MpiCallType.iscatter = mpi_iscatter_tests db json

-- For every derive_builder and every serde_json with their documented behaviour: the three unit
-- tests of each of the fifteen struct files pass.
pub unit_tests_pass :
    (db : DeriveBuilder) (law : IsBuilder db) (json : StructJson) (json_law : IsStructJson json)
    (kind : MpiCallType)
    → AllPass (unit_tests db json kind)
unfolding unit_tests
unit_tests_pass db law json json_law MpiCallType.init = mpi_init_tests-AllPass db law json json_law
unit_tests_pass db law json json_law MpiCallType.initthread =
    mpi_init_thread_tests-AllPass db law json json_law
unit_tests_pass db law json json_law MpiCallType.finalize =
    mpi_finalize_tests-AllPass db law json json_law
unit_tests_pass db law json json_law MpiCallType.send = mpi_send_tests-AllPass db law json json_law
unit_tests_pass db law json json_law MpiCallType.recv = mpi_recv_tests-AllPass db law json json_law
unit_tests_pass db law json json_law MpiCallType.isend =
    mpi_isend_tests-AllPass db law json json_law
unit_tests_pass db law json json_law MpiCallType.irecv =
    mpi_irecv_tests-AllPass db law json json_law
unit_tests_pass db law json json_law MpiCallType.test = mpi_test_tests-AllPass db law json json_law
unit_tests_pass db law json json_law MpiCallType.wait = mpi_wait_tests-AllPass db law json json_law
unit_tests_pass db law json json_law MpiCallType.barrier =
    mpi_barrier_tests-AllPass db law json json_law
unit_tests_pass db law json json_law MpiCallType.ibarrier =
    mpi_ibarrier_tests-AllPass db law json json_law
unit_tests_pass db law json json_law MpiCallType.ibcast =
    mpi_ibcast_tests-AllPass db law json json_law
unit_tests_pass db law json json_law MpiCallType.igather =
    mpi_igather_tests-AllPass db law json json_law
unit_tests_pass db law json json_law MpiCallType.ireduce =
    mpi_ireduce_tests-AllPass db law json json_law
unit_tests_pass db law json json_law MpiCallType.iscatter =
    mpi_iscatter_tests-AllPass db law json json_law
