-- ===== src/UnitTests/Passes/PointToPoint.antt =====
-- The unit tests of interpol-rs/src/mpi_events/point_to_point pass.
use interpol.Base.{refl}
use interpol.Base.Int.{pos, show_int}
use interpol.Types.{MpiCallType}
use interpol.Event.{box}
use interpol.Builder.{DeriveBuilder, IsBuilder, settings}
use interpol.Json.{restore}
use interpol.Json.Format.{struct_text}
use interpol.Json.Structs.{StructJson, IsStructJson}
use interpol.MpiEvents.PointToPoint.{new_mpi_send, new_mpi_recv, new_mpi_isend, new_mpi_irecv}
use interpol.UnitTests.{AllPass}
use interpol.UnitTests.Steps.{builds_ok, serializes_ok, deserializes_ok}
use interpol.UnitTests.PointToPoint.{
  mpi_send_builds, mpi_send_serializes, mpi_send_deserializes, mpi_send_tests, mpi_recv_builds,
  mpi_recv_serializes, mpi_recv_deserializes, mpi_recv_tests, mpi_isend_builds,
  mpi_isend_serializes, mpi_isend_deserializes, mpi_isend_tests, mpi_irecv_builds,
  mpi_irecv_serializes, mpi_irecv_deserializes, mpi_irecv_tests,
}

module _ (db : DeriveBuilder) (law : IsBuilder db) (json : StructJson)
    (json_law : IsStructJson json) where
  pub mpi_send_tests-AllPass : AllPass (mpi_send_tests db json)
  unfolding box settings restore struct_text show_int new_mpi_send mpi_send_builds
      mpi_send_serializes mpi_send_deserializes
  mpi_send_tests-AllPass = (
    builds_ok db law json json_law MpiCallType.send
        (new_mpi_send (pos 0) (pos 1) 8 (pos 0) (pos 42) 1024 2048) _ tt,
    (
      serializes_ok db law json json_law MpiCallType.send
          (new_mpi_send (pos 0) (pos 1) 8 (pos 0) (pos 42) 1024 2048) _ _ tt (refl),
      (
        deserializes_ok db law json json_law MpiCallType.send
            (new_mpi_send (pos 0) (pos 1) 8 (pos 0) (pos 42) 1024 2048) _ _ _ tt (refl),
        tt,
      ),
    ),
  )

  pub mpi_recv_tests-AllPass : AllPass (mpi_recv_tests db json)
  unfolding box settings restore struct_text show_int new_mpi_recv mpi_recv_builds
      mpi_recv_serializes mpi_recv_deserializes
  mpi_recv_tests-AllPass = (
    builds_ok db law json json_law MpiCallType.recv
        (new_mpi_recv (pos 0) (pos 1) 8 (pos 0) (pos 42) 1024 2048) _ tt,
    (
      serializes_ok db law json json_law MpiCallType.recv
          (new_mpi_recv (pos 0) (pos 1) 8 (pos 0) (pos 42) 1024 2048) _ _ tt (refl),
      (
        deserializes_ok db law json json_law MpiCallType.recv
            (new_mpi_recv (pos 0) (pos 1) 8 (pos 0) (pos 42) 1024 2048) _ _ _ tt (refl),
        tt,
      ),
    ),
  )

  pub mpi_isend_tests-AllPass : AllPass (mpi_isend_tests db json)
  unfolding box settings restore struct_text show_int new_mpi_isend mpi_isend_builds
      mpi_isend_serializes mpi_isend_deserializes
  mpi_isend_tests-AllPass = (
    builds_ok db law json json_law MpiCallType.isend
        (new_mpi_isend (pos 0) (pos 1) 8 (pos 0) (pos 7) (pos 42) 1024 2048) _ tt,
    (
      serializes_ok db law json json_law MpiCallType.isend
          (new_mpi_isend (pos 0) (pos 1) 8 (pos 0) (pos 7) (pos 42) 1024 2048) _ _ tt (refl),
      (
        deserializes_ok db law json json_law MpiCallType.isend
            (new_mpi_isend (pos 0) (pos 1) 8 (pos 0) (pos 7) (pos 42) 1024 2048) _ _ _ tt (refl),
        tt,
      ),
    ),
  )

  pub mpi_irecv_tests-AllPass : AllPass (mpi_irecv_tests db json)
  unfolding box settings restore struct_text show_int new_mpi_irecv mpi_irecv_builds
      mpi_irecv_serializes mpi_irecv_deserializes
  mpi_irecv_tests-AllPass = (
    builds_ok db law json json_law MpiCallType.irecv
        (new_mpi_irecv (pos 0) (pos 1) 8 (pos 0) (pos 7) (pos 42) 1024 2048) _ tt,
    (
      serializes_ok db law json json_law MpiCallType.irecv
          (new_mpi_irecv (pos 0) (pos 1) 8 (pos 0) (pos 7) (pos 42) 1024 2048) _ _ tt (refl),
      (
        deserializes_ok db law json json_law MpiCallType.irecv
            (new_mpi_irecv (pos 0) (pos 1) 8 (pos 0) (pos 7) (pos 42) 1024 2048) _ _ _ tt (refl),
        tt,
      ),
    ),
  )
