-- ===== src/UnitTests/Passes/Synchronization.antt =====
-- The unit tests of interpol-rs/src/mpi_events/synchronization pass.
use interpol.Base.{true, false, refl}
use interpol.Base.Int.{pos, show_int}
use interpol.Types.{MpiCallType}
use interpol.Event.{box}
use interpol.Builder.{DeriveBuilder, IsBuilder, settings}
use interpol.Json.{restore}
use interpol.Json.Format.{struct_text}
use interpol.Json.Structs.{StructJson, IsStructJson}
use interpol.MpiEvents.Synchronization.{
  new_mpi_test, new_mpi_wait, new_mpi_barrier, new_mpi_ibarrier,
}
use interpol.UnitTests.{AllPass}
use interpol.UnitTests.Steps.{builds_ok, serializes_ok, deserializes_ok}
use interpol.UnitTests.Synchronization.{
  mpi_test_builds, mpi_test_serializes, mpi_test_deserializes, mpi_test_tests, mpi_wait_builds,
  mpi_wait_serializes, mpi_wait_deserializes, mpi_wait_tests, mpi_barrier_builds,
  mpi_barrier_serializes, mpi_barrier_deserializes, mpi_barrier_tests, mpi_ibarrier_builds,
  mpi_ibarrier_serializes, mpi_ibarrier_deserializes, mpi_ibarrier_tests,
}

module _ (db : DeriveBuilder) (law : IsBuilder db) (json : StructJson)
    (json_law : IsStructJson json) where
  pub mpi_test_tests-AllPass : AllPass (mpi_test_tests db json)
  unfolding box settings restore struct_text show_int new_mpi_test mpi_test_builds
      mpi_test_serializes mpi_test_deserializes
  mpi_test_tests-AllPass = (
    builds_ok db law json json_law MpiCallType.test (new_mpi_test (pos 0) (pos 0) false 1024 2048) _
        tt,
    (
      serializes_ok db law json json_law MpiCallType.test
          (new_mpi_test (pos 0) (pos 0) true 1024 2048) _ _ tt (refl),
      (
        deserializes_ok db law json json_law MpiCallType.test
            (new_mpi_test (pos 0) (pos 0) true 1024 2048) _ _ _ tt (refl),
        tt,
      ),
    ),
  )

  pub mpi_wait_tests-AllPass : AllPass (mpi_wait_tests db json)
  unfolding box settings restore struct_text show_int new_mpi_wait mpi_wait_builds
      mpi_wait_serializes mpi_wait_deserializes
  mpi_wait_tests-AllPass = (
    builds_ok db law json json_law MpiCallType.wait (new_mpi_wait (pos 0) (pos 0) 1024 2048) _ tt,
    (
      serializes_ok db law json json_law MpiCallType.wait (new_mpi_wait (pos 0) (pos 0) 1024 2048) _
          _ tt (refl),
      (
        deserializes_ok db law json json_law MpiCallType.wait
            (new_mpi_wait (pos 0) (pos 0) 1024 2048) _ _ _ tt (refl),
        tt,
      ),
    ),
  )

  pub mpi_barrier_tests-AllPass : AllPass (mpi_barrier_tests db json)
  unfolding box settings restore struct_text show_int new_mpi_barrier mpi_barrier_builds
      mpi_barrier_serializes mpi_barrier_deserializes
  mpi_barrier_tests-AllPass = (
    builds_ok db law json json_law MpiCallType.barrier (new_mpi_barrier (pos 0) (pos 0) 1024 2048) _
        tt,
    (
      serializes_ok db law json json_law MpiCallType.barrier
          (new_mpi_barrier (pos 0) (pos 0) 1024 2048) _ _ tt (refl),
      (
        deserializes_ok db law json json_law MpiCallType.barrier
            (new_mpi_barrier (pos 0) (pos 0) 1024 2048) _ _ _ tt (refl),
        tt,
      ),
    ),
  )

  pub mpi_ibarrier_tests-AllPass : AllPass (mpi_ibarrier_tests db json)
  unfolding box settings restore struct_text show_int new_mpi_ibarrier mpi_ibarrier_builds
      mpi_ibarrier_serializes mpi_ibarrier_deserializes
  mpi_ibarrier_tests-AllPass = (
    builds_ok db law json json_law MpiCallType.ibarrier
        (new_mpi_ibarrier (pos 0) (pos 0) (pos 0) 1024 2048) _ tt,
    (
      serializes_ok db law json json_law MpiCallType.ibarrier
          (new_mpi_ibarrier (pos 0) (pos 0) (pos 0) 1024 2048) _ _ tt (refl),
      (
        deserializes_ok db law json json_law MpiCallType.ibarrier
            (new_mpi_ibarrier (pos 0) (pos 0) (pos 0) 1024 2048) _ _ _ tt (refl),
        tt,
      ),
    ),
  )
