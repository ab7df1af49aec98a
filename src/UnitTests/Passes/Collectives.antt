-- ===== src/UnitTests/Passes/Collectives.antt =====
-- The unit tests of interpol-rs/src/mpi_events/collectives pass.
use interpol.Base.{refl}
use interpol.Base.Int.{pos, show_int}
use interpol.Types.{MpiOp, MpiCallType}
use interpol.Event.{box}
use interpol.Builder.{DeriveBuilder, IsBuilder, settings}
use interpol.Json.{restore}
use interpol.Json.Format.{struct_text}
use interpol.Json.Structs.{StructJson, IsStructJson}
use interpol.MpiEvents.Collectives.{
  new_mpi_ibcast, new_mpi_igather, new_mpi_ireduce, new_mpi_iscatter,
}
use interpol.UnitTests.{AllPass}
use interpol.UnitTests.Steps.{builds_ok, serializes_ok, deserializes_ok}
use interpol.UnitTests.Collectives.{
  mpi_ibcast_builds, mpi_ibcast_serializes, mpi_ibcast_deserializes, mpi_ibcast_tests,
  mpi_igather_builds, mpi_igather_serializes, mpi_igather_deserializes, mpi_igather_tests,
  mpi_ireduce_builds, mpi_ireduce_serializes, mpi_ireduce_deserializes, mpi_ireduce_tests,
  mpi_iscatter_builds, mpi_iscatter_serializes, mpi_iscatter_deserializes, mpi_iscatter_tests,
}

module _ (db : DeriveBuilder) (law : IsBuilder db) (json : StructJson)
    (json_law : IsStructJson json) where
  pub mpi_ibcast_tests-AllPass : AllPass (mpi_ibcast_tests db json)
  unfolding box settings restore struct_text show_int new_mpi_ibcast mpi_ibcast_builds
      mpi_ibcast_serializes mpi_ibcast_deserializes
  mpi_ibcast_tests-AllPass = (
    builds_ok db law json json_law MpiCallType.ibcast
        (new_mpi_ibcast (pos 0) (pos 1) 8 (pos 0) (pos 7) 1024 2048) _ tt,
    (
      serializes_ok db law json json_law MpiCallType.ibcast
          (new_mpi_ibcast (pos 0) (pos 0) 8 (pos 0) (pos 7) 1024 2048) _ _ tt (refl),
      (
        deserializes_ok db law json json_law MpiCallType.ibcast
            (new_mpi_ibcast (pos 1) (pos 0) 8 (pos 0) (pos 7) 1024 2048) _ _ _ tt (refl),
        tt,
      ),
    ),
  )

  pub mpi_igather_tests-AllPass : AllPass (mpi_igather_tests db json)
  unfolding box settings restore struct_text show_int new_mpi_igather mpi_igather_builds
      mpi_igather_serializes mpi_igather_deserializes
  mpi_igather_tests-AllPass = (
    builds_ok db law json json_law MpiCallType.igather
        (new_mpi_igather (pos 0) (pos 1) 8 0 (pos 0) (pos 7) 1024 2048) _ tt,
    (
      serializes_ok db law json json_law MpiCallType.igather
          (new_mpi_igather (pos 0) (pos 0) 8 64 (pos 0) (pos 7) 1024 2048) _ _ tt (refl),
      (
        deserializes_ok db law json json_law MpiCallType.igather
            (new_mpi_igather (pos 1) (pos 0) 64 0 (pos 0) (pos 7) 1024 2048) _ _ _ tt (refl),
        tt,
      ),
    ),
  )

  pub mpi_ireduce_tests-AllPass : AllPass (mpi_ireduce_tests db json)
  unfolding box settings restore struct_text show_int new_mpi_ireduce mpi_ireduce_builds
      mpi_ireduce_serializes mpi_ireduce_deserializes
  mpi_ireduce_tests-AllPass = (
    builds_ok db law json json_law MpiCallType.ireduce
        (new_mpi_ireduce (pos 0) (pos 1) 8 MpiOp.sum (pos 0) (pos 7) 1024 2048) _ tt,
    (
      serializes_ok db law json json_law MpiCallType.ireduce
          (new_mpi_ireduce (pos 0) (pos 0) 8 MpiOp.prod (pos 0) (pos 7) 1024 2048) _ _ tt (refl),
      (
        deserializes_ok db law json json_law MpiCallType.ireduce
            (new_mpi_ireduce (pos 1) (pos 0) 8 MpiOp.max (pos 0) (pos 7) 1024 2048) _ _ _ tt (refl),
        tt,
      ),
    ),
  )

  pub mpi_iscatter_tests-AllPass : AllPass (mpi_iscatter_tests db json)
  unfolding box settings restore struct_text show_int new_mpi_iscatter mpi_iscatter_builds
      mpi_iscatter_serializes mpi_iscatter_deserializes
  mpi_iscatter_tests-AllPass = (
    builds_ok db law json json_law MpiCallType.iscatter
        (new_mpi_iscatter (pos 0) (pos 1) 8 0 (pos 0) (pos 7) 1024 2048) _ tt,
    (
      serializes_ok db law json json_law MpiCallType.iscatter
          (new_mpi_iscatter (pos 0) (pos 0) 8 64 (pos 0) (pos 7) 1024 2048) _ _ tt (refl),
      (
        deserializes_ok db law json json_law MpiCallType.iscatter
            (new_mpi_iscatter (pos 1) (pos 0) 64 0 (pos 0) (pos 7) 1024 2048) _ _ _ tt (refl),
        tt,
      ),
    ),
  )
