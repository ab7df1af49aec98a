-- ===== src/UnitTests/Passes/Management.antt =====
-- The unit tests of interpol-rs/src/mpi_events/management pass.
use interpol.Base.{codes, refl}
use interpol.Base.Int.{pos, show_int}
use interpol.Types.{MpiCallType, is_finite}
use interpol.Event.{box}
use interpol.Builder.{DeriveBuilder, IsBuilder, settings}
use interpol.Json.{restore}
use interpol.Json.Format.{struct_text}
use interpol.Json.Structs.{StructJson, IsStructJson, tenth}
use interpol.MpiEvents.Management.{new_mpi_init, new_mpi_init_thread, new_mpi_finalize}
use interpol.UnitTests.{AllPass}
use interpol.UnitTests.Steps.{builds_ok, serializes_ok, deserializes_ok}
use interpol.UnitTests.Management.{
  mpi_init_builds, mpi_init_serializes, mpi_init_deserializes, mpi_init_tests,
  mpi_init_thread_builds, mpi_init_thread_serializes, mpi_init_thread_deserializes,
  mpi_init_thread_tests, mpi_finalize_builds, mpi_finalize_serializes, mpi_finalize_deserializes,
  mpi_finalize_tests,
}

module _ (db : DeriveBuilder) (law : IsBuilder db) (json : StructJson)
    (json_law : IsStructJson json) where
  pub mpi_init_tests-AllPass : AllPass (mpi_init_tests db json)
  unfolding box settings restore struct_text show_int is_finite new_mpi_init mpi_init_builds
      mpi_init_serializes mpi_init_deserializes
  mpi_init_tests-AllPass = (
    builds_ok db law json json_law MpiCallType.init (new_mpi_init (pos 0) 1024 tenth) _ refl,
    (
      serializes_ok db law json json_law MpiCallType.init (new_mpi_init (pos 0) 1024 tenth) _
          (struct_text (λ _. codes "0.1") (box MpiCallType.init (new_mpi_init (pos 0) 1024 tenth)))
          refl (rw json_law.show_f64_tenth refl),
      (
        deserializes_ok db law json json_law MpiCallType.init (new_mpi_init (pos 0) 1024 tenth) _ _
            _ refl (rw json_law.reparse_tenth refl),
        tt,
      ),
    ),
  )

  pub mpi_init_thread_tests-AllPass : AllPass (mpi_init_thread_tests db json)
  unfolding box settings restore struct_text show_int is_finite new_mpi_init_thread
      mpi_init_thread_builds mpi_init_thread_serializes mpi_init_thread_deserializes
  mpi_init_thread_tests-AllPass = (
    builds_ok db law json json_law MpiCallType.initthread
        (new_mpi_init_thread (pos 0) (pos 1) (pos 0) 1024 tenth) _ refl,
    (
      serializes_ok db law json json_law MpiCallType.initthread
          (new_mpi_init_thread (pos 0) (pos 2) (pos 2) 1024 tenth) _
          (struct_text (λ _. codes "0.1")
            (box MpiCallType.initthread (new_mpi_init_thread (pos 0) (pos 2) (pos 2) 1024 tenth)))
          refl (rw json_law.show_f64_tenth refl),
      (
        deserializes_ok db law json json_law MpiCallType.initthread
            (new_mpi_init_thread (pos 0) (pos 3) (pos 3) 1024 tenth) _ _ _ refl
            (rw json_law.reparse_tenth refl),
        tt,
      ),
    ),
  )

  pub mpi_finalize_tests-AllPass : AllPass (mpi_finalize_tests db json)
  unfolding box settings restore struct_text show_int is_finite new_mpi_finalize mpi_finalize_builds
      mpi_finalize_serializes mpi_finalize_deserializes
  mpi_finalize_tests-AllPass = (
    builds_ok db law json json_law MpiCallType.finalize (new_mpi_finalize (pos 0) 1024 tenth) _
        refl,
    (
      serializes_ok db law json json_law MpiCallType.finalize (new_mpi_finalize (pos 0) 1024 tenth)
          _
          (struct_text (λ _. codes "0.1")
            (box MpiCallType.finalize (new_mpi_finalize (pos 0) 1024 tenth)))
          refl (rw json_law.show_f64_tenth refl),
      (
        deserializes_ok db law json json_law MpiCallType.finalize
            (new_mpi_finalize (pos 0) 1024 tenth) _ _ _ refl (rw json_law.reparse_tenth refl),
        tt,
      ),
    ),
  )
