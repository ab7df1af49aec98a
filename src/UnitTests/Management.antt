-- ===== src/UnitTests/Management.antt =====
-- The unit tests of interpol-rs/src/mpi_events/management/*.rs.
use interpol.Base.{List, [], ◌∷◌, codes, ◌++◌}
use interpol.Base.Int.{pos}
use interpol.Types.{I32, MpiCallType}
use interpol.MpiEvents.Management.{new_mpi_init, new_mpi_init_thread, new_mpi_finalize}
use interpol.Builder.{Setting, DeriveBuilder}
use interpol.Register.{◌▸◌}
use interpol.Json.Structs.{StructJson, tenth}
use interpol.UnitTests.{Test, ◌>>=◌, expect, expect_some, assert_eq, assert_text_eq}
use interpol.UnitTests.Equality.{struct_eq}

abbrev mpi_thread_funneled : I32
mpi_thread_funneled = pos 1

abbrev mpi_thread_multiple : I32
mpi_thread_multiple = pos 3

abbrev mpi_thread_serialized : I32
mpi_thread_serialized = pos 2

abbrev mpi_thread_single : I32
mpi_thread_single = pos 0

module _ (db : DeriveBuilder) (json : StructJson) where
  -- `MpiInit`, test `builds`.
  unfoldable pub mpi_init_builds : Test
  unfolding new_mpi_init struct_eq
  mpi_init_builds = do
    let init_new = new_mpi_init (pos 0) 1024 tenth
    init_builder ← expect (codes "failed to build `MpiInit`") (
        db.build (
          db.default MpiCallType.init
          ▸ db.set (Setting.current_rank (pos 0))
          ▸ db.set (Setting.tsc 1024)
          ▸ db.set (Setting.time tenth)))
    assert_eq (struct_eq MpiCallType.init init_new init_builder)

  -- `MpiInit`, test `serializes`.
  unfoldable pub mpi_init_serializes : Test
  unfolding new_mpi_init
  mpi_init_serializes = do
    let init = new_mpi_init (pos 0) 1024 tenth
    let json_text = codes "{\"current_rank\":0,\"tsc\":1024,\"time\":0.1}"
    serialized ←
        expect_some (codes "failed to serialize `MpiInit`") (json.to_string MpiCallType.init init)
    assert_text_eq json_text serialized

  -- `MpiInit`, test `deserializes`.
  unfoldable pub mpi_init_deserializes : Test
  unfolding struct_eq
  mpi_init_deserializes = do
    init ← expect (codes "failed to build `MpiInit`") (
        db.build (
          db.default MpiCallType.init
          ▸ db.set (Setting.current_rank (pos 0))
          ▸ db.set (Setting.tsc 1024)
          ▸ db.set (Setting.time tenth)))
    serialized ←
        expect_some (codes "failed to serialize `MpiInit`")
          (json.to_string_pretty MpiCallType.init init)
    deserialized ←
        expect_some (codes "failed to deserialize `MpiInit`")
          (json.from_str MpiCallType.init serialized)
    assert_eq (struct_eq MpiCallType.init init deserialized)

  abbrev pub mpi_init_tests : List Test
  mpi_init_tests = mpi_init_builds ∷ mpi_init_serializes ∷ mpi_init_deserializes ∷ []

  -- `MpiInitThread`, test `builds`.
  unfoldable pub mpi_init_thread_builds : Test
  unfolding new_mpi_init_thread struct_eq
  mpi_init_thread_builds = do
    let init_thread_new =
        new_mpi_init_thread (pos 0) mpi_thread_funneled mpi_thread_single 1024 tenth
    init_thread_builder ← expect (codes "failed to build `MpiInitThread`") (
        db.build (
          db.default MpiCallType.initthread
          ▸ db.set (Setting.current_rank (pos 0))
          ▸ db.set (Setting.required_thread_lvl mpi_thread_funneled)
          ▸ db.set (Setting.provided_thread_lvl mpi_thread_single)
          ▸ db.set (Setting.tsc 1024)
          ▸ db.set (Setting.time tenth)))
    assert_eq (struct_eq MpiCallType.initthread init_thread_new init_thread_builder)

  -- `MpiInitThread`, test `serializes`.
  unfoldable pub mpi_init_thread_serializes : Test
  unfolding new_mpi_init_thread
  mpi_init_thread_serializes = do
    let init_thread =
        new_mpi_init_thread (pos 0) mpi_thread_serialized mpi_thread_serialized 1024 tenth
    let json_text =
        codes "{\"current_rank\":0,\"required_thread_lvl\":2,\"provided_thread_lvl\":2,"
        ++ codes "\"tsc\":1024,\"time\":0.1}"
    serialized ←
        expect_some (codes "failed to serialize `MpiInitThread`")
          (json.to_string MpiCallType.initthread init_thread)
    assert_text_eq json_text serialized

  -- `MpiInitThread`, test `deserializes`.
  unfoldable pub mpi_init_thread_deserializes : Test
  unfolding struct_eq
  mpi_init_thread_deserializes = do
    init_thread ← expect (codes "failed to build `MpiInitThread`") (
        db.build (
          db.default MpiCallType.initthread
          ▸ db.set (Setting.current_rank (pos 0))
          ▸ db.set (Setting.required_thread_lvl mpi_thread_multiple)
          ▸ db.set (Setting.provided_thread_lvl mpi_thread_multiple)
          ▸ db.set (Setting.tsc 1024)
          ▸ db.set (Setting.time tenth)))
    serialized ←
        expect_some (codes "failed to serialize `MpiInitThread`")
          (json.to_string_pretty MpiCallType.initthread init_thread)
    deserialized ←
        expect_some (codes "failed to deserialize `MpiInitThread`")
          (json.from_str MpiCallType.initthread serialized)
    assert_eq (struct_eq MpiCallType.initthread init_thread deserialized)

  abbrev pub mpi_init_thread_tests : List Test
  mpi_init_thread_tests =
      mpi_init_thread_builds ∷ mpi_init_thread_serializes ∷ mpi_init_thread_deserializes ∷ []

  -- `MpiFinalize`, test `builds`.
  unfoldable pub mpi_finalize_builds : Test
  unfolding new_mpi_finalize struct_eq
  mpi_finalize_builds = do
    let finalize_new = new_mpi_finalize (pos 0) 1024 tenth
    finalize_builder ← expect (codes "failed to build `MpiFinalize`") (
        db.build (
          db.default MpiCallType.finalize
          ▸ db.set (Setting.current_rank (pos 0))
          ▸ db.set (Setting.tsc 1024)
          ▸ db.set (Setting.time tenth)))
    assert_eq (struct_eq MpiCallType.finalize finalize_new finalize_builder)

  -- `MpiFinalize`, test `serializes`.
  unfoldable pub mpi_finalize_serializes : Test
  unfolding new_mpi_finalize
  mpi_finalize_serializes = do
    let finalize = new_mpi_finalize (pos 0) 1024 tenth
    let json_text = codes "{\"current_rank\":0,\"tsc\":1024,\"time\":0.1}"
    serialized ←
        expect_some (codes "failed to serialize `MpiFinalize`")
          (json.to_string MpiCallType.finalize finalize)
    assert_text_eq json_text serialized

  -- `MpiFinalize`, test `deserializes`.
  unfoldable pub mpi_finalize_deserializes : Test
  unfolding struct_eq
  mpi_finalize_deserializes = do
    finalize ← expect (codes "failed to build `MpiFinalize`") (
        db.build (
          db.default MpiCallType.finalize
          ▸ db.set (Setting.current_rank (pos 0))
          ▸ db.set (Setting.tsc 1024)
          ▸ db.set (Setting.time tenth)))
    serialized ←
        expect_some (codes "failed to serialize `MpiFinalize`")
          (json.to_string_pretty MpiCallType.finalize finalize)
    deserialized ←
        expect_some (codes "failed to deserialize `MpiFinalize`")
          (json.from_str MpiCallType.finalize serialized)
    assert_eq (struct_eq MpiCallType.finalize finalize deserialized)

  abbrev pub mpi_finalize_tests : List Test
  mpi_finalize_tests =
      mpi_finalize_builds ∷ mpi_finalize_serializes ∷ mpi_finalize_deserializes ∷ []
