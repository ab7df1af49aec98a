-- ===== src/UnitTests/Synchronization.antt =====
-- The unit tests of interpol-rs/src/mpi_events/synchronization/*.rs.
use interpol.Base.{List, [], ◌∷◌, true, false, codes, ◌++◌}
use interpol.Base.Int.{pos}
use interpol.Types.{MpiCallType}
use interpol.MpiEvents.Synchronization.{
  new_mpi_test, new_mpi_wait, new_mpi_barrier, new_mpi_ibarrier,
}
use interpol.Builder.{Setting, DeriveBuilder}
use interpol.Register.{◌▸◌}
use interpol.Json.Structs.{StructJson}
use interpol.UnitTests.{Test, ◌>>=◌, expect, expect_some, assert_eq, assert_text_eq}
use interpol.UnitTests.Equality.{struct_eq}

module _ (db : DeriveBuilder) (json : StructJson) where
  -- `MpiTest`, test `builds`.
  unfoldable pub mpi_test_builds : Test
  unfolding new_mpi_test struct_eq
  mpi_test_builds = do
    let test_new = new_mpi_test (pos 0) (pos 0) false 1024 2048
    test_builder ← expect (codes "failed to build `MpiTest`") (
        db.build (
          db.default MpiCallType.test
          ▸ db.set (Setting.current_rank (pos 0))
          ▸ db.set (Setting.req (pos 0))
          ▸ db.set (Setting.finished false)
          ▸ db.set (Setting.tsc 1024)
          ▸ db.set (Setting.duration 2048)))
    assert_eq (struct_eq MpiCallType.test test_new test_builder)

  -- `MpiTest`, test `serializes`.
  unfoldable pub mpi_test_serializes : Test
  unfolding new_mpi_test
  mpi_test_serializes = do
    let test = new_mpi_test (pos 0) (pos 0) true 1024 2048
    let json_text =
        codes "{\"current_rank\":0,\"req\":0,\"finished\":true,\"tsc\":1024,"
        ++ codes "\"duration\":2048}"
    serialized ←
        expect_some (codes "failed to serialize `MpiTest`") (json.to_string MpiCallType.test test)
    assert_text_eq json_text serialized

  -- `MpiTest`, test `deserializes`.
  unfoldable pub mpi_test_deserializes : Test
  unfolding struct_eq
  mpi_test_deserializes = do
    test ← expect (codes "failed to build `MpiTest`") (
        db.build (
          db.default MpiCallType.test
          ▸ db.set (Setting.current_rank (pos 0))
          ▸ db.set (Setting.req (pos 0))
          ▸ db.set (Setting.finished true)
          ▸ db.set (Setting.tsc 1024)
          ▸ db.set (Setting.duration 2048)))
    serialized ←
        expect_some (codes "failed to serialize `MpiTest`")
          (json.to_string_pretty MpiCallType.test test)
    deserialized ←
        expect_some (codes "failed to deserialize `MpiTest`")
          (json.from_str MpiCallType.test serialized)
    assert_eq (struct_eq MpiCallType.test test deserialized)

  abbrev pub mpi_test_tests : List Test
  mpi_test_tests = mpi_test_builds ∷ mpi_test_serializes ∷ mpi_test_deserializes ∷ []

  -- `MpiWait`, test `builds`.
  unfoldable pub mpi_wait_builds : Test
  unfolding new_mpi_wait struct_eq
  mpi_wait_builds = do
    let wait_new = new_mpi_wait (pos 0) (pos 0) 1024 2048
    wait_builder ← expect (codes "failed to build `MpiWait`") (
        db.build (
          db.default MpiCallType.wait
          ▸ db.set (Setting.current_rank (pos 0))
          ▸ db.set (Setting.req (pos 0))
          ▸ db.set (Setting.tsc 1024)
          ▸ db.set (Setting.duration 2048)))
    assert_eq (struct_eq MpiCallType.wait wait_new wait_builder)

  -- `MpiWait`, test `serializes`.
  unfoldable pub mpi_wait_serializes : Test
  unfolding new_mpi_wait
  mpi_wait_serializes = do
    let wait = new_mpi_wait (pos 0) (pos 0) 1024 2048
    let json_text = codes "{\"current_rank\":0,\"req\":0,\"tsc\":1024,\"duration\":2048}"
    serialized ←
        expect_some (codes "failed to serialize `MpiWait`") (json.to_string MpiCallType.wait wait)
    assert_text_eq json_text serialized

  -- `MpiWait`, test `deserializes`.
  unfoldable pub mpi_wait_deserializes : Test
  unfolding struct_eq
  mpi_wait_deserializes = do
    wait ← expect (codes "failed to build `MpiWait`") (
        db.build (
          db.default MpiCallType.wait
          ▸ db.set (Setting.current_rank (pos 0))
          ▸ db.set (Setting.req (pos 0))
          ▸ db.set (Setting.tsc 1024)
          ▸ db.set (Setting.duration 2048)))
    serialized ←
        expect_some (codes "failed to serialize `MpiWait`")
          (json.to_string_pretty MpiCallType.wait wait)
    deserialized ←
        expect_some (codes "failed to deserialize `MpiWait`")
          (json.from_str MpiCallType.wait serialized)
    assert_eq (struct_eq MpiCallType.wait wait deserialized)

  abbrev pub mpi_wait_tests : List Test
  mpi_wait_tests = mpi_wait_builds ∷ mpi_wait_serializes ∷ mpi_wait_deserializes ∷ []

  -- `MpiBarrier`, test `builds`.
  unfoldable pub mpi_barrier_builds : Test
  unfolding new_mpi_barrier struct_eq
  mpi_barrier_builds = do
    let barrier_new = new_mpi_barrier (pos 0) (pos 0) 1024 2048
    barrier_builder ← expect (codes "failed to build `MpiBarrier`") (
        db.build (
          db.default MpiCallType.barrier
          ▸ db.set (Setting.current_rank (pos 0))
          ▸ db.set (Setting.comm (pos 0))
          ▸ db.set (Setting.tsc 1024)
          ▸ db.set (Setting.duration 2048)))
    assert_eq (struct_eq MpiCallType.barrier barrier_new barrier_builder)

  -- `MpiBarrier`, test `serializes`.
  unfoldable pub mpi_barrier_serializes : Test
  unfolding new_mpi_barrier
  mpi_barrier_serializes = do
    let barrier = new_mpi_barrier (pos 0) (pos 0) 1024 2048
    let json_text = codes "{\"current_rank\":0,\"comm\":0,\"tsc\":1024,\"duration\":2048}"
    serialized ←
        expect_some (codes "failed to serialize `MpiBarrier`")
          (json.to_string MpiCallType.barrier barrier)
    assert_text_eq json_text serialized

  -- `MpiBarrier`, test `deserializes`.
  unfoldable pub mpi_barrier_deserializes : Test
  unfolding struct_eq
  mpi_barrier_deserializes = do
    barrier ← expect (codes "failed to build `MpiBarrier`") (
        db.build (
          db.default MpiCallType.barrier
          ▸ db.set (Setting.current_rank (pos 0))
          ▸ db.set (Setting.comm (pos 0))
          ▸ db.set (Setting.tsc 1024)
          ▸ db.set (Setting.duration 2048)))
    serialized ←
        expect_some (codes "failed to serialize `MpiBarrier`")
          (json.to_string_pretty MpiCallType.barrier barrier)
    deserialized ←
        expect_some (codes "failed to deserialize `MpiBarrier`")
          (json.from_str MpiCallType.barrier serialized)
    assert_eq (struct_eq MpiCallType.barrier barrier deserialized)

  abbrev pub mpi_barrier_tests : List Test
  mpi_barrier_tests = mpi_barrier_builds ∷ mpi_barrier_serializes ∷ mpi_barrier_deserializes ∷ []

  -- `MpiIbarrier`, test `builds`.
  unfoldable pub mpi_ibarrier_builds : Test
  unfolding new_mpi_ibarrier struct_eq
  mpi_ibarrier_builds = do
    let ibarrier_new = new_mpi_ibarrier (pos 0) (pos 0) (pos 0) 1024 2048
    ibarrier_builder ← expect (codes "failed to build `MpiIbarrier`") (
        db.build (
          db.default MpiCallType.ibarrier
          ▸ db.set (Setting.current_rank (pos 0))
          ▸ db.set (Setting.comm (pos 0))
          ▸ db.set (Setting.req (pos 0))
          ▸ db.set (Setting.tsc 1024)
          ▸ db.set (Setting.duration 2048)))
    assert_eq (struct_eq MpiCallType.ibarrier ibarrier_new ibarrier_builder)

  -- `MpiIbarrier`, test `serializes`.
  unfoldable pub mpi_ibarrier_serializes : Test
  unfolding new_mpi_ibarrier
  mpi_ibarrier_serializes = do
    let ibarrier = new_mpi_ibarrier (pos 0) (pos 0) (pos 0) 1024 2048
    let json_text = codes "{\"current_rank\":0,\"comm\":0,\"req\":0,\"tsc\":1024,\"duration\":2048}"
    serialized ←
        expect_some (codes "failed to serialize `MpiIbarrier`")
          (json.to_string MpiCallType.ibarrier ibarrier)
    assert_text_eq json_text serialized

  -- `MpiIbarrier`, test `deserializes`.
  unfoldable pub mpi_ibarrier_deserializes : Test
  unfolding struct_eq
  mpi_ibarrier_deserializes = do
    ibarrier ← expect (codes "failed to build `MpiIbarrier`") (
        db.build (
          db.default MpiCallType.ibarrier
          ▸ db.set (Setting.current_rank (pos 0))
          ▸ db.set (Setting.comm (pos 0))
          ▸ db.set (Setting.req (pos 0))
          ▸ db.set (Setting.tsc 1024)
          ▸ db.set (Setting.duration 2048)))
    serialized ←
        expect_some (codes "failed to serialize `MpiIbarrier`")
          (json.to_string_pretty MpiCallType.ibarrier ibarrier)
    deserialized ←
        expect_some (codes "failed to deserialize `MpiIbarrier`")
          (json.from_str MpiCallType.ibarrier serialized)
    assert_eq (struct_eq MpiCallType.ibarrier ibarrier deserialized)

  abbrev pub mpi_ibarrier_tests : List Test
  mpi_ibarrier_tests =
      mpi_ibarrier_builds ∷ mpi_ibarrier_serializes ∷ mpi_ibarrier_deserializes ∷ []
