-- ===== src/UnitTests/Collectives.antt =====
-- The unit tests of interpol-rs/src/mpi_events/collectives/*.rs.
use interpol.Base.{List, [], ◌∷◌, codes, ◌++◌}
use interpol.Base.Int.{pos}
use interpol.Types.{I32, MpiOp, MpiCallType}
use interpol.MpiEvents.Collectives.{
  new_mpi_ibcast, new_mpi_igather, new_mpi_ireduce, new_mpi_iscatter,
}
use interpol.Builder.{Setting, DeriveBuilder}
use interpol.Register.{◌▸◌}
use interpol.Json.Structs.{StructJson}
use interpol.UnitTests.{Test, ◌>>=◌, expect, expect_some, assert_eq, assert_text_eq}
use interpol.UnitTests.Equality.{struct_eq}

abbrev mpi_comm_world : I32
mpi_comm_world = pos 0

module _ (db : DeriveBuilder) (json : StructJson) where
  -- `MpiIbcast`, test `builds`.
  unfoldable pub mpi_ibcast_builds : Test
  unfolding new_mpi_ibcast struct_eq
  mpi_ibcast_builds = do
    let ibcast_new = new_mpi_ibcast (pos 0) (pos 1) 8 mpi_comm_world (pos 7) 1024 2048
    ibcast_builder ← expect (codes "failed to build `MpiIbcast`") (
        db.build (
          db.default MpiCallType.ibcast
          ▸ db.set (Setting.current_rank (pos 0))
          ▸ db.set (Setting.partner_rank (pos 1))
          ▸ db.set (Setting.nb_bytes 8)
          ▸ db.set (Setting.comm mpi_comm_world)
          ▸ db.set (Setting.req (pos 7))
          ▸ db.set (Setting.tsc 1024)
          ▸ db.set (Setting.duration 2048)))
    assert_eq (struct_eq MpiCallType.ibcast ibcast_new ibcast_builder)

  -- `MpiIbcast`, test `serializes`.
  unfoldable pub mpi_ibcast_serializes : Test
  unfolding new_mpi_ibcast
  mpi_ibcast_serializes = do
    let ibcast = new_mpi_ibcast (pos 0) (pos 0) 8 mpi_comm_world (pos 7) 1024 2048
    let json_text =
        codes "{\"current_rank\":0,\"partner_rank\":0,\"nb_bytes\":8,\"comm\":0,\"req\":7,"
        ++ codes "\"tsc\":1024,\"duration\":2048}"
    serialized ←
        expect_some (codes "failed to serialize `MpiIbcast`")
          (json.to_string MpiCallType.ibcast ibcast)
    assert_text_eq json_text serialized

  -- `MpiIbcast`, test `deserializes`.
  unfoldable pub mpi_ibcast_deserializes : Test
  unfolding struct_eq
  mpi_ibcast_deserializes = do
    ibcast ← expect (codes "failed to build `MpiIbcast`") (
        db.build (
          db.default MpiCallType.ibcast
          ▸ db.set (Setting.current_rank (pos 1))
          ▸ db.set (Setting.partner_rank (pos 0))
          ▸ db.set (Setting.nb_bytes 8)
          ▸ db.set (Setting.comm mpi_comm_world)
          ▸ db.set (Setting.req (pos 7))
          ▸ db.set (Setting.tsc 1024)
          ▸ db.set (Setting.duration 2048)))
    serialized ←
        expect_some (codes "failed to serialize `MpiIbcast`")
          (json.to_string_pretty MpiCallType.ibcast ibcast)
    deserialized ←
        expect_some (codes "failed to deserialize `MpiIbcast`")
          (json.from_str MpiCallType.ibcast serialized)
    assert_eq (struct_eq MpiCallType.ibcast ibcast deserialized)

  abbrev pub mpi_ibcast_tests : List Test
  mpi_ibcast_tests = mpi_ibcast_builds ∷ mpi_ibcast_serializes ∷ mpi_ibcast_deserializes ∷ []

  -- `MpiIgather`, test `builds`.
  unfoldable pub mpi_igather_builds : Test
  unfolding new_mpi_igather struct_eq
  mpi_igather_builds = do
    let igather_new = new_mpi_igather (pos 0) (pos 1) 8 0 mpi_comm_world (pos 7) 1024 2048
    igather_builder ← expect (codes "failed to build `MpiIgather`") (
        db.build (
          db.default MpiCallType.igather
          ▸ db.set (Setting.current_rank (pos 0))
          ▸ db.set (Setting.partner_rank (pos 1))
          ▸ db.set (Setting.nb_bytes_send 8)
          ▸ db.set (Setting.nb_bytes_recv 0)
          ▸ db.set (Setting.comm mpi_comm_world)
          ▸ db.set (Setting.req (pos 7))
          ▸ db.set (Setting.tsc 1024)
          ▸ db.set (Setting.duration 2048)))
    assert_eq (struct_eq MpiCallType.igather igather_new igather_builder)

  -- `MpiIgather`, test `serializes`.
  unfoldable pub mpi_igather_serializes : Test
  unfolding new_mpi_igather
  mpi_igather_serializes = do
    let igather = new_mpi_igather (pos 0) (pos 0) 8 64 mpi_comm_world (pos 7) 1024 2048
    let json_text =
        codes "{\"current_rank\":0,\"partner_rank\":0,\"nb_bytes_send\":8,"
        ++ codes "\"nb_bytes_recv\":64,\"comm\":0,\"req\":7,\"tsc\":1024,\"duration\":2048}"
    serialized ←
        expect_some (codes "failed to serialize `MpiIgather`")
          (json.to_string MpiCallType.igather igather)
    assert_text_eq json_text serialized

  -- `MpiIgather`, test `deserializes`.
  unfoldable pub mpi_igather_deserializes : Test
  unfolding struct_eq
  mpi_igather_deserializes = do
    igather ← expect (codes "failed to build `MpiIgather`") (
        db.build (
          db.default MpiCallType.igather
          ▸ db.set (Setting.current_rank (pos 1))
          ▸ db.set (Setting.partner_rank (pos 0))
          ▸ db.set (Setting.nb_bytes_send 64)
          ▸ db.set (Setting.nb_bytes_recv 0)
          ▸ db.set (Setting.comm mpi_comm_world)
          ▸ db.set (Setting.req (pos 7))
          ▸ db.set (Setting.tsc 1024)
          ▸ db.set (Setting.duration 2048)))
    serialized ←
        expect_some (codes "failed to serialize `MpiIgather`")
          (json.to_string_pretty MpiCallType.igather igather)
    deserialized ←
        expect_some (codes "failed to deserialize `MpiIgather`")
          (json.from_str MpiCallType.igather serialized)
    assert_eq (struct_eq MpiCallType.igather igather deserialized)

  abbrev pub mpi_igather_tests : List Test
  mpi_igather_tests = mpi_igather_builds ∷ mpi_igather_serializes ∷ mpi_igather_deserializes ∷ []

  -- `MpiIreduce`, test `builds`.
  unfoldable pub mpi_ireduce_builds : Test
  unfolding new_mpi_ireduce struct_eq
  mpi_ireduce_builds = do
    let ireduce_new = new_mpi_ireduce (pos 0) (pos 1) 8 MpiOp.sum mpi_comm_world (pos 7) 1024 2048
    ireduce_builder ← expect (codes "failed to build `MpiIreduce`") (
        db.build (
          db.default MpiCallType.ireduce
          ▸ db.set (Setting.current_rank (pos 0))
          ▸ db.set (Setting.partner_rank (pos 1))
          ▸ db.set (Setting.nb_bytes 8)
          ▸ db.set (Setting.op_type MpiOp.sum)
          ▸ db.set (Setting.comm mpi_comm_world)
          ▸ db.set (Setting.req (pos 7))
          ▸ db.set (Setting.tsc 1024)
          ▸ db.set (Setting.duration 2048)))
    assert_eq (struct_eq MpiCallType.ireduce ireduce_new ireduce_builder)

  -- `MpiIreduce`, test `serializes`.
  unfoldable pub mpi_ireduce_serializes : Test
  unfolding new_mpi_ireduce
  mpi_ireduce_serializes = do
    let ireduce = new_mpi_ireduce (pos 0) (pos 0) 8 MpiOp.prod mpi_comm_world (pos 7) 1024 2048
    let json_text =
        codes "{\"current_rank\":0,\"partner_rank\":0,\"nb_bytes\":8,\"op_type\":\"Prod\","
        ++ codes "\"comm\":0,\"req\":7,\"tsc\":1024,\"duration\":2048}"
    serialized ←
        expect_some (codes "failed to serialize `MpiIreduce`")
          (json.to_string MpiCallType.ireduce ireduce)
    assert_text_eq json_text serialized

  -- `MpiIreduce`, test `deserializes`.
  unfoldable pub mpi_ireduce_deserializes : Test
  unfolding struct_eq
  mpi_ireduce_deserializes = do
    ireduce ← expect (codes "failed to build `MpiIreduce`") (
        db.build (
          db.default MpiCallType.ireduce
          ▸ db.set (Setting.current_rank (pos 1))
          ▸ db.set (Setting.partner_rank (pos 0))
          ▸ db.set (Setting.nb_bytes 8)
          ▸ db.set (Setting.op_type MpiOp.max)
          ▸ db.set (Setting.comm mpi_comm_world)
          ▸ db.set (Setting.req (pos 7))
          ▸ db.set (Setting.tsc 1024)
          ▸ db.set (Setting.duration 2048)))
    serialized ←
        expect_some (codes "failed to serialize `MpiIreduce`")
          (json.to_string_pretty MpiCallType.ireduce ireduce)
    deserialized ←
        expect_some (codes "failed to deserialize `MpiIreduce`")
          (json.from_str MpiCallType.ireduce serialized)
    assert_eq (struct_eq MpiCallType.ireduce ireduce deserialized)

  abbrev pub mpi_ireduce_tests : List Test
  mpi_ireduce_tests = mpi_ireduce_builds ∷ mpi_ireduce_serializes ∷ mpi_ireduce_deserializes ∷ []

  -- `MpiIscatter`, test `builds`.
  unfoldable pub mpi_iscatter_builds : Test
  unfolding new_mpi_iscatter struct_eq
  mpi_iscatter_builds = do
    let iscatter_new = new_mpi_iscatter (pos 0) (pos 1) 8 0 mpi_comm_world (pos 7) 1024 2048
    iscatter_builder ← expect (codes "failed to build `MpiIscatter`") (
        db.build (
          db.default MpiCallType.iscatter
          ▸ db.set (Setting.current_rank (pos 0))
          ▸ db.set (Setting.partner_rank (pos 1))
          ▸ db.set (Setting.nb_bytes_send 8)
          ▸ db.set (Setting.nb_bytes_recv 0)
          ▸ db.set (Setting.comm mpi_comm_world)
          ▸ db.set (Setting.req (pos 7))
          ▸ db.set (Setting.tsc 1024)
          ▸ db.set (Setting.duration 2048)))
    assert_eq (struct_eq MpiCallType.iscatter iscatter_new iscatter_builder)

  -- `MpiIscatter`, test `serializes`.
  unfoldable pub mpi_iscatter_serializes : Test
  unfolding new_mpi_iscatter
  mpi_iscatter_serializes = do
    let iscatter = new_mpi_iscatter (pos 0) (pos 0) 8 64 mpi_comm_world (pos 7) 1024 2048
    let json_text =
        codes "{\"current_rank\":0,\"partner_rank\":0,\"nb_bytes_send\":8,"
        ++ codes "\"nb_bytes_recv\":64,\"comm\":0,\"req\":7,\"tsc\":1024,\"duration\":2048}"
    serialized ←
        expect_some (codes "failed to serialize `MpiIscatter`")
          (json.to_string MpiCallType.iscatter iscatter)
    assert_text_eq json_text serialized

  -- `MpiIscatter`, test `deserializes`.
  unfoldable pub mpi_iscatter_deserializes : Test
  unfolding struct_eq
  mpi_iscatter_deserializes = do
    iscatter ← expect (codes "failed to build `MpiIscatter`") (
        db.build (
          db.default MpiCallType.iscatter
          ▸ db.set (Setting.current_rank (pos 1))
          ▸ db.set (Setting.partner_rank (pos 0))
          ▸ db.set (Setting.nb_bytes_send 64)
          ▸ db.set (Setting.nb_bytes_recv 0)
          ▸ db.set (Setting.comm mpi_comm_world)
          ▸ db.set (Setting.req (pos 7))
          ▸ db.set (Setting.tsc 1024)
          ▸ db.set (Setting.duration 2048)))
    serialized ←
        expect_some (codes "failed to serialize `MpiIscatter`")
          (json.to_string_pretty MpiCallType.iscatter iscatter)
    deserialized ←
        expect_some (codes "failed to deserialize `MpiIscatter`")
          (json.from_str MpiCallType.iscatter serialized)
    assert_eq (struct_eq MpiCallType.iscatter iscatter deserialized)

  abbrev pub mpi_iscatter_tests : List Test
  mpi_iscatter_tests =
      mpi_iscatter_builds ∷ mpi_iscatter_serializes ∷ mpi_iscatter_deserializes ∷ []
