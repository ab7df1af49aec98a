-- ===== src/UnitTests/PointToPoint.antt =====
-- The unit tests of interpol-rs/src/mpi_events/point_to_point/*.rs.
use interpol.Base.{List, [], ◌∷◌, codes, ◌++◌}
use interpol.Base.Int.{pos}
use interpol.Types.{I32, MpiCallType}
use interpol.MpiEvents.PointToPoint.{new_mpi_send, new_mpi_recv, new_mpi_isend, new_mpi_irecv}
use interpol.Builder.{Setting, DeriveBuilder}
use interpol.Register.{◌▸◌}
use interpol.Json.Structs.{StructJson}
use interpol.UnitTests.{Test, ◌>>=◌, expect, expect_some, assert_eq, assert_text_eq}
use interpol.UnitTests.Equality.{struct_eq}

abbrev mpi_comm_world : I32
mpi_comm_world = pos 0

module _ (db : DeriveBuilder) (json : StructJson) where
  -- `MpiSend`, test `builds`.
  unfoldable pub mpi_send_builds : Test
  unfolding new_mpi_send struct_eq
  mpi_send_builds = do
    let send_new = new_mpi_send (pos 0) (pos 1) 8 mpi_comm_world (pos 42) 1024 2048
    send_builder ← expect (codes "failed to build `MpiSend`") (
        db.build (
          db.default MpiCallType.send
          ▸ db.set (Setting.current_rank (pos 0))
          ▸ db.set (Setting.partner_rank (pos 1))
          ▸ db.set (Setting.nb_bytes 8)
          ▸ db.set (Setting.comm mpi_comm_world)
          ▸ db.set (Setting.tag (pos 42))
          ▸ db.set (Setting.tsc 1024)
          ▸ db.set (Setting.duration 2048)))
    assert_eq (struct_eq MpiCallType.send send_new send_builder)

  -- `MpiSend`, test `serializes`.
  unfoldable pub mpi_send_serializes : Test
  unfolding new_mpi_send
  mpi_send_serializes = do
    let send = new_mpi_send (pos 0) (pos 1) 8 mpi_comm_world (pos 42) 1024 2048
    let json_text =
        codes "{\"current_rank\":0,\"partner_rank\":1,\"nb_bytes\":8,\"comm\":0,\"tag\":42,"
        ++ codes "\"tsc\":1024,\"duration\":2048}"
    serialized ←
        expect_some (codes "failed to serialize `MpiSend`") (json.to_string MpiCallType.send send)
    assert_text_eq json_text serialized

  -- `MpiSend`, test `deserializes`.
  unfoldable pub mpi_send_deserializes : Test
  unfolding struct_eq
  mpi_send_deserializes = do
    send ← expect (codes "failed to build `MpiSend`") (
        db.build (
          db.default MpiCallType.send
          ▸ db.set (Setting.current_rank (pos 0))
          ▸ db.set (Setting.partner_rank (pos 1))
          ▸ db.set (Setting.nb_bytes 8)
          ▸ db.set (Setting.comm mpi_comm_world)
          ▸ db.set (Setting.tag (pos 42))
          ▸ db.set (Setting.tsc 1024)
          ▸ db.set (Setting.duration 2048)))
    serialized ←
        expect_some (codes "failed to serialize `MpiSend`")
          (json.to_string_pretty MpiCallType.send send)
    deserialized ←
        expect_some (codes "failed to deserialize `MpiSend`")
          (json.from_str MpiCallType.send serialized)
    assert_eq (struct_eq MpiCallType.send send deserialized)

  abbrev pub mpi_send_tests : List Test
  mpi_send_tests = mpi_send_builds ∷ mpi_send_serializes ∷ mpi_send_deserializes ∷ []

  -- `MpiRecv`, test `builds`.
  unfoldable pub mpi_recv_builds : Test
  unfolding new_mpi_recv struct_eq
  mpi_recv_builds = do
    let recv_new = new_mpi_recv (pos 0) (pos 1) 8 mpi_comm_world (pos 42) 1024 2048
    recv_builder ← expect (codes "failed to build `MpiRecv`") (
        db.build (
          db.default MpiCallType.recv
          ▸ db.set (Setting.current_rank (pos 0))
          ▸ db.set (Setting.partner_rank (pos 1))
          ▸ db.set (Setting.nb_bytes 8)
          ▸ db.set (Setting.comm mpi_comm_world)
          ▸ db.set (Setting.tag (pos 42))
          ▸ db.set (Setting.tsc 1024)
          ▸ db.set (Setting.duration 2048)))
    assert_eq (struct_eq MpiCallType.recv recv_new recv_builder)

  -- `MpiRecv`, test `serializes`.
  unfoldable pub mpi_recv_serializes : Test
  unfolding new_mpi_recv
  mpi_recv_serializes = do
    let recv = new_mpi_recv (pos 0) (pos 1) 8 mpi_comm_world (pos 42) 1024 2048
    let json_text =
        codes "{\"current_rank\":0,\"partner_rank\":1,\"nb_bytes\":8,\"comm\":0,\"tag\":42,"
        ++ codes "\"tsc\":1024,\"duration\":2048}"
    serialized ←
        expect_some (codes "failed to serialize `MpiRecv`") (json.to_string MpiCallType.recv recv)
    assert_text_eq json_text serialized

  -- `MpiRecv`, test `deserializes`.
  unfoldable pub mpi_recv_deserializes : Test
  unfolding struct_eq
  mpi_recv_deserializes = do
    recv ← expect (codes "failed to build `MpiRecv`") (
        db.build (
          db.default MpiCallType.recv
          ▸ db.set (Setting.current_rank (pos 0))
          ▸ db.set (Setting.partner_rank (pos 1))
          ▸ db.set (Setting.nb_bytes 8)
          ▸ db.set (Setting.comm mpi_comm_world)
          ▸ db.set (Setting.tag (pos 42))
          ▸ db.set (Setting.tsc 1024)
          ▸ db.set (Setting.duration 2048)))
    serialized ←
        expect_some (codes "failed to serialize `MpiRecv`")
          (json.to_string_pretty MpiCallType.recv recv)
    deserialized ←
        expect_some (codes "failed to deserialize `MpiRecv`")
          (json.from_str MpiCallType.recv serialized)
    assert_eq (struct_eq MpiCallType.recv recv deserialized)

  abbrev pub mpi_recv_tests : List Test
  mpi_recv_tests = mpi_recv_builds ∷ mpi_recv_serializes ∷ mpi_recv_deserializes ∷ []

  -- `MpiIsend`, test `builds`.
  unfoldable pub mpi_isend_builds : Test
  unfolding new_mpi_isend struct_eq
  mpi_isend_builds = do
    let isend_new = new_mpi_isend (pos 0) (pos 1) 8 mpi_comm_world (pos 7) (pos 42) 1024 2048
    isend_builder ← expect (codes "failed to build `MpiIsend`") (
        db.build (
          db.default MpiCallType.isend
          ▸ db.set (Setting.current_rank (pos 0))
          ▸ db.set (Setting.partner_rank (pos 1))
          ▸ db.set (Setting.nb_bytes 8)
          ▸ db.set (Setting.comm mpi_comm_world)
          ▸ db.set (Setting.req (pos 7))
          ▸ db.set (Setting.tag (pos 42))
          ▸ db.set (Setting.tsc 1024)
          ▸ db.set (Setting.duration 2048)))
    assert_eq (struct_eq MpiCallType.isend isend_new isend_builder)

  -- `MpiIsend`, test `serializes`.
  unfoldable pub mpi_isend_serializes : Test
  unfolding new_mpi_isend
  mpi_isend_serializes = do
    let isend = new_mpi_isend (pos 0) (pos 1) 8 mpi_comm_world (pos 7) (pos 42) 1024 2048
    let json_text =
        codes "{\"current_rank\":0,\"partner_rank\":1,\"nb_bytes\":8,\"comm\":0,\"req\":7,"
        ++ codes "\"tag\":42,\"tsc\":1024,\"duration\":2048}"
    serialized ←
        expect_some (codes "failed to serialize `MpiIsend`")
          (json.to_string MpiCallType.isend isend)
    assert_text_eq json_text serialized

  -- `MpiIsend`, test `deserializes`.
  unfoldable pub mpi_isend_deserializes : Test
  unfolding struct_eq
  mpi_isend_deserializes = do
    isend ← expect (codes "failed to build `MpiIsend`") (
        db.build (
          db.default MpiCallType.isend
          ▸ db.set (Setting.current_rank (pos 0))
          ▸ db.set (Setting.partner_rank (pos 1))
          ▸ db.set (Setting.nb_bytes 8)
          ▸ db.set (Setting.comm mpi_comm_world)
          ▸ db.set (Setting.req (pos 7))
          ▸ db.set (Setting.tag (pos 42))
          ▸ db.set (Setting.tsc 1024)
          ▸ db.set (Setting.duration 2048)))
    serialized ←
        expect_some (codes "failed to serialize `MpiIsend`")
          (json.to_string_pretty MpiCallType.isend isend)
    deserialized ←
        expect_some (codes "failed to deserialize `MpiIsend`")
          (json.from_str MpiCallType.isend serialized)
    assert_eq (struct_eq MpiCallType.isend isend deserialized)

  abbrev pub mpi_isend_tests : List Test
  mpi_isend_tests = mpi_isend_builds ∷ mpi_isend_serializes ∷ mpi_isend_deserializes ∷ []

  -- `MpiIrecv`, test `builds`.
  unfoldable pub mpi_irecv_builds : Test
  unfolding new_mpi_irecv struct_eq
  mpi_irecv_builds = do
    let irecv_new = new_mpi_irecv (pos 0) (pos 1) 8 mpi_comm_world (pos 7) (pos 42) 1024 2048
    irecv_builder ← expect (codes "failed to build `MpiIrecv`") (
        db.build (
          db.default MpiCallType.irecv
          ▸ db.set (Setting.current_rank (pos 0))
          ▸ db.set (Setting.partner_rank (pos 1))
          ▸ db.set (Setting.nb_bytes 8)
          ▸ db.set (Setting.comm mpi_comm_world)
          ▸ db.set (Setting.req (pos 7))
          ▸ db.set (Setting.tag (pos 42))
          ▸ db.set (Setting.tsc 1024)
          ▸ db.set (Setting.duration 2048)))
    assert_eq (struct_eq MpiCallType.irecv irecv_new irecv_builder)

  -- `MpiIrecv`, test `serializes`.
  unfoldable pub mpi_irecv_serializes : Test
  unfolding new_mpi_irecv
  mpi_irecv_serializes = do
    let irecv = new_mpi_irecv (pos 0) (pos 1) 8 mpi_comm_world (pos 7) (pos 42) 1024 2048
    let json_text =
        codes "{\"current_rank\":0,\"partner_rank\":1,\"nb_bytes\":8,\"comm\":0,\"req\":7,"
        ++ codes "\"tag\":42,\"tsc\":1024,\"duration\":2048}"
    serialized ←
        expect_some (codes "failed to serialize `MpiIrecv`")
          (json.to_string MpiCallType.irecv irecv)
    assert_text_eq json_text serialized

  -- `MpiIrecv`, test `deserializes`.
  unfoldable pub mpi_irecv_deserializes : Test
  unfolding struct_eq
  mpi_irecv_deserializes = do
    irecv ← expect (codes "failed to build `MpiIrecv`") (
        db.build (
          db.default MpiCallType.irecv
          ▸ db.set (Setting.current_rank (pos 0))
          ▸ db.set (Setting.partner_rank (pos 1))
          ▸ db.set (Setting.nb_bytes 8)
          ▸ db.set (Setting.comm mpi_comm_world)
          ▸ db.set (Setting.req (pos 7))
          ▸ db.set (Setting.tag (pos 42))
          ▸ db.set (Setting.tsc 1024)
          ▸ db.set (Setting.duration 2048)))
    serialized ←
        expect_some (codes "failed to serialize `MpiIrecv`")
          (json.to_string_pretty MpiCallType.irecv irecv)
    deserialized ←
        expect_some (codes "failed to deserialize `MpiIrecv`")
          (json.from_str MpiCallType.irecv serialized)
    assert_eq (struct_eq MpiCallType.irecv irecv deserialized)

  abbrev pub mpi_irecv_tests : List Test
  mpi_irecv_tests = mpi_irecv_builds ∷ mpi_irecv_serializes ∷ mpi_irecv_deserializes ∷ []
