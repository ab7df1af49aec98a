-- ===== src/Serialize.antt =====
-- `serialize` of interpol-rs/src/interpol.rs: the traces of one rank, written to its own file.
pub mod Faults
pub mod FileName
use interpol.Base.{◌++◌, Text, codes, some, none}
use interpol.Base.Int.{show_int}
use interpol.Types.{MpiRank}
use interpol.Machine.{Machine, M, ◌>>=◌, ◌>>◌, expect, println}
use interpol.Files.{WriteFaults, create_dir_all, open_truncated, write_text}
use interpol.Json.{SerdeJson}

-- `rank{}_traces.json`
unfoldable pub file_name : MpiRank → Text
file_name current_rank = codes "rank" ++ show_int current_rank ++ codes "_traces.json"

unfoldable pub serialize : SerdeJson → WriteFaults → MpiRank → M (Unit {0})
serialize json faults current_rank = do
  println (codes "[interpol]: serializing traces for rank " ++ show_int current_rank)
  traces ← λ s. expect "failed to serialize traces to string" (json.to_string s.events.items) s
  create_dir_all faults
  open_truncated faults (file_name current_rank)
  write_text faults (file_name current_rank) traces
