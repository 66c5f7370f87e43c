-- ===== src/Protocol.antt =====
-- src/daemon/rpc.h: the commands between the command line and the daemon, with the requests and
-- the entries of the responses. An enum is the uint8_t under it, an int the uint32_t of the same
-- bits, a float its 32 bits.
pub mod Client
pub mod Server
pub mod Serving
pub mod Requests
pub mod Replies
pub mod Texts
pub mod Status
mod Tests
use gogol.Prelude.{ℕ, ◌+◌, ◌^◌, ◌<◌, Bool, true, false, List, [], ◌∷◌, All, length}
use gogol.Text.{Bytes}
use gogol.Loc.{EntryType}
use gogol.Rpc.Buffer.Wire.{Field, IsField}

pub data RpcCmd : Type 0 where
  ping shutdown query add rm get list index status : RpcCmd

-- (uint8_t)cmd.
abbrev pub cmd_code : RpcCmd → ℕ
cmd_code RpcCmd.ping = 0
cmd_code RpcCmd.shutdown = 1
cmd_code RpcCmd.query = 2
cmd_code RpcCmd.add = 3
cmd_code RpcCmd.rm = 4
cmd_code RpcCmd.get = 5
cmd_code RpcCmd.list = 6
cmd_code RpcCmd.index = 7
cmd_code RpcCmd.status = 8

pub data RpcStatus : Type 0 where
  ok err : RpcStatus

abbrev pub status_code : RpcStatus → ℕ
status_code RpcStatus.ok = 0
status_code RpcStatus.err = 1

-- (uint8_t)type.
abbrev pub type_code : EntryType → ℕ
type_code EntryType.doc = 0
type_code EntryType.note = 1
type_code EntryType.term = 2

pub record QueryRequest : Type 0 where
  pub query : Bytes
  pub index : Bytes
  pub type_filter : ℕ
  pub top_k : ℕ
  pub show_lines : ℕ
  pub scores : Bool

pub record QueryResultEntry : Type 0 where
  pub index : Bytes
  pub path : Bytes
  pub line : ℕ
  pub chunk : Bytes
  pub proto : ℕ
  pub status : Bytes
  pub score : ℕ
  pub cosine : ℕ
  pub snippet : Bytes

pub record EntryRef : Type 0 where
  pub type : ℕ
  pub index : Bytes
  pub path : Bytes

pub record AddRequest : Type 0 where
  pub type : ℕ
  pub index : Bytes
  pub path : Bytes
  pub content : Bytes
  pub sources : Bytes

pub record ListResultEntry : Type 0 where
  pub proto : ℕ
  pub index : Bytes
  pub path : Bytes
  pub line : ℕ
  pub chunk : Bytes

pub record IndexRequest : Type 0 where
  pub index : Bytes
  pub force : Bool

-- The state that a STATUS response reports first.
pub record Progress : Type 0 where
  pub indexing : Bool
  pub indexing_name : Bytes
  pub progress : ℕ
  pub total : ℕ
  pub elapsed_sec : ℕ
