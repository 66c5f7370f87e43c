-- ===== src/Protocol/Server.antt =====
-- The daemon's end of the commands, src/daemon/embed_server.cpp: the requests as its handlers read
-- them behind the command byte, and the responses as they write them.
use gogol.Prelude.{
  ℕ, ◌%◌, ◌^◌, Bool, not, Option, none, some, List, [], ◌==◌, foldl, length, if◌then◌else◌,
}
use gogol.Text.{Bytes}
use gogol.Rpc.Buffer.{
  MsgWriter, MsgReader, put_u8, put_u32, put_float, put_str, get_u8, get_u32, get_str,
}
use gogol.Rpc.Buffer.Wire.{reader}
use gogol.Protocol.{
  RpcCmd, cmd_code, RpcStatus, status_code, QueryRequest, QueryResultEntry, EntryRef, AddRequest,
  ListResultEntry, IndexRequest, Progress,
}
use gogol.Protocol.Client.{bit, kept}

-- static_cast<RpcCmd>(cmd), none for the default case of the dispatch.
unfoldable pub rpc_cmd : ℕ → Option RpcCmd
rpc_cmd cmd =
    if cmd == cmd_code RpcCmd.ping
    then some RpcCmd.ping
    else if cmd == cmd_code RpcCmd.shutdown
    then some RpcCmd.shutdown
    else if cmd == cmd_code RpcCmd.query
    then some RpcCmd.query
    else if cmd == cmd_code RpcCmd.add
    then some RpcCmd.add
    else if cmd == cmd_code RpcCmd.rm
    then some RpcCmd.rm
    else if cmd == cmd_code RpcCmd.get
    then some RpcCmd.get
    else if cmd == cmd_code RpcCmd.list
    then some RpcCmd.list
    else if cmd == cmd_code RpcCmd.index
    then some RpcCmd.index
    else if cmd == cmd_code RpcCmd.status
    then some RpcCmd.status
    else none

unfoldable pub read_query : ℕ → MsgReader → QueryRequest
read_query junk r =
    let (query, r1) = kept [] (get_str r) in
    let (index, r2) = kept [] (get_str r1) in
    let (tf, r3) = kept junk (get_u32 r2) in
    let (tk, r4) = kept junk (get_u32 r3) in
    let (sl, r5) = kept junk (get_u32 r4) in
    let (sc, r6) = kept junk (get_u8 r5) in
    record {
      query = query;
      index = index;
      type_filter = tf;
      top_k = tk;
      show_lines = sl;
      scores = not (sc == 0);
    }

unfoldable pub read_add : MsgReader → AddRequest
read_add r =
    let (type_b, r1) = kept 0 (get_u8 r) in
    let (index, r2) = kept [] (get_str r1) in
    let (path, r3) = kept [] (get_str r2) in
    let (content, r4) = kept [] (get_str r3) in
    let (sources, r5) = kept [] (get_str r4) in
    record { type = type_b; index = index; path = path; content = content; sources = sources }

-- The entry that RM and GET name, and the reader behind it.
unfoldable pub read_ref : MsgReader → EntryRef × MsgReader
read_ref r =
    let (type_b, r1) = kept 0 (get_u8 r) in
    let (name, r2) = kept [] (get_str r1) in
    let (path, r3) = kept [] (get_str r2) in
    (record { type = type_b; index = name; path = path }, r3)

-- GET reads max_lines behind the entry.
unfoldable pub read_get : MsgReader → EntryRef × ℕ
unfolding read_ref
read_get r = let (ref, r1) = read_ref r in (ref, (kept 0 (get_u32 r1)).0)

-- The flag, the type and the index of LIST.
unfoldable pub read_list : MsgReader → Bool × ℕ × Bytes
read_list r =
    let (has_type_b, r1) = kept 0 (get_u8 r) in
    let (type_b, r2) = kept 0 (get_u8 r1) in
    (not (has_type_b == 0), type_b, (kept [] (get_str r2)).0)

unfoldable pub read_index : ℕ → MsgReader → IndexRequest
read_index junk r =
    let (index, r1) = kept [] (get_str r) in
    let (f, r2) = kept junk (get_u8 r1) in record { index = index; force = not (f % 2 == 0) }

unfoldable pub read_status : MsgReader → Bytes
read_status r = (kept [] (get_str r)).0

-- A request by its command, as the dispatch of handle_client_conn reads it: none where there is no
-- command byte; `unknown` is the default case.
pub data Request : Type 0 where
  ping shutdown unknown : Request
  query : QueryRequest → Request
  add : AddRequest → Request
  rm : EntryRef → Request
  get : EntryRef → ℕ → Request
  list : Bool → ℕ → Bytes → Request
  index : IndexRequest → Request
  status : Bytes → Request

unfoldable pub read_command : ℕ → Option RpcCmd → MsgReader → Request
unfolding read_query read_add read_ref read_get read_list read_index read_status
read_command junk none r = unknown
read_command junk (some RpcCmd.ping) r = ping
read_command junk (some RpcCmd.shutdown) r = shutdown
read_command junk (some RpcCmd.query) r = query (read_query junk r)
read_command junk (some RpcCmd.add) r = add (read_add r)
read_command junk (some RpcCmd.rm) r = rm (read_ref r).0
read_command junk (some RpcCmd.get) r = let (ref, max_lines) = read_get r in get ref max_lines
read_command junk (some RpcCmd.list) r =
    let (has_type, want, idx_name) = read_list r in list has_type want idx_name
read_command junk (some RpcCmd.index) r = index (read_index junk r)
read_command junk (some RpcCmd.status) r = status (read_status r)

unfoldable pub behind_command : ℕ → Option ℕ × MsgReader → Option Request
unfolding rpc_cmd read_command
behind_command junk (none, r) = none
behind_command junk (some cmd, r) = some (read_command junk (rpc_cmd cmd) r)

unfoldable pub read_request : ℕ → Bytes → Option Request
unfolding behind_command
read_request junk msg = behind_command junk (get_u8 (reader msg))

-- A response of a status and a text.
unfoldable pub put_text : RpcStatus → Bytes → MsgWriter → MsgWriter
put_text st text resp = put_str text (put_u8 (status_code st) resp)

unfoldable pub put_result : MsgWriter → QueryResultEntry → MsgWriter
put_result resp r =
    let resp1 = put_u32 r.line (put_str r.path (put_str r.index resp)) in
    let resp2 = put_str r.status (put_u8 r.proto (put_str r.chunk resp1)) in
    put_str r.snippet (put_float r.cosine (put_float r.score resp2))

unfoldable pub put_list_entry : MsgWriter → ListResultEntry → MsgWriter
put_list_entry resp e =
    let resp1 = put_str e.path (put_str e.index (put_u8 e.proto resp)) in
    put_str e.chunk (put_u32 e.line resp1)

-- OK, the number of entries as a uint32_t, and the entries.
unfoldable pub put_counted {ℓ} :
    {A : Type ℓ} → (MsgWriter → A → MsgWriter) → List A → MsgWriter → MsgWriter
put_counted put_entry entries resp =
    let resp1 = put_u8 (status_code RpcStatus.ok) resp in
    foldl put_entry (put_u32 (length entries % 2 ^ 32) resp1) entries

unfoldable pub put_results : List QueryResultEntry → MsgWriter → MsgWriter
unfolding put_counted put_result
put_results = put_counted put_result

unfoldable pub put_list : List ListResultEntry → MsgWriter → MsgWriter
unfolding put_counted put_list_entry
put_list = put_counted put_list_entry

-- The part of the STATUS response that the client reads.
unfoldable pub put_progress : Progress → MsgWriter → MsgWriter
put_progress p resp =
    let resp1 = put_u8 (bit p.indexing) (put_u8 (status_code RpcStatus.ok) resp) in
    put_u32 p.elapsed_sec (put_u32 p.total (put_u32 p.progress (put_str p.indexing_name resp1)))
