-- ===== src/Protocol/Client.antt =====
-- The commands of RpcClient, src/daemon/embed_client.cpp: the message that each writes, and what it
-- makes of the reply. `junk` is the value of an uninitialised variable, where a get call fails.
use gogol.Prelude.{
  ℕ, zero, suc, Bool, false, not, Option, none, some, List, [], ◌∷◌, ◌++◌, ◌==◌, if◌then◌else◌,
  is_nil,
}
use gogol.Text.{Bytes, codes, str_eq}
use gogol.Rpc.Buffer.{
  MsgWriter, MsgReader, put_u8, put_u32, put_str, get_u8, get_u32, get_float, get_str,
}
use gogol.Rpc.Buffer.Wire.{no_bytes, reader}
use gogol.Protocol.{
  RpcCmd, cmd_code, RpcStatus, status_code, QueryRequest, QueryResultEntry, EntryRef, AddRequest,
  ListResultEntry, IndexRequest, Progress,
}

-- (b ? 1 : 0).
abbrev pub bit : Bool → ℕ
bit b = if b then 1 else 0

-- The variable behind a get call: its old value where the call fails.
abbrev pub kept {ℓ} : {A : Type ℓ} → A → Option A × MsgReader → A × MsgReader
kept old (none, r) = (old, r)
kept old (some new, r) = (new, r)

-- The fields of a request behind its command.
unfoldable pub query_request : QueryRequest → MsgWriter
query_request req =
    let msg = put_str req.index (put_str req.query (put_u8 (cmd_code RpcCmd.query) no_bytes)) in
    let msg' = put_u32 req.show_lines (put_u32 req.top_k (put_u32 req.type_filter msg)) in
    put_u8 (bit req.scores) msg'

unfoldable pub add_request : AddRequest → MsgWriter
add_request req =
    let msg = put_u8 req.type (put_u8 (cmd_code RpcCmd.add) no_bytes) in
    put_str req.sources (put_str req.content (put_str req.path (put_str req.index msg)))

unfoldable pub rm_request : EntryRef → MsgWriter
rm_request ref =
    let msg = put_u8 ref.type (put_u8 (cmd_code RpcCmd.rm) no_bytes) in
    put_str ref.path (put_str ref.index msg)

unfoldable pub get_request : EntryRef → ℕ → MsgWriter
get_request ref max_lines =
    let msg = put_u8 ref.type (put_u8 (cmd_code RpcCmd.get) no_bytes) in
    put_u32 max_lines (put_str ref.path (put_str ref.index msg))

unfoldable pub list_request : ℕ → Bool → Bytes → MsgWriter
list_request type has_type index =
    put_str index (put_u8 type (put_u8 (bit has_type) (put_u8 (cmd_code RpcCmd.list) no_bytes)))

unfoldable pub index_request : IndexRequest → MsgWriter
index_request req =
    put_u8 (bit req.force) (put_str req.index (put_u8 (cmd_code RpcCmd.index) no_bytes))

unfoldable pub status_request : Bytes → MsgWriter
status_request index = put_str index (put_u8 (cmd_code RpcCmd.status) no_bytes)

abbrev pub ping_request : MsgWriter
ping_request = put_u8 (cmd_code RpcCmd.ping) no_bytes

-- What a command gives its caller: the returned message, where an error and an answer are both
-- text, or the outputs behind an empty message.
pub data Result {ℓ} (A : Type ℓ) : Type ℓ where
  message : Bytes → Result A
  outputs : A → Result A

-- A status byte, then what stands behind it: the text of an error, or the outputs.
unfoldable pub read_reply {ℓ} : {A : Type ℓ} → ℕ → (MsgReader → A) → Bytes → Result A
read_reply junk read_outputs s =
    let (status, r) = kept junk (get_u8 (reader s)) in
    if status == status_code RpcStatus.ok
    then outputs (read_outputs r)
    else message (kept [] (get_str r)).0

-- An empty reply stands for a failed read.
unfoldable pub reply {ℓ} : {A : Type ℓ} → ℕ → (MsgReader → A) → Bytes → Result A
unfolding read_reply
reply junk read_outputs s =
    if is_nil s then message (codes "Read failed") else read_reply junk read_outputs s

-- results[i] before it is read.
abbrev blank_result : QueryResultEntry
blank_result = record {
  index = [];
  path = [];
  line = 0;
  chunk = [];
  proto = 0;
  status = [];
  score = 0;
  cosine = 0;
  snippet = [];
}

unfoldable pub read_result : MsgReader → QueryResultEntry × MsgReader
read_result r =
    let (index, r1) = kept [] (get_str r) in
    let (path, r2) = kept [] (get_str r1) in
    let (line, r3) = kept 0 (get_u32 r2) in
    let (chunk, r4) = kept [] (get_str r3) in
    let (proto, r5) = kept 0 (get_u8 r4) in
    let (status, r6) = kept [] (get_str r5) in
    let (score, r7) = kept 0 (get_float r6) in
    let (cosine, r8) = kept 0 (get_float r7) in
    let (snippet, r9) = kept [] (get_str r8) in
    (
      record {
        index = index;
        path = path;
        line = line;
        chunk = chunk;
        proto = proto;
        status = status;
        score = score;
        cosine = cosine;
        snippet = snippet;
      },
      r9,
    )

unfoldable pub read_list_entry : MsgReader → ListResultEntry × MsgReader
read_list_entry r =
    let (proto, r1) = kept 0 (get_u8 r) in
    let (index, r2) = kept [] (get_str r1) in
    let (path, r3) = kept [] (get_str r2) in
    let (line, r4) = kept 0 (get_u32 r3) in
    let (chunk, r5) = kept [] (get_str r4) in
    (record { proto = proto; index = index; path = path; line = line; chunk = chunk }, r5)

-- The loop over `count` entries.
unfoldable pub read_entries {ℓ} :
    {A : Type ℓ} → (MsgReader → A × MsgReader) → ℕ → MsgReader → List A × MsgReader
read_entries read_entry zero r = ([], r)
read_entries read_entry (suc n) r =
    let (e, r1) = read_entry r in let (es, r2) = read_entries read_entry n r1 in (e ∷ es, r2)

unfoldable pub read_counted {ℓ} :
    {A : Type ℓ} → ℕ → (MsgReader → A × MsgReader) → MsgReader → List A
unfolding read_entries
read_counted junk read_entry r =
    let (count, r1) = kept junk (get_u32 r) in (read_entries read_entry count r1).0

-- The results of cmd_query and of cmd_list behind a sent request.
unfoldable pub query_reply : ℕ → Bytes → Result (List QueryResultEntry)
unfolding reply read_counted read_result
query_reply junk = reply junk (read_counted junk read_result)

unfoldable pub list_reply : ℕ → Bytes → Result (List ListResultEntry)
unfolding reply read_counted read_list_entry
list_reply junk = reply junk (read_counted junk read_list_entry)

unfoldable pub read_progress : ℕ → MsgReader → Progress
read_progress junk r =
    let (idx_flag, r1) = kept junk (get_u8 r) in
    let (indexing_name, r2) = kept [] (get_str r1) in
    let (p, r3) = kept junk (get_u32 r2) in
    let (t, r4) = kept junk (get_u32 r3) in
    let (e, r5) = kept junk (get_u32 r4) in
    record {
      indexing = not (idx_flag == 0);
      indexing_name = indexing_name;
      progress = p;
      total = t;
      elapsed_sec = e;
    }

unfoldable pub status_reply : ℕ → Bytes → Result Progress
unfolding reply read_progress
status_reply junk = reply junk (read_progress junk)

-- The status and the text of a reply with one string.
abbrev pub status_and_text : ℕ → Bytes → ℕ × Bytes
status_and_text junk s =
    let (st, r) = kept junk (get_u8 (reader s)) in (st, (kept [] (get_str r)).0)

-- cmd_add and cmd_rm behind a sent request.
unfoldable pub ack_reply : ℕ → Bytes → Bytes
ack_reply junk s =
    let (st, m) = status_and_text junk s in
    if is_nil s
    then codes "Read failed"
    else if st == status_code RpcStatus.ok
    then m
    else codes "Error: " ++ m

-- cmd_get; an error is printed and stands for an empty content.
unfoldable pub get_reply : ℕ → Bytes → Bytes
get_reply junk s =
    let (st, m) = status_and_text junk s in
    if is_nil s then [] else if st == status_code RpcStatus.ok then m else []

-- cmd_index, which gives back the text of an error and of an answer alike.
unfoldable pub index_reply : ℕ → Bytes → Bytes
index_reply junk s = if is_nil s then codes "Read failed" else (status_and_text junk s).1

-- check_daemon_version behind the PING.
unfoldable pub version_matches : Bytes → Option Bytes × MsgReader → Bool
version_matches my_version (none, r) = false
version_matches my_version (some daemon_version, r) = str_eq daemon_version my_version

unfoldable pub version_behind : Bytes → Option ℕ × MsgReader → Bool
unfolding version_matches
version_behind my_version (none, r) = false
version_behind my_version (some status_byte, r) =
    if status_byte == status_code RpcStatus.ok
    then version_matches my_version (get_str r)
    else false

unfoldable pub check_daemon_version : Bytes → Bytes → Bool
unfolding version_behind
check_daemon_version my_version s =
    if is_nil s then false else version_behind my_version (get_u8 (reader s))
