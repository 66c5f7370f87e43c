-- ===== src/Protocol/Requests.antt =====
-- A request that RpcClient writes is the one that the daemon dispatches.
use gogol.Prelude.{
  ℕ, ◌+◌, ◌^◌, ◌≤◌, ◌≡◌, refl, ap, Bool, true, false, some, List, [], ◌∷◌, not, ◌==◌, ◌%◌, length,
  All,
}
use gogol.Text.{Bytes}
use gogol.Rpc.Buffer.{MsgWriter}
use gogol.Rpc.Buffer.Wire.{Field, IsField, put, put_all, no_bytes, reader}
use gogol.Protocol.{RpcCmd, cmd_code}
use gogol.Protocol.Client.{
  bit, kept, query_request, add_request, rm_request, get_request, list_request, index_request,
  status_request, ping_request,
}
use gogol.Protocol.Server.{
  Request, rpc_cmd, read_query, read_add, read_ref, read_get, read_list, read_index, read_status,
  read_command, behind_command, read_request,
}
use gogol.Protocol.Serving.{Serves, message-Serves}

-- The message of the client for a request; it sends no `shutdown` and no `unknown`.
unfoldable pub client_message : Request → MsgWriter
unfolding query_request add_request rm_request get_request list_request index_request status_request
client_message (Request.query req) = query_request req
client_message (Request.add req) = add_request req
client_message (Request.rm ref) = rm_request ref
client_message (Request.get ref max_lines) = get_request ref max_lines
client_message (Request.list has_type type index) = list_request type has_type index
client_message (Request.index req) = index_request req
client_message (Request.status index) = status_request index
client_message _ = ping_request

-- The fields of that message.
abbrev pub fields : Request → List Field
fields (Request.query req) =
    Field.u8 (cmd_code RpcCmd.query)
    ∷ Field.str req.query
    ∷ Field.str req.index
    ∷ Field.u32 req.type_filter
    ∷ Field.u32 req.top_k
    ∷ Field.u32 req.show_lines
    ∷ Field.u8 (bit req.scores)
    ∷ []
fields (Request.add req) =
    Field.u8 (cmd_code RpcCmd.add)
    ∷ Field.u8 req.type
    ∷ Field.str req.index
    ∷ Field.str req.path
    ∷ Field.str req.content
    ∷ Field.str req.sources
    ∷ []
fields (Request.rm ref) =
    Field.u8 (cmd_code RpcCmd.rm)
    ∷ Field.u8 ref.type
    ∷ Field.str ref.index
    ∷ Field.str ref.path
    ∷ []
fields (Request.get ref max_lines) =
    Field.u8 (cmd_code RpcCmd.get)
    ∷ Field.u8 ref.type
    ∷ Field.str ref.index
    ∷ Field.str ref.path
    ∷ Field.u32 max_lines
    ∷ []
fields (Request.list has_type type index) =
    Field.u8 (cmd_code RpcCmd.list) ∷ Field.u8 (bit has_type) ∷ Field.u8 type ∷ Field.str index ∷ []
fields (Request.index req) =
    Field.u8 (cmd_code RpcCmd.index) ∷ Field.str req.index ∷ Field.u8 (bit req.force) ∷ []
fields (Request.status index) = Field.u8 (cmd_code RpcCmd.status) ∷ Field.str index ∷ []
fields _ = Field.u8 (cmd_code RpcCmd.ping) ∷ []

-- A request of the client whose members are values of their C++ types.
abbrev pub IsSent : Request → Type 0
IsSent Request.shutdown = ⊥
IsSent Request.unknown = ⊥
IsSent q = All IsField (fields q)

client_message-fields : (q : Request) → IsSent q → client_message q ≡ put_all (fields q) no_bytes
unfolding client_message put_all put
client_message-fields (Request.query req) h = refl
client_message-fields (Request.add req) h = refl
client_message-fields (Request.rm ref) h = refl
client_message-fields (Request.get ref max_lines) h = refl
client_message-fields (Request.list has_type type index) h = refl
client_message-fields (Request.index req) h = refl
client_message-fields (Request.status index) h = refl
client_message-fields Request.ping h = refl
client_message-fields Request.shutdown h = absurd h
client_message-fields Request.unknown h = absurd h

IsSent-IsField : (q : Request) → IsSent q → All IsField (fields q)
IsSent-IsField (Request.query req) h = h
IsSent-IsField (Request.add req) h = h
IsSent-IsField (Request.rm ref) h = h
IsSent-IsField (Request.get ref max_lines) h = h
IsSent-IsField (Request.list has_type type index) h = h
IsSent-IsField (Request.index req) h = h
IsSent-IsField (Request.status index) h = h
IsSent-IsField Request.ping h = h
IsSent-IsField Request.shutdown h = absurd h
IsSent-IsField Request.unknown h = absurd h

pub bit-flag : (b : Bool) → not (bit b == 0) ≡ b
bit-flag true = refl
bit-flag false = refl

bit-lowest : (b : Bool) → not (bit b % 2 == 0) ≡ b
bit-lowest true = refl
bit-lowest false = refl

read_request-Serves :
    (junk : ℕ) (q : Request) (s : Bytes)
    → IsSent q
    → Serves (fields q) (reader s)
    → read_request junk s ≡ some q
unfolding read_request behind_command read_command rpc_cmd read_query read_add read_ref read_get
    read_list read_index read_status
read_request-Serves junk (Request.query req) s h (a, (b, (c, (d, (e, (f, (g, _))))))) =
    rw (a, b, c, d, e, f, g)
      (ap (λ x. some (Request.query (record req { scores = x }))) (bit-flag req.scores))
read_request-Serves junk (Request.add req) s h (a, (b, (c, (d, (e, (f, _)))))) =
    rw (a, b, c, d, e, f) refl
read_request-Serves junk (Request.rm ref) s h (a, (b, (c, (d, _)))) = rw (a, b, c, d) refl
read_request-Serves junk (Request.get ref max_lines) s h (a, (b, (c, (d, (e, _))))) =
    rw (a, b, c, d, e) refl
read_request-Serves junk (Request.list has_type type index) s h (a, (b, (c, (d, _)))) =
    rw (a, b, c, d) (ap (λ x. some (Request.list x type index)) (bit-flag has_type))
read_request-Serves junk (Request.index req) s h (a, (b, (c, _))) =
    rw (a, b, c) (ap (λ x. some (Request.index (record req { force = x }))) (bit-lowest req.force))
read_request-Serves junk (Request.status index) s h (a, (b, _)) =
    rw a (ap (λ x. some (Request.status (kept [] x).0)) b)
read_request-Serves junk Request.ping s h (a, _) = rw a refl
read_request-Serves junk Request.shutdown s h served = absurd h
read_request-Serves junk Request.unknown s h served = absurd h

-- The daemon reads every request that the client writes as that request, under its command.
pub read_request-client_message :
    (junk : ℕ) (q : Request)
    → IsSent q
    → length (client_message q).buf + 2 ^ 32 ≤ 2 ^ 64
    → read_request junk (client_message q).buf ≡ some q
read_request-client_message junk q h fits = read_request-Serves junk q (client_message q).buf h (
    message-Serves (fields q) (client_message q) (client_message-fields q h) (IsSent-IsField q h)
      fits)
