-- ===== src/Protocol/Tests.antt =====
-- Tests of the commands' messages, and their theorems at concrete messages.
use gogol.Prelude.{◌≡◌, refl, false, some, List, [], ◌∷◌, arith}
use gogol.Text.{codes, str_eq}
use gogol.Rpc.Buffer.{
  le32, put_u8, put_u32, put_float, put_str, get_u8, get_str, get_u32, get_text, get_bytes,
  le_value,
}
use gogol.Rpc.Buffer.Wire.{no_bytes}
use gogol.Protocol.{RpcStatus, QueryResultEntry, ListResultEntry}
use gogol.Protocol.Client.{
  outputs, query_reply, list_reply, get_request, check_daemon_version, version_behind,
  version_matches,
}
use gogol.Protocol.Server.{
  Request, read_request, put_text, put_results, put_list, put_counted, put_result, put_list_entry,
}
use gogol.Protocol.Requests.{client_message, read_request-client_message}
use gogol.Protocol.Replies.{entry_replies}

abbrev asked : Request
asked = Request.get (record { type = 0; index = codes "team"; path = codes "a.md:3" }) 20

get_request-bytes :
    (get_request (record { type = 0; index = codes "t"; path = [] }) 258).buf
    ≡ 5 ∷ 0 ∷ 1 ∷ 0 ∷ 0 ∷ 0 ∷ b't' ∷ 0 ∷ 0 ∷ 0 ∷ 0 ∷ 2 ∷ 1 ∷ 0 ∷ 0 ∷ []
unfolding get_request put_u8 put_u32 put_str le32
get_request-bytes = refl

-- A daemon of another build.
check_daemon_version-other :
    check_daemon_version (codes "1.2") (put_text RpcStatus.ok (codes "1.3") no_bytes).buf ≡ false
unfolding check_daemon_version version_behind version_matches put_text put_u8 put_u32 put_str le32
    get_u8 get_str get_u32 get_text get_bytes le_value str_eq
check_daemon_version-other = refl

read_request-client_message_example : read_request 7 (client_message asked).buf ≡ some asked
unfolding client_message get_request put_u8 put_u32 put_str le32
read_request-client_message_example =
    read_request-client_message 7 asked (omega arith) (omega arith)

abbrev found : List QueryResultEntry
found =
    record {
      index = codes "team";
      path = codes "a.md";
      line = 3;
      chunk = codes "Intro";
      proto = 0;
      status = codes "OK";
      score = 1065353216;
      cosine = 1063675494;
      snippet = [];
    }
    ∷ []

abbrev listed : List ListResultEntry
listed =
    record { proto = 2; index = codes "team"; path = codes "CFC"; line = 0; chunk = [] }
    ∷ record { proto = 1; index = codes "team"; path = codes "todo"; line = 0; chunk = codes "x" }
    ∷ []

entry_replies_example :
    (query_reply 7 (put_results found no_bytes).buf ≡ outputs found)
    × (list_reply 7 (put_list listed no_bytes).buf ≡ outputs listed)
unfolding put_results put_list put_counted put_result put_list_entry put_u8 put_u32 put_float
    put_str le32
entry_replies_example =
    entry_replies 7 found listed (omega arith, omega arith) (omega arith, omega arith) (omega arith)
      (omega arith)
