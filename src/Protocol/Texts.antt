-- ===== src/Protocol/Texts.antt =====
-- The replies of a status and a text, and the reply of STATUS.
use gogol.Prelude.{
  ℕ, ◌+◌, ◌^◌, ◌≤◌, ◌≡◌, refl, ap, ◌∙◌, false, List, [], ◌∷◌, ◌++◌, arith, length, All,
}
use gogol.Text.{Bytes, codes, str_eq}
use gogol.Rpc.Buffer.Wire.{Field, IsField, put, put_all, no_bytes, reader}
use gogol.Protocol.{RpcStatus, status_code}
use gogol.Protocol.Client.{
  kept, read_counted, read_result, read_list_entry, read_progress, message, query_reply, list_reply,
  status_reply, ack_reply, get_reply, index_reply, check_daemon_version, version_behind,
  version_matches,
}
use gogol.Protocol.Server.{put_text}
use gogol.Protocol.Replies.{is_nil-Gives, reply-status}
use gogol.Protocol.Serving.{Serves, message-Serves}

-- What a client makes of a status and a text, command by command.
unfoldable pub TextReplies : ℕ → RpcStatus → Bytes → Bytes → Type 0
TextReplies junk RpcStatus.ok text s =
    (ack_reply junk s ≡ text)
    × (get_reply junk s ≡ text)
    × (index_reply junk s ≡ text)
    × ((my_version : Bytes) → check_daemon_version my_version s ≡ str_eq text my_version)
TextReplies junk RpcStatus.err text s =
    (ack_reply junk s ≡ codes "Error: " ++ text)
    × (get_reply junk s ≡ [])
    × (index_reply junk s ≡ text)
    × ((my_version : Bytes) → check_daemon_version my_version s ≡ false)
    × (query_reply junk s ≡ message text)
    × (list_reply junk s ≡ message text)
    × (status_reply junk s ≡ message text)

text_fields : RpcStatus → Bytes → List Field
text_fields st text = Field.u8 (status_code st) ∷ Field.str text ∷ []

module _ (junk : ℕ) (text s : Bytes) where
  ok_replies :
      Serves (text_fields RpcStatus.ok text) (reader s) → TextReplies junk RpcStatus.ok text s
  unfolding text_fields TextReplies ack_reply get_reply index_reply check_daemon_version
      version_behind version_matches
  ok_replies (a, (b, _)) =
      let full = is_nil-Gives 0 s a in
      (
        rw (full, a, b) refl,
        rw (full, a, b) refl,
        rw (full, a, b) refl,
        λ my_version. rw (full, a, b) refl,
      )

  err_replies :
      Serves (text_fields RpcStatus.err text) (reader s) → TextReplies junk RpcStatus.err text s
  unfolding text_fields TextReplies ack_reply get_reply index_reply check_daemon_version
      version_behind query_reply list_reply status_reply
  err_replies (a, (b, _)) =
      let full = is_nil-Gives 1 s a in
      (
        rw (full, a, b) refl,
        rw (full, a) refl,
        rw (full, a, b) refl,
        λ my_version. rw (full, a) refl,
        reply-status junk 1 (read_counted junk read_result) s a ∙ ap (λ t. message (kept [] t).0) b,
        reply-status junk 1 (read_counted junk read_list_entry) s a
            ∙ ap (λ t. message (kept [] t).0) b,
        reply-status junk 1 (read_progress junk) s a ∙ ap (λ t. message (kept [] t).0) b,
      )

by_status :
    (st : RpcStatus) (text : Bytes) (junk : ℕ) (s : Bytes)
    → Serves (text_fields st text) (reader s)
    → TextReplies junk st text s
by_status RpcStatus.ok text junk s served = ok_replies junk text s served
by_status RpcStatus.err text junk s served = err_replies junk text s served

put_text-fields :
    (st : RpcStatus) (text : Bytes)
    → put_text st text no_bytes ≡ put_all (text_fields st text) no_bytes
unfolding put_text text_fields put_all put
put_text-fields st text = refl

fields-IsField :
    (st : RpcStatus) (text : Bytes) → IsField (Field.str text) → All IsField (text_fields st text)
unfolding text_fields
fields-IsField RpcStatus.ok text h = (omega arith, (h, tt))
fields-IsField RpcStatus.err text h = (omega arith, (h, tt))

-- A response of a status and a text reaches the caller of every command: an answer as the text
-- itself, an error as the text of the failure (for GET as no content), and the version check
-- accepts an answer that is its own version and no other.
pub put_text-TextReplies :
    (junk : ℕ) (st : RpcStatus) (text : Bytes)
    → IsField (Field.str text)
    → length (put_text st text no_bytes).buf + 2 ^ 32 ≤ 2 ^ 64
    → TextReplies junk st text (put_text st text no_bytes).buf
put_text-TextReplies junk st text h fits =
    let served =
      message-Serves (text_fields st text) (put_text st text no_bytes) (put_text-fields st text)
        (fields-IsField st text h) fits in
    by_status st text junk (put_text st text no_bytes).buf served
