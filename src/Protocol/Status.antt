-- ===== src/Protocol/Status.antt =====
-- The reply of STATUS.
use gogol.Prelude.{ℕ, ◌+◌, ◌^◌, ◌≤◌, ◌≡◌, refl, ap, ◌∙◌, List, [], ◌∷◌, ◌++◌, length, All}
use gogol.Rpc.Buffer.Wire.{Field, IsField, put, put_all, no_bytes}
use gogol.Protocol.{RpcStatus, status_code, Progress}
use gogol.Protocol.Client.{bit, outputs, read_progress, status_reply}
use gogol.Protocol.Server.{put_progress}
use gogol.Protocol.Replies.{reply-status}
use gogol.Protocol.Requests.{bit-flag}
use gogol.Protocol.Serving.{message-Serves}

abbrev pub progress_fields : Progress → List Field
progress_fields p =
    Field.u8 (status_code RpcStatus.ok)
    ∷ Field.u8 (bit p.indexing)
    ∷ Field.str p.indexing_name
    ∷ Field.u32 p.progress
    ∷ Field.u32 p.total
    ∷ Field.u32 p.elapsed_sec
    ∷ []

put_progress-fields :
    (p : Progress) (more : List Field)
    → put_all more (put_progress p no_bytes) ≡ put_all (progress_fields p ++ more) no_bytes
unfolding put_progress put_all put
put_progress-fields p more = refl

-- The client reads the progress that the daemon reports, whatever the daemon writes behind it
-- (the counts of each index, which the client leaves).
pub status_reply-put_progress :
    (junk : ℕ) (p : Progress) (more : List Field)
    → All IsField (progress_fields p ++ more)
    → length (put_all more (put_progress p no_bytes)).buf + 2 ^ 32 ≤ 2 ^ 64
    → status_reply junk (put_all more (put_progress p no_bytes)).buf ≡ outputs p
unfolding status_reply
status_reply-put_progress junk p more h fits =
    let msg = put_all more (put_progress p no_bytes) in
    let (a, (b, (c, (d, (e, (f, _)))))) =
      message-Serves (progress_fields p ++ more) msg (put_progress-fields p more) h fits in
    reply-status junk 0 (read_progress junk) msg.buf a
    ∙ ap outputs (
        rw (b, c, d, e, f, read_progress)
          (ap (λ x. record p { indexing = x }) (bit-flag p.indexing)))
