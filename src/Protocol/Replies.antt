-- ===== src/Protocol/Replies.antt =====
-- What the daemon writes into a response is what the client's command gives its caller.
use gogol.Prelude.{
  ℕ, ◌+◌, ◌%◌, ◌^◌, ◌≤◌, ◌<◌, ◌≡◌, refl, sym, ap, ◌∙◌, false, none, some, List, [], ◌∷◌, ◌++◌,
  append_assoc, foldl, arith, length, is_nil, All, All-append, subst, if◌then◌else◌, ◌==◌,
}
use gogol.Text.{Bytes}
use gogol.Rpc.Buffer.{MsgWriter, MsgReader, get_u8, get_str}
use gogol.Rpc.Buffer.Wire.{
  Field, IsField, put, put_all, encode, encode_all, put_all-encode_all, no_bytes, reader, skip,
}
use gogol.Protocol.{RpcStatus, status_code, QueryResultEntry, ListResultEntry}
use gogol.Protocol.Client.{
  kept, outputs, message, read_reply, reply, read_result, read_list_entry, read_entries,
  read_counted, query_reply, list_reply,
}
use gogol.Protocol.Server.{put_result, put_list_entry, put_counted, put_results, put_list}
use gogol.Protocol.Serving.{Stands, Gives, Serves, skip_all, serves, Stands-fields}

-- The fields of a sequence of entries.
module _ {ℓ} {A : Type ℓ} (entry : A → List Field) where
  abbrev pub entry_fields : List A → List Field
  entry_fields [] = []
  entry_fields (e ∷ es) = entry e ++ entry_fields es

  -- OK, their number and the entries.
  abbrev pub counted_fields : List A → List Field
  counted_fields es = Field.u8 (status_code RpcStatus.ok) ∷ Field.u32 (length es) ∷ entry_fields es

  abbrev pub AreEntries : List A → Type 0
  AreEntries es = (length es < 2 ^ 32) × All (λ e. All IsField (entry e)) es

  entry_fields-IsField :
      (es : List A) → All (λ e. All IsField (entry e)) es → All IsField (entry_fields es)
  entry_fields-IsField [] h = tt
  entry_fields-IsField (e ∷ es) h =
      All-append IsField (entry e) (entry_fields es) h.0 (entry_fields-IsField es h.1)

put_all-append :
    (fs gs : List Field) (w : MsgWriter) → put_all (fs ++ gs) w ≡ put_all gs (put_all fs w)
unfolding put_all
put_all-append [] gs w = refl
put_all-append (f ∷ fs) gs w = put_all-append fs gs (put f w)

encode_all-append : (fs gs : List Field) → encode_all (fs ++ gs) ≡ encode_all fs ++ encode_all gs
unfolding encode_all
encode_all-append [] gs = refl
encode_all-append (f ∷ fs) gs =
    ap (λ s. encode f ++ s) (encode_all-append fs gs)
    ∙ sym (append_assoc (encode f) (encode_all fs) (encode_all gs))

Serves-append :
    (fs gs : List Field) {r : MsgReader} (rest : Bytes)
    → All IsField fs
    → Stands r (encode_all (fs ++ gs) ++ rest)
    → Serves fs r × Stands (skip_all fs r) (encode_all gs ++ rest)
Serves-append fs gs {r = r} rest h st = serves fs (encode_all gs ++ rest) h (
    subst (Stands r)
      (ap (λ s. s ++ rest) (encode_all-append fs gs)
        ∙ append_assoc (encode_all fs) (encode_all gs) rest)
      st)

none-some : {n : ℕ} → none ≡ some n → ⊥
none-some e = cc

get_u8-nil : get_u8 (reader []) ≡ (none, reader [])
unfolding get_u8
get_u8-nil = refl

pub is_nil-Gives : (st : ℕ) (s : Bytes) → Gives (Field.u8 st) (reader s) → is_nil s ≡ false
is_nil-Gives st [] given = absurd (none-some (ap (λ p. p.0) (sym get_u8-nil ∙ given)))
is_nil-Gives st (x ∷ s) given = refl

-- A reply with the status OK, or another.
pub reply-status {ℓ} :
    {A : Type ℓ} (junk st : ℕ) (read_outputs : MsgReader → A) (s : Bytes)
    → Gives (Field.u8 st) (reader s)
    → reply junk read_outputs s ≡ (
        if st == status_code RpcStatus.ok
        then outputs (read_outputs (skip (Field.u8 st) (reader s)))
        else message (kept [] (get_str (skip (Field.u8 st) (reader s)))).0)
unfolding reply read_reply
reply-status junk st read_outputs s given = rw (is_nil-Gives st s given, given) refl

-- A kind of entry: its fields, written by one function and read by another.
module _ {A : Type 0} (entry : A → List Field) (put_entry : MsgWriter → A → MsgWriter)
    (read_entry : MsgReader → A × MsgReader) where
  abbrev pub Writes : Type 0
  Writes = (w : MsgWriter) (e : A) → put_entry w e ≡ put_all (entry e) w

  abbrev pub ReadsBack : Type 0
  ReadsBack =
      (r : MsgReader) (e : A) → Serves (entry e) r → read_entry r ≡ (e, skip_all (entry e) r)

  put_entries :
      Writes
      → (es : List A) (w : MsgWriter) → foldl put_entry w es ≡ put_all (entry_fields entry es) w
  unfolding put_all
  put_entries writes [] w = refl
  put_entries writes (e ∷ es) w =
      put_entries writes es (put_entry w e)
      ∙ ap (put_all (entry_fields entry es)) (writes w e)
      ∙ sym (put_all-append (entry e) (entry_fields entry es) w)

  read_entries-Stands :
      ReadsBack
      → (es : List A) (r : MsgReader) (rest : Bytes) → All (λ e. All IsField (entry e)) es
      → Stands r (encode_all (entry_fields entry es) ++ rest)
      → (read_entries read_entry (length es) r).0 ≡ es
  unfolding read_entries
  read_entries-Stands back [] r rest h st = refl
  read_entries-Stands back (e ∷ es) r rest h st =
      let (served, st') = Serves-append (entry e) (entry_fields entry es) rest h.0 st in
      rw (back r e served)
        (ap (◌∷◌ e) (read_entries-Stands back es (skip_all (entry e) r) rest h.1 st'))

  counted_message :
      Writes
      → (es : List A) → AreEntries entry es
      → put_counted put_entry es no_bytes ≡ put_all (counted_fields entry es) no_bytes
  unfolding put_counted put_all put
  counted_message writes es h =
      let cut : length es % 2 ^ 32 ≡ length es = omega (arith, h.0) in
      rw cut (put_entries writes es _)

  -- The outputs of a command, from a response of this kind of entry.
  read_counted-put_counted :
      (junk : ℕ)
      → Writes
      → ReadsBack
      → (es : List A) → AreEntries entry es
      → length (put_counted put_entry es no_bytes).buf + 2 ^ 32 ≤ 2 ^ 64
      → reply junk (read_counted junk read_entry) (put_counted put_entry es no_bytes).buf
        ≡ outputs es
  unfolding reply read_reply read_counted
  read_counted-put_counted junk writes back es h fits =
      let fields = counted_fields entry es in
      let ok : All IsField fields = (omega arith, (h.0, entry_fields-IsField entry es h.1)) in
      let written : (put_counted put_entry es no_bytes).buf ≡ encode_all fields =
        ap (λ w. w.buf) (counted_message writes es h) ∙ put_all-encode_all fields no_bytes ok in
      let stands = Stands-fields fields ok (subst (λ s. length s + 2 ^ 32 ≤ 2 ^ 64) written fits) in
      let ((a, (b, _)), st) =
        Serves-append (Field.u8 0 ∷ Field.u32 (length es) ∷ []) (entry_fields entry es) []
          (omega arith, (h.0, tt)) stands in
      rw written (
        reply-status junk 0 (read_counted junk read_entry) (encode_all fields) a
        ∙ ap outputs (rw (b, read_counted) (read_entries-Stands back es _ [] h.1 st)))

abbrev pub result_fields : QueryResultEntry → List Field
result_fields e =
    Field.str e.index
    ∷ Field.str e.path
    ∷ Field.u32 e.line
    ∷ Field.str e.chunk
    ∷ Field.u8 e.proto
    ∷ Field.str e.status
    ∷ Field.float e.score
    ∷ Field.float e.cosine
    ∷ Field.str e.snippet
    ∷ []

abbrev pub list_fields : ListResultEntry → List Field
list_fields e =
    Field.u8 e.proto
    ∷ Field.str e.index
    ∷ Field.str e.path
    ∷ Field.u32 e.line
    ∷ Field.str e.chunk
    ∷ []

put_result-Writes : Writes result_fields put_result read_result
unfolding put_all put put_result
put_result-Writes w e = refl

put_list_entry-Writes : Writes list_fields put_list_entry read_list_entry
unfolding put_all put put_list_entry
put_list_entry-Writes w e = refl

read_result-ReadsBack : ReadsBack result_fields put_result read_result
unfolding read_result
read_result-ReadsBack r e (a, (b, (c, (d, (f, (g, (h, (i, (j, _))))))))) =
    rw (a, b, c, d, f, g, h, i, j) refl

read_list_entry-ReadsBack : ReadsBack list_fields put_list_entry read_list_entry
unfolding read_list_entry
read_list_entry-ReadsBack r e (a, (b, (c, (d, (f, _))))) = rw (a, b, c, d, f) refl

-- The entries that the daemon puts into the response to QUERY or LIST are those that the client's
-- command gives back, all of them and in order.
pub entry_replies :
    (junk : ℕ) (results : List QueryResultEntry) (entries : List ListResultEntry)
    → AreEntries result_fields results
    → AreEntries list_fields entries
    → length (put_results results no_bytes).buf + 2 ^ 32 ≤ 2 ^ 64
    → length (put_list entries no_bytes).buf + 2 ^ 32 ≤ 2 ^ 64
    → (query_reply junk (put_results results no_bytes).buf ≡ outputs results)
      × (list_reply junk (put_list entries no_bytes).buf ≡ outputs entries)
unfolding query_reply list_reply put_results put_list
entry_replies junk results entries hr he fr fe = (
  read_counted-put_counted result_fields put_result read_result junk put_result-Writes
      read_result-ReadsBack results hr fr,
  read_counted-put_counted list_fields put_list_entry read_list_entry junk put_list_entry-Writes
      read_list_entry-ReadsBack entries he fe,
)
