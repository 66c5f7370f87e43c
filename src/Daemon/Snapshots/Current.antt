-- ===== src/Daemon/Snapshots/Current.antt =====
-- No update is lost and no reader sees a part of one.
use gogol.Prelude.{
  ◌≡◌, refl, fun_ext, Option, List, [], ◌∷◌, ◌++◌, arith, append_assoc, Option-cases, inl, inr, All,
  All-mono,
}
use gogol.Text.{Bytes, str_eq_iff}
use gogol.Dict.{get, get-put}
use gogol.Daemon.Snapshots.{
  DaemonState, Update, Writer, copied, System, or_new, snapshot, mutable_copy, publish, finish,
  Runs, start, submits, takes, copies, ends, reads, apply, versions_after, in_hand,
}

module _ {ℓ} {Index : Type ℓ} (new_index : Index) where
  snapshot-finish :
      (u : Update Index) (st : DaemonState Index) (name : Bytes)
      → snapshot new_index (finish new_index u (mutable_copy new_index st u.name) st) name
        ≡ apply new_index u (snapshot new_index st) name
  unfolding snapshot finish mutable_copy publish apply
  snapshot-finish u st name =
      elim (Option-cases (u.change (or_new new_index (get u.name st.indexes)))) [
        | inl e ↦ ground (arith, str_eq_iff name u.name)
        | inr (idx, e) ↦ ground (arith, get-put name u.name idx st.indexes)
      ]

  versions_after-append :
      (us vs : List (Update Index)) (m : Bytes → Option Index)
      → versions_after new_index (us ++ vs) m
        ≡ versions_after new_index vs (versions_after new_index us m)
  unfolding versions_after
  versions_after-append [] vs m = refl
  versions_after-append (u ∷ us) vs m = versions_after-append us vs (apply new_index u m)

  -- A copy in the writer's hands is of the current version.
  IsFresh : Writer Index → DaemonState Index → Type ℓ
  IsFresh w st =
      (u : Update Index) (idx : Index) → w ≡ copied u idx → idx ≡ mutable_copy new_index st u.name

  -- A version that a reader holds: the one after a part of the updates submitted, from the first.
  abbrev pub WasCurrent : DaemonState Index → List (Update Index) → Bytes × Option Index → Type ℓ
  WasCurrent st us (name, idx) =
      (seen rest : List (Update Index)) × (us ≡ seen ++ rest)
      × (idx ≡ versions_after new_index seen (snapshot new_index st) name)

  unfoldable pub IsCurrent : DaemonState Index → List (Update Index) → System Index → Type ℓ
  IsCurrent st us s =
      (done : List (Update Index)) × (us ≡ done ++ (in_hand s.writer ++ s.queue))
      × ((name : Bytes)
          → snapshot new_index s.state name
            ≡ versions_after new_index done (snapshot new_index st) name)
      × All (WasCurrent st us) s.held

  WasCurrent-submit :
      (st : DaemonState Index) (us : List (Update Index)) (u : Update Index)
      (r : Bytes × Option Index)
      → WasCurrent st us r
      → WasCurrent st (us ++ u ∷ []) r
  WasCurrent-submit st us u r (seen, rest, split, e) =
      (seen, rest ++ u ∷ [], rw (split, append_assoc seen rest (u ∷ [])) refl, e)

  Runs-IsFresh :
      (st : DaemonState Index) (us : List (Update Index)) (s : System Index)
      → Runs new_index st us s
      → IsFresh s.writer s.state
  unfolding IsFresh
  Runs-IsFresh st us s start = λ u idx e. cc
  Runs-IsFresh st us s (submits v {us = ws} {s = p} r) = Runs-IsFresh st ws p r
  Runs-IsFresh st us s (takes v rest r i q) = λ u idx e. cc
  Runs-IsFresh st us s (copies v {s = p} r t) = λ u idx e. cc
  Runs-IsFresh st us s (ends v j r c) = λ u idx e. cc
  Runs-IsFresh st us s (reads name {s = p} r) = Runs-IsFresh st us p r

  -- However readers, submissions and the steps of the writer interleave, no update is lost: the
  -- updates submitted are those done, then the one in the writer's hands, then the queued ones, and
  -- every index is the version after the done ones, each applied whole to what the one before it
  -- published. Each snapshot that a reader holds is the version after a first part of the updates.
  pub Runs-IsCurrent :
      (st : DaemonState Index) (us : List (Update Index)) (s : System Index)
      → Runs new_index st us s
      → IsCurrent st us s
  unfolding IsCurrent IsFresh versions_after
  Runs-IsCurrent st us s start = ([], refl, λ name. refl, tt)
  Runs-IsCurrent st us s (submits v {us = ws} {s = p} r) =
      let (done, split, now, held) = Runs-IsCurrent st ws p r in
      (
        done,
        rw
            (
              split,
              append_assoc done (in_hand p.writer ++ p.queue) (v ∷ []),
              append_assoc (in_hand p.writer) p.queue (v ∷ []),
            )
            refl,
        now,
        All-mono (WasCurrent-submit st ws v) p.held held,
      )
  Runs-IsCurrent st us s (takes v rest {s = p} r i q) =
      let (done, split, now, held) = Runs-IsCurrent st us p r in
      (done, rw (split, i, q) refl, now, held)
  Runs-IsCurrent st us s (copies v {s = p} r t) =
      let (done, split, now, held) = Runs-IsCurrent st us p r in
      (done, rw (split, t) refl, now, held)
  Runs-IsCurrent st us s (ends v j {s = p} r c) =
      let (done, split, now, held) = Runs-IsCurrent st us p r in
      let current : snapshot new_index p.state
          ≡ versions_after new_index done (snapshot new_index st) =
        fun_ext now in
      (
        done ++ v ∷ [],
        rw (split, c, append_assoc done (v ∷ []) p.queue) refl,
        λ name. rw (Runs-IsFresh st us p r v j c) (
            rw (versions_after-append done (v ∷ []) (snapshot new_index st), ← current)
              (snapshot-finish v p.state name)),
        held,
      )
  Runs-IsCurrent st us s (reads name {s = p} r) =
      let (done, split, now, held) = Runs-IsCurrent st us p r in
      (done, split, now, ((done, in_hand p.writer ++ p.queue, split, now name), held))
