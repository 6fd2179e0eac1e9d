-- ===== src/SelectionSync/Writes/Kept.antt =====
-- web/src/App.tsx, flushSelectionWrites and acceptServerSelection: what the answers to writes, and
-- the selections that are tested first, do to changes that came after the last write.
use euphony.Prelude.{
  ℕ, ◌<◌, ◌≡◌, refl, true, Option, some, none, ◌||◌, ltb, arith, Option-cases, inl, inr,
}
use euphony.SelectionSync.{
  SelectionSnapshot, SelectionSync, PendingRequest, WriteStage, replacing, refreshing,
  record_server_selection,
}
use euphony.SelectionSync.Snapshot.{accept_server_selection, has_unsynced_local_selection, is_some}
use euphony.SelectionSync.Writes.{
  next_write, flush_selection_writes, stop_writing, write_answered, refresh_answered, Answer,
  accepted, conflict, failed, answer_write,
}

-- Newer than the request that the writer waits for.
abbrev pub NewerThan : Option (PendingRequest × WriteStage) → ℕ → Type 0
NewerThan none local = Unit
NewerThan (some (pending, stage)) local = pending.local_version < local

-- The user's last change is neither synced nor being written.
pub record IsEdited (s : SelectionSync) : Type 0 where
  pub unsynced : s.synced_local_version < s.workspace.local_version
  pub unwritten : NewerThan s.waiting s.workspace.local_version

next_write-workspace : (s : SelectionSync) → (next_write s).workspace ≡ s.workspace
unfolding next_write
next_write-workspace s = ground arith

stop_writing-workspace : (s : SelectionSync) → (stop_writing s).workspace ≡ s.workspace
unfolding stop_writing flush_selection_writes next_write
stop_writing-workspace s = ground arith

write_answered-workspace :
    (pending : PendingRequest) (snapshot : SelectionSnapshot) (s : SelectionSync)
    → pending.local_version < s.workspace.local_version
    → (write_answered pending snapshot s).workspace ≡ s.workspace
unfolding write_answered record_server_selection
write_answered-workspace pending snapshot s newer =
    let e : (is_some s.pending_request || ltb pending.local_version s.workspace.local_version)
        ≡ true =
      ground arith in
    rw e (next_write-workspace (record_server_selection snapshot s))

refresh_answered-workspace :
    (pending : PendingRequest) (snapshot : SelectionSnapshot) (s : SelectionSync)
    → (refresh_answered pending snapshot s).workspace ≡ s.workspace
unfolding refresh_answered record_server_selection next_write
refresh_answered-workspace pending snapshot s = ground arith

accept-workspace :
    (snapshot : SelectionSnapshot) (s : SelectionSync)
    → s.synced_local_version < s.workspace.local_version
    → (accept_server_selection snapshot s).workspace ≡ s.workspace
unfolding accept_server_selection record_server_selection has_unsynced_local_selection
accept-workspace snapshot s newer = ground arith

answer_waiting-workspace :
    (answer : Answer) (pending : PendingRequest) (stage : WriteStage) (s : SelectionSync)
    → pending.local_version < s.workspace.local_version
    → s.waiting ≡ some (pending, stage)
    → (answer_write answer s).workspace ≡ s.workspace
unfolding answer_write
answer_waiting-workspace (accepted snapshot) pending (replacing expected) s newer h =
    rw h (write_answered-workspace pending snapshot s newer)
answer_waiting-workspace conflict pending (replacing expected) s newer h = rw h refl
answer_waiting-workspace failed pending (replacing expected) s newer h =
    rw h (stop_writing-workspace s)
answer_waiting-workspace (accepted snapshot) pending refreshing s newer h =
    rw h (refresh_answered-workspace pending snapshot s)
answer_waiting-workspace conflict pending refreshing s newer h = rw h (stop_writing-workspace s)
answer_waiting-workspace failed pending refreshing s newer h = rw h (stop_writing-workspace s)

answer_idle-workspace :
    (answer : Answer) (s : SelectionSync)
    → s.waiting ≡ none
    → (answer_write answer s).workspace ≡ s.workspace
unfolding answer_write
answer_idle-workspace answer s h = ground arith

-- While the user's last change is neither synced nor being written, no answer to a write, and no
-- selection that passes the test for unsynced changes (`acceptServerSelection`), touches the
-- workspace.
pub server_keeps_edits :
    (answer : Answer) (snapshot : SelectionSnapshot) (s : SelectionSync)
    → IsEdited s
    → ((answer_write answer s).workspace ≡ s.workspace)
      × ((accept_server_selection snapshot s).workspace ≡ s.workspace)
server_keeps_edits answer snapshot s edited = (
  elim (Option-cases s.waiting) [
    | inl e ↦ answer_idle-workspace answer s e
    | inr ((pending, stage), e) ↦ answer_waiting-workspace answer pending stage s (ground arith) e
  ],
  accept-workspace snapshot s edited.unsynced,
)
