-- ===== src/SelectionSync/Writes/Queue.antt =====
-- The writer, its pending request and the versions, over any sequence of steps.
use euphony.Prelude.{
  ℕ, ◌≤◌, ◌≡◌, refl, Bool, true, false, Option, some, none, ◌||◌, if◌then◌else◌, ltb, arith,
  Option-cases, inl, inr,
}
use euphony.Workspace.{Workspace}
use euphony.Workspace.Location.{HistoryMode, replace}
use euphony.SelectionSync.{
  SelectionSnapshot, SelectionSync, PendingRequest, WriteStage, replacing, refreshing,
  record_server_selection,
}
use euphony.SelectionSync.Snapshot.{apply_server_selection, accept_server_selection, is_some}
use euphony.SelectionSync.Writes.{
  next_write, flush_selection_writes, stop_writing, write_answered, refresh_answered, Answer,
  accepted, conflict, failed, answer_write, sync_selection_effect, expire_filter_deselect, Step,
  edits, syncs, answers, accepts, adopts, expires, create, Reach, start, next,
}

-- The versions of a request.
abbrev pub AtMost : Option PendingRequest → ℕ → Type 0
AtMost none local = Unit
AtMost (some pending) local = pending.local_version ≤ local

abbrev pub waiting_request : Option (PendingRequest × WriteStage) → Option PendingRequest
waiting_request none = none
waiting_request (some (pending, stage)) = some pending

abbrev pub version_of : Option PendingRequest → Option ℕ
version_of none = none
version_of (some pending) = some pending.local_version

-- A writer is active exactly while it waits for the server, for the version it notes down; a request
-- is pending only behind an active writer; and no version is from the future.
pub record IsQueued (s : SelectionSync) : Type 0 where
  pub writing : s.write_active ≡ is_some s.waiting
  pub noted : s.active_write_version ≡ version_of (waiting_request s.waiting)
  pub behind : is_some s.pending_request ≡ true → s.write_active ≡ true
  pub online : s.write_active ≡ true → s.has_api ≡ true
  pub synced : s.synced_local_version ≤ s.workspace.local_version
  pub pending_known : AtMost s.pending_request s.workspace.local_version
  pub waiting_known : AtMost (waiting_request s.waiting) s.workspace.local_version

-- What the head of the loop needs.
record IsReady (s : SelectionSync) : Type 0 where
  active : s.write_active ≡ true
  online : s.has_api ≡ true
  synced : s.synced_local_version ≤ s.workspace.local_version
  pending_known : AtMost s.pending_request s.workspace.local_version

next_write-IsQueued : (s : SelectionSync) → IsReady s → IsQueued (next_write s)
unfolding next_write
next_write-IsQueued s r = ground arith

-- Only the selection changes when a snapshot is applied.
record IsApplied (s t : SelectionSync) : Type 0 where
  write_active_kept : t.write_active ≡ s.write_active
  has_api_kept : t.has_api ≡ s.has_api
  synced_kept : t.synced_local_version ≡ s.synced_local_version
  pending_kept : t.pending_request ≡ s.pending_request
  waiting_kept : t.waiting ≡ s.waiting
  active_kept : t.active_write_version ≡ s.active_write_version
  local_kept : t.workspace.local_version ≡ s.workspace.local_version

apply-IsApplied :
    (snapshot : SelectionSnapshot) (mode : HistoryMode) (s : SelectionSync)
    → IsApplied s (apply_server_selection snapshot mode s)
unfolding apply_server_selection
apply-IsApplied snapshot mode s = record {
  write_active_kept = refl;
  has_api_kept = refl;
  synced_kept = refl;
  pending_kept = refl;
  waiting_kept = refl;
  active_kept = refl;
  local_kept = refl;
}

accept-IsApplied :
    (snapshot : SelectionSnapshot) (s : SelectionSync)
    → IsApplied s (accept_server_selection snapshot s)
unfolding accept_server_selection record_server_selection
accept-IsApplied snapshot s = ground (arith, apply-IsApplied snapshot replace s)

applied-IsQueued : {s t : SelectionSync} → IsApplied s t → IsQueued s → IsQueued t
applied-IsQueued a q = record {
  writing = rw (a.write_active_kept, a.waiting_kept) q.writing;
  noted = rw (a.active_kept, a.waiting_kept) q.noted;
  behind = rw (a.pending_kept, a.write_active_kept) q.behind;
  online = rw (a.write_active_kept, a.has_api_kept) q.online;
  synced = rw (a.synced_kept, a.local_kept) q.synced;
  pending_known = rw (a.pending_kept, a.local_kept) q.pending_known;
  waiting_known = rw (a.waiting_kept, a.local_kept) q.waiting_known;
}

applied-IsReady : {s t : SelectionSync} → IsApplied s t → IsReady s → IsReady t
applied-IsReady a r = record {
  active = rw a.write_active_kept r.active;
  online = rw a.has_api_kept r.online;
  synced = rw (a.synced_kept, a.local_kept) r.synced;
  pending_known = rw (a.pending_kept, a.local_kept) r.pending_known;
}

stop_writing-IsQueued : (s : SelectionSync) → IsReady s → IsQueued (stop_writing s)
unfolding stop_writing flush_selection_writes next_write
stop_writing-IsQueued s r = ground arith

either-IsQueued :
    (test : Bool) (s t : SelectionSync) → IsQueued s → IsQueued t → IsQueued (if test then s else t)
either-IsQueued true s t q r = q
either-IsQueued false s t q r = r

recorded-IsReady :
    (snapshot : SelectionSnapshot) (s : SelectionSync)
    → IsReady s
    → IsReady (record_server_selection snapshot s)
unfolding record_server_selection
recorded-IsReady snapshot s r = ground arith

write_answered-IsQueued :
    (pending : PendingRequest) (snapshot : SelectionSnapshot) (s : SelectionSync)
    → pending.local_version ≤ s.workspace.local_version
    → IsReady s
    → IsQueued (write_answered pending snapshot s)
unfolding write_answered
write_answered-IsQueued pending snapshot s known r =
    let written = record s { synced_local_version = pending.local_version } in
    let applied = apply_server_selection snapshot replace written in
    let recorded = record_server_selection snapshot s in
    either-IsQueued
      (is_some s.pending_request || ltb pending.local_version s.workspace.local_version)
      (next_write recorded) (next_write applied)
      (next_write-IsQueued recorded (recorded-IsReady snapshot s r))
      (next_write-IsQueued applied (
        applied-IsReady (apply-IsApplied snapshot replace written) (record {
          active = r.active;
          online = r.online;
          synced = known;
          pending_known = r.pending_known;
        })))

refresh_answered-IsQueued :
    (pending : PendingRequest) (snapshot : SelectionSnapshot) (s : SelectionSync)
    → pending.local_version ≤ s.workspace.local_version
    → IsReady s
    → IsQueued (refresh_answered pending snapshot s)
unfolding refresh_answered record_server_selection next_write
refresh_answered-IsQueued pending snapshot s known r = ground arith

sync_selection_effect-IsQueued :
    (s : SelectionSync) → IsQueued s → IsQueued (sync_selection_effect s)
unfolding sync_selection_effect flush_selection_writes next_write
sync_selection_effect-IsQueued s q = ground arith

waiting-IsReady :
    (s : SelectionSync) (pending : PendingRequest) (stage : WriteStage)
    → IsQueued s
    → s.waiting ≡ some (pending, stage)
    → IsReady s × (pending.local_version ≤ s.workspace.local_version)
waiting-IsReady s pending stage q h = ground arith

answer_waiting-IsQueued :
    (answer : Answer) (pending : PendingRequest) (stage : WriteStage) (s : SelectionSync)
    → IsQueued s
    → IsReady s
    → pending.local_version ≤ s.workspace.local_version
    → s.waiting ≡ some (pending, stage)
    → IsQueued (answer_write answer s)
unfolding answer_write
answer_waiting-IsQueued (accepted snapshot) pending (replacing expected) s q r known h =
    rw h (write_answered-IsQueued pending snapshot s known r)
answer_waiting-IsQueued conflict pending (replacing expected) s q r known h = rw h (ground arith)
answer_waiting-IsQueued failed pending (replacing expected) s q r known h =
    rw h (stop_writing-IsQueued s r)
answer_waiting-IsQueued (accepted snapshot) pending refreshing s q r known h =
    rw h (refresh_answered-IsQueued pending snapshot s known r)
answer_waiting-IsQueued conflict pending refreshing s q r known h = rw h (stop_writing-IsQueued s r)
answer_waiting-IsQueued failed pending refreshing s q r known h = rw h (stop_writing-IsQueued s r)

answer_idle : (answer : Answer) (s : SelectionSync) → s.waiting ≡ none → answer_write answer s ≡ s
unfolding answer_write
answer_idle answer s h = ground arith

answer_write-IsQueued :
    (answer : Answer) (s : SelectionSync) → IsQueued s → IsQueued (answer_write answer s)
answer_write-IsQueued answer s q = elim (Option-cases s.waiting) [
  | inl e ↦ rw (answer_idle answer s e) q
  | inr ((pending, stage), e) ↦
      let ready = waiting-IsReady s pending stage q e in
      answer_waiting-IsQueued answer pending stage s q ready.0 ready.1 e
]

Step-IsQueued : {s t : SelectionSync} → IsQueued s → Step s t → IsQueued t
unfolding expire_filter_deselect
Step-IsQueued {s} q (edits w newer) = ground arith
Step-IsQueued {s} q syncs = sync_selection_effect-IsQueued s q
Step-IsQueued {s} q (answers answer) = answer_write-IsQueued answer s q
Step-IsQueued {s} q (accepts snapshot) = applied-IsQueued (accept-IsApplied snapshot s) q
Step-IsQueued {s} q (adopts snapshot mode) = applied-IsQueued (apply-IsApplied snapshot mode s) q
Step-IsQueued {s} q (expires id) = ground arith

create-IsQueued : (w : Workspace) (has_api : Bool) → IsQueued (create w has_api)
unfolding create
create-IsQueued w has_api = ground arith

-- Whatever the user and the server do, and in whatever order the answers come: a writer is active
-- exactly while it waits for the server, a request is pending only behind an active writer, so none
-- is left unsent, and no version that is synced, pending or being written is newer than the user's.
pub Reach-IsQueued : {s : SelectionSync} → Reach s → IsQueued s
Reach-IsQueued (start w has_api) = create-IsQueued w has_api
Reach-IsQueued (next reached step) = Step-IsQueued (Reach-IsQueued reached) step
