-- ===== src/SelectionSync/Tests.antt =====
-- Runs of a client whose server answers its writes.
use euphony.Prelude.{◌≡◌, refl, true, false, some, none, [], ◌∷◌, arith}
use euphony.Workspace.{Workspace}
use euphony.SelectionSync.{SelectionSnapshot, SelectionSync, no_filters}
use euphony.SelectionSync.Snapshot.{accept_server_selection}
use euphony.SelectionSync.Writes.{
  create, sync_selection_effect, answer_write, accepted, conflict, Reach, start, next, edits, syncs,
  answers,
}
use euphony.SelectionSync.Writes.Queue.{Reach-IsQueued, IsQueued}
use euphony.SelectionSync.Writes.Kept.{server_keeps_edits, IsEdited}

abbrev first : Workspace
first = record {
  sessions = none;
  selected_ids = "a" ∷ [];
  pinned_ids = [];
  focused_id = some "a";
  status_filters = [];
  cwd_filters = [];
  pinned_status_filters = [];
  pinned_cwd_filters = [];
  filter_selected_ids = [];
  decomposed_status_filters = [];
  decomposed_pinned_status_filters = [];
  selected_dashboard_ids = [];
  focused_pane_id = none;
  local_version = 0;
  sync_selection = true;
  resume_query = none;
  resume_pending = false;
  resume_succeeded = false;
  history = record { current = record { pathname = "/"; search = [] }; back = [] };
}

-- The user selects "b" while the first selection is being written.
abbrev second : Workspace
second = record first { selected_ids = "b" ∷ []; focused_id = some "b"; local_version = 1 }

abbrev snapshot : SelectionSnapshot
snapshot = record {
  terminal_ids = "a" ∷ [];
  manual_terminal_ids = "a" ∷ [];
  pinned_terminal_ids = [];
  focused_terminal_id = some "a";
  filters = no_filters;
  pinned_filters = none;
  revision = 7;
}

abbrev edited : SelectionSync
edited = record (sync_selection_effect (create first true)) { workspace = second }

edited_reached : Reach edited
unfolding sync_selection_effect create
edited_reached = next (next (start first true) syncs) (edits second refl)

edited-IsEdited : IsEdited edited
unfolding sync_selection_effect create
edited-IsEdited = record { unsynced = ground arith; unwritten = ground arith }

-- After the answer the new selection is written, and then the client is synced.
written_next : (answer_write (accepted snapshot) (sync_selection_effect edited)).revision ≡ some 7
unfolding sync_selection_effect create answer_write
written_next = refl

synced_then :
    (answer_write
      (accepted snapshot)
      (answer_write (accepted snapshot) (sync_selection_effect edited))).synced_local_version
    ≡ 1
unfolding sync_selection_effect create answer_write
synced_then = refl

Reach-IsQueued_example : IsQueued (answer_write conflict edited)
Reach-IsQueued_example = Reach-IsQueued (next edited_reached (answers conflict))

server_keeps_edits_example :
    ((answer_write (accepted snapshot) edited).workspace ≡ second)
    × ((accept_server_selection snapshot edited).workspace ≡ second)
server_keeps_edits_example = server_keeps_edits (accepted snapshot) snapshot edited edited-IsEdited
