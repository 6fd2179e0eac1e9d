-- ===== src/Lib.antt =====
-- A model of the web client of euphony (web/src), the part of the program in TypeScript, and the
-- theorems that make its core correct.
--
-- The client shows terminal sessions that a server keeps. It lists them in a sidebar, groups and
-- orders them, and shows a selection of them as panes. The selection is changed by the user, by
-- filters on the sessions' activity and directory, by the URL and by the server.
--
-- Files, with the code that each models (paths from the repository's root):
--   Prelude: what the sources use of JavaScript's arrays, sets, maps and strings.
--   Session: web/src/types.ts (Session) and web/src/sessionUtils.ts; the activity of a session,
--     the transitions between two snapshots, and the session that replaces a removed one.
--   Order: web/src/App.tsx, reorderItemsByIDs and the two merges with the server's answer.
--   SidebarOrder: web/src/App.tsx, reorderSidebarSessions, flushSidebarSessionOrder and their
--     copies for projects, as a machine that steps on drags and on the server's answers.
--   Workspace: web/src/App.tsx, the state of the selection. Its children are Filters
--     (matchesWorkspaceFilter, parseCwdFilter), Location (writeWorkspaceURL, workspaceFromURL),
--     Select (selectSession, focusPane), Update (updateWorkspaceFilters, updateStatusFilter,
--     updateCwdFilter, selectStatus, selectCwd), Effects (the effects on removed sessions, on
--     launched agents, on matches and on expired timers) and Consistent, the invariant of the
--     selection.
--   FlowControl: web/src/components/terminalFlowControl.ts, the gate that pauses the server's
--     output while the terminal is behind. Its children are about the counters and messages
--     (Gate), the two levels (Levels) and the completions of writes (Completion).
--   TerminalOutput: web/src/components/TerminalView.tsx, createTerminalOutputBatcher, which
--     collects the server's output. Its child Delivery is about the bytes that the terminal gets.
--   WorkspaceFiles: web/src/components/WorkspaceFilesView.tsx, workspaceFilesReducer; its child
--     Requests has the effects and handlers that ask the server for directories and files.
--   SelectionSync: web/src/App.tsx, the selection that clients share: its child Snapshot has
--     applyServerSelection and acceptServerSelection, Writes flushSelectionWrites and the effect
--     that asks for a write. An asynchronous continuation reads the current state, where the code
--     reads the values of the render that it was started in. The selections that are applied
--     without a test for local changes, in the first load and in the answers to createSession,
--     resumeArchivedSidebarSession, selectAllSession and the resume query, are the step `adopts`.
--   ProjectSidebar: web/src/projectSidebarUtils.ts, the sessions of the sidebar by project.
--   EventStream: web/src/api.ts, the loop of subscribeEvents, without the request and its errors;
--     its children are about the cut into chunks (Chunks) and the stream that a server sends
--     (Sending).
--   TerminalConnection: web/src/components/TerminalView.tsx, the effect of useTerminalView that
--     joins a terminal with a socket: handleOpen, handleMessage, handleClose, writeHistory,
--     queueInitialData, the handlers of input, of Shift+Enter and of the wheel, and the cleanup.
--     Its children are about the replay of the history (Replaying) and the order of the bytes
--     (Ordering); Capacity has reportCapacity, sendResize and releaseCapacity.
--   AgentLog: web/src/components/AgentLogView.tsx, mergeAdjacentToolGroups; its children are about
--     that merge (Merging), pairToolEntries (Pairing), and refresh and loadMore of
--     AgentLogViewContent with the pages that they join (Refreshing).
--   PaneCarousel: web/src/components/PaneCarousel.tsx, visiblePaneCount and the state of the
--     carousel; its children are about its two layout effects (Shown) and its events (Navigating).
--   GitPatch: web/src/components/gitChangesPatch.ts, gitChangedFileToPatch; its child Reading has
--     a reader of patches.
--
-- How the code is read. A React handler runs over the values of one render, so it is a function
-- from a state to a state; a ref is a field of the state too. A `Set` is the list of its elements
-- in the order of insertion, a `Map` an association list. Texts are strings or, where they are
-- taken apart, lists of characters or of code units. Identifiers are texts. A property that may be
-- undefined or null is an `Option`, and its truthiness is written out. Numbers are natural numbers
-- where the code's are never negative. Every loop is structural recursion on a list, so nothing
-- runs on fuel. Timers, answers of the server and completions of writes are steps that come in any
-- order.
--
-- Not modelled: rendering, styles and the components of web/src/components/ui, which hold no
-- state of their own; the DOM, xterm.js and the browser's audio and notifications; the server in
-- Go, whose answers are events or arguments here; a terminal that throws on output after the
-- session is connected; the other requests of web/src/api.ts, which only call fetch; and the
-- tables, menus, dialogs and keys of the remaining components.
pub mod AgentLog
pub mod EventStream
pub mod FlowControl
pub mod GitPatch
pub mod Order
pub mod PaneCarousel
pub mod Prelude
pub mod ProjectSidebar
pub mod SelectionSync
pub mod Session
pub mod SidebarOrder
pub mod TerminalConnection
pub mod TerminalOutput
pub mod Workspace
pub mod WorkspaceFiles
