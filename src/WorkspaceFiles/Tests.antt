-- ===== src/WorkspaceFiles/Tests.antt =====
-- A run of the file browser.
use euphony.Prelude.{◌≡◌, refl, true, false, none, [], ◌∷◌}
use euphony.WorkspaceFiles.{directory, WorkspaceEntry, WorkspaceDirectory}
use euphony.WorkspaceFiles.Requests.{
  FilesView, DirectoryRequest, create, root_answered, click_directory, directory_answered,
  refresh_workspace, Reach, start, next, root_answers, directory_clicks, directory_answers, is_some,
}
use euphony.WorkspaceFiles.Requests.Loading.{Reach-IsLoading, IsLoading}

abbrev src : WorkspaceEntry
src = record { name = "src"; path = "src"; kind = directory; size = none }

abbrev listing : WorkspaceDirectory
listing = record { root = "/r"; path = ""; entries = src ∷ []; truncated = none }

abbrev opened : FilesView
opened = click_directory "src" (root_answered listing (create true))

abbrev first_request : DirectoryRequest
first_request = record { path = "src"; generation = 0 }

opened_loading :
    (opened.state.loading_directories ≡ "src" ∷ []) × (opened.state.root_loading ≡ false)
unfolding click_directory root_answered create
opened_loading = (refl, refl)

-- The answer to a request from before a refresh adds no directory.
overtaken : is_some (refresh_workspace opened).file_request ≡ false
unfolding click_directory root_answered create refresh_workspace
overtaken = refl

stale_answer :
    (directory_answered first_request listing (refresh_workspace opened)).state.directories
    ≡ ("", listing) ∷ []
unfolding click_directory root_answered create refresh_workspace directory_answered
stale_answer = refl

opened_reached : Reach opened
opened_reached = next (next (start true) (root_answers listing)) (directory_clicks "src")

Reach-IsLoading_example : IsLoading (directory_answered first_request listing opened)
Reach-IsLoading_example =
    Reach-IsLoading (next opened_reached (directory_answers first_request listing))
