-- ===== src/Community/History.antt =====
-- The messages of the communities, one after another, as the event task hands them to
-- `handle_community_message` (crates/bitcord-core/src/api/event_processor).
pub mod Frames
pub mod Roster
pub mod Manifests
use bit_cord.Prelude.{Bytes, List, [], ◌∷◌, Option}
use bit_cord.Community.Model.{Env}
use bit_cord.Community.AppState.{AppState}
use bit_cord.Community.Manifest.{CommunityEvent, handle_community_message}

-- A message and the peer that it came from.
abbrev pub Message : Type 0
Message = CommunityEvent × Option Bytes

unfoldable pub run : Env → AppState → List Message → AppState
run env s [] = s
run env s ((event, source) ∷ rest) = run env (handle_community_message env s event source) rest
