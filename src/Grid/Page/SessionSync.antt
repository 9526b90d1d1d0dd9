-- ===== src/Grid/Page/SessionSync.antt =====
-- How the page asks a daemon for its sessions: `fetchSessions`, for one server.
--
-- The entries of the server in the page's maps and sets are one record. The server as it is when a
-- follow-up goes out comes with the answer; it is none once the server has been removed.
pub mod FollowUp
use multimux.Base.{
  Bool, true, false, not, ◌||◌, Option, none, some, List, [], ◌∷◌, ◌++◌, if◌then◌else◌, is_some,
}
use multimux.Grid.Types.{Session, Server}

-- An entry of `sessionFetches`
pub record Slot : Type 0 where
  pub queued : Bool
  pub settle : Bool

pub record SessionSync : Type 0 where
  pub sessions : Option (List Session)
  pub loaded : Bool
  pub settled : Bool
  pub in_flight : Option Slot
  -- `settleInitial` of the request that is out
  pub settles : Bool

-- With the servers that a request is sent to: one or none
unfoldable pub fetch_sessions : SessionSync → Server → Bool → SessionSync × List Server
fetch_sessions s server settle_initial = elim s.in_flight [
  | some slot ↦ (
    record s {
      in_flight = some (record { queued = true; settle = slot.settle || settle_initial });
    },
    [],
  )
  | none ↦ (
    record s {
      in_flight = some (record { queued = false; settle = false });
      settles = settle_initial;
    },
    server ∷ [],
  )
]

-- What an answer brings; none if the request failed
abbrev pub received : SessionSync → Option (List Session) → SessionSync
received s none = record s { settled = s.settled || s.settles }
received s (some sessions) = record s {
  sessions = some sessions;
  loaded = true;
  settled = s.settled || s.settles;
}

abbrev pub follow_up : SessionSync → Slot → Option Server → SessionSync × List Server
follow_up s slot none = (s, [])
follow_up s slot (some server) =
    if slot.queued then fetch_sessions s server slot.settle else (s, [])

-- The end of a request; there is none if nothing is in flight.
unfoldable pub on_sessions :
    SessionSync → Option (List Session) → Option Server → SessionSync × List Server
on_sessions s answer latest = elim s.in_flight [
  | none ↦ (s, [])
  | some slot ↦ follow_up (record (received s answer) { in_flight = none }) slot latest
]
