-- ===== src/Servers/Tests.antt =====
-- Runs of the list of servers (servers.ts).
use multimux.Base.{◌≡◌, refl, ◌⊎◌, false, none, some, List, [], ◌∷◌, Any, Str, str_eq, codes}
use multimux.Grid.Types.{Server}
use multimux.Servers.{
  without_slash, add_server, Event, message, poll, store_token, close_popup, on_token, on_consent,
  connect_all, connect_server,
}
use multimux.Servers.Consent.{connect_server-Grants}

abbrev box : Server
box = record {
  id = codes "u1";
  origin = codes "https://box:8686";
  name = codes "box";
  token = none;
}

abbrev two_servers : List Server
two_servers = box ∷ record { id = codes "u2"; origin = []; name = []; token = none } ∷ []

added_box : (add_server (codes "u1") (codes "https://box:8686/") (codes "box") []).1 ≡ box
unfolding add_server without_slash
added_box = refl

-- Another origin, another type, the token, and one too late.
abbrev messages : List Event
messages =
    message (codes "https://evil") (some (codes "multimux-token")) (codes "E")
    ∷ message (codes "https://box:8686") none (codes "N")
    ∷ poll false
    ∷ message (codes "https://box:8686") (some (codes "multimux-token")) (codes "T")
    ∷ message (codes "https://box:8686") (some (codes "multimux-token")) (codes "L")
    ∷ []

granted :
    (connect_server box false messages).1
    ≡ store_token (codes "u1") (codes "T") ∷ close_popup ∷ on_token ∷ []
unfolding connect_server connect_all on_consent str_eq
granted = refl

connect_server-Grants_example :
    ((connect_server box false messages).1 ≡ [])
    ⊎ ((token : Str) × ((connect_server box false messages).1
          ≡ store_token (codes "u1") token ∷ close_popup ∷ on_token ∷ [])
        × Any
            (λ e. e ≡ message (codes "https://box:8686") (some (codes "multimux-token")) token)
            messages)
connect_server-Grants_example = connect_server-Grants box false messages
