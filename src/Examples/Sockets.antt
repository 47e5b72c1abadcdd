-- ===== src/Examples/Sockets.antt =====
-- The theorems of `Api.WebSocket` on the store and the engine of `Samples`.
use ai_assistant.Prelude.{ℕ, suc, ◌≡◌, ◌⊎◌, refl, true, List, [], ◌∷◌, none, some, ok}
use ai_assistant.Errors.{show_error}
use ai_assistant.Session.{create, empty}
use ai_assistant.Session.Invariant.{IsValid}
use ai_assistant.Api.WebSocket.{text, ping, Inbound, Socket, ws_handler, going, waiting}
use ai_assistant.Api.WebSocket.Store.{ws_handler-IsValid}
use ai_assistant.Api.WebSocket.Protocol.{Log}
use ai_assistant.Api.WebSocket.Follows.{ws_handler-Log}
use ai_assistant.Api.WebSocket.Waits.{Held}
use ai_assistant.Api.WebSocket.Live.{ws_handler-Open}
use ai_assistant.Examples.Sessions.{two-IsValid}
use ai_assistant.Samples.{two, webhook, to_session, clock, new_v4}
use ai_assistant.Examples.Requests.{one-IsValid}

-- One frame comes while a turn runs.
abbrev socket : Socket ℕ
socket = record {
  accepts = λ m w. (true, suc w);
  arriving = λ w. (1, w);
  dropped = λ s w. (s, w);
  from_str = λ raw. ok (to_session (some raw));
  to_string = λ body. some "{}";
}

abbrev frames : List Inbound
frames = some (ok (text "c")) ∷ some (ok (ping "x")) ∷ some (ok (ping "y")) ∷ []

ws_handler-IsValid_example :
    IsValid
      (ws_handler webhook socket none (frames) (create clock new_v4 [] empty 0).0.1 9).0.conn.store
ws_handler-IsValid_example =
    ws_handler-IsValid webhook socket none frames (create clock new_v4 [] empty 0).0.1 9
      (λ s v. refl) one-IsValid

ws_handler-Log_example :
    let o = (ws_handler webhook socket none frames empty 0).0 in
    Log socket (show_error webhook.deps.show_code) frames o.conn.sent o.flow o.rest
ws_handler-Log_example = ws_handler-Log webhook socket none frames empty 0

ws_handler-Open_example :
    let o = (ws_handler webhook socket none frames two 0).0 in
    ((o.flow ≡ waiting) × Held two o.conn.store) ⊎ ((o.flow ≡ going) × (o.rest ≡ []))
ws_handler-Open_example =
    ws_handler-Open webhook socket none frames two 0 two-IsValid (λ m v. refl)
      (λ e. elim e [ ], (λ e. elim e [ ], (λ e. elim e [ ], tt)))
