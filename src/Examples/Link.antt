-- ===== src/Examples/Link.antt =====
-- The theorems about the laptop's signaling client and its teardown at concrete inputs.
use remotetab.Prelude.{
  ℕ, suc, true, List, [], ◌∷◌, ◌≡◌, refl, leb, length, take, if◌then◌else◌, none, some,
}
use remotetab.Protocol.Messages.{desktop, signaling_frame, presence_pong}
use remotetab.Extension.SignalingClient.{
  offline, SignalingClientOptions, ClientEvent, connects, stops, opened, received, closed, pings,
  reconnects, handle, new_client, run,
}
use remotetab.Extension.SignalingClient.Phases.Moves.{run-Moves}
use remotetab.Extension.SignalingClient.Phases.{Phase, Rest, in_phase, Move}
use remotetab.Extension.SignalingClient.Closed.{closed-Silent}
use remotetab.Extension.Teardown.{
  TeardownStep, error, TeardownEvent, runs, settles, new_teardown, play, pending, resolved,
}
use remotetab.Extension.Teardown as Teardown
use remotetab.Extension.Teardown.Once.{outcomes, completed_of, failed_of, called, play-Once}

abbrev options : SignalingClientOptions
options = record {
  hello_payload = record { role = desktop; device_id = "laptop"; display_name = none };
  auth = none;
  pong_timeout_ms = 45_000;
}

-- A socket that opens, is lost, and is opened anew.
abbrev events : List ClientEvent
events =
    connects
    ∷ opened 0 100
    ∷ received 0 200 (some (signaling_frame (presence_pong 5) none))
    ∷ pings 15_100 15_100 true
    ∷ closed 0
    ∷ reconnects 1
    ∷ opened 2 16_000
    ∷ []

run-Moves_example :
    (p p' : Phase) × (r r' : Rest) × ((run options new_client events).0 ≡ in_phase p r)
    × ((handle options (run options new_client events).0 (closed 2)).0 ≡ in_phase p' r')
    × Move p p'
run-Moves_example =
    run-Moves options events (closed 2) (refl, (tt, (tt, (tt, (tt, (tt, (tt, tt))))))) tt

abbrev late : List ClientEvent
late = opened 2 17_000 ∷ pings 20_000 20_000 true ∷ reconnects 1 ∷ closed 2 ∷ []

closed-Silent_example :
    let c = (handle options (run options new_client events).0 stops).0 in
    ((run options c late).1 ≡ [])
    × ((run options c late).0.state ≡ offline)
    × ((run options c late).0.socket ≡ none)
    × ((run options c late).0.timers ≡ [])
closed-Silent_example =
    closed-Silent options events late (refl, (tt, (tt, (tt, (tt, (tt, (tt, tt)))))))
      (λ e. cc, (λ e. cc, (λ e. cc, (λ e. cc, tt))))

-- Steps that count how often they are called.
abbrev steps : List (TeardownStep ℕ)
steps = record { name = "peer"; run = λ n. suc n } ∷ record { name = "tab"; run = λ n. suc n } ∷ []

abbrev stops_twice : List TeardownEvent
stops_twice = settles (some (error "Error" "gone")) ∷ runs ∷ settles none ∷ runs ∷ []

play-Once_example :
    let t = play (new_teardown steps 0) (runs ∷ stops_twice) in
    (t.finished ≡ (
      if leb (length steps) (length (outcomes stops_twice))
      then some (record {
        completed = completed_of steps (outcomes stops_twice);
        failed = failed_of steps (outcomes stops_twice);
      })
      else none))
    × (t.env ≡ called (take (suc (length (outcomes stops_twice))) steps) 0)
    × (Teardown.run t ≡ (t, elim t.finished [ none ↦ pending | some report ↦ resolved report ]))
play-Once_example = play-Once steps 0 stops_twice
