-- ===== src/Panel/Uplink/Tests.antt =====
-- A stream and a call that share a connection, and the theorems on them.
use ladder_airport.Base.{
  ◌==◌, ℕ, String, ◌≡◌, refl, Bool, true, false, none, some, [], ◌∷◌, arith, str_eq,
}
use ladder_airport.Panel.Uplink.{
  FrameType, Frame, Conn, new_conn, offer, register, find_call, update_call, unregister,
  deliver_response, deliver_stream, dispatch, take_frame, write_frame, open_call, shutdown,
  response, stream,
}
use ladder_airport.Panel.Uplink.Hub.{
  new_hub, lookup_conn, delete_conn, get, node_of, update_conn, previous_conn, register_conn,
  close_conn, accept_conn,
}
use ladder_airport.Panel.Uplink.Current.{
  Serving, idle_hub, arrive, register_one, close_one, HubSteps, run-IsCurrent, connects, registers,
  closes, stays, goes_on,
}
use ladder_airport.Panel.Uplink.Fifo.{content, accepts}
use ladder_airport.Panel.Uplink.Lossless.{
  Steps, left_over, steps-content, arrives, takes, opens, finished, next,
}

abbrev frame : FrameType → ℕ → String → Bool → Frame
frame type id payload eof = record {
  type = type;
  id = id;
  method = "";
  payload = payload;
  error = none;
  eof = eof;
}

abbrev line : Frame
line = frame stream 1 "a line" false

abbrev last_line : Frame
last_line = frame stream 1 "" true

abbrev reply : Frame
reply = frame response 2 "{}" false

-- A connection with one stream, opened as the code opens it.
unfoldable start : Conn
unfolding open_call write_frame register new_conn unregister
start = (open_call none true "StreamLogs" "{}" (new_conn "tokyo")).1

unfoldable one_line : Conn
unfolding dispatch deliver_stream find_call update_call
one_line = dispatch line start

unfoldable two_calls : Conn
unfolding register
two_calls = register 2 false one_line

unfoldable replied : Conn
unfolding dispatch deliver_response offer find_call update_call
replied = dispatch reply two_calls

unfoldable at_end : Conn
unfolding dispatch deliver_stream find_call update_call
at_end = dispatch last_line replied

unfoldable taken : Conn
unfolding take_frame find_call update_call
taken = elim (take_frame 1 at_end) [ none ↦ at_end | some r ↦ r.1 ]

trace : Steps 1 start (line ∷ last_line ∷ []) (line ∷ []) taken
unfolding dispatch deliver_stream deliver_response offer find_call update_call register take_frame
    accepts start one_line two_calls replied at_end taken
trace = next start one_line taken (line ∷ []) [] (last_line ∷ []) (line ∷ []) (arrives line refl) (
    next one_line two_calls taken [] [] (last_line ∷ []) (line ∷ []) (opens 2 false refl) (
      next two_calls replied taken [] [] (last_line ∷ []) (line ∷ []) (arrives reply refl) (
        next replied at_end taken (last_line ∷ []) [] [] (line ∷ []) (arrives last_line refl) (
          next at_end taken taken [] (line ∷ []) [] [] (takes 1 line taken refl)
            (finished taken)))))

steps-content_example :
    (line ∷ content 1 taken ≡ line ∷ last_line ∷ [])
    × (taken.closed ≡ false → content 1 (shutdown "lost" taken) ≡ left_over 1 "lost" taken)
unfolding content find_call start
steps-content_example = steps-content 1 start taken (line ∷ last_line ∷ []) (line ∷ []) "lost" trace

rest_of_stream : content 1 taken ≡ last_line ∷ []
unfolding content find_call taken at_end replied two_calls start one_line
rest_of_stream = refl

-- Tokyo connects, connects again while its first connection is still open, and Osaka connects.
abbrev tokyo : Serving
tokyo = register_one 0 (arrive "tokyo" idle_hub)

abbrev tokyo_again : Serving
tokyo_again = register_one 1 (arrive "tokyo" tokyo)

abbrev osaka_too : Serving
osaka_too = register_one 2 (arrive "osaka" tokyo_again)

abbrev at_rest : Serving
at_rest = close_one 0 osaka_too

evaluates_hub : Unit {0}
unfolding new_hub accept_conn register_conn previous_conn close_conn update_conn get lookup_conn
    delete_conn new_conn shutdown
evaluates_hub = tt

two_open :
    ((osaka_too.hub.sockets 0).closed ≡ false)
    × (osaka_too.closing 0 ≡ true)
    × ((at_rest.hub.sockets 0).closed ≡ true)
unfolding evaluates_hub
two_open = (refl, refl, refl)

arrivals : HubSteps idle_hub at_rest
unfolding evaluates_hub
arrivals =
    goes_on idle_hub osaka_too at_rest
      (goes_on idle_hub (arrive "osaka" tokyo_again) osaka_too
        (goes_on idle_hub tokyo_again (arrive "osaka" tokyo_again)
          (goes_on idle_hub (arrive "tokyo" tokyo) tokyo_again
            (goes_on idle_hub tokyo (arrive "tokyo" tokyo)
              (goes_on idle_hub (arrive "tokyo" idle_hub) tokyo
                (goes_on idle_hub idle_hub (arrive "tokyo" idle_hub) (stays idle_hub)
                  (connects "tokyo"))
                (registers 0 refl))
              (connects "tokyo"))
            (registers 1 refl))
          (connects "osaka"))
        (registers 2 refl))
      (closes 0 refl)

run-IsCurrent_example :
    (get (node_of 1 at_rest.hub) at_rest.hub ≡ some 1)
    × (get (node_of 2 at_rest.hub) at_rest.hub ≡ some 2)
    × (str_eq (node_of 1 at_rest.hub) (node_of 2 at_rest.hub) ≡ (1 == 2))
unfolding evaluates_hub
run-IsCurrent_example =
    run-IsCurrent at_rest 1 2 arrivals
      (record { accepted = omega arith; is_open = refl; settled = refl })
      (record { accepted = omega arith; is_open = refl; settled = refl })
