-- ===== src/Panel/Uplink/Fifo.antt =====
-- A channel gives what it got, in order.
use ladder_airport.Base.{
  ◌==◌, if◌then◌else◌, Bool-cases, Option-cases, ℕ, ◌≡◌, sym, ap, ◌∙◌, ◌⊎◌, inl, inr, Bool, true,
  false, ◌&&◌, Option, none, some, List, [], ◌∷◌, ◌++◌, append-nil, arith,
}
use ladder_airport.Panel.Uplink.{
  Frame, PendingCall, Conn, push, offer, find_call, update_call, end_call, is_open,
  deliver_response, ends, end_if, room_in, deliver_stream, queue_in, waiting, response, stream,
}

abbrev map_call : (PendingCall → PendingCall) → Option PendingCall → Option PendingCall
map_call f none = none
map_call f (some call) = some (f call)

pub find-update_call :
    (i j : ℕ) (f : PendingCall → PendingCall) (calls : List PendingCall)
    → ((call : PendingCall) → (f call).id ≡ call.id)
    → find_call j (update_call i f calls)
      ≡ (if i == j then map_call f (find_call i calls) else find_call j calls)
unfolding find_call update_call
find-update_call i j f [] keeps = ground arith
find-update_call i j f (call ∷ calls) keeps =
    ground (arith, keeps call, find-update_call i j f calls keeps)

-- The frames that a caller will still take.
unfoldable pub content : ℕ → Conn → List Frame
content id c = queue_in (find_call id c.calls) ++ waiting id c.sending

-- What an arriving frame adds to the channel of an id: a stream frame of a pending call always, a
-- reply if there is room.
unfoldable pub accepts : ℕ → Frame → Conn → List Frame
accepts id f c =
    if f.id == id && is_open (find_call id c.calls)
    then elim f.type [
      | stream ↦ f ∷ []
      | response ↦ if room_in (find_call id c.calls) then f ∷ [] else []
      | _ ↦ []
    ]
    else []

abbrev ended_push : Frame → PendingCall → PendingCall
ended_push f call = end_if (ends f) (push f call)

queue-ended_push :
    (f : Frame) (call : PendingCall) → (ended_push f call).queue ≡ call.queue ++ f ∷ []
queue-ended_push f call = ground arith

queue-end_if : (b : Bool) (call : PendingCall) → (end_if b call).queue ≡ call.queue
queue-end_if b call = ground arith

id-ended_push : (f : Frame) (call : PendingCall) → (ended_push f call).id ≡ call.id
id-ended_push f call = ground arith

id-end_if : (b : Bool) (call : PendingCall) → (end_if b call).id ≡ call.id
id-end_if b call = ground arith

-- The content of another channel, and of the frame's own.
abbrev content_of : Option PendingCall → ℕ → Option Frame → List Frame
content_of o id s = queue_in o ++ waiting id s

module _ (f : Frame) (c : Conn) where
  deliver_dropped : is_open (find_call f.id c.calls) ≡ false → deliver_stream f c ≡ c
  unfolding deliver_stream
  deliver_dropped shut = ground (arith, shut)

  deliver_pushed :
      is_open (find_call f.id c.calls) ≡ true
      → room_in (find_call f.id c.calls) ≡ true
      → deliver_stream f c ≡ record c { calls = update_call f.id (ended_push f) c.calls }
  unfolding deliver_stream
  deliver_pushed live room = ground (arith, live, room)

  deliver_waits :
      is_open (find_call f.id c.calls) ≡ true
      → room_in (find_call f.id c.calls) ≡ false
      → deliver_stream f c
        ≡ record c { calls = update_call f.id (end_if (ends f)) c.calls; sending = some f }
  unfolding deliver_stream
  deliver_waits live full = ground (arith, live, full)

  own-pushed :
      (call : PendingCall)
      → find_call f.id c.calls ≡ some call
      → c.sending ≡ none
      → content f.id (record c { calls = update_call f.id (ended_push f) c.calls })
        ≡ content f.id c ++ f ∷ []
  unfolding content
  own-pushed call found idle =
      let there_is = find-update_call f.id f.id (ended_push f) c.calls (id-ended_push f) in
      ground (
        arith,
        found,
        idle,
        there_is,
        queue-ended_push f call,
        append-nil (call.queue ++ f ∷ []),
        append-nil call.queue,
      )

  own-waits :
      (call : PendingCall)
      → find_call f.id c.calls ≡ some call
      → c.sending ≡ none
      → content f.id
          (record c { calls = update_call f.id (end_if (ends f)) c.calls; sending = some f })
        ≡ content f.id c ++ f ∷ []
  unfolding content
  own-waits call found idle =
      let there_is = find-update_call f.id f.id (end_if (ends f)) c.calls (id-end_if (ends f)) in
      ground (arith, found, idle, there_is, queue-end_if (ends f) call, append-nil call.queue)

  pub others-content :
      (id : ℕ)
      → (f.id == id) ≡ false
      → c.sending ≡ none
      → content id (deliver_stream f c) ≡ content id c
  unfolding content deliver_stream
  others-content id ne idle = ground (
    arith,
    ne,
    idle,
    find-update_call f.id id (ended_push f) c.calls (id-ended_push f),
    find-update_call f.id id (end_if (ends f)) c.calls (id-end_if (ends f)),
  )

  pub own-stream :
      f.type ≡ stream
      → c.sending ≡ none
      → content f.id (deliver_stream f c) ≡ content f.id c ++ accepts f.id f c
  own-stream is idle = go (Option-cases (find_call f.id c.calls))
    where
      Goal : Type 0
      Goal = content f.id (deliver_stream f c) ≡ content f.id c ++ accepts f.id f c

      nothing : is_open (find_call f.id c.calls) ≡ false → Goal
      nothing shut =
          let none_added : accepts f.id f c ≡ [] = unfold accepts in (ground (arith, shut)) in
          ap (content f.id) (deliver_dropped shut)
          ∙ sym (append-nil (content f.id c))
          ∙ ap (λ xs. content f.id c ++ xs) (sym none_added)

      added : is_open (find_call f.id c.calls) ≡ true → accepts f.id f c ≡ f ∷ []
      added live = unfold accepts in (ground (arith, live, is))

      something :
          (call : PendingCall)
          → find_call f.id c.calls ≡ some call
          → is_open (find_call f.id c.calls) ≡ true
          → (room_in (find_call f.id c.calls) ≡ true) ⊎ (room_in (find_call f.id c.calls) ≡ false)
          → Goal
      something call found live (inl room) =
          ap (content f.id) (deliver_pushed live room)
          ∙ own-pushed call found idle
          ∙ ap (λ xs. content f.id c ++ xs) (sym (added live))
      something call found live (inr full) =
          ap (content f.id) (deliver_waits live full)
          ∙ own-waits call found idle
          ∙ ap (λ xs. content f.id c ++ xs) (sym (added live))

      go :
          (find_call f.id c.calls ≡ none)
            ⊎ ((call : PendingCall) × (find_call f.id c.calls ≡ some call))
          → Goal
      go (inl missing) = nothing (ground (arith, missing))
      go (inr (call, found)) = elim (Bool-cases (is_open (find_call f.id c.calls))) [
        | inl live ↦ something call found live (Bool-cases (room_in (find_call f.id c.calls)))
        | inr shut ↦ nothing shut
      ]

  pub own-response :
      f.type ≡ response
      → c.sending ≡ none
      → content f.id (deliver_response f c) ≡ content f.id c ++ accepts f.id f c
  unfolding content deliver_response accepts offer
  own-response is idle = elim (Option-cases (find_call f.id c.calls)) [
    | inl missing ↦ ground (arith, missing, idle, append-nil {A = Frame} [])
    | inr (call, found) ↦ ground (
      arith,
      found,
      idle,
      is,
      find-update_call f.id f.id (λ x. end_call (offer f x)) c.calls (λ x. ground arith),
      append-nil (call.queue ++ f ∷ []),
      append-nil call.queue,
      append-nil (call.queue ++ []),
    )
  ]

  pub others-response :
      (id : ℕ) → (f.id == id) ≡ false → content id (deliver_response f c) ≡ content id c
  unfolding content deliver_response offer
  others-response id ne =
      ground (
        arith,
        ne,
        find-update_call f.id id (λ x. end_call (offer f x)) c.calls (λ x. ground arith),
      )
