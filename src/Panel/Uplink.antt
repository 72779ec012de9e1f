-- ===== src/Panel/Uplink.antt =====
-- The panel's end of the connection to an agent, panel/internal/uplinkhub/conn.go with the frames of
-- pkg/uplinkws/protocol.go: calls and streams that share one connection, told apart by the frame id.
-- A step is what happens under one lock; the one reader stands still while a stream's channel is full.
pub mod Hub
pub mod Registry
pub mod Current
pub mod Fifo
pub mod Lossless
mod Tests
use Prim.Native.String.{◌++◌ as concat}
use ladder_airport.Base.{
  ltb, ◌==◌, if◌then◌else◌, length, Result, err, ok, ℕ, ◌+◌, ◌%◌, ◌^◌, String, Bool, true, false,
  not, ◌||◌, Option, none, some, List, [], ◌∷◌, ◌++◌, str_eq,
}

pub data FrameType : Type 0 where
  request response stream cancel report unknown : FrameType

pub record WireError : Type 0 where
  pub code : ℕ
  pub message : String

pub record Frame : Type 0 where
  pub type : FrameType
  pub id : ℕ
  pub method : String
  pub payload : String
  pub error : Option WireError
  pub eof : Bool

-- A request in flight: `queue` is its channel, and `pending` says whether the connection's map still
-- has it; the caller keeps the channel after that.
pub record PendingCall : Type 0 where
  pub id : ℕ
  pub is_stream : Bool
  pub pending : Bool
  pub queue : List Frame

-- `sending` is the stream frame that the reader waits to put into its full channel, `written` are the
-- frames sent to the agent, newest first.
pub record Conn : Type 0 where
  pub node_id : String
  pub next_id : ℕ
  pub calls : List PendingCall
  pub closed : Bool
  pub close_err : String
  pub sending : Option Frame
  pub written : List Frame
  pub reports : List String

unfoldable pub new_conn : String → Conn
new_conn node_id = record {
  node_id = node_id;
  next_id = 0;
  calls = [];
  closed = false;
  close_err = "";
  sending = none;
  written = [];
  reports = [];
}

-- The capacity of a call's channel.
abbrev pub depth : Bool → ℕ
depth true = 64
depth false = 1

abbrev pub has_room : PendingCall → Bool
has_room call = ltb (length call.queue) (depth call.is_stream)

abbrev pub push : Frame → PendingCall → PendingCall
push f call = record call { queue = call.queue ++ f ∷ [] }

-- A send that drops the frame when the channel is full.
unfoldable pub offer : Frame → PendingCall → PendingCall
offer f call = if has_room call then push f call else call

unfoldable pub register : ℕ → Bool → Conn → Conn
register id is_stream c = record c {
  calls = record { id = id; is_stream = is_stream; pending = true; queue = [] } ∷ c.calls;
}

-- The newest call with an id; ids are not used twice before they wrap.
unfoldable pub find_call : ℕ → List PendingCall → Option PendingCall
find_call id [] = none
find_call id (call ∷ calls) =
    let rest = find_call id calls in if call.id == id then some call else rest

unfoldable pub update_call : ℕ → (PendingCall → PendingCall) → List PendingCall → List PendingCall
update_call id f [] = []
update_call id f (call ∷ calls) =
    let rest = update_call id f calls in if call.id == id then f call ∷ calls else call ∷ rest

abbrev pub end_call : PendingCall → PendingCall
end_call call = record call { pending = false }

unfoldable pub unregister : ℕ → Conn → Conn
unregister id c = record c { calls = update_call id end_call c.calls }

abbrev pub is_open : Option PendingCall → Bool
is_open none = false
is_open (some call) = call.pending

-- A reply ends its call; a second one for the same id finds no call.
unfoldable pub deliver_response : Frame → Conn → Conn
deliver_response f c =
    if is_open (find_call f.id c.calls)
    then record c { calls = update_call f.id (λ call. end_call (offer f call)) c.calls }
    else c

abbrev has_error : Option WireError → Bool
has_error none = false
has_error (some _) = true

abbrev pub ends : Frame → Bool
ends f = f.eof || has_error f.error

abbrev pub end_if : Bool → PendingCall → PendingCall
end_if true call = end_call call
end_if false call = call

abbrev pub room_in : Option PendingCall → Bool
room_in none = false
room_in (some call) = has_room call

-- A stream frame: without a call it is dropped, and with a full channel the reader waits; the last
-- frame of a stream ends the call before it is put into the channel.
unfoldable pub deliver_stream : Frame → Conn → Conn
deliver_stream f c =
    if not (is_open (find_call f.id c.calls))
    then c
    else if room_in (find_call f.id c.calls)
    then record c { calls = update_call f.id (λ call. end_if (ends f) (push f call)) c.calls }
    else record c { calls = update_call f.id (end_if (ends f)) c.calls; sending = some f }

unfoldable pub dispatch : Frame → Conn → Conn
dispatch f c = elim f.type [
  | report ↦ record c { reports = f.payload ∷ c.reports }
  | response ↦ deliver_response f c
  | stream ↦ deliver_stream f c
  | _ ↦ c
]

abbrev pub queue_in : Option PendingCall → List Frame
queue_in none = []
queue_in (some call) = call.queue

-- What waits for the channel of an id, and what waits for another.
abbrev pub waiting : ℕ → Option Frame → List Frame
waiting id none = []
waiting id (some f) = if f.id == id then f ∷ [] else []

abbrev pub still_waiting : ℕ → Option Frame → Option Frame
still_waiting id none = none
still_waiting id (some f) = if f.id == id then none else some f

abbrev pub set_queue : List Frame → PendingCall → PendingCall
set_queue q call = record call { queue = q }

-- The caller takes the next frame of its channel; a frame that waits for it moves up.
unfoldable pub take_frame : ℕ → Conn → Option (Frame × Conn)
take_frame id c = elim (queue_in (find_call id c.calls)) [
  | [] ↦ none
  | f ∷ fs ↦ some (
    f,
    record c {
      calls = update_call id (set_queue (fs ++ waiting id c.sending)) c.calls;
      sending = still_waiting id c.sending;
    },
  )
]

-- A frame is sent, if the socket takes it.
unfoldable pub write_frame : Option String → Frame → Conn → Option String × Conn
write_frame none f c = (none, record c { written = f ∷ c.written })
write_frame (some e) f c = (some e, c)

abbrev pub request_frame : ℕ → String → String → Frame
request_frame id method payload = record {
  type = request;
  id = id;
  method = method;
  payload = payload;
  error = none;
  eof = false;
}

abbrev pub closed_error : String → String
closed_error e = if str_eq e "" then "uplink 连接已关闭" else e

-- The start of `call` and of `openStream`; `fault` is that of the write. A failed write unregisters.
unfoldable pub open_call : Option String → Bool → String → String → Conn → Result ℕ × Conn
open_call fault is_stream method payload c =
    let id = (c.next_id + 1) % 2 ^ 64 in
    if c.closed
    then (err (closed_error c.close_err), c)
    else (let (failure, c') =
          write_frame fault (request_frame id method payload)
            (register id is_stream (record c { next_id = id })) in
        elim failure [ none ↦ (ok id, c') | some e ↦ (err e, unregister id c') ])

-- A caller that gives up: the call is unregistered and the agent is told, if the socket takes it.
unfoldable pub abandon : Option String → ℕ → Conn → Conn
abandon fault id c =
    (write_frame fault
      (record { type = cancel; id = id; method = ""; payload = ""; error = none; eof = false })
      (unregister id c)).1

abbrev pub unavailable : String → Frame
unavailable message = record {
  type = response;
  id = 0;
  method = "";
  payload = "";
  error = some (record { code = 14; message = message });
  eof = false;
}

unfoldable pub fail_each : String → List PendingCall → List PendingCall
fail_each e [] = []
fail_each e (call ∷ calls) =
    let rest = fail_each e calls in
    (if call.pending then end_call (offer (unavailable e) call) else call) ∷ rest

-- Only the first shutdown counts; it fails every pending call and frees the reader.
unfoldable pub shutdown : String → Conn → Conn
shutdown e c = if c.closed then c else record c {
  closed = true;
  close_err = closed_error e;
  calls = fail_each (closed_error e) c.calls;
  sending = none;
}
