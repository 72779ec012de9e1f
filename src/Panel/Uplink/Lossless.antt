-- ===== src/Panel/Uplink/Lossless.antt =====
-- What happens to one channel over any steps of a connection.
use ladder_airport.Base.{
  ◌==◌, if◌then◌else◌, Bool-cases, Option-cases, ℕ, String, ◌≡◌, refl, sym, ap, ◌∙◌, subst, ◌⊎◌,
  inl, inr, Bool, false, ◌&&◌, Option, none, some, List, [], ◌∷◌, ◌++◌, append_assoc, append-nil,
  arith,
}
use ladder_airport.Panel.Uplink.Fifo.{
  find-update_call, content, accepts, others-content, own-stream, own-response, others-response,
}
use ladder_airport.Panel.Uplink.{
  FrameType, Frame, PendingCall, Conn, offer, register, find_call, update_call, end_call,
  unregister, is_open, deliver_response, room_in, deliver_stream, dispatch, queue_in, waiting,
  still_waiting, set_queue, take_frame, closed_error, unavailable, fail_each, shutdown, request,
  response, stream, cancel, report, unknown,
}

accepts-other : (id : ℕ) (f : Frame) (c : Conn) → (f.id == id) ≡ false → accepts id f c ≡ []
unfolding accepts
accepts-other id f c ne = ground (arith, ne)

-- What is proved for the frame's own channel and for the others, for one way to deliver it.
any-content :
    (id : ℕ) (f : Frame) (c c' : Conn)
    → content f.id c' ≡ content f.id c ++ accepts f.id f c
    → ((f.id == id) ≡ false → content id c' ≡ content id c)
    → content id c' ≡ content id c ++ accepts id f c
any-content id f c c' own others = elim (Bool-cases (f.id == id)) [
  | inl same ↦
      let is : f.id ≡ id = ground (arith, same) in
      subst (λ i. content i c' ≡ content i c ++ accepts i f c) is own
  | inr ne ↦
      others ne
      ∙ sym (append-nil (content id c))
      ∙ ap (λ xs. content id c ++ xs) (sym (accepts-other id f c ne))
]

-- A frame of another type is no frame of a channel.
no-content :
    (id : ℕ) (f : Frame) (c c' : Conn)
    → content id c' ≡ content id c
    → accepts id f c ≡ []
    → content id c' ≡ content id c ++ accepts id f c
no-content id f c c' same none_added =
    same ∙ sym (append-nil (content id c)) ∙ ap (λ xs. content id c ++ xs) (sym none_added)

dispatch-content :
    (id : ℕ) (f : Frame) (c : Conn)
    → c.sending ≡ none
    → content id (dispatch f c) ≡ content id c ++ accepts id f c
dispatch-content id f c idle = go f.type refl
  where
    same_reply : f.type ≡ response → deliver_response f c ≡ dispatch f c
    same_reply is = unfold dispatch in (ground (arith, is))

    same_conn : f.type ≡ stream → deliver_stream f c ≡ dispatch f c
    same_conn is = unfold dispatch in (ground (arith, is))

    Goal : Type 0
    Goal = content id (dispatch f c) ≡ content id c ++ accepts id f c

    go : (t : FrameType) → f.type ≡ t → Goal
    go stream is =
        subst (λ x. content id x ≡ content id c ++ accepts id f c) (same_conn is)
          (any-content id f c (deliver_stream f c) (own-stream f c is idle)
            (λ ne. others-content f c id ne idle))
    go response is =
        subst (λ x. content id x ≡ content id c ++ accepts id f c) (same_reply is)
          (any-content id f c (deliver_response f c) (own-response f c is idle)
            (others-response f c id))
    go report is =
        no-content id f c (dispatch f c) (unfold dispatch content in (ground (arith, is)))
          (unfold accepts in (ground (arith, is)))
    go request is =
        no-content id f c (dispatch f c) (unfold dispatch in (ground (arith, is)))
          (unfold accepts in (ground (arith, is)))
    go cancel is =
        no-content id f c (dispatch f c) (unfold dispatch in (ground (arith, is)))
          (unfold accepts in (ground (arith, is)))
    go unknown is =
        no-content id f c (dispatch f c) (unfold dispatch in (ground (arith, is)))
          (unfold accepts in (ground (arith, is)))

after_take : ℕ → List Frame → Conn → Conn
after_take id fs c = record c {
  calls = update_call id (set_queue (fs ++ waiting id c.sending)) c.calls;
  sending = still_waiting id c.sending;
}

take-eq :
    (id : ℕ) (g : Frame) (fs : List Frame) (c : Conn)
    → queue_in (find_call id c.calls) ≡ g ∷ fs
    → take_frame id c ≡ some (g, after_take id fs c)
unfolding take_frame after_take
take-eq id g fs c e = ground (arith, e)

waiting-still :
    (id j : ℕ) (s : Option Frame) → (id == j) ≡ false → waiting j (still_waiting id s) ≡ waiting j s
waiting-still id j none ne = refl
waiting-still id j (some f) ne = ground (arith, ne)

waiting-none : (id : ℕ) (s : Option Frame) → waiting id (still_waiting id s) ≡ []
waiting-none id none = refl
waiting-none id (some f) = ground arith

after_take-own :
    (id : ℕ) (g : Frame) (fs : List Frame) (c : Conn) (call : PendingCall)
    → find_call id c.calls ≡ some call
    → call.queue ≡ g ∷ fs
    → g ∷ content id (after_take id fs c) ≡ content id c
unfolding content after_take
after_take-own id g fs c call found q = ground (
  arith,
  found,
  q,
  find-update_call id id (set_queue (fs ++ waiting id c.sending)) c.calls (λ x. refl),
  waiting-none id c.sending,
  append-nil (fs ++ waiting id c.sending),
)

after_take-other :
    (id j : ℕ) (fs : List Frame) (c : Conn)
    → (id == j) ≡ false
    → content j (after_take id fs c) ≡ content j c
unfolding content after_take
after_take-other id j fs c ne = ground (
  arith,
  ne,
  find-update_call id j (set_queue (fs ++ waiting id c.sending)) c.calls (λ x. refl),
  waiting-still id j c.sending ne,
)

take-content :
    (id j : ℕ) (f : Frame) (c c' : Conn)
    → take_frame id c ≡ some (f, c')
    → (if id == j then f ∷ [] else []) ++ content j c' ≡ content j c
take-content id j f c c' took = go (Option-cases (find_call id c.calls))
  where
    Goal : Type 0
    Goal = (if id == j then f ∷ [] else []) ++ content j c' ≡ content j c

    taken :
        (g : Frame) (fs : List Frame) (call : PendingCall)
        → find_call id c.calls ≡ some call
        → call.queue ≡ g ∷ fs
        → Goal
    taken g fs call found q =
        let eq = take-eq id g fs c (ap queue_in found ∙ q) in
        let f_is : g ≡ f = cc (eq, took) in
        let c_is : after_take id fs c ≡ c' = cc (eq, took) in
        subst (λ x. (if id == j then f ∷ [] else []) ++ content j x ≡ content j c) c_is
          (elim (Bool-cases (id == j)) [
            | inl same ↦
                let j_is : id ≡ j = ground (arith, same) in
                let own : f ∷ content id (after_take id fs c) ≡ content id c =
                  subst (λ x. x ∷ content id (after_take id fs c) ≡ content id c) f_is
                    (after_take-own id g fs c call found q) in
                ground (
                  arith,
                  same,
                  subst (λ k. f ∷ content k (after_take id fs c) ≡ content k c) j_is own,
                )
            | inr ne ↦ ground (arith, ne, after_take-other id j fs c ne)
          ])

    queued :
        (q : List Frame) (call : PendingCall)
        → find_call id c.calls ≡ some call
        → call.queue ≡ q
        → Goal
    queued [] call found q = absurd (unfold take_frame in (ground (arith, found, q, took)))
    queued (g ∷ fs) call found q = taken g fs call found q

    go :
        (find_call id c.calls ≡ none) ⊎ ((call : PendingCall) × (find_call id c.calls ≡ some call))
        → Goal
    go (inl missing) = absurd (unfold take_frame in (ground (arith, missing, took)))
    go (inr (call, found)) = queued call.queue call found refl

register-content :
    (j id : ℕ) (is_stream : Bool) (c : Conn)
    → (j == id) ≡ false
    → content id (register j is_stream c) ≡ content id c
unfolding content register find_call
register-content j id is_stream c ne = ground (arith, ne)

unregister-content : (j id : ℕ) (c : Conn) → content id (unregister j c) ≡ content id c
unfolding content unregister
unregister-content j id c = ground (arith, find-update_call j id end_call c.calls (λ x. refl))

-- A step of the connection but its shutdown, with the frame that arrives or that a caller takes. The
-- reader takes no frame while one waits; calls are opened with ids other than `id`.
pub data Step (id : ℕ) (c : Conn) : List Frame → List Frame → Conn → Type 0 where
  arrives : (f : Frame) → c.sending ≡ none → Step id c (accepts id f c) [] (dispatch f c)
  takes :
      (j : ℕ) (f : Frame) (c' : Conn)
      → take_frame j c ≡ some (f, c')
      → Step id c [] (if j == id then f ∷ [] else []) c'
  opens : (j : ℕ) (is_stream : Bool) → (j == id) ≡ false → Step id c [] [] (register j is_stream c)
  gives_up : (j : ℕ) → Step id c [] [] (unregister j c)

step-content :
    (id : ℕ) (c c' : Conn) (came went : List Frame)
    → Step id c came went c'
    → went ++ content id c' ≡ content id c ++ came
step-content id c _ _ _ (arrives f idle) = dispatch-content id f c idle
step-content id c _ _ _ (takes j f c' took) =
    take-content j id f c c' took ∙ sym (append-nil (content id c))
step-content id c _ _ _ (opens j is_stream ne) =
    register-content j id is_stream c ne ∙ sym (append-nil (content id c))
step-content id c _ _ _ (gives_up j) = unregister-content j id c ∙ sym (append-nil (content id c))

pub data Steps (id : ℕ) : Conn → List Frame → List Frame → Conn → Type 0 where
  finished : (c : Conn) → Steps id c [] [] c
  next :
      (c c' c'' : Conn) (came went more_came more_went : List Frame)
      → Step id c came went c'
      → Steps id c' more_came more_went c''
      → Steps id c (came ++ more_came) (went ++ more_went) c''

all_steps :
    (id : ℕ) (c c' : Conn) (came went : List Frame)
    → Steps id c came went c'
    → went ++ content id c' ≡ content id c ++ came
all_steps id c _ _ _ (finished _) = sym (append-nil (content id c))
all_steps id c c'' _ _ (next _ c' _ came went more_came more_went s ss) =
    append_assoc went more_went (content id c'')
    ∙ ap (λ xs. went ++ xs) (all_steps id c' c'' more_came more_went ss)
    ∙ sym (append_assoc went (content id c') more_came)
    ∙ ap (λ xs. xs ++ more_came) (step-content id c c' came went s)
    ∙ append_assoc (content id c) came more_came

find-fail_each :
    (id : ℕ) (e : String) (calls : List PendingCall)
    → queue_in (find_call id (fail_each e calls))
      ≡ queue_in (find_call id calls)
        ++ (if is_open (find_call id calls) && room_in (find_call id calls)
            then unavailable e ∷ []
            else [])
unfolding find_call fail_each offer
find-fail_each id e [] = refl
find-fail_each id e (call ∷ calls) =
    ground (arith, find-fail_each id e calls, append-nil call.queue)

-- What a shutdown leaves in the channel of an id: what the channel holds, and the error if the call
-- is pending and there is room.
pub left_over : ℕ → String → Conn → List Frame
left_over id e c =
    queue_in (find_call id c.calls)
    ++ (if is_open (find_call id c.calls) && room_in (find_call id c.calls)
        then unavailable (closed_error e) ∷ []
        else [])

shutdown-content :
    (id : ℕ) (e : String) (c : Conn)
    → c.closed ≡ false
    → content id (shutdown e c) ≡ left_over id e c
unfolding content shutdown left_over
shutdown-content id e c is_open = ground (
  arith,
  is_open,
  find-fail_each id (closed_error e) c.calls,
  append-nil (queue_in (find_call id (fail_each (closed_error e) c.calls))),
)

-- Over any steps of a connection, of all its calls in any order and without a shutdown among them:
-- what the caller of one id has taken, and then what it can still take, are the frames that it could
-- take before and then those that arrived for it, in order. A stream frame of a pending call counts
-- always; a reply counts where the channel has room. If the connection, which is still open, is then
-- shut down, the caller can still take what its channel holds, and behind it the error if its call is
-- pending and there is room; a frame that waits for the channel is gone.
pub steps-content :
    (id : ℕ) (c c' : Conn) (came went : List Frame) (e : String)
    → Steps id c came went c'
    → (went ++ content id c' ≡ content id c ++ came)
      × (c'.closed ≡ false → content id (shutdown e c') ≡ left_over id e c')
steps-content id c c' came went e ss = (all_steps id c c' came went ss, shutdown-content id e c')
