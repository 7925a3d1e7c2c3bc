-- ===== src/Core/AgentLoop/World/Safe.antt =====
-- The rules for the steps of the loop of crates/visp-core/src/agent_loop.rs: an invariant of the world
-- that the elementary steps keep is kept by every composed one, and what finishing the session
-- establishes holds wherever a step makes the loop return.
use visp.Base.{ℕ, ◌&&◌, ◌++◌, Bool, Option, none, some, List, [], ◌∷◌, Text, if_both}
use visp.Core.Message.{Message}
use visp.Core.Session.{SessionStatus, completed, SessionError, Result, ok, err, SessionStore}
use visp.Core.Session.Manager.{SessionManager, append_message, add_approved_tool}
use visp.Core.AgentLoop.Events.{
  AgentEvent, AgentMessage, AgentErrorCode, error, event_to_msg, user_query, question,
}
use visp.Core.AgentLoop.World.{
  Outside, World, Loop, Action, bound, await, finish, forward, send_event, tell, try_forward, fail,
  fail_anyway, stored, store_message,
}

-- `Inv` holds between the steps, `Failed` where the loop returns with an error, `Done` where it is done,
-- and `Asked` when a question has been sent to the user.
pub record Keeps {C S : Type 0} (st : SessionStore C S) (out : Outside C) (l : Loop C)
    (Inv Failed Done Asked : World S → Type 0) : Type 0 where
  pub awaits : (w : World S) → Inv w → Inv (await st out l w)
  pub sends : (e : AgentEvent) (w : World S) → Inv w → Inv (record w { sent = w.sent ++ e ∷ [] })
  pub forwards :
      (msg : AgentMessage) (w : World S)
      → Inv w
      → Inv (record w { forwarded = w.forwarded ++ msg ∷ [] })
  pub sleeps : (d : ℕ) (w : World S) → Inv w → Inv (record w { slept = w.slept ++ d ∷ [] })
  pub notes : (h : List Message) (w : World S) → Inv w → Inv (record w { history = h })
  pub stores :
      (m : Message) (w : World S)
      → Inv w
      → Inv (record w { sm = (append_message st w.sm l.sid m).1 })
  pub approves :
      (tool : Text) (w : World S)
      → Inv w
      → Inv (record w { sm = (add_approved_tool st w.sm l.sid tool).1 })
  pub finishes : (status : SessionStatus) (w : World S) → Inv w → Inv (finish st out l status w)
  pub fails : (w : World S) → Inv w → Failed (finish st out l SessionStatus.error w)
  pub completes : (w : World S) → Inv w → Done (finish st out l completed w)
  pub asks :
      (id message : Text) (options : List Text) (other : Bool) (w : World S)
      → Inv w
      → Asked (record w { sent = w.sent ++ user_query id message options other question ∷ [] })

module _ {C S : Type 0} {st : SessionStore C S} {out : Outside C} {l : Loop C}
    {Inv Failed Done Asked : World S → Type 0} (k : Keeps st out l Inv Failed Done Asked) where
  -- A step that makes the loop return leaves `Failed`, and one that goes on the invariant and `Q`.
  abbrev pub Post : {A : Type 0} → (A → World S → Type 0) → Option A × World S → Type 0
  Post Q (none, w) = Failed w
  Post Q (some a, w) = Inv w × Q a w

  abbrev pub Goes : {A : Type 0} → Option A × World S → Type 0
  Goes r = Post (λ _ _. Unit {0}) r

  pub bound-Post :
      {A B : Type 0} (Q : A → World S → Type 0) (R : B → World S → Type 0) (f : A → Action S B)
      (r : Option A × World S)
      → Post Q r
      → ((a : A) (w : World S) → Inv w → Q a w → Post R (f a w))
      → Post R (bound f r)
  bound-Post Q R f (none, w) h next = h
  bound-Post Q R f (some a, w) h next = next a w h.0 h.1

  -- The rule for a step of which nothing more is known.
  pub then_Post :
      {A B : Type 0} (R : B → World S → Type 0) (f : A → Action S B) (r : Option A × World S)
      → Goes r
      → ((a : A) (w : World S) → Inv w → Post R (f a w))
      → Post R (bound f r)
  then_Post R f r h next = bound-Post (λ _ _. Unit) R f r h (λ a w v _. next a w v)

  forward-Inv : (o : Option AgentMessage) (w : World S) → Inv w → Inv (forward st out l o w)
  forward-Inv none w v = v
  forward-Inv (some msg) w v =
      if_both (λ (u : World S). Inv u) l.has_global_tx
        (k.awaits (record w { forwarded = w.forwarded ++ msg ∷ [] }) (k.forwards msg w v)) v

  pub tell-Inv : (e : AgentEvent) (w : World S) → Inv w → Inv (tell st out l e w)
  unfolding tell
  tell-Inv e w v =
      if_both (λ (u : World S). Inv u) (out.receives w.now)
        (k.sends e (await st out l w) (k.awaits w v)) (k.awaits w v)

  pub try_forward-Inv :
      (msg : AgentMessage) (w : World S) → Inv w → Inv (try_forward st out l msg w)
  unfolding try_forward
  try_forward-Inv msg w v =
      if_both (λ (u : World S). Inv u) (l.has_global_tx && out.has_room w.now) (k.forwards msg w v)
        v

  sent-Inv :
      (e : AgentEvent) (w : World S)
      → Inv w
      → Inv (await st out l (forward st out l (event_to_msg e) w))
  sent-Inv e w v = k.awaits (forward st out l (event_to_msg e) w) (forward-Inv (event_to_msg e) w v)

  pub send_event-Goes : (e : AgentEvent) (w : World S) → Inv w → Goes (send_event st out l e w)
  unfolding send_event
  send_event-Goes e w v =
      let before = forward st out l (event_to_msg e) w in
      let after = sent-Inv e w v in
      if_both Goes (out.receives before.now) (k.sends e (await st out l before) after, tt)
        (k.fails (await st out l before) after)

  -- The same of a question.
  pub question-Post :
      (id message : Text) (options : List Text) (other : Bool) (w : World S)
      → Inv w
      → Post (λ _ u. Asked u) (send_event st out l (user_query id message options other question) w)
  unfolding send_event
  question-Post id message options other w v =
      let e = user_query id message options other question in
      let before = forward st out l (event_to_msg e) w in
      let after = sent-Inv e w v in
      if_both (Post (λ _ u. Asked u)) (out.receives before.now)
        (
          k.sends e (await st out l before) after,
          k.asks id message options other (await st out l before) after,
        )
        (k.fails (await st out l before) after)

  pub send_event-Inv : (e : AgentEvent) (w : World S) → Inv w → Inv (send_event st out l e w).1
  unfolding send_event
  send_event-Inv e w v =
      let before = forward st out l (event_to_msg e) w in
      let after = sent-Inv e w v in
      if_both (λ (r : Option (Unit {0}) × World S). Inv r.1) (out.receives before.now)
        (k.sends e (await st out l before) after)
        (k.finishes SessionStatus.error (await st out l before) after)

  pub fail-Post :
      {A : Type 0} (Q : A → World S → Type 0) (code : AgentErrorCode) (message : Text) (w : World S)
      → Inv w
      → Post Q (fail st out l code message w)
  unfolding fail
  fail-Post Q code message w v =
      then_Post Q _ (send_event st out l (error code message) w)
        (send_event-Goes (error code message) w v) (λ _ w' v'. k.fails w' v')

  pub fail_anyway-Post :
      {A : Type 0} (Q : A → World S → Type 0) (code : AgentErrorCode) (message : Text) (w : World S)
      → Inv w
      → Post Q (fail_anyway st out l code message w)
  unfolding fail_anyway
  fail_anyway-Post Q code message w v =
      k.fails (send_event st out l (error code message) w).1
        (send_event-Inv (error code message) w v)

  stored-Goes :
      (on_error : SessionError → Action S (Unit {0})) (w : World S)
      (r : Result (Unit {0}) × SessionManager S)
      → Inv (record w { sm = r.1 })
      → ((e : SessionError) (w' : World S) → Inv w' → Goes (on_error e w'))
      → Goes (stored st out l on_error w r)
  stored-Goes on_error w (ok _, sm) v h = (v, tt)
  stored-Goes on_error w (err e, sm) v h = h e (record w { sm = sm }) v

  pub store_message-Goes :
      (m : Message) (on_error : SessionError → Action S (Unit {0})) (w : World S)
      → ((e : SessionError) (w' : World S) → Inv w' → Goes (on_error e w'))
      → Inv w
      → Goes (store_message st out l m on_error w)
  unfolding store_message
  store_message-Goes m on_error w h v =
      stored-Goes on_error w (append_message st w.sm l.sid m) (k.stores m w v) h
