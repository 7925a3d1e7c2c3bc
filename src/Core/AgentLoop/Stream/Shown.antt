-- ===== src/Core/AgentLoop/Stream/Shown.antt =====
-- `collect_stream_events` of crates/visp-core/src/agent_loop.rs as a whole: an answer as it is shown and
-- as it is kept, and what an image in it does.
use visp.Base.{ℕ, append-nil, ◌≡◌, refl, ◌∙◌, Option, none, some, ◌∷◌, ◌++◌, Text, ap, append_assoc}
use visp.Core.Session.{SessionStore}
use visp.Core.AgentLoop.Events.{chat_image_block, text_delta, image_block}
use visp.Core.AgentLoop.World.{Outside, Loop, World, Action, bound, send_event}
use visp.Core.AgentLoop.Stream.{StreamOutput, give, image_marker, on_event}
use visp.Core.AgentLoop.Stream.Collects.{
  text_part, SentBy, send_event-SentBy, shown-snoc, shown_text, shown_thinking, Added,
}

module _ {C S : Type 0} (st : SessionStore C S) (out : Outside C) (l : Loop C) where
  abbrev AddsTo : Text → StreamOutput → Action S StreamOutput → Type 0
  AddsTo base o go = (w : World S) → o.thinking_baseline ≡ base → Added st out l o w (go w)

  -- The answer is what was shown since `w`.
  abbrev pub AsShown : World S → Option StreamOutput × World S → Type 0
  AsShown w (none, w') = Unit
  AsShown w (some o, w') =
      (shown_text w'.sent ≡ shown_text w.sent ++ o.text_buffer)
      × (shown_thinking w'.sent ≡ shown_thinking w.sent ++ o.thinking_baseline)

module _ {C S : Type 0} (st : SessionStore C S) (out : Outside C) (l : Loop C) where
  -- The receiver has had the text twice after `before`, and the answer is the marker alone.
  abbrev pub Repeats : Text → Text → Text → Option StreamOutput × World S → Type 0
  Repeats before answer marker (none, w') = Unit
  Repeats before answer marker (some o, w') =
      (shown_text w'.sent ≡ before ++ (answer ++ answer)) × (o.text_buffer ≡ marker)

  image-Repeats :
      (before answer marker path mime_type : Text) (remote_url : Option Text) (o : StreamOutput)
      (w : World S) (r : Option (Unit {0}) × World S)
      → shown_text w.sent ≡ before ++ (answer ++ answer)
      → SentBy st out l (image_block path mime_type remote_url) w r
      → Repeats before answer marker
          (bound (λ _. give st out l (record o { text_buffer = marker })) r)
  image-Repeats before answer marker path mime_type remote_url o w (none, w') h e = tt
  image-Repeats before answer marker path mime_type remote_url o w (some _, w') h e = (
    ap shown_text e
        ∙ shown-snoc text_part w.sent (image_block path mime_type remote_url)
        ∙ append-nil (shown_text w.sent)
        ∙ h,
    refl,
  )

  flushed-Repeats :
      (before answer marker path mime_type : Text) (remote_url : Option Text) (o : StreamOutput)
      (w : World S) (r : Option (Unit {0}) × World S)
      → shown_text w.sent ≡ before ++ answer
      → SentBy st out l (text_delta answer) w r
      → Repeats before answer marker (
          bound
            (λ _ u.
              bound
                (λ _. give st out l (record o { text_buffer = marker }))
                (send_event st out l (image_block path mime_type remote_url) u))
            r)
  flushed-Repeats before answer marker path mime_type remote_url o w (none, w') h e = tt
  flushed-Repeats before answer marker path mime_type remote_url o w (some _, w') h e =
      image-Repeats before answer marker path mime_type remote_url o w'
        (send_event st out l (image_block path mime_type remote_url) w')
        (ap shown_text e
          ∙ shown-snoc text_part w.sent (text_delta answer)
          ∙ ap (λ s. s ++ answer) h
          ∙ append_assoc before answer answer)
        (send_event-SentBy st out l (image_block path mime_type remote_url) w')

-- An image behind a text of the answer that was shown: if the loop goes on, the receiver has the text a
-- second time, and what is kept of the answer is the marker of the image without the text.
pub text_shown_twice :
    {C S : Type 0} (st : SessionStore C S) (out : Outside C) (l : Loop C) (o : StreamOutput) (c : ℕ)
    (s before path mime_type : Text) (remote_url : Option Text) (w : World S)
    → shown_text w.sent ≡ before ++ c ∷ s
    → Repeats st out l before (c ∷ s) (image_marker path remote_url) (
        on_event st out l
          (chat_image_block path mime_type remote_url)
          (record o { text_buffer = c ∷ s })
          w)
unfolding on_event
text_shown_twice st out l o c s before path mime_type remote_url w h =
    flushed-Repeats st out l before (c ∷ s) (image_marker path remote_url) path mime_type remote_url
      o w (send_event st out l (text_delta (c ∷ s)) w) h
      (send_event-SentBy st out l (text_delta (c ∷ s)) w)
