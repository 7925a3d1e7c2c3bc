-- ===== src/Core/AgentLoop/Stream/Collects.antt =====
-- What reaches the user of an answer's stream, and what is kept of it
-- (crates/visp-core/src/agent_loop.rs).
use visp.Base.{
  ◌≡◌, refl, sym, ◌∙◌, ap, inl, inr, Option, none, some, List, [], ◌∷◌, ◌++◌, Text, append_assoc,
  append-nil, subst, arith, Option-cases, if_both,
}
use visp.Core.Session.{SessionStore}
use visp.Core.AgentLoop.Events.{
  AgentEvent, ChatEvent, chat_text_delta, chat_tool_call, chat_thinking_block, chat_usage_info,
  chat_usage_delta, chat_output_metadata, chat_image_block, chat_image_error, chat_done, text_delta,
  thinking_delta, usage_delta, image_error, event_to_msg,
}
use visp.Core.AgentLoop.Marker.{strip_prefix}
use visp.Core.AgentLoop.World.{
  Outside, Loop, World, Item, event, failing, Action, bound, await, send_event, forward,
}
use visp.Core.AgentLoop.Stream.{
  StreamOutput, thinking_increment, or_empty, give, send_unless_empty, on_event,
}

abbrev pub text_part : AgentEvent → Text
text_part (text_delta s) = s
text_part _ = []

abbrev pub thinking_part : AgentEvent → Text
thinking_part (thinking_delta s) = s
thinking_part _ = []

-- What a receiver shows that appends each delta of the answer, and each of the thinking.
abbrev pub shown : (AgentEvent → Text) → List AgentEvent → Text
shown part [] = []
shown part (e ∷ es) = part e ++ shown part es

abbrev pub shown_text : List AgentEvent → Text
shown_text = shown text_part

abbrev pub shown_thinking : List AgentEvent → Text
shown_thinking = shown thinking_part

pub shown-snoc :
    (part : AgentEvent → Text) (es : List AgentEvent) (e : AgentEvent)
    → shown part (es ++ e ∷ []) ≡ shown part es ++ part e
shown-snoc part [] e = append-nil (part e)
shown-snoc part (d ∷ es) e =
    ap (λ s. part d ++ s) (shown-snoc part es e)
    ∙ sym (append_assoc (part d) (shown part es) (part e))

strip_prefix-append : (previous tail : Text) → strip_prefix previous (previous ++ tail) ≡ some tail
unfolding strip_prefix
strip_prefix-append [] tail = refl
strip_prefix-append (c ∷ previous) tail = ground (arith, strip_prefix-append previous tail)

-- A snapshot that goes on the previous one is the previous one with the increment.
pub thinking_increment_lem :
    (previous tail : Text) → thinking_increment previous (previous ++ tail) ≡ tail
unfolding thinking_increment
thinking_increment_lem previous tail =
    rw (strip_prefix-append previous tail, thinking_increment) refl

module _ {C S : Type 0} (st : SessionStore C S) (out : Outside C) (l : Loop C) where
  -- The stream has no images, and each snapshot of the thinking goes on the one before.
  abbrev pub Grows : Text → ChatEvent → Text → Type 0
  Grows base (chat_image_block path mime_type remote_url) next = ⊥
  Grows base (chat_thinking_block block) next =
      (or_empty (out.thinking_of block) ≡ next) × ((tail : Text) × (next ≡ base ++ tail))
  Grows base _ next = next ≡ base

  abbrev pub IsPlain : Text → List Item → Type 0
  IsPlain base [] = Unit
  IsPlain base (failing e ∷ items) = Unit
  IsPlain base (event e ∷ items) = (next : Text) × Grows base e next × IsPlain next items

  abbrev pub SentBy : AgentEvent → World S → Option (Unit {0}) × World S → Type 0
  SentBy e w (none, w') = Unit
  SentBy e w (some _, w') = w'.sent ≡ w.sent ++ e ∷ []

  forward-sent :
      (e : AgentEvent) (w : World S) → (forward st out l (event_to_msg e) w).sent ≡ w.sent
  unfolding await
  forward-sent e w = elim (Option-cases (event_to_msg e)) [
    | inl n ↦ rw n refl
    | inr (msg, n) ↦ rw n (if_both (λ (u : World S). u.sent ≡ w.sent) l.has_global_tx refl refl)
  ]

  pub send_event-SentBy : (e : AgentEvent) (w : World S) → SentBy e w (send_event st out l e w)
  unfolding send_event await
  send_event-SentBy e w =
      let before = forward st out l (event_to_msg e) w in
      if_both (SentBy e w) (out.receives before.now) (ap (λ es. es ++ e ∷ []) (forward-sent e w)) tt

  -- What was added to the answer is what was shown of it since.
  abbrev pub Added : StreamOutput → World S → Option StreamOutput × World S → Type 0
  Added o w (none, w') = Unit
  Added o w (some o', w') =
      ((t : Text) × (o'.text_buffer ≡ o.text_buffer ++ t)
        × (shown_text w'.sent ≡ shown_text w.sent ++ t))
      × ((t : Text) × (o'.thinking_baseline ≡ o.thinking_baseline ++ t)
          × (shown_thinking w'.sent ≡ shown_thinking w.sent ++ t))

  pub Added-nothing :
      (o o' : StreamOutput) (w : World S)
      → o'.text_buffer ≡ o.text_buffer
      → o'.thinking_baseline ≡ o.thinking_baseline
      → Added o w (some o', w)
  Added-nothing o o' w e f = (
    ([], e ∙ sym (append-nil o.text_buffer), sym (append-nil _)),
    ([], f ∙ sym (append-nil o.thinking_baseline), sym (append-nil _)),
  )

  sent-Added :
      (e : AgentEvent) (o o' : StreamOutput) (w : World S) (r : Option (Unit {0}) × World S)
      → o'.text_buffer ≡ o.text_buffer ++ text_part e
      → o'.thinking_baseline ≡ o.thinking_baseline ++ thinking_part e
      → SentBy e w r
      → Added o w (bound (λ _. give st out l o') r)
  sent-Added e o o' w (none, w') p q h = tt
  sent-Added e o o' w (some _, w') p q h = (
    (text_part e, p, ap shown_text h ∙ shown-snoc text_part w.sent e),
    (thinking_part e, q, ap shown_thinking h ∙ shown-snoc thinking_part w.sent e),
  )

  then_Added :
      (o o1 : StreamOutput) (w w1 : World S) (r : Option StreamOutput × World S)
      → Added o w (some o1, w1)
      → Added o1 w1 r
      → Added o w r
  then_Added o o1 w w1 (none, w2) h k = tt
  then_Added o o1 w w1 (some o2, w2) ((t, a, b), (u, c, d)) ((t', a', b'), (u', c', d')) = (
    (
      t ++ t',
      a' ∙ ap (λ s. s ++ t') a ∙ append_assoc o.text_buffer t t',
      b' ∙ ap (λ s. s ++ t') b ∙ append_assoc (shown_text w.sent) t t',
    ),
    (
      u ++ u',
      c' ∙ ap (λ s. s ++ u') c ∙ append_assoc o.thinking_baseline u u',
      d' ∙ ap (λ s. s ++ u') d ∙ append_assoc (shown_thinking w.sent) u u',
    ),
  )

  -- The same, where the baseline is known afterwards.
  abbrev pub AddedTo : Text → StreamOutput → World S → Option StreamOutput × World S → Type 0
  AddedTo next o w (none, w') = Unit
  AddedTo next o w (some o', w') = Added o w (some o', w') × (o'.thinking_baseline ≡ next)

  pub bound-Added :
      (next : Text) (o : StreamOutput) (w : World S) (rest : StreamOutput → Action S StreamOutput)
      (r : Option StreamOutput × World S)
      → AddedTo next o w r
      → ((o1 : StreamOutput) (w1 : World S)
          → o1.thinking_baseline ≡ next
          → Added o1 w1 (rest o1 w1))
      → Added o w (bound rest r)
  bound-Added next o w rest (none, w1) h more = tt
  bound-Added next o w rest (some o1, w1) h more =
      then_Added o o1 w w1 (rest o1 w1) h.0 (more o1 w1 h.1)

  given-AddedTo :
      (next : Text) (o o' : StreamOutput) (w : World S) (r : Option (Unit {0}) × World S)
      → o'.thinking_baseline ≡ next
      → Added o w (bound (λ _. give st out l o') r)
      → AddedTo next o w (bound (λ _. give st out l o') r)
  given-AddedTo next o o' w (none, w') e h = tt
  given-AddedTo next o o' w (some _, w') e h = (h, e)

  sent-AddedTo :
      (next : Text) (e : AgentEvent) (o o' : StreamOutput) (w : World S)
      → o'.text_buffer ≡ o.text_buffer ++ text_part e
      → o'.thinking_baseline ≡ o.thinking_baseline ++ thinking_part e
      → o'.thinking_baseline ≡ next
      → AddedTo next o w (bound (λ _. give st out l o') (send_event st out l e w))
  sent-AddedTo next e o o' w p q b =
      given-AddedTo next o o' w (send_event st out l e w) b
        (sent-Added e o o' w (send_event st out l e w) p q (send_event-SentBy e w))

  thought-AddedTo :
      (next tail : Text) (o o' : StreamOutput) (w : World S)
      → o'.text_buffer ≡ o.text_buffer
      → o'.thinking_baseline ≡ next
      → next ≡ o.thinking_baseline ++ tail
      → AddedTo next o w
          (bound (λ _. give st out l o') (send_unless_empty st out l thinking_delta tail w))
  thought-AddedTo next [] o o' w p b e =
      (Added-nothing o o' w p (b ∙ e ∙ append-nil o.thinking_baseline), b)
  thought-AddedTo next (c ∷ tail) o o' w p b e =
      sent-AddedTo next (thinking_delta (c ∷ tail)) o o' w (p ∙ sym (append-nil o.text_buffer))
        (b ∙ e) b

  pub on_event-AddedTo :
      (base next : Text) (e : ChatEvent) (o : StreamOutput) (w : World S)
      → o.thinking_baseline ≡ base
      → Grows base e next
      → AddedTo next o w (on_event st out l e o w)
  unfolding on_event
  on_event-AddedTo base next (chat_text_delta delta) o w b g =
      sent-AddedTo next (text_delta delta) o (record o { text_buffer = o.text_buffer ++ delta }) w
        refl (sym (append-nil o.thinking_baseline)) (b ∙ sym g)
  on_event-AddedTo base next (chat_image_block path mime_type remote_url) o w b g = absurd g
  on_event-AddedTo base next (chat_image_error reason) o w b g =
      sent-AddedTo next (image_error reason) o o w (sym (append-nil o.text_buffer))
        (sym (append-nil o.thinking_baseline)) (b ∙ sym g)
  on_event-AddedTo base next (chat_thinking_block block) o w b (snapshot, (tail, grown)) =
      let o' = record o {
        thinking_blocks = block ∷ [];
        thinking_baseline = or_empty (out.thinking_of block);
      } in
      let whole : next ≡ o.thinking_baseline ++ tail = grown ∙ ap (λ s. s ++ tail) (sym b) in
      let delta : thinking_increment o.thinking_baseline (or_empty (out.thinking_of block)) ≡ tail =
        ap (thinking_increment o.thinking_baseline) (snapshot ∙ whole)
        ∙ thinking_increment_lem o.thinking_baseline tail in
      subst
        (λ s.
          AddedTo next o w
            (bound (λ _. give st out l o') (send_unless_empty st out l thinking_delta s w)))
        (sym delta) (thought-AddedTo next tail o o' w refl snapshot whole)
  on_event-AddedTo base next (chat_usage_info usage tool_calls cost) o w b g =
      (Added-nothing o (record o { usage = usage; cost = cost }) w refl refl, b ∙ sym g)
  on_event-AddedTo base next (chat_usage_delta usage) o w b g =
      sent-AddedTo next (usage_delta usage) o o w (sym (append-nil o.text_buffer))
        (sym (append-nil o.thinking_baseline)) (b ∙ sym g)
  on_event-AddedTo base next (chat_tool_call call) o w b g =
      (Added-nothing o (record o { tool_calls = o.tool_calls ++ call ∷ [] }) w refl refl, b ∙ sym g)
  on_event-AddedTo base next (chat_output_metadata meta) o w b g =
      (Added-nothing o (record o { provider_metadata = some meta }) w refl refl, b ∙ sym g)
  on_event-AddedTo base next chat_done o w b g = (Added-nothing o o w refl refl, b ∙ sym g)
