-- ===== src/Queues/Contents.antt =====
-- `IncomingQueues` of src/IncomingQueues.cpp against one queue of events.
use order_processor.Common.{
  ℕ, suc, ◌+◌, ◌-◌, ◌%◌, ◌≡◌, refl, sym, ap, ◌∙◌, Bool, true, false, Option, none, some, is_some,
  List, [], ◌∷◌, ◌++◌, length, length-append, arith, inl, inr, Option-cases, ◌⊎◌, Bool-cases,
  if◌then◌else◌, ltb,
}
use mathlib.Core.List.{append-nil}
use order_processor.Queues.Events.{QueuedEvent, EventQueue, map_rest, first_and_rest}
use order_processor.Queues.Defs.{
  Incoming, size_limit, push_event, top, pop_to, pop, attach, detach, take_next, keep_pending,
  top_by, pop_by, notify,
}
use order_processor.Queues.Spec.{
  Call, pushes, tops, pops_to, pops, attaches, detaches, Reply, quiet, answer, expected_reply,
  expected_events, expected_deletions, expected_replies,
}

module _ (m : EventQueue) where
  open m use {Queue, try_pop, push, items, items-push, items-try_pop}

  unfoldable pub call : Call → Incoming m → Reply × Incoming m
  call (pushes e) s = (quiet, push_event m e s)
  call tops s = let (e, s') = top m s in (answer e, s')
  call pops_to s = let (e, s') = pop_to m s in (answer e, s')
  call pops s = let (b, s') = pop m s in (record { handed = none; success = b }, s')
  call attaches s = (quiet, attach m s)
  call detaches s = (quiet, detach m s)

  abbrev pub with_pending : Option QueuedEvent → List QueuedEvent → List QueuedEvent
  with_pending none es = es
  with_pending (some e) es = e ∷ es

  -- The events that wait, in order.
  abbrev pub contents : Incoming m → List QueuedEvent
  contents s = with_pending s.pending_event (items s.event_queue)

  abbrev pub IsCounted : Incoming m → Type 0
  IsCounted s = s.queue_size ≡ length (contents s) % size_limit

  pub record Agrees (c : Call) (s : Incoming m) (r : Reply × Incoming m) : Type 0 where
    pub reply : r.0 ≡ expected_reply c (contents s)
    pub events : contents r.1 ≡ expected_events c (contents s)
    pub deletions : r.1.deleted ≡ s.deleted ++ expected_deletions c (contents s)
    pub counted : IsCounted r.1

  count_down : (n : ℕ) → (suc n % size_limit + size_limit - 1) % size_limit ≡ n % size_limit
  count_down n = omega arith

  -- What stands in front, where nothing is pending.
  Front : Incoming m → Type 0
  Front s =
      ((try_pop s.event_queue ≡ none) × (items s.event_queue ≡ []))
      ⊎ ((e : QueuedEvent) × (q : Queue) × (try_pop s.event_queue ≡ some (e, q))
          × (items s.event_queue ≡ e ∷ items q))

  front_of :
      (r : Option (QueuedEvent × Queue)) (l : List QueuedEvent)
      → map_rest items r ≡ first_and_rest l
      → ((r ≡ none) × (l ≡ []))
        ⊎ ((e : QueuedEvent) × (q : Queue) × (r ≡ some (e, q)) × (l ≡ e ∷ items q))
  front_of none [] h = inl (refl, refl)
  front_of none (x ∷ xs) h = cc
  front_of (some (e, q)) [] h = cc
  front_of (some (e, q)) (x ∷ xs) h = inr (e, q, refl, ground (arith, h))

  front : (s : Incoming m) → Front s
  unfolding Front
  front s = front_of (try_pop s.event_queue) (items s.event_queue) (items-try_pop s.event_queue)

  module _ (s : Incoming m) where
    top_pending : (e : Option QueuedEvent) → s.pending_event ≡ e → top m s ≡ top_by m s e
    unfolding top
    top_pending e h = ap (top_by m s) h

    pop_pending : (e : Option QueuedEvent) → s.pending_event ≡ e → pop_to m s ≡ pop_by m s e
    unfolding pop_to
    pop_pending e h = ap (pop_by m s) h

    pop-pop_to : pop m s ≡ (is_some (pop_to m s).0, (pop_to m s).1)
    unfolding pop pop_to
    pop-pop_to = refl

  top-Agrees : (s : Incoming m) → IsCounted s → Agrees tops s (answer (top m s).0, (top m s).1)
  unfolding Front expected_reply expected_events expected_deletions
  top-Agrees s v = elim (Option-cases s.pending_event) [
    | inr (e, h) ↦ rw (top_pending s (some e) h) (record {
      reply = ground (arith, h);
      events = refl;
      deletions = sym (append-nil s.deleted);
      counted = v;
    })
    | inl h ↦ elim (front s) [
      | inl (t, i) ↦ rw (top_pending s none h ∙ ap (keep_pending m s) t) (record {
        reply = ground (arith, h, i);
        events = refl;
        deletions = sym (append-nil s.deleted);
        counted = v;
      })
      | inr (e, q, t, i) ↦ rw (top_pending s none h ∙ ap (keep_pending m s) t) (record {
        reply = ground (arith, h, i);
        events = ground (arith, h, i);
        deletions = sym (append-nil s.deleted);
        counted = ground (arith, h, i, v);
      })
    ]
  ]

  pop_to-Agrees :
      (s : Incoming m) → IsCounted s → Agrees pops_to s (answer (pop_to m s).0, (pop_to m s).1)
  unfolding Front expected_reply expected_events expected_deletions
  pop_to-Agrees s v = elim (Option-cases s.pending_event) [
    | inr (e, h) ↦ rw (pop_pending s (some e) h) (record {
      reply = ground (arith, h);
      events = ground (arith, h);
      deletions = ground (arith, h);
      counted = ground (arith, h, v, count_down (length (items s.event_queue)));
    })
    | inl h ↦ elim (front s) [
      | inl (t, i) ↦ rw (pop_pending s none h ∙ ap (take_next m s) t) (record {
        reply = ground (arith, h, i);
        events = ground (arith, h, i);
        deletions = ground (arith, h, i, append-nil s.deleted);
        counted = v;
      })
      | inr (e, q, t, i) ↦ rw (pop_pending s none h ∙ ap (take_next m s) t) (record {
        reply = ground (arith, h, i);
        events = ground (arith, h, i);
        deletions = ground (arith, h, i);
        counted = ground (arith, h, i, v, count_down (length (items q)));
      })
    ]
  ]

  pop-Agrees :
      (s : Incoming m)
      → Agrees pops_to s (answer (pop_to m s).0, (pop_to m s).1)
      → Agrees pops s (record { handed = none; success = (pop m s).0 }, (pop m s).1)
  unfolding expected_reply expected_events expected_deletions
  pop-Agrees s a = rw (pop-pop_to s) (record {
    reply = ap (λ (r : Reply). record r { handed = none }) a.reply;
    events = a.events;
    deletions = a.deletions;
    counted = a.counted;
  })

  pushed_contents :
      (e : QueuedEvent) (p : Option QueuedEvent) (q : Queue)
      → with_pending p (items (push e q)) ≡ with_pending p (items q) ++ e ∷ []
  pushed_contents e none q = items-push e q
  pushed_contents e (some x) q = ap (λ l. x ∷ l) (items-push e q)

  pushed_count :
      (e : QueuedEvent) (s : Incoming m)
      → IsCounted s
      → (s.queue_size + 1) % size_limit
        ≡ length (with_pending s.pending_event (items (push e s.event_queue))) % size_limit
  pushed_count e s v = omega (
    arith,
    v,
    ap length (pushed_contents e s.pending_event s.event_queue),
    length-append (contents s) (e ∷ []),
  )

  push-Agrees :
      (e : QueuedEvent) (s : Incoming m)
      → IsCounted s
      → Agrees (pushes e) s (quiet, push_event m e s)
  unfolding push_event expected_reply expected_events expected_deletions
  push-Agrees e s v = elim (Bool-cases s.has_observer) [
    | inl h ↦ rw h (record {
      reply = refl;
      events = pushed_contents e s.pending_event s.event_queue;
      deletions = sym (append-nil s.deleted);
      counted = pushed_count e s v;
    })
    | inr h ↦ rw h (record {
      reply = refl;
      events = pushed_contents e s.pending_event s.event_queue;
      deletions = sym (append-nil s.deleted);
      counted = pushed_count e s v;
    })
  ]

  attach_by :
      (s : Incoming m) (b : Bool)
      → IsCounted s
      → Agrees attaches s (
        quiet,
        if b then notify m (record s { has_observer = true }) else record s { has_observer = true },
      )
  unfolding expected_reply expected_events expected_deletions
  attach_by s true v = record {
    reply = refl;
    events = refl;
    deletions = sym (append-nil s.deleted);
    counted = v;
  }
  attach_by s false v = record {
    reply = refl;
    events = refl;
    deletions = sym (append-nil s.deleted);
    counted = v;
  }

  -- Where the size is counted modulo 2 ^ 32, each call of one thread agrees with one queue of events,
  -- which is the pending event, if any, before those of the concurrent queue: it hands over the first
  -- event and takes it, and adds at the end; the order of an event is deleted just when the event is
  -- taken; and the size stays counted.
  pub call-Agrees : (c : Call) (s : Incoming m) → IsCounted s → Agrees c s (call c s)
  unfolding call
  call-Agrees (pushes e) s v = push-Agrees e s v
  call-Agrees tops s v = top-Agrees s v
  call-Agrees pops_to s v = pop_to-Agrees s v
  call-Agrees pops s v = pop-Agrees s (pop_to-Agrees s v)
  call-Agrees attaches s v = unfold attach in attach_by s (ltb 0 s.queue_size) v
  call-Agrees detaches s v =
      unfold detach expected_reply expected_events expected_deletions in
      record { reply = refl; events = refl; deletions = sym (append-nil s.deleted); counted = v }

  -- A sequence of calls: the answers, and the state.
  unfoldable pub calls : List Call → Incoming m → List Reply × Incoming m
  calls [] s = ([], s)
  calls (c ∷ cs) s = let (r, s') = call c s in let (rs, s'') = calls cs s' in (r ∷ rs, s'')

  -- A processor cannot tell the pending event and the concurrent queue from one queue: any sequence
  -- of calls, from a state whose size is counted, gets the answers that one queue gives.
  pub calls-replies :
      (cs : List Call) (s : Incoming m)
      → IsCounted s
      → (calls cs s).0 ≡ expected_replies cs (contents s)
  unfolding calls expected_replies
  calls-replies [] s v = refl
  calls-replies (c ∷ cs) s v =
      let a = call-Agrees c s v in
      λ i.
        a.reply i ∷ (calls-replies cs (call c s).1 a.counted ∙ ap (expected_replies cs) a.events) i
