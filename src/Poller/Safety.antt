-- ===== src/Poller/Safety.antt =====
-- poller.cc, channel.cc: the dispatch loop and channels that handlers delete.
use net_library.Base.{
  ℕ, zero, suc, ◌≤◌, ◌≡◌, inl, inr, refl, sym, subst, ◌∙◌, Bool, true, false, ◌||◌, Option, none,
  some, List, [], ◌∷◌, ◌++◌, map, Bool-cases, Option-cases, either_branch,
}
use mathlib.Core.Option
use mathlib.Core.Bool.{true≢false}
use net_library.Base.Int.{negsuc}
use net_library.Poller.{
  Poller, Channel, Event, Kind, Call, Work, Result, create, close, destroy, call_enable_read,
  call_enable_write, call_enable_read_write, call, free, stale_channel, double_free, dangling_event,
  ok, fault, is_pos, set, add_channel, remove_channel, update_channel, create_channel,
  close_channel, on_channel, invoke, step, run, run_invoked, handle_bits, has, handle_event,
  dispatch, dispatch_first, loop_once, tail, and_then, error_event, read_event, write_event,
  reading, writing,
}
use net_library.Poller.Inv.{
  Inv, IsLive, AllLive, Distinct, is_open, create_channel-Inv, update_channel-Inv,
  remove_channel-Inv, free-Inv, numbered_there,
}
use net_library.Poller.Ready.{
  AllSound, IsReady, AllReady, AllReady-append, AllReady-calls, AllReady-created, AllReady-removed,
  Inv-handled, ==-refl, closed_live,
}

-- The invariant with work that is ready; else a client has used a deleted channel.
abbrev pub StepKeeps : List Work → Result (Poller × List Work) → Type 0
StepKeeps ws (ok (s, vs)) = Inv s × AllReady s.live s.ids (vs ++ ws)
StepKeeps ws (fault dangling_event) = ⊥
StepKeeps ws (fault _) = Unit

-- Where it ends, the invariant is kept, or a client has used a deleted channel.
abbrev pub Keeps : Option (Result Poller) → Type 0
Keeps none = Unit
Keeps (some (ok s)) = Inv s
Keeps (some (fault dangling_event)) = ⊥
Keeps (some (fault _)) = Unit

module _ (handler : Kind → ℕ → Poller → List Call)
    (sound : (k : Kind) (c : ℕ) (s : Poller) → AllSound (handler k c s)) where
  on_channel-Keeps :
      (ws : List Work) (o : Option Channel) (f : Channel → Poller × List Work)
      → ((ch : Channel) → o ≡ some ch → StepKeeps ws (ok (f ch)))
      → StepKeeps ws (on_channel handler o f)
  on_channel-Keeps ws none f h = tt
  on_channel-Keeps ws (some ch) f h = h ch refl

  abbrev Closes : Poller → ℕ → List Work → Poller × List Work → Type 0
  Closes s c ws (s', vs) =
      Inv s'
      × AllReady s'.live s'.ids vs
      × AllReady s'.live s'.ids ws
      × (s'.live c ≡ false)
      × (s'.ids ≡ s.ids)

  close_channel-Closes :
      {s : Poller} (c : ℕ) (ch : Channel) (ws : List Work)
      → Inv s
      → s.channels c ≡ some ch
      → AllReady s.live s.ids ws
      → Closes s c ws (close_channel handler s c ch)
  unfolding close_channel remove_channel
  close_channel-Closes {s} c ch ws v e r =
      let closed : Channel = record ch { fd = negsuc 0 } in
      let s' : Poller = record (remove_channel s c) { channels = set s.channels c (some closed) } in
      elim (Bool-cases (is_pos ch.fd)) [
        | inl p ↦
            rw (p, close_channel)
              (
                Inv-handled (s.handled ++ (reading, c) ∷ []) (remove_channel-Inv c ch closed v e),
                AllReady-calls (set s.live c false) s.ids (handler reading c s')
                    (sound reading c s'),
                AllReady-removed s.live s.ids c ws r,
                rw (==-refl c),
                refl,
              )
        | inr n ↦ rw (n, close_channel) (v, tt, r, closed_live c ch v e n, refl)
      ]

  step-Keeps :
      {s : Poller} (w : Work) (ws : List Work)
      → Inv s
      → IsReady s.live s.ids w
      → AllReady s.live s.ids ws
      → StepKeeps ws (step handler s w)
  unfolding step update_channel create_channel add_channel
  step-Keeps {s} (call (create fd events)) ws v r k =
      (create_channel-Inv s fd events v r, AllReady-created s.live s.ids ws k)
  step-Keeps {s} (call (close c)) ws v r k = on_channel-Keeps ws (s.channels c) _ (λ ch e.
      let h = close_channel-Closes c ch ws v e k in (h.0, AllReady-append _ _ _ ws h.1 h.2))
  step-Keeps {s} (call (destroy c)) ws v r k = on_channel-Keeps ws (s.channels c) _ (λ ch e.
      let h = close_channel-Closes c ch ws v e k in
      (
        h.0,
        AllReady-append _ _ (_ ++ free c ∷ []) ws
            (AllReady-append _ _ _ (free c ∷ []) h.1
              ((h.3, subst (λ n. c ≤ n) (sym h.4) (numbered_there c ch v e)), tt))
            h.2,
      ))
  step-Keeps {s} (call (call_enable_read c b)) ws v r k =
      on_channel-Keeps ws (s.channels c) _ (λ ch e. (update_channel-Inv c ch _ v e refl, k))
  step-Keeps {s} (call (call_enable_write c b)) ws v r k =
      on_channel-Keeps ws (s.channels c) _ (λ ch e. (update_channel-Inv c ch _ v e refl, k))
  step-Keeps {s} (call (call_enable_read_write c b d)) ws v r k =
      on_channel-Keeps ws (s.channels c) _ (λ ch e. (update_channel-Inv c ch _ v e refl, k))
  step-Keeps {s} (free c) ws v r k = elim (Option-cases (s.channels c)) [
    | inl e ↦ rw (e, step) tt
    | inr (ch, e) ↦ rw (e, step) (free-Inv c v r.0, k)
  ]

  stepped-Keeps :
      (ws : List Work) (rest : Poller × List Work → Option (Result Poller))
      (r : Result (Poller × List Work))
      → StepKeeps ws r
      → ((s : Poller) (vs : List Work)
          → Inv s
          → AllReady s.live s.ids (vs ++ ws)
          → Keeps (rest (s, vs)))
      → Keeps (and_then handler rest r)
  stepped-Keeps ws rest (ok (s, vs)) h k = k s vs h.0 h.1
  stepped-Keeps ws rest (fault stale_channel) h k = tt
  stepped-Keeps ws rest (fault double_free) h k = tt
  stepped-Keeps ws rest (fault dangling_event) h k = h

  run-Keeps :
      (fuel : ℕ) {s : Poller} (ws : List Work)
      → Inv s
      → AllReady s.live s.ids ws
      → Keeps (run handler fuel s ws)
  unfolding run
  run-Keeps zero ws v r = tt
  run-Keeps (suc n) [] v r = v
  run-Keeps (suc n) {s} (w ∷ ws) v r =
      stepped-Keeps ws (λ (r : Poller × List Work). run handler n r.0 (r.1 ++ ws))
        (step handler s w) (step-Keeps w ws v r.0 r.1) (λ s' vs w k. run-Keeps n (vs ++ ws) w k)

  handle_bits-Keeps :
      (fuel : ℕ) {s : Poller} (c bits : ℕ) → Inv s → Keeps (handle_bits handler fuel s c bits)
  unfolding handle_bits
  handle_bits-Keeps fuel {s} c bits v =
      either_branch Keeps (has bits error_event || has bits read_event) (invoked-Keeps reading)
        (either_branch Keeps (has bits write_event) (invoked-Keeps writing) v)
    where
      invoked-Keeps : (k : Kind) → Keeps (run_invoked handler fuel (invoke handler k c s))
      invoked-Keeps k =
          run-Keeps fuel (map call (handler k c s)) (Inv-handled (s.handled ++ (k, c) ∷ []) v)
            (AllReady-calls s.live s.ids (handler k c s) (sound k c s))

  handle_event-Keeps :
      (fuel : ℕ) {s : Poller} (e : Event)
      → Inv s
      → IsLive s.live e.ptr
      → Keeps (handle_event handler fuel s e)
  unfolding handle_event
  handle_event-Keeps fuel {s} e v l = elim (Option-cases e.ptr) [
    | inl n ↦ rw (n, handle_event) v
    | inr (c, q) ↦ elim (Option-cases (s.channels c)) [
      | inl n ↦ not_dangling (subst (IsLive s.live) q l) n
      | inr (ch, f) ↦ rw (q, handle_event) (rw f (handle_bits-Keeps fuel c e.events v))
    ]
  ]
    where
      not_dangling :
          {c : ℕ} → s.live c ≡ true → s.channels c ≡ none → Keeps (handle_event handler fuel s e)
      not_dangling {c} t n = elim (v.tracked c) [
        | inl f ↦ absurd (true≢false (sym t ∙ f))
        | inr o ↦ absurd (true≢false (sym (subst (λ k. is_open k ≡ true) n o)))
      ]

  tail-AllLive :
      (live : ℕ → Bool) (es : List Event) → AllLive live es → AllLive live (tail handler es)
  tail-AllLive live [] l = tt
  tail-AllLive live (e ∷ es) l = l.1

  tail-Distinct : (es : List Event) → Distinct es → Distinct (tail handler es)
  tail-Distinct [] d = tt
  tail-Distinct (e ∷ es) d = d.1

  tail-Inv : {s : Poller} → Inv s → Inv (record s { active = tail handler s.active })
  tail-Inv {s} v = record {
    tracked = v.tracked;
    numbered = v.numbered;
    pending = tail-AllLive s.live s.active v.pending;
    distinct = tail-Distinct s.active v.distinct;
  }

  bind-Keeps :
      (o : Option (Result Poller)) (rest : Poller → Option (Result Poller))
      → Keeps o
      → ((s : Poller) → Inv s → Keeps (rest s))
      → Keeps (Option.bind o (and_then handler rest))
  unfolding Option.bind
  bind-Keeps none rest h k = tt
  bind-Keeps (some (ok s)) rest h k = k s h
  bind-Keeps (some (fault stale_channel)) rest h k = tt
  bind-Keeps (some (fault double_free)) rest h k = tt
  bind-Keeps (some (fault dangling_event)) rest h k = h

  dispatch_first-Keeps :
      (rest : Poller → Option (Result Poller)) (fuel : ℕ) {s : Poller} (es : List Event)
      → Inv s
      → AllLive s.live es
      → ((s' : Poller) → Inv s' → Keeps (rest s'))
      → Keeps (dispatch_first handler rest fuel s es)
  dispatch_first-Keeps rest fuel [] v l k = v
  dispatch_first-Keeps rest fuel {s} (e ∷ es) v l k =
      bind-Keeps (handle_event handler fuel s e)
        (λ (s' : Poller). rest (record s' { active = tail handler s'.active }))
        (handle_event-Keeps fuel e v l.0) (λ s' w. k _ (tail-Inv w))

  dispatch-Keeps : (rounds fuel : ℕ) {s : Poller} → Inv s → Keeps (dispatch handler rounds fuel s)
  unfolding dispatch
  dispatch-Keeps zero fuel v = tt
  dispatch-Keeps (suc n) fuel {s} v =
      dispatch_first-Keeps (λ s'. dispatch handler n fuel s') fuel s.active v v.pending
        (λ s' w. dispatch-Keeps n fuel w)

  -- Whatever the handlers do, where they make channels of positive descriptors only, the poller's
  -- `loop_once` never follows an event to a deleted channel, given that what epoll_wait reports are
  -- live channels, each once: where it ends, it has kept the invariant, or a handler has used a
  -- deleted channel.
  pub loop_once-Keeps :
      (rounds fuel : ℕ) {s : Poller} (reported : List Event)
      → Inv s
      → AllLive s.live reported
      → Distinct reported
      → Keeps (loop_once handler rounds fuel s reported)
  unfolding loop_once
  loop_once-Keeps rounds fuel {s} reported v l d =
      dispatch-Keeps rounds fuel {s = record s { active = reported }}
        (record { tracked = v.tracked; numbered = v.numbered; pending = l; distinct = d })
