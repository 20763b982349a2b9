-- ===== src/Master/Loop/Listening.antt =====
-- What monitor asks for, and what it leaves behind.
use consul_scheduler.Prelude.{
  ℕ, suc, ◌+◌, String, ◌≡◌, refl, sym, ap, ◌∙◌, Bool, true, false, none, List, [], ◌∷◌, ◌++◌, arith,
  if◌then◌else◌, str_eq, Assoc, lookup,
}
use mathlib.Core.List.{append_assoc, append-nil}
use consul_scheduler.Api.Backend.{SchedulerApi}
use consul_scheduler.Backends.Events.{Listener}
use consul_scheduler.Master.Queue.{Request}
use consul_scheduler.Master.Dispatch.{dispatch_all}
use consul_scheduler.Master.Loop.{
  Notice, config, health, timer, ending, Effects, subscribe_monitor, dispatched, monitor_loop,
  unsubscribed, monitor,
}

module _ {S : Type 0} (api : SchedulerApi S) (cluster : String) where
  -- The stores that monitor sees before it ends, and how many of them a configuration event brings.
  abbrev pub seen : List (Notice S) → List S
  seen [] = []
  seen (config s ∷ ns) = s ∷ seen ns
  seen (health s ∷ ns) = s ∷ seen ns
  seen (timer s ∷ ns) = s ∷ seen ns
  seen (ending ∷ ns) = []

  abbrev pub changes : List (Notice S) → ℕ
  changes [] = 0
  changes (config s ∷ ns) = suc (changes ns)
  changes (health s ∷ ns) = changes ns
  changes (timer s ∷ ns) = changes ns
  changes (ending ∷ ns) = 0

  abbrev pub requested : List S → List Request
  requested [] = []
  requested (s ∷ ss) = (dispatch_all api cluster s).0 ++ requested ss

  loop-effects :
      (ns : List (Notice S)) (f : Effects)
      → ((monitor_loop api cluster ns f).0.pushed ≡ f.pushed ++ requested (seen ns))
        × ((monitor_loop api cluster ns f).0.signals ≡ f.signals + changes ns)
        × ((monitor_loop api cluster ns f).0.listeners ≡ f.listeners)
  unfolding monitor_loop dispatched
  loop-effects [] f = (sym (append-nil f.pushed), omega arith, refl)
  loop-effects (config s ∷ ns) f =
      let g = dispatched api cluster s f in
      let (p, n, l) = loop-effects ns (record g { signals = suc g.signals }) in
      (
        p ∙ append_assoc f.pushed (dispatch_all api cluster s).0 (requested (seen ns)),
        omega arith,
        l,
      )
  loop-effects (health s ∷ ns) f =
      let (p, n, l) = loop-effects ns (dispatched api cluster s f) in
      (p ∙ append_assoc f.pushed (dispatch_all api cluster s).0 (requested (seen ns)), n, l)
  loop-effects (timer s ∷ ns) f =
      let (p, n, l) = loop-effects ns (dispatched api cluster s f) in
      (p ∙ append_assoc f.pushed (dispatch_all api cluster s).0 (requested (seen ns)), n, l)
  loop-effects (ending ∷ ns) f = (sym (append-nil f.pushed), omega arith, refl)

  unsubscribed-effects :
      (unsubscribe : String → Assoc Listener → Assoc Listener) (r : Effects × Bool)
      → ((unsubscribed api cluster unsubscribe r).0.pushed ≡ r.0.pushed)
        × ((unsubscribed api cluster unsubscribe r).0.signals ≡ r.0.signals)
  unfolding unsubscribed
  unsubscribed-effects unsubscribe (f, true) = (refl, refl)
  unsubscribed-effects unsubscribe (f, false) = (refl, refl)

  -- Monitor pushes the requests of one dispatch for every message and every timer that it gets
  -- before its end, in their order, and gives one signal to the garbage collection for each message
  -- about the configuration.
  pub monitor_requests :
      (unsubscribe : String → Assoc Listener → Assoc Listener) (ns : List (Notice S)) (f : Effects)
      → ((monitor api cluster unsubscribe ns f).0.pushed ≡ f.pushed ++ requested (seen ns))
        × ((monitor api cluster unsubscribe ns f).0.signals ≡ f.signals + changes ns)
  unfolding monitor
  monitor_requests unsubscribe ns f =
      let g = record f { listeners = subscribe_monitor f.listeners } in
      let (p, n, l) = loop-effects ns g in
      let (q, m) = unsubscribed-effects unsubscribe (monitor_loop api cluster ns g) in
      (q ∙ p, m ∙ n)

  module _ (unsubscribe : String → Assoc Listener → Assoc Listener)
      (drops : (k j : String) (ls : Assoc Listener)
        → lookup j (unsubscribe k ls) ≡ (if str_eq k j then none else lookup j ls)) where
    still_there :
        (j : String) (r : Effects × Bool)
        → str_eq "dispatch" j ≡ false
        → lookup j (unsubscribed api cluster unsubscribe r).0.listeners ≡ lookup j r.0.listeners
    unfolding unsubscribed
    still_there j (f, false) e = refl
    still_there j (f, true) e =
        drops "dispatch" j (unsubscribe "dispatch" f.listeners)
        ∙ rw e (drops "dispatch" j f.listeners ∙ rw e refl)

    -- When monitor ends, both of its listeners are still registered, under the keys with which it
    -- subscribed, where the backend's UnSubscribe takes out the listener of its key and no other.
    pub monitor_stays_subscribed :
        (ns : List (Notice S)) (f : Effects)
        → (lookup "dispatch-config" (monitor api cluster unsubscribe ns f).0.listeners
            ≡ lookup "dispatch-config" (subscribe_monitor f.listeners))
          × (lookup "dispatch-health" (monitor api cluster unsubscribe ns f).0.listeners
              ≡ lookup "dispatch-health" (subscribe_monitor f.listeners))
    unfolding monitor str_eq
    monitor_stays_subscribed ns f =
        let g = record f { listeners = subscribe_monitor f.listeners } in
        let (p, n, l) = loop-effects ns g in
        let r = monitor_loop api cluster ns g in
        (
          still_there "dispatch-config" r refl ∙ ap (λ ls. lookup "dispatch-config" ls) l,
          still_there "dispatch-health" r refl ∙ ap (λ ls. lookup "dispatch-health" ls) l,
        )
