-- ===== src/Backends/Consul/Watch/Hearing.antt =====
-- Which events of the Consul monitors the patterns of the master and of the agents let through.
use consul_scheduler.Prelude.{
  true-false, ℕ, ◌<◌, String, ◌≡◌, refl, sym, ◌∙◌, ◌≢◌, ◌↔◌, inl, inr, true, false, List, [], ◌∷◌,
  ◌++◌, arith, codes, codes-append, codes-injective, ==_iff, ◌==◌, All-append, Bool-cases, str_eq,
  str_eq_iff, All,
}
use Prim.Native.String.{◌++◌ as str_append}
use consul_scheduler.Backends.Events.{match_key, star}
use consul_scheduler.Backends.Events.Patterns.{agrees, match_key-agrees, agrees-star}
use consul_scheduler.Backends.Consul.Watch.{NodeCheck, is_failing, health_event}

-- What the master and the agent of a host subscribe to.
abbrev pub node_failures : String
node_failures = "health::node:failing:*"

abbrev pub task_failures : String → String
task_failures host = str_append "health::task:" (str_append host ":failing:*")

abbrev LetsThrough : String → String → Type 0
LetsThrough on evt = match_key (codes on) (codes evt) ≡ true

-- The pattern's test at an event, as a recursion that computes at a literal part of a text.
agreed :
    (evt : String)
    → match_key (codes node_failures) (codes evt) ≡ agrees (codes node_failures) (codes evt)
agreed evt = match_key-agrees (codes node_failures) (codes evt) (omega arith)

node_event_heard :
    (node : String)
    → LetsThrough node_failures
        (str_append "health::node:" (str_append "failing" (str_append ":" node)))
node_event_heard node =
    agreed (str_append "health::node:" (str_append "failing" (str_append ":" node)))
    ∙ simp codes-append (agrees-star [] (codes node))

node_event_unheard :
    (node : String)
    → ¬ LetsThrough node_failures
        (str_append "health::node:" (str_append "passing" (str_append ":" node)))
node_event_unheard node h =
    let e : agrees (codes node_failures)
          (codes (str_append "health::node:" (str_append "passing" (str_append ":" node))))
        ≡ false =
      simp codes-append in
    cc (agreed (str_append "health::node:" (str_append "passing" (str_append ":" node))), e, h)

task_event_unheard : (rest : String) → ¬ LetsThrough node_failures (str_append "health::task:" rest)
task_event_unheard rest h =
    let e : agrees (codes node_failures) (codes (str_append "health::task:" rest)) ≡ false =
      simp codes-append in
    cc (agreed (str_append "health::task:" rest), e, h)

-- The master's subscription to failing nodes lets an event of monitorHealth through exactly when the
-- check is one of the node itself and is critical or in warning.
pub node_failures_iff :
    (c : NodeCheck)
    → (match_key (codes node_failures) (codes (health_event c)) ≡ true)
      ↔ ((c.service_id ≡ "") × (is_failing c.status ≡ true))
unfolding health_event
node_failures_iff c = elim (Bool-cases (str_eq c.service_id "")) [
  | inr e ↦ rw e (
    (λ h. absurd (task_event_unheard _ h)),
    (λ h. absurd (cc (e, (str_eq_iff c.service_id "").1 h.0))),
  )
  | inl e ↦ elim (Bool-cases (is_failing c.status)) [
    | inl f ↦
        rw (e, f) ((λ h. ((str_eq_iff c.service_id "").0 e, refl)), (λ h. node_event_heard c.node))
    | inr f ↦ rw (e, f) ((λ h. absurd (node_event_unheard c.node h)), (λ h. cc (h.1)))
  ]
]

-- A name of a host: one-byte characters, neither a colon nor a star among them.
abbrev pub IsName : List ℕ → Type 0
IsName = All (λ (c : ℕ). (c < 128) × (c ≢ b':') × (c ≢ star))

-- Two names, each followed by a colon, agree only if they are the same.
agrees_names :
    (h n key evt : List ℕ)
    → IsName h
    → IsName n
    → agrees (h ++ b':' ∷ key) (n ++ b':' ∷ evt) ≡ true
    → (h ≡ n) × (agrees key evt ≡ true)
agrees_names [] [] key evt a b e = (refl, e)
agrees_names [] (d ∷ n) key evt a b e = absurd (ground (arith, b.0.1))
agrees_names (c ∷ h) [] key evt a b e = absurd (ground (arith, a.0.1, a.0.2))
agrees_names (c ∷ h) (d ∷ n) key evt a b e = elim (Bool-cases (c == star)) [
  | inl s ↦ absurd (a.0.2 ((==_iff c star).0 s))
  | inr s ↦ elim (Bool-cases (c == d)) [
    | inl q ↦
        let (l, r) = agrees_names h n key evt a.1 b.1 (rw (s, q) at e) in
        (cc ((==_iff c d).0 q, l), r)
    | inr q ↦ absurd (ground arith)
  ]
]

agrees_same :
    (h key evt : List ℕ) → agrees key evt ≡ true → agrees (h ++ b':' ∷ key) (h ++ b':' ∷ evt) ≡ true
agrees_same [] key evt e = e
agrees_same (c ∷ h) key evt e = ground (arith, agrees_same h key evt e)

IsName-ascii : (h : List ℕ) → IsName h → All (λ c. c < 128) h
IsName-ascii [] a = tt
IsName-ascii (c ∷ h) a = (a.0.0, IsName-ascii h a.1)

module _ (host : String) (name : IsName (codes host)) where
  task_pattern :
      codes (task_failures host) ≡ codes "health::task:" ++ (codes host ++ codes ":failing:*")
  task_pattern = simp codes-append

  ascii : All (λ c. c < 128) (codes (task_failures host))
  ascii =
      let end =
        All-append (λ c. c < 128) (codes host) (codes ":failing:*") (IsName-ascii (codes host) name)
          (omega arith) in
      rw task_pattern (All-append (λ c. c < 128) (codes "health::task:") _ (omega arith) end)

  -- What the agent's pattern makes of an event about a task, and of one about a node.
  task_agreed :
      (evt : String)
      → match_key (codes (task_failures host)) (codes (str_append "health::task:" evt))
        ≡ agrees (codes host ++ codes ":failing:*") (codes evt)
  task_agreed evt =
      match_key-agrees (codes (task_failures host)) (codes (str_append "health::task:" evt)) ascii
      ∙ rw (task_pattern, codes-append "health::task:" evt) refl

  node_unheard :
      (evt : String) → ¬ LetsThrough (task_failures host) (str_append "health::node:" evt)
  node_unheard evt h =
      let e =
        match_key-agrees (codes (task_failures host)) (codes (str_append "health::node:" evt))
          ascii in
      let f : agrees (codes (task_failures host)) (codes (str_append "health::node:" evt)) ≡ false =
        rw (task_pattern, codes-append "health::node:" evt) refl in
      true-false (sym h ∙ e ∙ f)

  module _ (node stat : String) (id : String) (node_name : IsName (codes node)) where
    event_codes :
        codes (str_append node (str_append ":" (str_append stat (str_append ":" id))))
        ≡ codes node ++ b':' ∷ (codes stat ++ b':' ∷ codes id)
    event_codes = simp codes-append

    task_heard :
        (match_key (codes (task_failures host)) (
            codes (
              str_append "health::task:"
                (str_append node (str_append ":" (str_append stat (str_append ":" id))))))
          ≡ true)
        ↔ ((node ≡ host) × (agrees (codes "failing:*") (codes stat ++ b':' ∷ codes id) ≡ true))
    task_heard =
        let evt = str_append node (str_append ":" (str_append stat (str_append ":" id))) in
        let key : codes ":failing:*" ≡ b':' ∷ codes "failing:*" = refl in
        (
          (λ h.
              let a = rw event_codes at (sym (task_agreed evt) ∙ h) in
              let (l, r) =
                agrees_names (codes host) (codes node) (codes "failing:*")
                  (codes stat ++ b':' ∷ codes id) name node_name a in
              (codes-injective node host (sym l), r)),
          (λ h.
              task_agreed evt
              ∙ rw (event_codes, h.0)
                  (agrees_same (codes host) (codes "failing:*") (codes stat ++ b':' ∷ codes id)
                    h.1)),
        )

  -- The agent's subscription to the failing tasks of its host lets an event of monitorHealth through
  -- exactly when the check is one of a service on that host and is critical or in warning, where the
  -- host's name and the check's node are of one-byte characters with no colon and no star.
  pub task_failures_iff :
      (c : NodeCheck)
      → IsName (codes c.node)
      → (match_key (codes (task_failures host)) (codes (health_event c)) ≡ true)
        ↔ ((c.service_id ≢ "") × (is_failing c.status ≡ true) × (c.node ≡ host))
  unfolding health_event
  task_failures_iff c n = elim (Bool-cases (str_eq c.service_id "")) [
    | inl e ↦
        rw e
          ((λ h. absurd (node_unheard _ h)), (λ h. absurd (h.0 ((str_eq_iff c.service_id "").0 e))))
    | inr e ↦
        let named : c.service_id ≢ "" =
          λ q. true-false (sym ((str_eq_iff c.service_id "").1 q) ∙ e) in
        elim (Bool-cases (is_failing c.status)) [
          | inl f ↦
              let t = task_heard c.node "failing" c.service_id n in
              rw (e, f)
                (
                  (λ h. (named, refl, (t.0 h).0)),
                  (λ h. t.1 (h.2, agrees-star [] (codes c.service_id))),
                )
          | inr f ↦
              let t = task_heard c.node "passing" c.service_id n in
              rw (e, f)
                ((λ h. absurd (true-false (sym (t.0 h).1))), (λ h. absurd (true-false (sym h.1))))
        ]
  ]
