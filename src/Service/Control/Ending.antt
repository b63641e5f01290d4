-- ===== src/Service/Control/Ending.antt =====
-- When service_start, which starts services for one another, ends.
use sysvkit.Base.{
  ℕ, zero, suc, ◌<◌, ◌≡◌, ◌≢◌, ◌⊎◌, inl, inr, refl, ap, ◌∙◌, true, false, none, some, List, [], ◌∷◌,
  Bytes, codes, Option-cases, All, arith,
}
use sysvkit.Service.Types.{Service}
use sysvkit.Service.Control.{
  Host, Outcome, exits, endless, ready_to_start, service_start_prerequisites, launch, start_command,
  service_start,
}

pub Outcome-cases : (o : Outcome) → (o ≡ endless) ⊎ ((status : ℕ) × (o ≡ exits status))
Outcome-cases endless = inl refl
Outcome-cases (exits status) = inr (status, refl)

module _ (host : Host) where
  open host use {World, Command, command_from_service, command_monitor, service_find}

  abbrev pub Starter : Type 0
  Starter = Service → World → Outcome × World

  -- Whatever service a name finds, its rank is below n.
  abbrev pub RanksBelow : (Service → ℕ) → ℕ → List Bytes → Type 0
  RanksBelow rank n req =
      All (λ name. (w : World) (svc : Service) → (service_find name w).0 ≡ some svc → rank svc < n)
        req

  prerequisites-end :
      (rank : Service → ℕ) (n : ℕ) (start : Starter) (req : List Bytes) (w : World)
      → ((svc : Service) (w : World) → rank svc < n → (start svc w).0 ≢ endless)
      → RanksBelow rank n req
      → (service_start_prerequisites host start req w).0 ≢ none
  unfolding service_start_prerequisites
  prerequisites-end rank n start [] w ends below = λ e. cc
  prerequisites-end rank n start (name ∷ req) w ends (below, later) =
      elim (Option-cases (service_find name w).0) [
        | inl e ↦ rw (service_start_prerequisites, e) (λ x. cc)
        | inr (svc, e) ↦ elim (Outcome-cases (start svc (service_find name w).1).0) [
          | inl f ↦ absurd (ends svc (service_find name w).1 (below w svc e) f)
          | inr (status, f) ↦
              elim (Option-cases
                (service_start_prerequisites host start req
                  (start svc (service_find name w).1).1).0) [
                    | inl g ↦ absurd (
                        prerequisites-end rank n start req (start svc (service_find name w).1).1
                          ends later g)
                    | inr (ok, g) ↦ rw (service_start_prerequisites, e, f, g) (λ x. cc)
                  ]
        ]
      ]

  launch-exits : (c : Command) (w : World) → (launch host c w).0 ≢ endless
  unfolding launch
  launch-exits c w = elim (Option-cases (command_monitor c w).0) [
    | inl e ↦ rw (launch, e) (λ x. cc)
    | inr (status, e) ↦ rw (launch, e) (λ x. cc)
  ]

  -- If the services that a service requires have lower ranks than it has, so that there is no cycle,
  -- then starting it ends: a recursion deeper than its rank does not occur.
  pub service_start-ends :
      (rank : Service → ℕ)
      → ((svc : Service) → RanksBelow rank (rank svc) svc.required)
      → (depth : ℕ) (svc : Service) (w : World) → rank svc < depth
      → (service_start host depth svc w).0 ≢ endless
  unfolding service_start start_command
  service_start-ends rank below zero svc w enough = absurd (omega arith)
  service_start-ends rank below (suc depth) svc w enough =
      elim (Option-cases (ready_to_start host svc w).0) [
        | inr (status, e) ↦ rw (service_start, e) (λ x. cc)
        | inl e ↦
            rw (service_start, e)
              (commanded (ready_to_start host svc w).1 (λ w'.
                prerequisites-end rank (rank svc) (service_start host depth) svc.required w'
                  (λ svc' w' lower. service_start-ends rank below depth svc' w' (omega arith))
                  (below svc)))
      ]
    where
      commanded :
          (w : World)
          → ((w' : World)
              → (service_start_prerequisites host (service_start host depth) svc.required w').0
                ≢ none)
          → (start_command host (service_start host depth) svc w).0 ≢ endless
      commanded w ends = elim (Option-cases (command_from_service svc (codes "ExecStart") w).0) [
        | inl e ↦ rw (start_command, e) (λ x. cc)
        | inr (c, e) ↦
            elim (Option-cases
              (service_start_prerequisites host (service_start host depth) svc.required
                (command_from_service svc (codes "ExecStart") w).1).0) [
                  | inl f ↦ absurd (ends (command_from_service svc (codes "ExecStart") w).1 f)
                  | inr (true, f) ↦ rw (start_command, e, f) (launch-exits c _)
                  | inr (false, f) ↦ rw (start_command, e, f) (λ x. cc)
                ]
      ]

  -- Services that are stopped, have a start command, and require first another one of them.
  abbrev pub RequireEachOther : (Service → Type 0) → Type 0
  RequireEachOther among =
      (svc : Service)
      → among svc
      → ((w : World) → (ready_to_start host svc w).0 ≡ none)
        × ((w : World)
            → (c : Command) × ((command_from_service svc (codes "ExecStart") w).0 ≡ some c))
        × ((name : Bytes) × (req : List Bytes) × (svc.required ≡ name ∷ req)
            × ((w : World) → (next : Service) × ((service_find name w).0 ≡ some next) × among next))

  prerequisites-endless :
      (start : Starter) (name : Bytes) (req : List Bytes) (w : World) (svc : Service)
      → (service_find name w).0 ≡ some svc
      → (start svc (service_find name w).1).0 ≡ endless
      → (service_start_prerequisites host start (name ∷ req) w).0 ≡ none
  unfolding service_start_prerequisites
  prerequisites-endless start name req w svc found never =
      rw (service_start_prerequisites, found, never) refl

  -- If services are found stopped, have a start command and require first another one of them, which
  -- is found, all this in every state of the system, then starting one of them never ends, since none
  -- is recorded as being started before what it requires is: no depth of the recursion is enough.
  pub service_start-endless :
      (among : Service → Type 0)
      → RequireEachOther among
      → (depth : ℕ) (svc : Service) (w : World) → among svc
      → (service_start host depth svc w).0 ≡ endless
  unfolding service_start start_command
  service_start-endless among cycle zero svc w is = refl
  service_start-endless among cycle (suc depth) svc w is =
      let (ready, commands, (name, req, required, finds)) = cycle svc is in
      let w1 = (ready_to_start host svc w).1 in
      let (c, has_command) = commands w1 in
      let w2 = (command_from_service svc (codes "ExecStart") w1).1 in
      let (next, found, is_next) = finds w2 in
      let first =
        prerequisites-endless (service_start host depth) name req w2 next found
          (service_start-endless among cycle depth next (service_find name w2).1 is_next) in
      let none_left =
        ap (λ r. (service_start_prerequisites host (service_start host depth) r w2).0) required
        ∙ first in
      rw (service_start, ready w, start_command, has_command, none_left) refl
