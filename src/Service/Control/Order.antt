-- ===== src/Service/Control/Order.antt =====
-- The order in which service_start starts services for one another.
use mathlib.Core.Option.{some-injective}
use sysvkit.Base.{
  ℕ, suc, ◌≡◌, ◌⊎◌, inl, inr, refl, sym, ap, ◌∙◌, Bool, true, false, ◌&&◌, Option, none, some, List,
  [], ◌∷◌, Bytes, codes, Option-cases, ◌==◌, arith,
}
use sysvkit.Service.Types.{Service}
use sysvkit.Service.Control.{
  Host, exits, endless, ready_to_start, service_start_prerequisites, start_command, service_start,
}
use sysvkit.Service.Control.Ending.{Outcome-cases, Starter}

module _ (host : Host) where
  open host use {World, Command, command_from_service, command_monitor, service_find}

  none_is_true : ¬ (◌≡◌ {A = Option Bool} none (some true))
  none_is_true e = cc

  false_is_true : ¬ (◌≡◌ {A = Option Bool} (some false) (some true))
  false_is_true e = cc

  both :
      (ok : Bool) (status : ℕ) → some (ok && status == 0) ≡ some true → (ok ≡ true) × (status ≡ 0)
  both ok status e = let e' = some-injective _ _ e in (ground arith, ground arith)

  -- Each of the services was found and started with exit status 0, one after another.
  abbrev pub AllStarted : Starter host → List Bytes → World → Type 0
  AllStarted start [] w = Unit
  AllStarted start (name ∷ req) w =
      (svc : Service) × ((service_find name w).0 ≡ some svc)
      × ((start svc (service_find name w).1).0 ≡ exits 0)
      × AllStarted start req (start svc (service_find name w).1).1

  prerequisites-AllStarted :
      (start : Starter host) (req : List Bytes) (w : World)
      → (service_start_prerequisites host start req w).0 ≡ some true
      → AllStarted start req w
  unfolding service_start_prerequisites
  prerequisites-AllStarted start [] w h = tt
  prerequisites-AllStarted start (name ∷ req) w h = elim (Option-cases (service_find name w).0) [
    | inl e ↦
        let failed : (service_start_prerequisites host start (name ∷ req) w).0 ≡ some false =
          rw (service_start_prerequisites, e) refl in
        absurd (false_is_true (sym failed ∙ h))
    | inr (svc, e) ↦
        let w1 = (service_find name w).1 in
        elim (Outcome-cases (start svc w1).0) [
          | inl f ↦
              let failed : (service_start_prerequisites host start (name ∷ req) w).0 ≡ none =
                rw (service_start_prerequisites, e, f) refl in
              absurd (none_is_true (sym failed ∙ h))
          | inr (status, f) ↦
              let w2 = (start svc w1).1 in
              elim (Option-cases (service_start_prerequisites host start req w2).0) [
                | inl g ↦
                    let failed : (service_start_prerequisites host start (name ∷ req) w).0 ≡ none =
                      rw (service_start_prerequisites, e, f, g) refl in
                    absurd (none_is_true (sym failed ∙ h))
                | inr (ok, g) ↦
                    let result : (service_start_prerequisites host start (name ∷ req) w).0
                        ≡ some (ok && status == 0) =
                      rw (service_start_prerequisites, e, f, g) refl in
                    let (all_ok, zero_status) = both ok status (sym result ∙ h) in
                    (
                      svc,
                      e,
                      f ∙ ap exits zero_status,
                      prerequisites-AllStarted start req w2 (g ∙ ap some all_ok),
                    )
              ]
        ]
  ]

  -- A service that was not up before is only started behind the services that it requires: if
  -- service_start returns 0, then the service was found to be up already, or each required service
  -- was found and started with exit status 0, in the order of the list, before the command.
  pub service_start-AllStarted :
      (depth : ℕ) (svc : Service) (w : World)
      → (service_start host (suc depth) svc w).0 ≡ exits 0
      → ((ready_to_start host svc w).0 ≡ some 0)
        ⊎ ((c : Command) × ((command_from_service svc
                (codes "ExecStart")
                (ready_to_start host svc w).1).0
              ≡ some c)
            × AllStarted
                (service_start host depth)
                svc.required
                (command_from_service svc (codes "ExecStart") (ready_to_start host svc w).1).1)
  unfolding service_start start_command
  service_start-AllStarted depth svc w h =
      let w1 = (ready_to_start host svc w).1 in
      elim (Option-cases (ready_to_start host svc w).0) [
        | inr (status, e) ↦
            let early : (service_start host (suc depth) svc w).0 ≡ exits status =
              rw (service_start, e) refl in
            inl (e ∙ ap some (exits-injective (sym early ∙ h)))
        | inl e ↦ elim (Option-cases (command_from_service svc (codes "ExecStart") w1).0) [
          | inl f ↦
              let failed : (service_start host (suc depth) svc w).0 ≡ exits 1 =
                rw (service_start, e, start_command, f) refl in
              absurd (one_zero (exits-injective (sym failed ∙ h)))
          | inr (c, f) ↦ inr (
            c,
            f,
            prerequisites-AllStarted (service_start host depth) svc.required _
                (all_ok w1 c f (unprepared e h)),
          )
        ]
      ]
    where
      exits-injective : {m n : ℕ} → exits m ≡ exits n → m ≡ n
      exits-injective e = cc

      one_zero : ¬ (◌≡◌ {A = ℕ} 1 0)
      one_zero e = omega arith

      endless_exits : ¬ (endless ≡ exits 0)
      endless_exits e = cc

      unprepared :
          (ready_to_start host svc w).0 ≡ none
          → (service_start host (suc depth) svc w).0 ≡ exits 0
          → (start_command host (service_start host depth) svc (ready_to_start host svc w).1).0
            ≡ exits 0
      unprepared e h =
          let same : (service_start host (suc depth) svc w).0
              ≡ (start_command host (service_start host depth) svc
                  (ready_to_start host svc w).1).0 =
            rw (service_start, e) refl in
          sym same ∙ h

      all_ok :
          (w1 : World) (c : Command)
          → (command_from_service svc (codes "ExecStart") w1).0 ≡ some c
          → (start_command host (service_start host depth) svc w1).0 ≡ exits 0
          → (service_start_prerequisites host
              (service_start host depth)
              svc.required
              (command_from_service svc (codes "ExecStart") w1).1).0
            ≡ some true
      all_ok w1 c f h =
          elim (Option-cases
            (service_start_prerequisites host (service_start host depth) svc.required
              (command_from_service svc (codes "ExecStart") w1).1).0) [
                | inl g ↦
                    let failed : (start_command host (service_start host depth) svc w1).0
                        ≡ endless =
                      rw (start_command, f, g) refl in
                    absurd (endless_exits (sym failed ∙ h))
                | inr (true, g) ↦ g
                | inr (false, g) ↦
                    let failed : (start_command host (service_start host depth) svc w1).0
                        ≡ exits 1 =
                      rw (start_command, f, g) refl in
                    absurd (one_zero (exits-injective (sym failed ∙ h)))
              ]
