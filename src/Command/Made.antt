-- ===== src/Command/Made.antt =====
-- What becomes of the environment of a command that runs as a user.
use sysvkit.Base.{
  ◌≡◌, ◌≢◌, refl, sym, ap, ◌∙◌, subst, Bool, true, false, Option, none, some, List, [], ◌∷◌, Bytes,
  codes, bytes_eq, Bool-cases, inl, inr, if◌then◌else◌,
}
use sysvkit.Table.{HashTable, lookup}
use sysvkit.UnitFile.{Slot, live, dangling, value, freed, slot_value}
use sysvkit.Environment.{
  Environment, set_over, environment_set, environment_get, list_of, environment_list,
}
use sysvkit.Environment.Updates.{environment_set-dangling}
use sysvkit.Environment.Values.{IsLiveEnvironment, environment_get-put}
use sysvkit.Service.Settings.{loaded, broken}
use sysvkit.Command.{Passwd, set_variable, set_user, Command}
use sysvkit.Command.Exec.{Call, command_exec_func}

module _ (h : HashTable) where
  open h use {Table, get, put, entries, lookup-entries}

  list_of-dangling :
      (es : List (Bytes × Slot)) (k : Bytes) → lookup k es ≡ some dangling → list_of h es ≡ none
  unfolding list_of lookup
  list_of-dangling [] k e = cc
  list_of-dangling ((j, dangling) ∷ es) k e = refl
  list_of-dangling ((j, live v) ∷ es) k e = elim (Bool-cases (bytes_eq j k)) [
    | inl x ↦ absurd (
        live_dangling v
          (subst (λ b. (if b then some (live v) else lookup k es) ≡ some dangling) x e))
    | inr x ↦
        rw
          (
            list_of,
            list_of-dangling es k
                (subst (λ b. (if b then some (live v) else lookup k es) ≡ some dangling) x e),
          )
          refl
  ]
    where
      live_dangling : (v : Bytes) → ¬ (some (live v) ≡ some dangling)
      live_dangling v e = cc

  -- An environment with freed memory cannot be listed.
  environment_list-freed :
      (env : Environment h) (k : Bytes)
      → environment_get h env k ≡ freed
      → environment_list h env ≡ none
  unfolding environment_list environment_get
  environment_list-freed env k e =
      list_of-dangling (entries Slot env) k (lookup-entries Slot k env ∙ slot_of (get Slot k env) e)
    where
      slot_of : (o : Option Slot) → slot_value o ≡ freed → o ≡ some dangling
      slot_of none e = cc
      slot_of (some (live v)) e = cc
      slot_of (some dangling) e = refl

  -- Setting a variable without overwrite changes no other.
  set_variable-kept :
      (env : Environment h) (name v : Bytes)
      → environment_get h env name ≢ freed
      → (env' : Environment h) × (set_variable h name v false env ≡ loaded env')
        × ((k : Bytes)
            → bytes_eq name k ≡ false
            → environment_get h env' k ≡ environment_get h env k)
  unfolding environment_set set_over environment_get
  set_variable-kept env name v alive = go (get Slot name env) refl alive
    where
      others :
          (e : Slot) (k : Bytes)
          → bytes_eq name k ≡ false
          → environment_get h (put Slot name e env) k ≡ environment_get h env k
      others e k differs = environment_get-put h env name k e ∙ rw (differs) refl

      go :
          (o : Option Slot)
          → get Slot name env ≡ o
          → slot_value o ≢ freed
          → (env' : Environment h) × (set_variable h name v false env ≡ loaded env')
            × ((k : Bytes)
                → bytes_eq name k ≡ false
                → environment_get h env' k ≡ environment_get h env k)
      go none e a =
          (put Slot name (live v) env, rw (set_variable, environment_set, e) refl, others (live v))
      go (some (live o)) e a =
          (put Slot name dangling env, rw (set_variable, environment_set, e) refl, others dangling)
      go (some dangling) e a = absurd (a refl)

  set_variable-replaced :
      (env env' : Environment h) (name v : Bytes) (existed : Bool)
      → environment_set h env name v false ≡ some (existed, env')
      → set_variable h name v false env ≡ loaded env'
  set_variable-replaced env env' name v existed e = rw (set_variable, e) refl

  exec_freed :
      (cmd : Command h) (ok : Call → Bool) (env : Environment h)
      → cmd.env ≡ env
      → environment_list h env ≡ none
      → command_exec_func h cmd ok ≡ broken
  unfolding command_exec_func
  exec_freed cmd ok env e unlisted =
      rw (command_exec_func, ap (environment_list h) e ∙ unlisted) refl

  -- Where the environment of a command already has the variable SHELL, a command with a user gets an
  -- environment in which it is freed memory, which command_exec_func then reads. The environment
  -- before has no freed element.
  pub set_user-freed :
      (pw : Passwd) (env : Environment h) (shell : Bytes)
      → IsLiveEnvironment h env
      → environment_get h env (codes "SHELL") ≡ value shell
      → (env' : Environment h) × (set_user h pw env ≡ loaded env')
        × ((cmd : Command h) (ok : Call → Bool)
            → cmd.env ≡ env'
            → command_exec_func h cmd ok ≡ broken)
  unfolding set_user bytes_eq
  set_user-freed pw env shell alive has =
      let (env1, user, same1) =
        set_variable-kept env (codes "USER") pw.pw_name (alive (codes "USER")) in
      let (env2, logname, same2) =
        set_variable-kept env1 (codes "LOGNAME") pw.pw_name
          (subst (λ w. w ≢ freed) (sym (same1 (codes "LOGNAME") refl)) (alive (codes "LOGNAME"))) in
      let (env3, home, same3) = set_variable-kept env2 (codes "HOME") pw.pw_dir (
        subst (λ w. w ≢ freed) (sym (same2 (codes "HOME") refl ∙ same1 (codes "HOME") refl))
          (alive (codes "HOME"))) in
      let (env4, done, is_freed, later) =
        environment_set-dangling h env3 (codes "SHELL") shell pw.pw_shell (
          same3 (codes "SHELL") refl
          ∙ same2 (codes "SHELL") refl
          ∙ same1 (codes "SHELL") refl
          ∙ has) in
      (
        env4,
        rw
            (
              set_user,
              user,
              logname,
              home,
              set_variable-replaced env3 env4 (codes "SHELL") pw.pw_shell true done,
            )
            refl,
        λ cmd ok e. exec_freed cmd ok env4 e (environment_list-freed env4 (codes "SHELL") is_freed),
      )
