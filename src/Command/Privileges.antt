-- ===== src/Command/Privileges.antt =====
-- The privileges with which a command's program is executed.
use sysvkit.Base.{
  ℕ, ◌≡◌, ◌≢◌, ◌⊎◌, inl, inr, refl, sym, ap, ◌∙◌, Bool, true, false, Option, none, some, List, [],
  ◌∷◌, ◌++◌, Bytes, ◌==◌, All, All-append, append_assoc, Option-cases, Bool-cases, arith,
}
use sysvkit.Table.{HashTable}
use sysvkit.Environment.{environment_list}
use sysvkit.Service.Settings.{Loaded, loaded, broken}
use sysvkit.Command.{is_plus, has_flag, Command}
use sysvkit.Command.Exec.{
  Call, setregid_to, setgroups_to, setreuid_to, failure_code, run_calls, root_calls, is_execve,
  credential_calls, exec_calls, exit_chdir, exit_group, exit_user, umask_to, chdir_to, execve,
  command_exec_func,
}

-- A call other than execve that cannot fail, or that succeeds.
abbrev pub IsPassed : (Call → Bool) → Call → Type 0
IsPassed ok c = (is_execve c ≡ false) × ((failure_code c ≡ none) ⊎ (ok c ≡ true))

run_calls_passed :
    (ok : Call → Bool) (c : Call) (calls : List Call)
    → IsPassed ok c
    → run_calls ok (c ∷ calls) ≡ (c ∷ (run_calls ok calls).0, (run_calls ok calls).1)
unfolding run_calls
run_calls_passed ok c calls (other, inl sure) = rw (run_calls, sure) refl
run_calls_passed ok c calls (other, inr done) = elim (Option-cases (failure_code c)) [
  | inl e ↦ rw (run_calls, e) refl
  | inr (code, e) ↦ rw (run_calls, e, done, other) refl
]

run_calls_failed :
    (ok : Call → Bool) (c : Call) (calls : List Call) (code : ℕ)
    → failure_code c ≡ some code
    → ok c ≡ false
    → (run_calls ok (c ∷ calls)).1 ≡ some code
unfolding run_calls
run_calls_failed ok c calls code e f = rw (run_calls, e, f) refl

-- A call with which a run that returns no exit code begins has passed, or it is execve.
first_passed :
    (ok : Call → Bool) (c : Call) (calls : List Call)
    → (run_calls ok (c ∷ calls)).1 ≡ none
    → (failure_code c ≡ none) ⊎ (ok c ≡ true)
first_passed ok c calls ran = elim (Option-cases (failure_code c)) [
  | inl e ↦ inl e
  | inr (code, e) ↦ elim (Bool-cases (ok c)) [
    | inl done ↦ inr done
    | inr f ↦ cc (run_calls_failed ok c calls code e f, ran)
  ]
]

execve_fails :
    {A : Type 0} (path : Bytes) (argv envv : List Bytes)
    → failure_code (execve path argv envv) ≡ none
    → A
unfolding failure_code
execve_fails path argv envv sure = cc

succeeded :
    (ok : Call → Bool) (c : Call) (code : ℕ)
    → failure_code c ≡ some code
    → IsPassed ok c
    → ok c ≡ true
succeeded ok c code e (other, inl f) = cc (e, f)
succeeded ok c code e (other, inr done) = done

-- In a run that returns no exit code, the calls in front of execve were made and passed, and then
-- execve was.
run_calls-IsPassed :
    (ok : Call → Bool) (calls : List Call) (path : Bytes) (argv envv : List Bytes)
    → All (λ c. is_execve c ≡ false) calls
    → (run_calls ok (calls ++ execve path argv envv ∷ [])).1 ≡ none
    → ((run_calls ok (calls ++ execve path argv envv ∷ [])).0 ≡ calls ++ execve path argv envv ∷ [])
      × All (IsPassed ok) calls
      × (ok (execve path argv envv) ≡ true)
run_calls-IsPassed ok [] path argv envv front ran =
    go (first_passed ok (execve path argv envv) [] ran)
  where
    go :
        (failure_code (execve path argv envv) ≡ none) ⊎ (ok (execve path argv envv) ≡ true)
        → ((run_calls ok (execve path argv envv ∷ [])).0 ≡ execve path argv envv ∷ [])
          × Unit {0}
          × (ok (execve path argv envv) ≡ true)
    go (inl sure) = execve_fails path argv envv sure
    go (inr done) = (unfold run_calls failure_code in rw done refl, tt, done)
run_calls-IsPassed ok (c ∷ calls) path argv envv (other, front) ran =
    let passed : IsPassed ok c = (other, first_passed ok c _ ran) in
    let step = run_calls_passed ok c (calls ++ execve path argv envv ∷ []) passed in
    let (made, all, done) =
      run_calls-IsPassed ok calls path argv envv front (sym (ap (λ r. r.1) step) ∙ ran) in
    (ap (λ r. r.0) step ∙ ap (λ l. c ∷ l) made, (passed, all), done)

All-back : (P : Call → Type 0) (xs ys : List Call) → All P (xs ++ ys) → All P ys
All-back P [] ys h = h
All-back P (x ∷ xs) ys (h, hs) = All-back P xs ys hs

module _ (h : HashTable) where
  credential_calls_of :
      (cmd : Command h)
      → cmd.uid ≢ 0
      → cmd.gid ≢ 0
      → has_flag is_plus cmd.flags ≡ false
      → credential_calls h cmd
        ≡ setregid_to cmd.gid ∷ setgroups_to cmd.gid ∷ setreuid_to cmd.uid ∷ []
  unfolding credential_calls
  credential_calls_of cmd hu hg hp =
      rw (credential_calls, hp, nonzero cmd.gid hg, nonzero cmd.uid hu) refl
    where
      nonzero : (n : ℕ) → n ≢ 0 → (n == 0) ≡ false
      nonzero n e = ground arith

  -- The last calls of a command with a user and a group.
  abbrev pub last_calls : Command h → List Bytes → List Call
  last_calls cmd envl =
      setregid_to cmd.gid
      ∷ setgroups_to cmd.gid
      ∷ setreuid_to cmd.uid
      ∷ umask_to cmd.umask
      ∷ execve cmd.path cmd.args envl
      ∷ []

  abbrev credentials : Command h → List Call
  credentials cmd =
      setregid_to cmd.gid ∷ setgroups_to cmd.gid ∷ setreuid_to cmd.uid ∷ umask_to cmd.umask ∷ []

  -- A run of the last calls behind others.
  last_made :
      (cmd : Command h) (ok : Call → Bool) (envl : List Bytes) (before made : List Call)
      → All (λ c. is_execve c ≡ false) before
      → run_calls ok (before ++ last_calls cmd envl) ≡ (made, none)
      → (made ≡ before ++ last_calls cmd envl)
        × (ok (setregid_to cmd.gid) ≡ true)
        × (ok (setgroups_to cmd.gid) ≡ true)
        × (ok (setreuid_to cmd.uid) ≡ true)
  unfolding failure_code
  last_made cmd ok envl before made front ran =
      let split = append_assoc before (credentials cmd) (execve cmd.path cmd.args envl ∷ []) in
      let (whole, all, _) =
        run_calls-IsPassed ok (before ++ credentials cmd) cmd.path cmd.args envl
          (All-append (λ c. is_execve c ≡ false) before (credentials cmd) front
            (refl, (refl, (refl, (refl, tt)))))
          (ap (λ l. (run_calls ok l).1) split ∙ ap (λ r. r.1) ran) in
      let (g, (gs, (u, _))) = All-back (IsPassed ok) before (credentials cmd) all in
      (
        sym (ap (λ r. r.0) ran) ∙ sym (ap (λ l. (run_calls ok l).0) split) ∙ whole ∙ split,
        succeeded ok (setregid_to cmd.gid) exit_group refl g,
        succeeded ok (setgroups_to cmd.gid) exit_group refl gs,
        succeeded ok (setreuid_to cmd.uid) exit_user refl u,
      )

  abbrev entering : Command h → List Call
  entering cmd = root_calls h cmd.rootdir ++ chdir_to exit_chdir cmd.workdir ∷ []

  root_calls-others : (root : Option Bytes) → All (λ c. is_execve c ≡ false) (root_calls h root)
  unfolding root_calls
  root_calls-others none = tt
  root_calls-others (some dir) = (refl, (refl, tt))

  exec_calls_of :
      (cmd : Command h) (envl : List Bytes)
      → cmd.uid ≢ 0
      → cmd.gid ≢ 0
      → has_flag is_plus cmd.flags ≡ false
      → exec_calls h cmd envl ≡ entering cmd ++ last_calls cmd envl
  unfolding exec_calls
  exec_calls_of cmd envl hu hg hp =
      rw (exec_calls, credential_calls_of cmd hu hg hp)
        (sym (
          append_assoc (root_calls h cmd.rootdir) (chdir_to exit_chdir cmd.workdir ∷ [])
            (last_calls cmd envl)))

  -- The program of a command with a user and a group, and without the prefix +, is executed with them:
  -- if command_exec_func does not return an exit code, then the last calls that it made set the group,
  -- the supplementary groups, the user and the mask, in this order, and execute the command's path with
  -- its arguments and environment; the first three succeeded, and nothing was executed before them.
  pub command_exec_func_privileges :
      (cmd : Command h) (ok : Call → Bool) (made : List Call)
      → cmd.uid ≢ 0
      → cmd.gid ≢ 0
      → has_flag is_plus cmd.flags ≡ false
      → command_exec_func h cmd ok ≡ loaded (made, none)
      → (before : List Call) × (envl : List Bytes) × (made ≡ before ++ last_calls cmd envl)
        × All (λ c. is_execve c ≡ false) before
        × (environment_list h cmd.env ≡ some envl)
        × (ok (setregid_to cmd.gid) ≡ true)
        × (ok (setgroups_to cmd.gid) ≡ true)
        × (ok (setreuid_to cmd.uid) ≡ true)
  unfolding command_exec_func
  command_exec_func_privileges cmd ok made hu hg hp ran =
      elim (Option-cases (environment_list h cmd.env)) [
        | inl e ↦
            let failed : command_exec_func h cmd ok ≡ broken = rw (command_exec_func, e) refl in
            cc (failed, ran)
        | inr (envl, e) ↦
            let run : command_exec_func h cmd ok
                ≡ loaded (run_calls ok (entering cmd ++ last_calls cmd envl)) =
              rw (command_exec_func, e)
                (ap (λ l. loaded (run_calls ok l)) (exec_calls_of cmd envl hu hg hp)) in
            let front : All (λ c. is_execve c ≡ false) (entering cmd) =
              All-append (λ c. is_execve c ≡ false) (root_calls h cmd.rootdir)
                (chdir_to exit_chdir cmd.workdir ∷ []) (root_calls-others cmd.rootdir) (refl, tt) in
            let (whole, g, gs, u) =
              last_made cmd ok envl (entering cmd) made front
                (loaded-injective _ _ (sym run ∙ ran)) in
            (entering cmd, envl, whole, front, e, g, gs, u)
      ]
    where
      loaded-injective :
          (a b : List Call × Option ℕ)
          → ◌≡◌ {A = Loaded (List Call × Option ℕ)} (loaded a) (loaded b)
          → a ≡ b
      loaded-injective a b e = cc
