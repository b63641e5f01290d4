-- ===== src/Procwatch/Store.antt =====
-- The memory of src/common/procwatch.c: process structs at addresses, the hash table from process
-- ids to them, and the list of those that are ready. A run ends with a result, or with a fault.
use sysvkit.Base.{
  ℕ, suc, Bool, true, false, ◌||◌, Option, none, some, List, [], ◌∷◌, ◌==◌, if◌then◌else◌,
}

-- struct process: `wstatus` is none for -1. A list of children holds addresses.
pub record Process : Type 0 where
  pub pid : ℕ
  pub ppid : ℕ
  pub sid : ℕ
  pub children : List ℕ
  pub wstatus : Option ℕ

-- The variables of the file with the memory behind them. An address is `live` from its allocation
-- until it is freed, and `next` is the address of the next struct; 0 is NULL.
pub record Procs : Type 0 where
  pub next : ℕ
  pub live : ℕ → Bool
  pub at : ℕ → Process
  pub processes : List (ℕ × ℕ)
  pub ready : List ℕ
  pub proc_init : ℕ
  pub proc_self : ℕ
  pub errno : ℕ

-- `dangling`: a pointer to no struct is followed; `aborted`: fatal(); `unending`: a loop or a
-- recursion that goes on for longer than there are structs.
pub data Fault : Type 0 where
  dangling aborted unending : Fault

pub data Run (A : Type 0) : Type 0 where
  done : A → Procs → Run A
  failed : Fault → Run A

abbrev pub M : Type 0 → Type 0
M A = Procs → Run A

abbrev pub pure : {A : Type 0} → A → M A
pure = done

abbrev pub fail : {A : Type 0} → Fault → M A
fail f s = failed f

module _ {A B : Type 0} where
  abbrev pub and_then : Run A → (A → M B) → Run B
  and_then (done a s) k = k a s
  and_then (failed f) k = failed f

  infixl 5 ◌>>=◌ ◌>>◌
  abbrev pub ◌>>=◌ : M A → (A → M B) → M B
  m >>= k = λ s. and_then (m s) k

  abbrev pub ◌>>◌ : M A → M B → M B
  m >> n = m >>= λ _. n

-- Whether a run ends without a fault in a result and a state that satisfy a predicate.
abbrev pub Ends : {A : Type 0} → (A → Procs → Type 0) → Run A → Type 0
Ends P (done a s) = P a s
Ends P (failed f) = ⊥

-- A function changed at one address.
abbrev pub update {ℓ} : {A : Type ℓ} → (ℕ → A) → ℕ → A → ℕ → A
update f a v b = if a == b then v else f b

unfoldable pub load : ℕ → M Process
load a s = if s.live a then done (s.at a) s else failed dangling

unfoldable pub store : ℕ → Process → M (Unit {0})
store a p s = if s.live a then done tt (record s { at = update s.at a p }) else failed dangling

-- fscalloc and the assignments to the fields of the new struct.
unfoldable pub allocate : Process → M ℕ
allocate p s =
    done s.next
      (record s { next = suc s.next; live = update s.live s.next true; at = update s.at s.next p })

unfoldable pub free : ℕ → M (Unit {0})
free a s = if s.live a then done tt (record s { live = update s.live a false }) else failed dangling

-- list_get: whether a pointer is in a list.
unfoldable pub has : ℕ → List ℕ → Bool
has a [] = false
has a (x ∷ xs) = x == a || has a xs

-- list_remove at the element that list_get returns.
unfoldable pub remove : ℕ → List ℕ → List ℕ
remove a [] = []
remove a (x ∷ xs) = if x == a then xs else x ∷ remove a xs

-- The hash table, as its elements.
unfoldable pub get : ℕ → List (ℕ × ℕ) → Option ℕ
get p [] = none
get p ((q, a) ∷ t) = if q == p then some a else get p t

unfoldable pub put : ℕ → ℕ → List (ℕ × ℕ) → List (ℕ × ℕ)
put p a [] = (p, a) ∷ []
put p a ((q, b) ∷ t) = if q == p then (p, a) ∷ t else (q, b) ∷ put p a t

unfoldable pub pop : ℕ → List (ℕ × ℕ) → List (ℕ × ℕ)
pop p [] = []
pop p ((q, b) ∷ t) = if q == p then pop p t else (q, b) ∷ pop p t
