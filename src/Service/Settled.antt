-- ===== src/Service/Settled.antt =====
-- What the settings that service_from_unit_file reads satisfy.
use sysvkit.Base.{
  ℕ, ◌-◌, ◌*◌, ◌^◌, ◌%◌, ◌<◌, ◌≡◌, ◌≢◌, refl, Bool, true, false, not, ◌||◌, Option, none, some,
  List, [], ◌∷◌, Bytes, codes, bytes_eq, span, ◌==◌, ltb, is_digit, value_from, if◌then◌else◌,
  length, arith, Bool-cases, inl, inr, All,
}
use sysvkit.Text.{is_space}
use sysvkit.Timespan.{ts_sec, ts_invalid, timespan_from_str}
use sysvkit.Timespan
use sysvkit.Timespan.Errors.{Ends, timespan_from_str-Ends}
use sysvkit.Strbool.{strbool}
use sysvkit.Strlist.{seen_before}
use sysvkit.Table.{HashTable}
use sysvkit.UnitFile.{Value, value, missing, freed, unit_get_value}
use sysvkit.Systemd.Parse.{
  Parsed, parsed, malformed, freed_memory, out_of_fuel, systemd_parse_unit_file,
}
use sysvkit.Systemd.Parse.Total.{IsResult, systemd_parse_unit_file-IsResult}
use sysvkit.Service.Types.{
  simple, cgroup, service_type_name, kill_mode_name, restart_policy_name, RestartPolicy, no_restart,
  always, on_success, on_failure, on_abnormal, on_abort, Service,
}
use sysvkit.Service.Settings.{
  service_types, kill_modes, restart_policies, Loaded, loaded, rejected, broken, unfinished,
  and_then, setting, find_name, read_timespan, read_digits, read_signed, read_burst, read_services,
  remove_required, read_flag, read_delay, service_settings, service_from_unit_file,
}

-- NULL, or a result with the property.
abbrev pub Settled : {A : Type 0} → (A → Type 0) → Loaded A → Type 0
Settled P (loaded a) = P a
Settled P rejected = Unit
Settled P broken = ⊥
Settled P unfinished = ⊥

Settled-and_then :
    {A B : Type 0} (P : A → Type 0) (Q : B → Type 0) (r : Loaded A) (f : A → Loaded B)
    → Settled P r
    → ((a : A) → P a → Settled Q (f a))
    → Settled Q (and_then r f)
Settled-and_then P Q (loaded a) f h k = k a h
Settled-and_then P Q rejected f h k = tt
Settled-and_then P Q broken f h k = h
Settled-and_then P Q unfinished f h k = h

Settled-setting :
    {A : Type 0} (P : A → Type 0) (default : A) (read : Bytes → Loaded A) (v : Value)
    → v ≢ freed
    → P default
    → ((x : Bytes) → Settled P (read x))
    → Settled P (setting default read v)
Settled-setting P default read (value x) live d h = h x
Settled-setting P default read missing live d h = d
Settled-setting P default read freed live d h = live refl

abbrev pub Anything : {A : Type 0} → A → Type 0
Anything a = Unit

find_name-Settled :
    {A : Type 0} (name : A → Bytes) (l : List A) (v : Bytes) → Settled Anything (find_name name l v)
unfolding find_name
find_name-Settled name [] v = tt
find_name-Settled name (a ∷ l) v = elim (Bool-cases (bytes_eq v (name a))) [
  | inl e ↦ rw (e) tt
  | inr e ↦ rw (e) (find_name-Settled name l v)
]

abbrev pub IsSpan : ℕ → Type 0
IsSpan t = t < ts_invalid

read_timespan-Settled : (errno : ℕ) (v : Bytes) → Settled IsSpan (read_timespan errno v)
unfolding read_timespan
read_timespan-Settled errno v = go (timespan_from_str errno v) (timespan_from_str-Ends errno v)
  where
    go :
        (r : Timespan.TimespanResult)
        → Ends r
        → Settled IsSpan (elim r [
          | Timespan.value ts ↦ loaded ts
          | Timespan.invalid e ↦ rejected
          | Timespan.out_of_fuel ↦ unfinished
        ])
    go (Timespan.value ts) h = h
    go (Timespan.invalid e) h = tt
    go Timespan.out_of_fuel h = h

-- unsigned long
abbrev pub IsWord : ℕ → Type 0
IsWord n = n < 2 ^ 64

read_digits-Settled : (negative : Bool) (s : Bytes) → Settled IsWord (read_digits negative s)
unfolding read_digits
read_digits-Settled negative s =
    fits (value_from 0 (span is_digit s).0) negative
      (length (span is_digit s).0 == 0 || not (length (span is_digit s).1 == 0))
  where
    in_word :
        (n : ℕ) (neg : Bool)
        → ltb (2 ^ 64 - 1) n ≡ false
        → (if neg then (2 ^ 64 - n) % 2 ^ 64 else n) < 2 ^ 64
    in_word n true e = omega arith
    in_word n false e = ground arith

    fits :
        (n : ℕ) (neg other : Bool)
        → Settled IsWord (
            if other || ltb (2 ^ 64 - 1) n
            then rejected
            else loaded (if neg then (2 ^ 64 - n) % 2 ^ 64 else n))
    fits n neg true = tt
    fits n neg false = elim (Bool-cases (ltb (2 ^ 64 - 1) n)) [
      | inl e ↦ rw (e) tt
      | inr e ↦ rw (e) (in_word n neg e)
    ]

Settled-if :
    {A : Type 0} (P : A → Type 0) (b : Bool) (l m : Loaded A)
    → Settled P l
    → Settled P m
    → Settled P (if b then l else m)
Settled-if P true l m hl hm = hl
Settled-if P false l m hl hm = hm

read_burst-Settled : (v : Bytes) → Settled IsWord (read_burst v)
unfolding read_burst
read_burst-Settled [] = tt
read_burst-Settled (c ∷ s) =
    Settled-if IsWord (c == b'-') rejected _ tt (signed (span is_space (c ∷ s)).1)
  where
    signed : (t : Bytes) → Settled IsWord (read_signed t)
    signed [] = unfold read_signed in tt
    signed (d ∷ t) =
        unfold read_signed in
        (Settled-if IsWord (d == b'-') (read_digits true t) _ (read_digits-Settled true t) (
          Settled-if IsWord (d == b'+') (read_digits false t) (read_digits false (d ∷ t))
            (read_digits-Settled false t) (read_digits-Settled false (d ∷ t))))

read_flag-Settled : (v : Bytes) → Settled Anything (read_flag v)
unfolding read_flag
read_flag-Settled v = go (strbool (some v))
  where
    go : (o : Option Bool) → Settled Anything (elim o [ none ↦ loaded false | some b ↦ loaded b ])
    go none = tt
    go (some b) = tt

read_delay-Settled :
    (errno : ℕ) (policy : RestartPolicy) (v : Value)
    → v ≢ freed
    → Settled IsSpan (read_delay errno policy v)
unfolding read_delay
read_delay-Settled errno no_restart v live = omega arith
read_delay-Settled errno always v live =
    Settled-setting IsSpan _ (read_timespan errno) v live (omega arith)
      (read_timespan-Settled errno)
read_delay-Settled errno on_success v live =
    Settled-setting IsSpan _ (read_timespan errno) v live (omega arith)
      (read_timespan-Settled errno)
read_delay-Settled errno on_failure v live =
    Settled-setting IsSpan _ (read_timespan errno) v live (omega arith)
      (read_timespan-Settled errno)
read_delay-Settled errno on_abnormal v live =
    Settled-setting IsSpan _ (read_timespan errno) v live (omega arith)
      (read_timespan-Settled errno)
read_delay-Settled errno on_abort v live =
    Settled-setting IsSpan _ (read_timespan errno) v live (omega arith)
      (read_timespan-Settled errno)

abbrev pub Disjoint : List Bytes → List Bytes → Type 0
Disjoint required should = All (λ s. seen_before s required ≡ false) should

remove_required-Disjoint :
    (required should : List Bytes) → Disjoint required (remove_required required should)
unfolding remove_required
remove_required-Disjoint required [] = tt
remove_required-Disjoint required (s ∷ should) = elim (Bool-cases (seen_before s required)) [
  | inl e ↦ rw (e) (remove_required-Disjoint required should)
  | inr e ↦ rw (e) (e, remove_required-Disjoint required should)
]

-- Times that timespan_from_str can return, a burst of a machine word, and no service both required
-- and only wanted before.
abbrev pub IsWellFormed : Service → Type 0
IsWellFormed svc =
    IsSpan svc.stop_timeout
    × IsSpan svc.delay
    × IsSpan svc.start_limit_interval
    × IsWord svc.start_limit_burst
    × Disjoint svc.required svc.should

service_settings-Settled :
    (ends_with : Bytes → Bytes → Bool) (errno : ℕ) (name : Bytes) (get : Bytes → Bytes → Value)
    → ((s k : Bytes) → get s k ≢ freed)
    → Settled IsWellFormed (service_settings ends_with errno name get)
unfolding service_settings
service_settings-Settled ends_with errno name get live =
    Settled-and_then Anything IsWellFormed _ _
      (Settled-setting Anything [] (read_services ends_with) _
        (live (codes "Unit") (codes "Requires")) tt listed)
      (λ required _.
        Settled-and_then Anything IsWellFormed _ _
          (Settled-setting Anything [] (read_services ends_with) _
            (live (codes "Unit") (codes "After")) tt listed)
          (λ after _.
            Settled-and_then Anything IsWellFormed _ _
              (named simple service_type_name service_types (codes "Type"))
              (λ type _.
                Settled-and_then Anything IsWellFormed _ _
                  (named cgroup kill_mode_name kill_modes (codes "KillMode"))
                  (λ kill_mode _.
                    Settled-and_then IsSpan IsWellFormed _ _
                      (timed (90 * ts_sec) _ (codes "TimeoutStopSec") (omega arith))
                      (λ stop_timeout stop_fits.
                        Settled-and_then Anything IsWellFormed _ _
                          (named no_restart restart_policy_name restart_policies (codes "Restart"))
                          (λ policy _.
                            Settled-and_then IsSpan IsWellFormed _ _
                              (read_delay-Settled _ policy _
                                (live (codes "Service") (codes "RestartSec")))
                              (λ delay delay_fits.
                                Settled-and_then Anything IsWellFormed _ _
                                  (Settled-setting Anything false read_flag _
                                    (live (codes "Service") (codes "RemainAfterExit")) tt
                                    read_flag-Settled)
                                  (λ remain _.
                                    Settled-and_then IsSpan IsWellFormed _ _
                                      (timed (10 * ts_sec) _ (codes "StartLimitInterval")
                                        (omega arith))
                                      (λ interval interval_fits.
                                        Settled-and_then IsWord IsWellFormed _ _
                                          (Settled-setting IsWord 5 read_burst _
                                            (live (codes "Service") (codes "StartLimitBurst"))
                                            (omega arith) read_burst-Settled)
                                          (λ burst burst_fits. (
                                            stop_fits,
                                            delay_fits,
                                            interval_fits,
                                            burst_fits,
                                            remove_required-Disjoint required after,
                                          )))))))))))
  where
    listed : (v : Bytes) → Settled Anything (read_services ends_with v)
    listed v = unfold read_services in tt

    named :
        {A : Type 0} (default : A) (show : A → Bytes) (l : List A) (key : Bytes)
        → Settled Anything (setting default (find_name show l) (get (codes "Service") key))
    named default show l key =
        Settled-setting Anything default (find_name show l) _ (live (codes "Service") key) tt
          (find_name-Settled show l)

    timed :
        (default e : ℕ) (key : Bytes)
        → IsSpan default
        → Settled IsSpan (setting default (read_timespan e) (get (codes "Service") key))
    timed default e key d =
        Settled-setting IsSpan default (read_timespan e) _ (live (codes "Service") key) d
          (read_timespan-Settled e)

-- Whatever a unit file's text is, service_from_unit_file returns NULL or a service: no freed pair is
-- read and the loops end. The service's times are ones that timespan_from_str returns, its burst is
-- a machine word, and no service is both in its list of required ones and in that of the ones to
-- start before.
pub service_from_unit_file-Settled :
    (h : HashTable) (ends_with : Bytes → Bytes → Bool) (errno : ℕ) (name txt : Bytes)
    → Settled IsWellFormed (service_from_unit_file h ends_with errno name txt)
unfolding service_from_unit_file
service_from_unit_file-Settled h ends_with errno name txt =
    go (systemd_parse_unit_file h name txt) (systemd_parse_unit_file-IsResult h name txt)
  where
    go :
        (r : Parsed h)
        → IsResult h r
        → Settled IsWellFormed (elim r [
          | parsed u ↦ service_settings ends_with errno name (unit_get_value h u)
          | malformed ↦ rejected
          | freed_memory ↦ broken
          | out_of_fuel ↦ unfinished
        ])
    go (parsed u) alive = service_settings-Settled ends_with errno name (unit_get_value h u) alive
    go malformed alive = tt
    go freed_memory alive = alive
    go out_of_fuel alive = alive
