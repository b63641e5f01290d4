-- ===== src/Connector/Balance.antt =====
-- cn_proc_listen of src/common/cn_proc.c over a sequence of calls: disables against enables.
use sysvkit.Base.{
  ℕ, ◌+◌, ◌==◌, Option-cases, sym, subst, ◌≡◌, refl, ◌∙◌, Bool, true, false, not, ◌&&◌, ◌||◌, ◌≤◌,
  All, Option, none, some, List, [], ◌∷◌, if◌then◌else◌, Bool-cases, inl, inr, arith,
}
use sysvkit.Connector.{
  Connector, Polled, Received, no_event, arrived, aborted, Listened, returns, refuses, fatal, waits,
  give_up, acknowledged, is_ack, cn_proc_receive_event, cn_proc_send, sent_nothing, await_ack,
  cn_proc_listen,
}

-- What a call of cn_proc_listen leaves of the flag.
abbrev Leaves : Bool → Connector → Listened → Type 0
Leaves endis c (returns true c') = c'.listening ≡ endis
Leaves endis c (returns false c') = c'.listening ≡ (if endis then c.listening else false)
Leaves endis c (refuses c') = c'.listening ≡ c.listening
Leaves endis c fatal = Unit
Leaves endis c waits = Unit

give_up-Leaves : (endis : Bool) (c : Connector) → Leaves endis c (give_up endis c)
unfolding give_up
give_up-Leaves true c = refl
give_up-Leaves false c = refl

acknowledged-Leaves :
    (endis : Bool) (err : ℕ) (c : Connector) → Leaves endis c (acknowledged endis err c)
unfolding acknowledged
acknowledged-Leaves endis err c = elim (Bool-cases (err == 0)) [
  | inl e ↦ rw e refl
  | inr e ↦ rw e refl
]

await_ack-Leaves :
    (endis : Bool) (c : Connector) (rounds : List (Polled × Received))
    → Leaves endis c (await_ack endis c rounds)
unfolding await_ack
await_ack-Leaves endis c [] = tt
await_ack-Leaves endis c ((p, r) ∷ rounds) =
    elim (cn_proc_receive_event p r)
      as (λ a. Leaves endis c (elim a [
        | no_event e ↦ give_up endis c
        | aborted ↦ fatal
        | arrived d ↦
            if is_ack d.event then acknowledged endis d.err c else await_ack endis c rounds
      ])) [
        | no_event e ↦ give_up-Leaves endis c
        | aborted ↦ tt
        | arrived d ↦ elim (Bool-cases (is_ack d.event)) [
          | inl e ↦ rw e (acknowledged-Leaves endis d.err c)
          | inr e ↦ rw e (await_ack-Leaves endis c rounds)
        ]
      ]

-- A call, by what it asks for and what the system answers.
pub record Call : Type 0 where
  pub endis : Bool
  pub sent : Option ℕ
  pub rounds : List (Polled × Received)

-- The messages that were sent: those of the calls that reported success in enabling, and the
-- disabling ones that were not refused.
pub record Tally : Type 0 where
  pub connector : Connector
  pub enables : ℕ
  pub disables : ℕ

abbrev pub one_if : Bool → ℕ
one_if b = if b then 1 else 0

abbrev pub is_sent : Option ℕ → Bool
is_sent none = false
is_sent (some n) = true

-- A call that changes nothing, since events are as it asks for already, sends nothing; one whose
-- sendmsg fails sends nothing either.
unfoldable pub count : (endis sent : Bool) → Tally → Listened → Option Tally
count true sent t (returns ok c) = some (record t {
  connector = c;
  enables = t.enables + one_if (sent && ok && not t.connector.listening);
})
count false sent t (returns ok c) =
    some
      (record t { connector = c; disables = t.disables + one_if (sent && t.connector.listening) })
count endis sent t (refuses c) = some (record t { connector = c })
count endis sent t fatal = none
count endis sent t waits = none

-- Whether a call's message would be sent whole.
abbrev pub sends : Call → Bool
sends call = is_sent (cn_proc_send 4 call.sent)

unfoldable pub listen_all : List Call → Tally → Option Tally
unfolding count cn_proc_listen
listen_all [] t = some t
listen_all (call ∷ calls) t =
    elim (count call.endis (sends call) t
      (cn_proc_listen call.endis call.sent call.rounds t.connector)) [
        | none ↦ none
        | some t' ↦ listen_all calls t'
      ]

abbrev pub IsBalanced : Tally → Type 0
IsBalanced t = t.disables + one_if t.connector.listening ≤ t.enables

abbrev BalancedIfAny : Option Tally → Type 0
BalancedIfAny none = Unit
BalancedIfAny (some t) = IsBalanced t

-- The message of a call that enables is sent.
abbrev pub IsEnabling : Call → Type 0
IsEnabling call = (not call.endis || sends call) ≡ true

-- An enable where events are disabled.
count-enable :
    (t : Tally) (r : Listened)
    → IsBalanced t
    → t.connector.listening ≡ false
    → Leaves true t.connector r
    → BalancedIfAny (count true true t r)
unfolding count
count-enable t (returns true c) b off l = ground arith
count-enable t (returns false c) b off l = ground arith
count-enable t (refuses c) b off l = ground arith
count-enable t fatal b off l = tt
count-enable t waits b off l = tt

-- A disable where they are enabled.
count-disable :
    (t : Tally) (sent : Bool) (r : Listened)
    → IsBalanced t
    → t.connector.listening ≡ true
    → Leaves false t.connector r
    → BalancedIfAny (count false sent t r)
unfolding count
count-disable t sent (returns true c) b on l = ground arith
count-disable t sent (returns false c) b on l = ground arith
count-disable t sent (refuses c) b on l = ground arith
count-disable t sent fatal b on l = tt
count-disable t sent waits b on l = tt

send_reported : (sent : Option ℕ) → sent_nothing (cn_proc_send 4 sent) ≡ false
unfolding sent_nothing cn_proc_send
send_reported none = refl
send_reported (some n) = ground arith

-- Nothing is sent where the flag is as asked for; otherwise the result of sendmsg makes no difference.
listen_same :
    (endis : Bool) (sent : Option ℕ) (rounds : List (Polled × Received)) (c : Connector)
    → c.listening ≡ endis
    → cn_proc_listen endis sent rounds c ≡ returns true c
unfolding cn_proc_listen
listen_same true sent rounds c on = ground arith
listen_same false sent rounds c off = ground arith

listen_sends :
    (endis : Bool) (sent : Option ℕ) (rounds : List (Polled × Received)) (c : Connector)
    → c.listening ≡ not endis
    → cn_proc_listen endis sent rounds c ≡ await_ack endis c rounds
unfolding cn_proc_listen
listen_sends true sent rounds c off = ground (arith, send_reported sent)
listen_sends false sent rounds c on = ground (arith, send_reported sent)

call-IsBalanced :
    (endis sent_ok : Bool) (sent : Option ℕ) (rounds : List (Polled × Received)) (t : Tally)
    → (not endis || sent_ok) ≡ true
    → IsBalanced t
    → BalancedIfAny (count endis sent_ok t (cn_proc_listen endis sent rounds t.connector))
call-IsBalanced true true sent rounds t s b = elim (Bool-cases t.connector.listening) [
  | inl on ↦
      subst (λ r. BalancedIfAny (count true true t r))
        (sym (listen_same true sent rounds t.connector on)) (unfold count in ground arith)
  | inr off ↦
      subst (λ r. BalancedIfAny (count true true t r))
        (sym (listen_sends true sent rounds t.connector off))
        (count-enable t _ b off (await_ack-Leaves true t.connector rounds))
]
call-IsBalanced true false sent rounds t s b = cc
call-IsBalanced false sent_ok sent rounds t s b = elim (Bool-cases t.connector.listening) [
  | inl on ↦
      subst (λ r. BalancedIfAny (count false sent_ok t r))
        (sym (listen_sends false sent rounds t.connector on))
        (count-disable t sent_ok _ b on (await_ack-Leaves false t.connector rounds))
  | inr off ↦
      subst (λ r. BalancedIfAny (count false sent_ok t r))
        (sym (listen_same false sent rounds t.connector off)) (unfold count in ground arith)
]

abbrev first_count : Call → Tally → Option Tally
first_count call t =
    count call.endis (sends call) t (cn_proc_listen call.endis call.sent call.rounds t.connector)

rest_none :
    (call : Call) (calls : List Call) (t : Tally)
    → first_count call t ≡ none
    → listen_all (call ∷ calls) t ≡ none
unfolding listen_all
rest_none call calls t f = rw (listen_all, f) refl

rest_some :
    (call : Call) (calls : List Call) (t t1 : Tally)
    → first_count call t ≡ some t1
    → listen_all (call ∷ calls) t ≡ listen_all calls t1
unfolding listen_all
rest_some call calls t t1 f = rw (listen_all, f) refl

-- Over any sequence of calls of cn_proc_listen in which the messages of those that enable are sent,
-- and whatever else the system answers: the disabling messages that were sent and not refused are at
-- most as many as the enabling ones that the calls reported to have succeeded, and they are fewer
-- while events are taken to be enabled.
pub listen_all-IsBalanced :
    (calls : List Call) (t t' : Tally)
    → All IsEnabling calls
    → IsBalanced t
    → listen_all calls t ≡ some t'
    → t'.disables + one_if t'.connector.listening ≤ t'.enables
unfolding listen_all
listen_all-IsBalanced [] t t' s b e = subst BalancedIfAny e b
listen_all-IsBalanced (call ∷ calls) t t' (s, ss) b e =
    let ok = call-IsBalanced call.endis (sends call) call.sent call.rounds t s b in
    elim (Option-cases (first_count call t)) [
      | inl f ↦ cc (rest_none call calls t f, e)
      | inr (t1, f) ↦
          listen_all-IsBalanced calls t1 t' ss (subst BalancedIfAny f ok)
            (sym (rest_some call calls t t1 f) ∙ e)
    ]
