-- ===== src/Approvals/Answers.antt =====
-- Every approval is answered once: by the operator or by its timer, whichever comes first.
use agentct.Base.{
  ℕ, ◌+◌, ◌*◌, ◌≤◌, or_else, Text, text_eq, text_eq_iff, any, filter, length, Bool, true, false,
  not, Option, List, [], ◌∷◌, ◌++◌, ◌≡◌, refl, inl, inr, Bool-cases, arith, if◌then◌else◌,
}
use agentct.Types.{PaymentRequest, PolicyDecision}
use agentct.Approvals.{
  PendingApproval, Answer, Queue, no_approvals, is_slot, enqueue, clear_timer, answer, resolve,
  time_out,
}

abbrev pub is_answer : Text → Answer → Bool
is_answer id a = text_eq a.id id

abbrev pub is_timer : Text → Text → Bool
is_timer id t = text_eq t id

-- How often an approval waits, how often its timer is set, and how often it was answered.
abbrev pub waiting : Text → Queue → ℕ
waiting id q = length (filter (is_slot id) q.pending)

abbrev pub armed : Text → Queue → ℕ
armed id q = length (filter (is_timer id) q.timers)

abbrev pub answered : Text → Queue → ℕ
answered id q = length (filter (is_answer id) q.answers)

-- What can happen: a payment is parked under an id that was never used, an operator answers, or a
-- timer that is set runs out. Whether a slot still waits is asked of no timer.
pub data Step (q : Queue) : Queue → Type 0 where
  parks :
      (default_timeout : Option ℕ) (id : Text) (req : PaymentRequest) (decision : PolicyDecision)
      (timeout : Option ℕ) (now : ℕ)
      → waiting id q + answered id q ≡ 0
      → Step q (enqueue default_timeout id req decision timeout now q)
  answers : (id : Text) (approved : Bool) → Step q (resolve id approved q).1
  runs_out : (id : Text) → any (is_timer id) q.timers ≡ true → Step q (time_out id q)

pub data Steps (q : Queue) : Queue → Type 0 where
  start : Steps q q
  then_step : {r s : Queue} → Steps q r → Step r s → Steps q s

module _ {A : Type 0} (name : A → Text) where
  abbrev named : Text → A → Bool
  named id x = text_eq (name x) id

  removed_same :
      (id : Text) (xs : List A) → length (filter (named id) (filter (λ x. not (named id x)) xs)) ≡ 0
  removed_same id [] = refl
  removed_same id (x ∷ xs) = ground (arith, removed_same id xs)

  removed_other :
      (id other : Text) (xs : List A)
      → text_eq id other ≡ false
      → length (filter (named other) (filter (λ x. not (named id x)) xs))
        ≡ length (filter (named other) xs)
  removed_other id other [] h = refl
  removed_other id other (x ∷ xs) h = ground (
    arith,
    removed_other id other xs,
    text_eq_iff (name x) id,
    text_eq_iff (name x) other,
    text_eq_iff id other,
  )

  any-counted :
      (id : Text) (xs : List A) → any (named id) xs ≡ true → 1 ≤ length (filter (named id) xs)
  any-counted id [] h = cc
  any-counted id (x ∷ xs) h = ground (arith, any-counted id xs)

count-snoc :
    {A : Type 0} (p : A → Bool) (xs : List A) (x : A)
    → length (filter p (xs ++ x ∷ [])) ≡ length (filter p xs) + (if p x then 1 else 0)
count-snoc p [] x = ground arith
count-snoc p (y ∷ xs) x = ground (arith, count-snoc p xs x)

-- Each id waits or is answered at most once together, and its timer is set just while it waits.
abbrev pub Sound : Queue → Type 0
Sound q = (id : Text) → (waiting id q + answered id q ≤ 1) × (armed id q ≡ waiting id q)

-- A slot that waits is answered behind its timer being cleared or spent.
answer-Sound :
    (id : Text) (approved : Bool) (q : Queue)
    → 1 ≤ waiting id q
    → Sound q
    → Sound (answer id approved (clear_timer id q))
unfolding answer clear_timer
answer-Sound id approved q waits sound other =
    let new : Answer = record { id = id; approved = approved } in
    let q' = answer id approved (clear_timer id q) in
    let counted = count-snoc (is_answer other) q.answers new in
    let (bound, timed) = sound other in
    elim (Bool-cases (text_eq id other)) [
      | inl same ↦
          let e : id ≡ other = (text_eq_iff id other).0 same in
          let waits' : 1 ≤ waiting other q = rw e at waits in
          let one : answered other q' ≡ answered other q + 1 = rw same at counted in
          let gone : waiting other q' ≡ 0 =
            rw (← e) (removed_same (λ item. item.id) id q.pending) in
          let unset : armed other q' ≡ 0 = rw (← e) (removed_same (λ t. t) id q.timers) in
          (omega arith, omega arith)
      | inr differs ↦
          let kept : waiting other q' ≡ waiting other q =
            removed_other (λ item. item.id) id other q.pending differs in
          let set_still : armed other q' ≡ armed other q =
            removed_other (λ t. t) id other q.timers differs in
          let none_new : answered other q' ≡ answered other q + 0 = rw differs at counted in
          (omega arith, omega arith)
    ]

enqueue-Sound :
    (default_timeout : Option ℕ) (id : Text) (req : PaymentRequest) (decision : PolicyDecision)
    (timeout : Option ℕ) (now : ℕ) (q : Queue)
    → waiting id q + answered id q ≡ 0
    → Sound q
    → Sound (enqueue default_timeout id req decision timeout now q)
unfolding enqueue
enqueue-Sound default_timeout id req decision timeout now q unused sound other =
    let item : PendingApproval = record {
      id = id;
      request = req;
      decision = decision;
      created_at = now;
      expires_at = now + or_else timeout (or_else default_timeout 300) * 1000;
    } in
    let counted = count-snoc (is_slot other) q.pending item in
    let timers = count-snoc (is_timer other) q.timers id in
    let (bound, timed) = sound other in
    elim (Bool-cases (text_eq id other)) [
      | inl same ↦
          let e : id ≡ other = (text_eq_iff id other).0 same in
          let none_yet : waiting other q + answered other q ≡ 0 = rw e at unused in
          let one = rw same at counted in
          let set_once = rw same at timers in (omega arith, omega arith)
      | inr differs ↦
          let kept = rw differs at counted in
          let set_still = rw differs at timers in (omega arith, omega arith)
    ]

resolve-Sound :
    (id : Text) (approved : Bool) (q : Queue) → Sound q → Sound (resolve id approved q).1
unfolding resolve
resolve-Sound id approved q sound = elim (Bool-cases (any (is_slot id) q.pending)) [
  | inl slot ↦
      rw slot (answer-Sound id approved q (any-counted (λ item. item.id) id q.pending slot) sound)
  | inr missing ↦ rw missing sound
]

Step-Sound : {q r : Queue} → Step q r → Sound q → Sound r
unfolding time_out
Step-Sound {q} (parks default_timeout id req decision timeout now unused) sound =
    enqueue-Sound default_timeout id req decision timeout now q unused sound
Step-Sound {q} (answers id approved) sound = resolve-Sound id approved q sound
Step-Sound {q} (runs_out id set_timer) sound =
    let counted : 1 ≤ armed id q = any-counted (λ t. t) id q.timers set_timer in
    let timed = (sound id).1 in answer-Sound id false q (omega arith) sound

Steps-Sound : {q : Queue} → Steps no_approvals q → Sound q
Steps-Sound start id = (omega arith, refl)
Steps-Sound (then_step steps step) id = Step-Sound step (Steps-Sound steps) id

-- In every queue that is reached from the empty one by parking payments under unused ids, answers of
-- operators and timers that are set and run out, in any order, an id either waits once, or was
-- answered once, or neither: no promise is answered twice, and none that was answered still waits. The
-- timer of an id is set exactly while it waits, so none runs out behind an answer.
pub Steps-once :
    {q : Queue}
    → Steps no_approvals q
    → (id : Text) → (waiting id q + answered id q ≤ 1) × (armed id q ≡ waiting id q)
Steps-once steps id = Steps-Sound steps id
