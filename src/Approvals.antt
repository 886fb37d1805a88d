-- ===== src/Approvals.antt =====
-- ApprovalQueue of packages/core/src/approval-queue.ts: escalated payments that wait for a human. The
-- promises that `enqueue` returns are the list of answers given so far. The timers that are set and
-- neither cleared nor spent are part of the state; one that runs out is an operation of its own.
pub mod Answers
use agentct.Base.{
  ℕ, ◌+◌, ◌*◌, ◌≤◌, Text, text_eq, or_else, any, filter, find?, length, Bool, true, false, not,
  Option, none, some, List, [], ◌∷◌, ◌++◌, map, if◌then◌else◌,
}
use agentct.Base.Sorting.{sort_by}
use agentct.Types.{PaymentRequest, PolicyDecision}

pub record PendingApproval : Type 0 where
  pub id : Text
  pub request : PaymentRequest
  pub decision : PolicyDecision
  pub created_at : ℕ
  pub expires_at : ℕ

-- What a promise resolved to.
pub record Answer : Type 0 where
  pub id : Text
  pub approved : Bool

-- The slots of the map, in the order of their insertion, the timers that are set, each by the id that
-- its callback has, and the answers.
pub record Queue : Type 0 where
  pub pending : List PendingApproval
  pub timers : List Text
  pub answers : List Answer

abbrev pub no_approvals : Queue
no_approvals = record { pending = []; timers = []; answers = [] }

abbrev pub is_slot : Text → PendingApproval → Bool
is_slot id item = text_eq item.id id

abbrev delete : Text → List PendingApproval → List PendingApproval
delete id items = filter (λ item. not (is_slot id item)) items

-- `id` is the one that `randomUUID` draws.
unfoldable pub enqueue :
    (default_timeout : Option ℕ)
    → Text
    → PaymentRequest
    → PolicyDecision
    → (timeout : Option ℕ) → (now : ℕ) → Queue
    → Queue
enqueue default_timeout id req decision timeout now q = record q {
  pending =
      q.pending
      ++ record {
        id = id;
        request = req;
        decision = decision;
        created_at = now;
        expires_at = now + or_else timeout (or_else default_timeout 300) * 1000;
      }
        ∷ [];
  timers = q.timers ++ id ∷ [];
}

-- `clearTimeout`: the callback of this timer is never called.
unfoldable pub clear_timer : Text → Queue → Queue
clear_timer id q = record q { timers = filter (λ t. not (text_eq t id)) q.timers }

-- The slot is taken out and its promise resolves.
unfoldable pub answer : Text → Bool → Queue → Queue
answer id approved q = record q {
  pending = delete id q.pending;
  answers = q.answers ++ record { id = id; approved = approved } ∷ [];
}

unfoldable pub resolve : Text → Bool → Queue → Bool × Queue
unfolding answer clear_timer
resolve id approved q =
    if any (is_slot id) q.pending then (true, answer id approved (clear_timer id q)) else (false, q)

-- The callback of a timer of `enqueue`, which looks at nothing; the timer that called it is spent.
unfoldable pub time_out : Text → Queue → Queue
unfolding answer clear_timer
time_out id q = answer id false (clear_timer id q)

unfoldable pub list : Queue → List PendingApproval
unfolding sort_by
list q = sort_by (λ (item : PendingApproval). item.created_at) q.pending

unfoldable pub get : Text → Queue → Option PendingApproval
get id q = find? (is_slot id) q.pending

unfoldable pub size : Queue → ℕ
size q = length q.pending
