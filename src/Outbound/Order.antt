-- ===== src/Outbound/Order.antt =====
-- The order of the messages of a source, over any history of the channel.
use snowbridge.Shared.{
  ℕ, zero, suc, ◌+◌, ◌≡◌, ◌⊎◌, refl, sym, ap, ◌∙◌, List, [], ◌∷◌, ◌++◌, arith, length, ◌==◌,
  if◌then◌else◌, Bool-cases, inl, inr, true, false,
}
use mathlib.Core.List.{append_assoc, append-nil}
use snowbridge.Shared.Bytes.{Bytes}
use snowbridge.Outbound.{
  Config, Channel, Message, Event, Weight, message_accepted, committed, nonce_of, genesis, submit,
  commit, commit_queue, on_idle,
}
use snowbridge.Outbound.Submit.{
  IsBounded, accepted, new_message, submit_cases, submit-IsBounded, commit-IsBounded,
}

-- What the channel has handed over, by its events, in order.
abbrev pub committed_messages : List Event → List Message
committed_messages [] = []
committed_messages (message_accepted nonce ∷ es) = committed_messages es
committed_messages (committed hash messages ∷ es) = messages ++ committed_messages es

-- The nonces of the messages of a source.
abbrev pub nonces_from : ℕ → List Message → List ℕ
nonces_from source [] = []
nonces_from source (m ∷ ms) =
    let rest = nonces_from source ms in if m.source_id == source then m.nonce ∷ rest else rest

-- `k, k + 1, …`, n numbers.
abbrev pub count_from : ℕ → ℕ → List ℕ
count_from k zero = []
count_from k (suc n) = k ∷ count_from (k + 1) n

pub data Call : Type 0 where
  submits : ℕ → Bytes → Call
  commits : Weight → Call
  idles : ℕ → Weight → Call

pub step : Config → Channel → Call → Channel
step c s (submits source payload) = (submit c source payload s).1
step c s (commits w) = (commit c w s).1
step c s (idles n w) = (on_idle c n w s).1

pub run : Config → Channel → List Call → Channel
run c s [] = s
run c s (call ∷ calls) = run c (step c s call) calls

committed_messages-append :
    (es fs : List Event)
    → committed_messages (es ++ fs) ≡ committed_messages es ++ committed_messages fs
committed_messages-append [] fs = refl
committed_messages-append (message_accepted n ∷ es) fs = committed_messages-append es fs
committed_messages-append (committed h ms ∷ es) fs =
    ap (λ r. ms ++ r) (committed_messages-append es fs) ∙ sym (append_assoc ms _ _)

nonces_from-append :
    (source : ℕ) (xs ys : List Message)
    → nonces_from source (xs ++ ys) ≡ nonces_from source xs ++ nonces_from source ys
nonces_from-append source [] ys = refl
nonces_from-append source (m ∷ xs) ys = elim (Bool-cases (m.source_id == source)) [
  | inl own ↦ rw own (ap (λ r. m.nonce ∷ r) (nonces_from-append source xs ys))
  | inr foreign ↦ rw foreign (nonces_from-append source xs ys)
]

count_from-suc : (k n : ℕ) → count_from k n ++ (k + n) ∷ [] ≡ count_from k (suc n)
count_from-suc k zero = ground arith
count_from-suc k (suc n) =
    ap (λ r. k ∷ r) (let e : k + suc n ≡ k + 1 + n = omega arith in rw e (count_from-suc (k + 1) n))

count_from-add_one : (n : ℕ) → count_from 0 n ++ n ∷ [] ≡ count_from 0 (n + 1)
count_from-add_one n =
    let e : n ≡ 0 + n = omega arith in
    let f : n + 1 ≡ suc n = omega arith in
    rw f (ap (λ m. count_from 0 n ++ m ∷ []) e ∙ count_from-suc 0 n)

-- A first part of a count is a count.
count_from-prefix :
    (k n : ℕ) (xs ys : List ℕ) → xs ++ ys ≡ count_from k n → xs ≡ count_from k (length xs)
count_from-prefix k n [] ys e = refl
count_from-prefix k zero (x ∷ xs) ys e = cc
count_from-prefix k (suc n) (x ∷ xs) ys e = let ih = count_from-prefix (k + 1) n xs ys (cc) in cc

-- All messages that were accepted, in order.
abbrev all_messages : Channel → List Message
all_messages s = committed_messages s.events ++ s.message_queue

-- The accepted messages of each source carry the nonces 0, 1, 2, …, up to the stored nonce.
abbrev pub IsInOrder : Channel → Type 0
IsInOrder s = (source : ℕ) → nonces_from source (all_messages s) ≡ count_from 0 (nonce_of s source)

all_messages-accepted :
    (source : ℕ) (payload : Bytes) (s : Channel)
    → all_messages (accepted source payload s) ≡ all_messages s ++ new_message source payload s ∷ []
all_messages-accepted source payload s =
    rw (committed_messages-append s.events (message_accepted (nonce_of s source) ∷ []), append-nil)
      (sym (append_assoc (committed_messages s.events) s.message_queue _))

-- Committing moves the queue to what was handed over, and changes no nonce.
all_messages-commit :
    (c : Config) (w : Weight) (s : Channel)
    → (all_messages (commit c w s).1 ≡ all_messages s) × ((commit c w s).1.nonce ≡ s.nonce)
unfolding commit
all_messages-commit c w s = by_queue s.message_queue
  where
    by_queue :
        (queue : List Message)
        → let s' = (commit_queue c queue (record s { message_queue = [] })).1 in
          (all_messages s' ≡ committed_messages s.events ++ queue) × (s'.nonce ≡ s.nonce)
    by_queue [] = (refl, refl)
    by_queue (m ∷ ms) = (
      append-nil _
          ∙ committed_messages-append s.events _
          ∙ ap (λ r. committed_messages s.events ++ r) (append-nil (m ∷ ms)),
      refl,
    )

accepted-IsInOrder :
    (source : ℕ) (payload : Bytes) (s : Channel)
    → IsInOrder s
    → IsInOrder (accepted source payload s)
accepted-IsInOrder source payload s h j =
    rw
      (
        all_messages-accepted source payload s,
        nonces_from-append j (all_messages s) (new_message source payload s ∷ []),
        h j,
      )
      (elim (Bool-cases (j == source)) [
        | inl own ↦
            let e : j ≡ source = ground arith in
            let t : (source == source) ≡ true = ground arith in
            rw (e, t) (count_from-add_one (nonce_of s source))
        | inr foreign ↦
            let t : (source == j) ≡ false = ground arith in rw (foreign, t) (append-nil _)
      ])

commit-IsInOrder :
    (c : Config) (w : Weight) (s : Channel) → IsInOrder s → IsInOrder (commit c w s).1
commit-IsInOrder c w s h j = let moved = all_messages-commit c w s in rw (moved.0, moved.1) (h j)

-- `on_idle` does nothing or commits.
pub on_idle_cases :
    (c : Config) (n : ℕ) (w : Weight) (s : Channel)
    → (on_idle c n w s ≡ (w, s)) ⊎ (on_idle c n w s ≡ commit c w s)
unfolding on_idle
on_idle_cases c n w s = ground arith

step-IsInOrder : (c : Config) (s : Channel) (call : Call) → IsInOrder s → IsInOrder (step c s call)
unfolding step
step-IsInOrder c s (submits source payload) h =
    submit_cases IsInOrder c source payload s h (λ room fits. accepted-IsInOrder source payload s h)
step-IsInOrder c s (commits w) h = commit-IsInOrder c w s h
step-IsInOrder c s (idles n w) h = elim (on_idle_cases c n w s) [
  | inl e ↦ rw (e, step) h
  | inr e ↦ rw (e, step) (commit-IsInOrder c w s h)
]

run_from-IsInOrder :
    (c : Config) (s : Channel) (calls : List Call) → IsInOrder s → IsInOrder (run c s calls)
unfolding run
run_from-IsInOrder c s [] h = h
run_from-IsInOrder c s (call ∷ calls) h =
    run_from-IsInOrder c (step c s call) calls (step-IsInOrder c s call h)

step-IsBounded :
    (c : Config) (s : Channel) (call : Call) → IsBounded c s → IsBounded c (step c s call)
unfolding step
step-IsBounded c s (submits source payload) h = submit-IsBounded c source payload s h
step-IsBounded c s (commits w) h = commit-IsBounded c w s
step-IsBounded c s (idles n w) h = elim (on_idle_cases c n w s) [
  | inl e ↦ rw (e, step) h
  | inr e ↦ rw (e, step) (commit-IsBounded c w s)
]

run_from-IsBounded :
    (c : Config) (s : Channel) (calls : List Call) → IsBounded c s → IsBounded c (run c s calls)
unfolding run
run_from-IsBounded c s [] h = h
run_from-IsBounded c s (call ∷ calls) h =
    run_from-IsBounded c (step c s call) calls (step-IsBounded c s call h)

-- From the empty channel, after any calls: the queue and each payload are within their limits.
pub run-IsBounded :
    (c : Config) (interval : ℕ) (calls : List Call) → IsBounded c (run c (genesis interval) calls)
run-IsBounded c interval calls =
    run_from-IsBounded c (genesis interval) calls (record { queue = omega arith; payloads = tt })

-- From the empty channel, after any calls: the nonces of the accepted messages of a source are
-- 0, 1, 2, … up to the stored nonce, and those of the messages handed over are the first of them.
pub run-IsInOrder :
    (c : Config) (interval source : ℕ) (calls : List Call)
    → let s = run c (genesis interval) calls in
      let handed_over = nonces_from source (committed_messages s.events) in
      (nonces_from source (committed_messages s.events ++ s.message_queue)
        ≡ count_from 0 (nonce_of s source))
      × (handed_over ≡ count_from 0 (length handed_over))
run-IsInOrder c interval source calls =
    let s = run c (genesis interval) calls in
    let h = run_from-IsInOrder c (genesis interval) calls (λ j. refl) source in
    (
      h,
      count_from-prefix 0 (nonce_of s source) (nonces_from source (committed_messages s.events))
          (nonces_from source s.message_queue)
          (sym (nonces_from-append source (committed_messages s.events) s.message_queue) ∙ h),
    )
