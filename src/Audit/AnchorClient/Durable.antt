-- ===== src/Audit/AnchorClient/Durable.antt =====
-- What a commit has waited for when it returns, and that it returns.
use agentct.Base.{
  ℕ, zero, suc, ◌+◌, ◌≤◌, ◌<◌, Text, or_else, find?, true, false, Option, Option-cases, none, some,
  List, ◌≡◌, ◌≢◌, refl, sym, ap, ◌∙◌, ◌⊎◌, inl, inr, arith, Bool-cases,
}
use mathlib.Core.Path.{subst}
use agentct.X402.Chains.{ChainConfig, get_chain}
use agentct.Audit.AnchorClient.{
  ConfirmationTag, AnchorClientConfig, BatchCommitted, Receipt, Rpc, Awaited, ended, timed_out,
  waiting, CommitResult, committed, in_progress, timeout, settles, poll_until, is_latest,
  await_durable, is_mine, own_event, after_wait, after_receipt, after_write, on_chain, has_key,
  commit,
}

module _ (cfg : AnchorClientConfig) (rpc : Rpc) where
  poll_until-ends :
      (fuel : ℕ) (tag : ConfirmationTag) (start limit block k : ℕ)
      → ((j : ℕ) → start + j ≤ rpc.clock j)
      → limit + 1 < fuel + k
      → 0 < fuel
      → poll_until cfg rpc fuel tag (start + limit) block k ≢ waiting
  unfolding poll_until
  poll_until-ends zero tag start limit block k pace enough some_fuel = absurd (omega arith)
  poll_until-ends (suc zero) tag start limit block k pace enough some_fuel = ground (arith, pace k)
  poll_until-ends (suc (suc fuel)) tag start limit block k pace enough some_fuel = ground (
    arith,
    pace k,
    poll_until-ends (suc fuel) tag start limit block (k + 1) pace (omega arith) (omega arith),
  )

  -- In `n` rounds from the k-th on, no poll settled and the clock did not pass the deadline.
  abbrev pub Unsettled : ConfirmationTag → (deadline block : ℕ) → (n k : ℕ) → Type 0
  Unsettled tag deadline block zero k = Unit
  Unsettled tag deadline block (suc n) k =
      (settles block (rpc.poll tag k) ≡ false)
      × (rpc.clock k ≤ deadline)
      × Unsettled tag deadline block n (k + 1)

  poll_until-ended :
      (fuel : ℕ) (tag : ConfirmationTag) (deadline block k polls : ℕ)
      → poll_until cfg rpc fuel tag deadline block k ≡ ended polls
      → (n : ℕ) × (polls ≡ k + n + 1)
        × (settles block (rpc.poll tag (k + n)) ≡ true)
        × Unsettled tag deadline block n k
  unfolding poll_until
  poll_until-ended zero tag deadline block k polls h = cc
  poll_until-ended (suc fuel) tag deadline block k polls h =
      elim (Bool-cases (settles block (rpc.poll tag k))) [
        | inl good ↦
            let e : ended (k + 1) ≡ ended polls = rw good at h in
            let made : k + 1 ≡ polls = cc in
            let here : k ≡ k + 0 = omega arith in
            (
              zero,
              omega (arith, made),
              subst (λ (m : ℕ). settles block (rpc.poll tag m) ≡ true) here good,
              tt,
            )
        | inr bad ↦
            let next : poll_until cfg rpc fuel tag deadline block (k + 1) ≡ ended polls =
              ground arith in
            let early : rpc.clock k ≤ deadline = ground arith in
            let (n, made, good, before) =
              poll_until-ended fuel tag deadline block (k + 1) polls next in
            let there : k + 1 + n ≡ k + suc n = omega arith in
            (
              suc n,
              omega (arith, made),
              subst (λ (m : ℕ). settles block (rpc.poll tag m) ≡ true) there good,
              (bad, early, before),
            )
      ]

  abbrev pub tag_of : ConfirmationTag
  tag_of = or_else cfg.confirmation_tag ConfirmationTag.safe

  -- What the wait for a block did, if it ended well: none where the durability tag is latest; else the
  -- last poll that it made showed the block at or below the tag, or failed, every poll before it showed
  -- neither, and after each of these the timeout was not over.
  abbrev pub Waited : (fuel start block : ℕ) → Type 0
  Waited fuel start block =
      ((is_latest tag_of ≡ true) × (await_durable cfg rpc fuel start block ≡ ended 0))
      ⊎ ((j : ℕ) × (await_durable cfg rpc fuel start block ≡ ended (j + 1))
          × (settles block (rpc.poll tag_of j) ≡ true)
          × Unsettled tag_of (start + timeout cfg) block j 0)

  await_durable-Waited :
      (fuel start block polls : ℕ)
      → await_durable cfg rpc fuel start block ≡ ended polls
      → Waited fuel start block
  unfolding await_durable
  await_durable-Waited fuel start block polls h = elim (Bool-cases (is_latest tag_of)) [
    | inl now ↦ inl (now, rw now refl)
    | inr later ↦
        let (j, made, good, before) =
          poll_until-ended fuel tag_of (start + timeout cfg) block 0 polls (rw later at h) in
        let count : polls ≡ j + 1 = omega (arith, made) in
        let index : 0 + j ≡ j = omega arith in
        inr (
          j,
          h ∙ ap ended count,
          subst (λ (m : ℕ). settles block (rpc.poll tag_of m) ≡ true) index good,
          before,
        )
  ]

  -- What a commit that comes through has done.
  pub record Durably (fuel start : ℕ) (prev_root root : Text) (count : ℕ) (r : CommitResult)
      : Type 0 where
    pub receipt : Receipt
    pub event : BatchCommitted
    pub written : rpc.write prev_root root count ≡ some r.tx_hash
    pub mined : rpc.receipt r.tx_hash ≡ some receipt
    pub first : find? (is_mine cfg rpc) receipt.events ≡ some event
    pub indexed : r.batch_index ≡ event.batch_index
    pub rooted : r.root ≡ root
    pub waited : Waited fuel start receipt.block_number

  after_wait-committed :
      (tx root : Text) (events : List BatchCommitted) (w : Awaited) {r : CommitResult}
      → after_wait cfg rpc tx root events w ≡ committed r
      → ((polls : ℕ) × (w ≡ ended polls))
        × ((e : BatchCommitted) × (find? (is_mine cfg rpc) events ≡ some e)
            × (r ≡ record { tx_hash = tx; batch_index = e.batch_index; root = root }))
  unfolding after_wait own_event
  after_wait-committed tx root events (ended polls) {r} h =
      elim (Option-cases (find? (is_mine cfg rpc) events)) [
        | inl e ↦ ground arith
        | inr (e, found) ↦ ((polls, refl), (e, found, ground arith))
      ]
  after_wait-committed tx root events timed_out h = cc
  after_wait-committed tx root events waiting h = cc

  after_receipt-Durably :
      (fuel start : ℕ) (prev_root root tx : Text) (count : ℕ) (o : Option Receipt)
      {r : CommitResult}
      → rpc.write prev_root root count ≡ some tx
      → rpc.receipt tx ≡ o
      → after_receipt cfg rpc fuel start tx root o ≡ committed r
      → Durably fuel start prev_root root count r
  unfolding after_receipt
  after_receipt-Durably fuel start prev_root root tx count none w m h = cc
  after_receipt-Durably fuel start prev_root root tx count (some receipt) {r} w m h =
      let wait = await_durable cfg rpc fuel start receipt.block_number in
      let ((polls, done), (event, found, made)) =
        after_wait-committed tx root receipt.events wait {r = r} h in
      let named : r.tx_hash ≡ tx = ap (λ (x : CommitResult). x.tx_hash) made in
      record {
        receipt = receipt;
        event = event;
        written = w ∙ ap some (sym named);
        mined = ap rpc.receipt named ∙ m;
        first = found;
        indexed = ap (λ (x : CommitResult). x.batch_index) made;
        rooted = ap (λ (x : CommitResult). x.root) made;
        waited = await_durable-Waited fuel start receipt.block_number polls done;
      }

  on_chain-Durably :
      (fuel start : ℕ) (prev_root root : Text) (count : ℕ) (c : Option ChainConfig)
      (o : Option Text) {r : CommitResult}
      → rpc.write prev_root root count ≡ o
      → on_chain cfg rpc fuel start prev_root root count c ≡ committed r
      → Durably fuel start prev_root root count r
  unfolding on_chain after_write
  on_chain-Durably fuel start prev_root root count none o w h = cc
  on_chain-Durably fuel start prev_root root count (some c) none w h = ground (arith, w)
  on_chain-Durably fuel start prev_root root count (some c) (some tx) {r} w h =
      after_receipt-Durably fuel start prev_root root tx count (rpc.receipt tx) {r = r} w refl
        (sym (ap (after_write cfg rpc fuel start root) w) ∙ h)

  -- A commit that comes through wrote the batch on top of the head that it was given, and its
  -- transaction was mined. The index that it returns is that of the receipt's first event of the
  -- configured contract, in any spelling of the address, and the root is the one it was given. Unless
  -- the durability tag is latest, where it does not wait, it ended its wait at the first poll that
  -- showed the block at or below the tag or that failed, and the timeout was not over after any poll
  -- before that one.
  pub commit-Durably :
      (fuel start : ℕ) (prev_root root : Text) (count : ℕ) (r : CommitResult)
      → commit cfg rpc fuel start prev_root root count ≡ committed r
      → Durably fuel start prev_root root count r
  unfolding commit
  commit-Durably fuel start prev_root root count r h =
      elim (Bool-cases (has_key cfg.committer_key)) [
        | inr absent ↦ ground arith
        | inl key ↦
            on_chain-Durably fuel start prev_root root count (get_chain cfg.chain)
              (rpc.write prev_root root count) refl (rw key at h)
      ]

  await_durable-ends :
      (start block : ℕ)
      → ((j : ℕ) → start + j ≤ rpc.clock j)
      → await_durable cfg rpc (timeout cfg + 2) start block ≢ waiting
  unfolding await_durable
  await_durable-ends start block pace =
      let ends =
        poll_until-ends (timeout cfg + 2) tag_of start (timeout cfg) block 0 pace (omega arith)
          (omega arith) in
      ground (arith, ends)

  after_wait-ends :
      (tx root : Text) (events : List BatchCommitted) (w : Awaited)
      → w ≢ waiting
      → after_wait cfg rpc tx root events w ≢ in_progress
  unfolding after_wait own_event
  after_wait-ends tx root events (ended polls) h = ground arith
  after_wait-ends tx root events timed_out h = cc
  after_wait-ends tx root events waiting h = absurd (h refl)

  after_receipt-ends :
      (start : ℕ) (tx root : Text) (o : Option Receipt)
      → ((j : ℕ) → start + j ≤ rpc.clock j)
      → after_receipt cfg rpc (timeout cfg + 2) start tx root o ≢ in_progress
  unfolding after_receipt
  after_receipt-ends start tx root none pace = cc
  after_receipt-ends start tx root (some receipt) pace =
      after_wait-ends tx root receipt.events
        (await_durable cfg rpc (timeout cfg + 2) start receipt.block_number)
        (await_durable-ends start receipt.block_number pace)

  on_chain-ends :
      (start : ℕ) (prev_root root : Text) (count : ℕ) (c : Option ChainConfig) (o : Option Text)
      → rpc.write prev_root root count ≡ o
      → ((j : ℕ) → start + j ≤ rpc.clock j)
      → on_chain cfg rpc (timeout cfg + 2) start prev_root root count c ≢ in_progress
  unfolding on_chain after_write
  on_chain-ends start prev_root root count none o w pace = cc
  on_chain-ends start prev_root root count (some c) none w pace = rw w (λ e. cc)
  on_chain-ends start prev_root root count (some c) (some tx) w pace =
      rw w (after_receipt-ends start tx root (rpc.receipt tx) pace)

  -- A commit returns or throws, whatever the chain answers: where each round of the wait takes at least
  -- a millisecond, the wait is over after as many rounds as the timeout has milliseconds and two more.
  pub commit-ends :
      (start : ℕ) (prev_root root : Text) (count : ℕ)
      → ((j : ℕ) → start + j ≤ rpc.clock j)
      → commit cfg rpc (timeout cfg + 2) start prev_root root count ≢ in_progress
  unfolding commit
  commit-ends start prev_root root count pace = elim (Bool-cases (has_key cfg.committer_key)) [
    | inr absent ↦ rw absent (λ e. cc)
    | inl key ↦ rw key (
        on_chain-ends start prev_root root count (get_chain cfg.chain)
          (rpc.write prev_root root count) refl pace)
  ]
