-- ===== src/Audit/AnchorClient.antt =====
-- AuditAnchorClient of packages/core/src/audit/anchor.ts. The chain, behind viem, is a parameter: what a
-- call reads, what a transaction comes to, and the answers to the polls of the durable head with the
-- readings of the clock behind them. `none` is a call that throws.
pub mod Durable
use agentct.Base.{
  ℕ, zero, suc, ◌+◌, ltb, leb, ◌==◌, Text, text_eq, lower, is_empty, or_else, find?, Bool, true,
  false, not, ◌&&◌, Option, none, some, List, [], ◌∷◌, map, if◌then◌else◌,
}
use agentct.X402.Chains.{ChainConfig, get_chain}
use agentct.Audit.Logger.{LeafContext, OnChainBatch}

pub data ConfirmationTag : Type 0 where
  latest safe finalized : ConfirmationTag

pub record AnchorClientConfig : Type 0 where
  pub chain : Text
  pub contract_address : Text
  pub committer_key : Option Text
  pub confirmation_tag : Option ConfirmationTag
  pub confirmation_timeout_ms : Option ℕ

-- An answer of `getBlock` for a tag: it throws, or gives the block's number, if it has one.
pub data Poll : Type 0 where
  failed : Poll
  at : Option ℕ → Poll

-- A BatchCommitted event among the logs of a receipt.
pub record BatchCommitted : Type 0 where
  pub address : Text
  pub batch_index : ℕ

pub record Receipt : Type 0 where
  pub block_number : ℕ
  pub events : List BatchCommitted

pub record Rpc : Type 0 where
  pub viem_chain_id : ChainConfig → ℕ
  pub address_of : Text → Text
  pub chain_id : Option ℕ
  pub head : Text → Option Text
  pub write : (prev_root root : Text) → ℕ → Option Text
  pub receipt : Text → Option Receipt
  -- the answer of the k-th poll, and the clock after it
  pub poll : ConfirmationTag → ℕ → Poll
  pub clock : ℕ → ℕ
  pub batch_count : Text → Option ℕ
  pub batch : Text → ℕ → Option OnChainBatch

-- How waiting ends, and behind how many polls where it ends well; `waiting` is a loop that still runs
-- when its fuel is used up.
pub data Awaited : Type 0 where
  ended : (polls : ℕ) → Awaited
  timed_out waiting : Awaited

pub record CommitResult : Type 0 where
  pub tx_hash : Text
  pub batch_index : ℕ
  pub root : Text

pub data Committed : Type 0 where
  threw in_progress : Committed
  committed : CommitResult → Committed

abbrev pub timeout : AnchorClientConfig → ℕ
timeout cfg = or_else cfg.confirmation_timeout_ms 900000

-- `block.number !== null && block.number >= blockNumber`, or the poll that fails, which the catch
-- takes for a chain without the tag.
unfoldable pub settles : ℕ → Poll → Bool
settles block failed = true
settles block (at none) = false
settles block (at (some n)) = leb block n

abbrev pub has_key : Option Text → Bool
has_key none = false
has_key (some key) = not (is_empty key)

abbrev pub is_latest : ConfirmationTag → Bool
is_latest ConfirmationTag.latest = true
is_latest _ = false

module _ (cfg : AnchorClientConfig) (rpc : Rpc) where
  -- The loop from its k-th round on.
  unfoldable pub poll_until :
      (fuel : ℕ) → ConfirmationTag → (deadline block : ℕ) → (k : ℕ) → Awaited
  unfolding settles
  poll_until zero tag deadline block k = waiting
  poll_until (suc fuel) tag deadline block k =
      let again = poll_until fuel tag deadline block (k + 1) in
      if settles block (rpc.poll tag k)
      then ended (k + 1)
      else if ltb deadline (rpc.clock k)
      then timed_out
      else again

  -- `start` is the clock at the call.
  unfoldable pub await_durable : (fuel : ℕ) → (start block : ℕ) → Awaited
  unfolding poll_until
  await_durable fuel start block =
      let tag = or_else cfg.confirmation_tag ConfirmationTag.safe in
      if is_latest tag then ended 0 else poll_until fuel tag (start + timeout cfg) block 0

  abbrev pub is_mine : BatchCommitted → Bool
  is_mine e = text_eq (lower e.address) (lower cfg.contract_address)

  unfoldable pub own_event : Text → Text → Option BatchCommitted → Committed
  own_event tx root none = threw
  own_event tx root (some e) =
      committed (record { tx_hash = tx; batch_index = e.batch_index; root = root })

  unfoldable pub after_wait : Text → Text → List BatchCommitted → Awaited → Committed
  unfolding own_event
  after_wait tx root events (ended polls) = own_event tx root (find? is_mine events)
  after_wait tx root events timed_out = threw
  after_wait tx root events waiting = in_progress

  unfoldable pub after_receipt : (fuel start : ℕ) → (tx root : Text) → Option Receipt → Committed
  unfolding after_wait await_durable
  after_receipt fuel start tx root none = threw
  after_receipt fuel start tx root (some r) =
      after_wait tx root r.events (await_durable fuel start r.block_number)

  unfoldable pub after_write : (fuel start : ℕ) → Text → Option Text → Committed
  unfolding after_receipt
  after_write fuel start root none = threw
  after_write fuel start root (some tx) = after_receipt fuel start tx root (rpc.receipt tx)

  unfoldable pub on_chain :
      (fuel start : ℕ) → (prev_root root : Text) → ℕ → Option ChainConfig → Committed
  unfolding after_write
  on_chain fuel start prev_root root count none = threw
  on_chain fuel start prev_root root count (some chain) =
      after_write fuel start root (rpc.write prev_root root count)

  unfoldable pub commit : (fuel start : ℕ) → (prev_root root : Text) → ℕ → Committed
  unfolding on_chain
  commit fuel start prev_root root count =
      if has_key cfg.committer_key
      then on_chain fuel start prev_root root count (get_chain cfg.chain)
      else threw

  unfoldable pub operator_address : Option Text
  operator_address = elim cfg.committer_key [
    | none ↦ none
    | some key ↦ if is_empty key then none else some (rpc.address_of key)
  ]

  unfoldable pub leaf_context : Text → Option LeafContext
  leaf_context operator = elim (get_chain cfg.chain) [
    | none ↦ none
    | some chain ↦ some (record {
      chain_id = rpc.viem_chain_id chain;
      anchor = cfg.contract_address;
      operator = operator;
    })
  ]

  -- Whether the assertion passes.
  unfoldable pub assert_chain_id : Bool
  assert_chain_id = elim (get_chain cfg.chain) [
    | none ↦ false
    | some chain ↦ elim rpc.chain_id [
      | none ↦ false
      | some actual ↦ actual == rpc.viem_chain_id chain
    ]
  ]

  -- A read goes to the public client, which an unknown chain has not.
  abbrev pub read {ℓ} : {A : Type ℓ} → Option A → Option A
  read answer = elim (get_chain cfg.chain) [ none ↦ none | some chain ↦ answer ]

  unfoldable pub head : Text → Option Text
  head operator = read (rpc.head operator)

  unfoldable pub get_batch_count : Text → Option ℕ
  get_batch_count operator = read (rpc.batch_count operator)

  unfoldable pub get_batch : Text → ℕ → Option OnChainBatch
  get_batch operator index = read (rpc.batch operator index)

  abbrev pub pushed : Option OnChainBatch → Option (List OnChainBatch) → Option (List OnChainBatch)
  pushed none rest = none
  pushed (some b) none = none
  pushed (some b) (some bs) = some (b ∷ bs)

  -- The loop with `n` batches left, from index `i` on.
  unfoldable pub batches_from : Text → (n i : ℕ) → Option (List OnChainBatch)
  unfolding get_batch
  batches_from operator zero i = some []
  batches_from operator (suc n) i = pushed (get_batch operator i) (batches_from operator n (i + 1))

  unfoldable pub get_all_batches : Text → Option (List OnChainBatch)
  unfolding batches_from get_batch_count
  get_all_batches operator = elim (get_batch_count operator) [
    | none ↦ none
    | some n ↦ batches_from operator n 0
  ]
