-- ===== src/Record/Decode.antt =====
-- crates/midgard-record/src/events.rs: `decode`, which looks at the kind of an event.
pub mod Coverage
pub mod Kinds
use midgard_rs.Common.{ℕ, Option, List, [], ◌∷◌, map, Result, ok, err, ◌>>=◌, if◌then◌else◌}
use midgard_rs.Common.Text.{Text, codes, text_eq, one_of, starts_with}
use midgard_rs.Chain.Types.{Event}
use midgard_rs.Record.Attributes.{DecodeError}
use midgard_rs.Record.Decoders.Network as Network
use midgard_rs.Record.Decoders.Pools as Pools
use midgard_rs.Record.Decoders.Transactions as Transactions
use midgard_rs.Record.Rows.{F64, Recorded}
use midgard_rs.Record.Rows as Rows

abbrev pub ignored_kinds : List Text
ignored_kinds =
    codes "tx"
    ∷ codes "message"
    ∷ codes "coin_spent"
    ∷ codes "coin_received"
    ∷ codes "coinbase"
    ∷ codes "burn"
    ∷ codes "mint"
    ∷ codes "tss_keygen"
    ∷ codes "tss_keysign"
    ∷ codes "create_client"
    ∷ codes "update_client"
    ∷ codes "connection_open_init"
    ∷ codes "store_code"
    ∷ codes "pin_code"
    ∷ codes "security"
    ∷ codes "execute"
    ∷ codes "instantiate"
    ∷ codes "reply"
    ∷ codes "wasm"
    ∷ codes "oracle_price"
    ∷ codes "approve_upgrade"
    ∷ codes "schedule_start"
    ∷ codes "schedule_add"
    ∷ codes "schedule_end"
    ∷ codes "limit_swap"
    ∷ codes "limit_swap_close"
    ∷ codes "rebond"
    ∷ codes "vault_over_solvency"
    ∷ codes "tcy_claim"
    ∷ codes "tcy_distribution"
    ∷ codes "tcy_stake"
    ∷ codes "tcy_unstake"
    ∷ codes "rune_pool_deposit"
    ∷ codes "rune_pool_withdraw"
    ∷ codes "affiliate_fee"
    ∷ codes "secured_asset_deposit"
    ∷ codes "secured_asset_withdraw"
    ∷ codes "trade_account_deposit"
    ∷ codes "trade_account_withdraw"
    ∷ codes "streaming_swap"
    ∷ codes "loan_open"
    ∷ codes "loan_repayment"
    ∷ codes "thorname"
    ∷ codes "tss_keygen_success"
    ∷ codes "tss_keygen_failure"
    ∷ codes "failed_refund"
    ∷ codes "pending_liquidity_slash"
    ∷ codes "set_ip_address"
    ∷ codes "set_node_keys"
    ∷ codes "set_version"
    ∷ codes "validator_request_leave"
    ∷ codes "new_node"
    ∷ codes "asgard_fund_yggdrasil"
    ∷ codes "slash_points"
    ∷ codes "set_node_mimir"
    ∷ codes "version"
    ∷ codes "scheduled_outbound"
    ∷ []

pub data Decoded : Type 0 where
  event : Recorded → Decoded
  events : List Recorded → Decoded
  ignored unknown : Decoded

abbrev pub one_row :
    {A : Type 0} → (A → Recorded) → Result DecodeError A → Result DecodeError Decoded
one_row row r = r >>= λ a. ok (event (row a))

abbrev pub all_rows : Result DecodeError (List Rows.Transfer) → Result DecodeError Decoded
all_rows r = r >>= λ ts. ok (events (map Rows.transfer ts))

-- The kinds that no arm of the match names.
unfoldable pub decode_other : Text → Decoded
decode_other kind =
    if one_of kind ignored_kinds
    then ignored
    else if starts_with kind (codes "wasm-")
    then ignored
    else unknown

-- The decoder of each kind; `parse_f64` is the standard library's parser of floats.
abbrev pub decoders : (Text → Option F64) → List (Text × (Event → Result DecodeError Decoded))
decoders parse_f64 =
    (codes "swap", λ e. one_row Rows.swap (Pools.swap e))
    ∷ (codes "add_liquidity", λ e. one_row Rows.stake (Pools.stake e))
    ∷ (codes "add", λ e. one_row Rows.stake (Pools.stake e))
    ∷ (codes "withdraw", λ e. one_row Rows.withdraw (Pools.withdraw parse_f64 e))
    ∷ (codes "pool", λ e. one_row Rows.pool (Pools.pool_status e))
    ∷ (codes "fee", λ e. one_row Rows.fee (Pools.fee e))
    ∷ (codes "gas", λ e. one_row Rows.gas (Pools.gas e))
    ∷ (codes "rewards", λ e. one_row Rows.rewards (Pools.rewards e))
    ∷ (codes "outbound", λ e. one_row Rows.outbound (Transactions.outbound e))
    ∷ (codes "refund", λ e. one_row Rows.refund (Transactions.refund e))
    ∷ (codes "donate", λ e. one_row Rows.add (Pools.donate e))
    ∷ (codes "transfer", λ e. all_rows (Transactions.transfer e))
    ∷ (codes "bond", λ e. one_row Rows.bond (Transactions.bond e))
    ∷ (codes "pending_liquidity", λ e. one_row Rows.pending_liquidity (Pools.pending_liquidity e))
    ∷ (codes "errata", λ e. one_row Rows.errata (Pools.errata e))
    ∷ (codes "set_mimir", λ e. one_row Rows.set_mimir (Network.set_mimir e))
    ∷ (codes "mint_burn", λ e. one_row Rows.mint_burn (Network.mint_burn e))
    ∷ (
      codes "pool_balance_change",
      λ e. one_row Rows.pool_balance_change (Pools.pool_balance_change e),
    )
    ∷ (codes "slash", λ e. one_row Rows.slash (Pools.slash e))
    ∷ (codes "switch", λ e. one_row Rows.switch (Transactions.switch e))
    ∷ (codes "ActiveVault", λ e. one_row Rows.active_vault (Network.vault e))
    ∷ (codes "InactiveVault", λ e. one_row Rows.inactive_vault (Network.vault e))
    ∷ (codes "UpdateNodeAccountStatus", λ e. one_row Rows.node_status (Network.node_status e))
    ∷ []

-- The match on a kind: the first arm that names it.
abbrev pub arm :
    Text → List (Text × (Event → Result DecodeError Decoded)) → Event → Result DecodeError Decoded
arm kind [] e = ok (decode_other kind)
arm kind ((k, f) ∷ rest) e = if text_eq kind k then f e else arm kind rest e

unfoldable pub decode : (Text → Option F64) → Event → Result DecodeError Decoded
decode parse_f64 e = arm e.kind (decoders parse_f64) e
